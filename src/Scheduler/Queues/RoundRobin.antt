-- ===== src/Scheduler/Queues/RoundRobin.antt =====
-- Which session `_next_session` picks.
use livekit_hugging_voice.Base.{
  ◌≡◌, sym, ap, subst, ◌∙◌, ◌≢◌, inl, inr, true, Option, none, some, [], Bool-cases,
}
use livekit_hugging_voice.Text.{Text}
use livekit_hugging_voice.Scheduler.Queues.{
  Queues, waiting, sorted, index_of, after_last, next_session,
}
use livekit_hugging_voice.Scheduler.Queues.Waiting.{mem, AllDifferent, mem-sorted, sorted-Ascending}
use livekit_hugging_voice.Scheduler.Queues.Position.{
  Least, NextAfter, Indexed, index_of-Indexed, picks_next, Least-sorted, NextAfter-sorted,
  index_found, Absent, position-none, Absent-sorted, Ascending-Least, sorted-ne_nil,
}

module _ {J : Type 0} where
  -- The sessions wait under different names and the last one served is among them: the next is the
  -- first waiting session after it in the order of the names, or the first of all when none is.
  pub next_session-NextAfter :
      (l : Text) (q : Queues J)
      → AllDifferent (waiting q)
      → mem l (waiting q) ≡ true
      → (k : Text) × (next_session (some l) q ≡ some k)
        × (mem k (waiting q) ≡ true)
        × NextAfter l (waiting q) k
  unfolding next_session
  next_session-NextAfter l q d m =
      let ss = sorted (waiting q) in
      let a = sorted-Ascending (waiting q) d in
      let (i, e) =
        index_found l ss (index_of l ss) (mem-sorted l (waiting q) ∙ m) (index_of-Indexed l ss a) in
      let (k, picked, mk, next) =
        picks_next i l ss a (subst (Indexed l ss) e (index_of-Indexed l ss a)) in
      (
        k,
        ap (λ o. after_last o ss) e ∙ picked,
        sym (mem-sorted k (waiting q)) ∙ mk,
        NextAfter-sorted l (waiting q) k next,
      )

  -- The session that was served last waits no more, or there was none: the next is the first of all
  -- the waiting sessions in the order of the names, not the first one after it.
  pub next_session-Least :
      (last : Option Text) (q : Queues J)
      → AllDifferent (waiting q)
      → waiting q ≢ []
      → Absent last (waiting q)
      → (k : Text) × (next_session last q ≡ some k)
        × (mem k (waiting q) ≡ true)
        × Least (waiting q) k
  unfolding next_session
  next_session-Least last q d ne m =
      let ss = sorted (waiting q) in
      let a = sorted-Ascending (waiting q) d in
      let (k, at, mk, least) = Ascending-Least ss a (sorted-ne_nil (waiting q) ne) in
      (
        k,
        ap (λ o. after_last o ss) (position-none last ss a (Absent-sorted last (waiting q) m)) ∙ at,
        sym (mem-sorted k (waiting q)) ∙ mk,
        Least-sorted (waiting q) k least,
      )

  -- Some waiting session is picked, if any waits.
  pub next_session_total :
      (last : Option Text) (q : Queues J)
      → AllDifferent (waiting q)
      → waiting q ≢ []
      → (k : Text) × (next_session last q ≡ some k) × (mem k (waiting q) ≡ true)
  next_session_total none q d ne =
      let (k, e, m, least) = next_session-Least none q d ne tt in (k, e, m)
  next_session_total (some l) q d ne = elim (Bool-cases (mem l (waiting q))) [
    | inl h ↦ let (k, e, m, next) = next_session-NextAfter l q d h in (k, e, m)
    | inr h ↦ let (k, e, m, least) = next_session-Least (some l) q d ne h in (k, e, m)
  ]
