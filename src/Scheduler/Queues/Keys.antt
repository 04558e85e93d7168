-- ===== src/Scheduler/Queues/Keys.antt =====
-- A dict of deques that holds no empty deque: each key once, each job under its own session.
use livekit_hugging_voice.Base.{
  ◌+◌, ◌≤◌, ◌≡◌, refl, sym, ◌∙◌, inl, inr, Bool, false, ◌||◌, List, [], ◌∷◌, ◌++◌, arith,
  Bool-cases, length-append,
}
use livekit_hugging_voice.Text.{Text, text_eq, text_eq_iff}
use livekit_hugging_voice.Scheduler.Queues.{Queues, push, without, queued_count, all_jobs}

module _ {J : Type 0} where
  -- some job of the list passes the test
  abbrev pub any : (J → Bool) → List J → Bool
  any p [] = false
  any p (job ∷ jobs) = p job || any p jobs

  abbrev pub any_queued : (J → Bool) → Queues J → Bool
  any_queued p [] = false
  any_queued p ((k, jobs) ∷ q) = any p jobs || any_queued p q

  abbrev pub FreshKey : Text → Queues J → Type 0
  FreshKey k [] = Unit {0}
  FreshKey k ((j, jobs) ∷ q) = (text_eq j k ≡ false) × FreshKey k q

  pub any-append : (p : J → Bool) (xs ys : List J) → any p (xs ++ ys) ≡ (any p xs || any p ys)
  any-append p [] ys = refl
  any-append p (x ∷ xs) ys = ground (arith, any-append p xs ys)

  pub any_queued-push :
      (p : J → Bool) (k : Text) (job : J) (q : Queues J)
      → any_queued p (push k job q) ≡ (any_queued p q || p job)
  unfolding push
  any_queued-push p k job [] = ground arith
  any_queued-push p k job ((j, jobs) ∷ q) =
      ground (arith, any-append p jobs (job ∷ []), any_queued-push p k job q)

  pub queued_count-push :
      (k : Text) (job : J) (q : Queues J) → queued_count (push k job q) ≡ queued_count q + 1
  unfolding push queued_count
  queued_count-push k job [] = refl
  queued_count-push k job ((j, jobs) ∷ q) =
      ground (arith, length-append jobs (job ∷ []), queued_count-push k job q)

  pub queued_count-without-le :
      (k : Text) (q : Queues J) → queued_count (without k q) ≤ queued_count q
  unfolding without queued_count
  queued_count-without-le k [] = omega arith
  queued_count-without-le k ((j, jobs) ∷ q) = ground (arith, queued_count-without-le k q)

  pub any-all_jobs : (p : J → Bool) (q : Queues J) → any p (all_jobs q) ≡ any_queued p q
  unfolding all_jobs
  any-all_jobs p [] = refl
  any-all_jobs p ((k, jobs) ∷ q) = ground (arith, any-append p jobs (all_jobs q), any-all_jobs p q)

module _ {J : Type 0} (session_of : J → Text) where
  abbrev pub OwnedBy : Text → List J → Type 0
  OwnedBy k [] = Unit {0}
  OwnedBy k (job ∷ jobs) = (session_of job ≡ k) × OwnedBy k jobs

  -- each key is there once, with jobs of its own session
  abbrev pub Keyed : Queues J → Type 0
  Keyed [] = Unit {0}
  Keyed ((k, jobs) ∷ q) = OwnedBy k jobs × FreshKey k q × Keyed q

  OwnedBy-snoc :
      (k : Text) (jobs : List J) (job : J)
      → OwnedBy k jobs
      → session_of job ≡ k
      → OwnedBy k (jobs ++ job ∷ [])
  OwnedBy-snoc k [] job o e = (e, tt)
  OwnedBy-snoc k (j ∷ jobs) job o e = (o.0, OwnedBy-snoc k jobs job o.1 e)

  FreshKey-push :
      (i k : Text) (job : J) (q : Queues J)
      → text_eq k i ≡ false
      → FreshKey i q
      → FreshKey i (push k job q)
  unfolding push
  FreshKey-push i k job [] ne f = (ne, tt)
  FreshKey-push i k job ((j, jobs) ∷ q) ne f = ground (arith, FreshKey-push i k job q ne f.1)

  pub push-Keyed :
      (k : Text) (job : J) (q : Queues J) → session_of job ≡ k → Keyed q → Keyed (push k job q)
  unfolding push
  push-Keyed k job [] e w = ((e, tt), tt, tt)
  push-Keyed k job ((j, jobs) ∷ q) e w = elim (Bool-cases (text_eq j k)) [
    | inl h ↦ rw h (OwnedBy-snoc j jobs job w.0 (e ∙ sym ((text_eq_iff j k).0 h)), w.1, w.2)
    | inr h ↦ rw h (
      w.0,
      FreshKey-push j k job q (ground (arith, text_eq_iff k j, text_eq_iff j k)) w.1,
      push-Keyed k job q e w.2,
    )
  ]

  FreshKey-without : (i k : Text) (q : Queues J) → FreshKey i q → FreshKey i (without k q)
  unfolding without
  FreshKey-without i k [] f = tt
  FreshKey-without i k ((j, jobs) ∷ q) f = ground (arith, FreshKey-without i k q f.1)

  pub without-Keyed : (k : Text) (q : Queues J) → Keyed q → Keyed (without k q)
  unfolding without
  without-Keyed k [] w = tt
  without-Keyed k ((j, jobs) ∷ q) w =
      ground (arith, without-Keyed k q w.2, FreshKey-without j k q w.1)
