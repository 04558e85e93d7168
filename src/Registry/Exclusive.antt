-- ===== src/Registry/Exclusive.antt =====
-- Every call of the registry keeps the slots of its live sessions apart.
use livekit_hugging_voice.Base.{
  ℕ, ◌≡◌, refl, sym, ap, subst, ◌∙◌, inl, inr, Bool, true, false, Option, none, some, List, [], ◌∷◌,
  arith, if◌then◌else◌, Bool-cases, get_elem?,
}
use livekit_hugging_voice.Text.{Text, text_eq, text_eq_iff}
use livekit_hugging_voice.Capacity
use livekit_hugging_voice.Capacity.{CapacityManager}
use livekit_hugging_voice.Registry.{
  draining, stuck, closed, SessionState, Release, SessionRegistry, lookup, set_lifecycle, init,
  create, begin_task, end_task, state_of, begin, end, Call, creates, releases, begins, ends, step,
  run,
}
use livekit_hugging_voice.Registry.Slots.{
  Busy, begin-Busy, complete-Busy_ne, complete-Busy_stuck, lookup-remove, lookup-insert,
  set_lifecycle_self,
}
use livekit_hugging_voice.Registry.Ownership.{
  is_live, is_open, Serves, IsExclusive, with_slot-IsExclusive,
}
use livekit_hugging_voice.Registry.Live.{
  release-IsExclusive, open-live, same_state_of, was-Live, apart_after, Serves-set,
}

begun-IsExclusive :
    (k : Text) (now : ℕ) (task : Release) (s : SessionState) (r : SessionRegistry)
    → lookup k r.releases ≡ some task
    → get_elem? r.states task.state ≡ some s
    → s.session_id ≡ k
    → is_open s.lifecycle ≡ true
    → IsExclusive r
    → IsExclusive (begin_task k now (some task) (some s) r)
unfolding begin_task
begun-IsExclusive k now task s r at there sid open_ v = record {
  held = λ n t lt.
      let (t', live, slot, which) = was-Live r task.state n draining s t there open_ lt.0 lt.1 in
      begin-Busy t.slot s.slot now r.capacity
        (subst (Busy r.capacity) (sym slot) (v.held n t' live));
  apart = apart_after r task.state draining s v there open_;
  tasks = λ j task' found.
      let put = lookup-insert j k (record task { begun = true }) r.releases in
      elim (Bool-cases (text_eq k j)) [
        | inl same ↦
            let is : record task { begun = true } ≡ task' = ground (arith, found, put) in
            subst (Serves j (set_lifecycle task.state draining r.states)) is (
              record s { lifecycle = draining },
              set_lifecycle_self task.state draining r.states s there,
              sid ∙ (text_eq_iff k j).0 same,
              refl,
            )
        | inr differs ↦
            Serves-set j task.state draining r.states task' (inl refl)
              (v.tasks j task' (ground (arith, found, put)))
      ];
}

ended-IsExclusive :
    (k : Text) (drained : Bool) (now : ℕ) (task : Release) (s : SessionState) (r : SessionRegistry)
    → lookup k r.releases ≡ some task
    → get_elem? r.states task.state ≡ some s
    → s.session_id ≡ k
    → is_open s.lifecycle ≡ true
    → IsExclusive r
    → IsExclusive (end_task k drained now (some task) (some s) r)
unfolding end_task
ended-IsExclusive k drained now task s r at there sid open_ v =
    let l = if drained then closed else stuck in
    record {
      held = λ n t lt.
          let (t', live, slot, which) = was-Live r task.state n l s t there open_ lt.0 lt.1 in
          let before : Busy r.capacity t.slot =
            subst (Busy r.capacity) (sym slot) (v.held n t' live) in
          elim which [
            | inl (p, same, alive) ↦
                let own : t.slot ≡ s.slot = slot ∙ ap (λ (u : SessionState). u.slot) same in
                still_stuck t.slot own alive before
            | inr ne ↦
                complete-Busy_ne t.slot s.slot drained now r.capacity
                  (λ p. ne (
                    v.apart task.state n s t' (there, open-live s.lifecycle open_) live (p ∙ slot)))
                  before
          ];
      apart = apart_after r task.state l s v there open_;
      tasks = λ j task' found.
          let popped = lookup-remove j k r.releases in
          elim (Bool-cases (text_eq k j)) [
            | inl same ↦ absurd (ground (arith, found, popped))
            | inr differs ↦
                let (s', there', sid', open') = v.tasks j task' (ground (arith, found, popped)) in
                Serves-set j task.state l r.states task'
                  (inr (λ p. ground (
                    arith,
                    differs,
                    text_eq_iff k j,
                    sym sid
                        ∙ ap (λ (u : SessionState). u.session_id)
                            (same_state_of r.states task'.state s s'
                              (ap (get_elem? r.states) (sym p) ∙ there) there')
                        ∙ sid',
                  )))
                  (s', there', sid', open')
          ];
    }
  where
    still_stuck :
        (i : ℕ)
        → i ≡ s.slot
        → is_live (if drained then closed else stuck) ≡ true
        → Busy r.capacity i
        → Busy (Capacity.complete_release s.slot drained now r.capacity) i
    still_stuck i own alive b = elim (Bool-cases drained) [
      | inl d ↦ absurd (ground (arith, d, alive))
      | inr d ↦
          subst (λ e. Busy (Capacity.complete_release s.slot e now r.capacity) i) (sym d)
            (subst (λ j. Busy (Capacity.complete_release j false now r.capacity) i) own
              (complete-Busy_stuck i now r.capacity b))
    ]

task_step :
    (k : Text) (r : SessionRegistry) (o : Option Release)
    (f : Option Release → Option SessionState → SessionRegistry)
    → lookup k r.releases ≡ o
    → IsExclusive r
    → ((x : Option SessionState) → IsExclusive (f none x))
    → ((task : Release) (s : SessionState)
        → o ≡ some task
        → get_elem? r.states task.state ≡ some s
        → s.session_id ≡ k
        → is_open s.lifecycle ≡ true
        → IsExclusive (f (some task) (some s)))
    → IsExclusive (f o (state_of r o))
task_step k r none f at v idle busy = idle none
task_step k r (some task) f at v idle busy =
    let (s, there, sid, open_) = v.tasks k task at in
    subst (λ x. IsExclusive (f (some task) x)) (sym there) (busy task s refl there sid open_)

begin-IsExclusive :
    (k : Text) (now : ℕ) (r : SessionRegistry) → IsExclusive r → IsExclusive (begin k now r)
unfolding begin
begin-IsExclusive k now r v =
    let moved =
      task_step k r (lookup k r.releases) (λ o x. begin_task k now o x r) refl v
        (λ x. unfold begin_task in v)
        (λ task s at there sid open_. begun-IsExclusive k now task s r at there sid open_ v) in
    ground (arith, moved)

end-IsExclusive :
    (k : Text) (drained : Bool) (now : ℕ) (r : SessionRegistry)
    → IsExclusive r
    → IsExclusive (end k drained now r)
unfolding end
end-IsExclusive k drained now r v =
    let moved =
      task_step k r (lookup k r.releases) (λ o x. end_task k drained now o x r) refl v
        (λ x. unfold end_task in v)
        (λ task s at there sid open_.
          ended-IsExclusive k drained now task s r at there sid open_ v) in
    ground (arith, moved)

step-IsExclusive : (r : SessionRegistry) (call : Call) → IsExclusive r → IsExclusive (step r call)
unfolding step create
step-IsExclusive r (creates k now vad_ok) v =
    with_slot-IsExclusive k now vad_ok (Capacity.claim k now r.capacity) r refl v
step-IsExclusive r (releases n) v = release-IsExclusive n r v
step-IsExclusive r (begins k now) v = begin-IsExclusive k now r v
step-IsExclusive r (ends k drained now) v = end-IsExclusive k drained now r v

run-IsExclusive :
    (r : SessionRegistry) (calls : List Call) → IsExclusive r → IsExclusive (run r calls)
unfolding run
run-IsExclusive r [] v = v
run-IsExclusive r (call ∷ calls) v = run-IsExclusive (step r call) calls (step-IsExclusive r call v)

-- After every history of a new registry, over any slots: no two sessions that are not closed have the same
-- slot, the slot of such a session is not idle, and each release task has a session that is active or
-- draining.
pub init-run-IsExclusive :
    (capacity : CapacityManager) (calls : List Call) → IsExclusive (run (init capacity) calls)
unfolding init lookup
init-run-IsExclusive capacity calls = run-IsExclusive (init capacity) calls (record {
  held = λ n s l. absurd (cc l.0);
  apart = λ n m s u l h e. absurd (cc l.0);
  tasks = λ k t e. absurd (cc e);
})
