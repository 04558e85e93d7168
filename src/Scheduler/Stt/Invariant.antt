-- ===== src/Scheduler/Stt/Invariant.antt =====
-- What every history of the STT scheduler keeps.
use livekit_hugging_voice.Base.{
  ℕ, ◌≤◌, ◌≡◌, refl, ◌⊎◌, inl, inr, Bool, true, false, not, some, List, [], ◌∷◌, arith, ltb,
  Bool-cases,
}
use livekit_hugging_voice.Text.{Text}
use livekit_hugging_voice.Scheduler.Queues
use livekit_hugging_voice.Scheduler.Queues.{Queues, pop_left}
use livekit_hugging_voice.Scheduler.Queues.Keys.{
  any_queued, any_queued-push, queued_count-push, queued_count-without-le,
}
use livekit_hugging_voice.Scheduler.Queues.Popped.{any_queued-without}
use livekit_hugging_voice.Scheduler.Stt.{
  SttJob, SttScheduler, Call, starts, submits_final, submits_partial, cancels, closes, stops, takes,
  finishes, init, start, queued_count, any_waiting, submit_final, refuses_partial, submit_partial,
  cancel_session, aclose, stop_worker, pop_final, pop_partial, next_job, start_job, take, finish,
  after, unless_dropped, may_take, step, run,
}
use livekit_hugging_voice.Scheduler.Stt.Tidy.{
  Single, Tidy, push-Tidy, without-Tidy, push-Single, without-Single, pop_left-Single, Picked,
  picks, any_waiting-ne_nil, queued_count-any_waiting, any_waiting-nil,
}

abbrev pub is_final : SttJob → Bool
is_final job = job.final

abbrev pub is_partial : SttJob → Bool
is_partial job = not job.final

pub record IsSound (s : SttScheduler) : Type 0 where
  pub finals_tidy : Tidy s.finals
  pub partials_tidy : Tidy s.partials
  pub bounded : queued_count s ≤ s.max_jobs
  pub only_finals : any_queued is_partial s.finals ≡ false
  pub only_partials : any_queued is_final s.partials ≡ false
  pub one_partial_each : Single s.partials

-- What is next: a final job if any waits, else a partial one, by the round robin of its own queues.
pub record FinalNext (s : SttScheduler) : Type 0 where
  pub waits : any_waiting s.finals ≡ true
  pub pick : Picked s.last_final_session s.finals
  pub job_is :
      next_job s
      ≡ some (pick.job, record s { finals = pick.rest; last_final_session = some pick.session })

pub record PartialNext (s : SttScheduler) : Type 0 where
  pub no_final : any_waiting s.finals ≡ false
  pub pick : Picked s.last_partial_session s.partials
  pub job_is :
      next_job s
      ≡ some (pick.job, record s { partials = pick.rest; last_partial_session = some pick.session })

pub next_job-cases :
    (s : SttScheduler) → IsSound s → ltb 0 (queued_count s) ≡ true → FinalNext s ⊎ PartialNext s
unfolding next_job
next_job-cases s v busy = elim (Bool-cases (any_waiting s.finals)) [
  | inl h ↦
      let p = picks s.last_final_session s.finals v.finals_tidy (any_waiting-ne_nil s.finals h) in
      inl (record { waits = h; pick = p; job_is = rw (h, p.chosen) (rw (p.at, pop_final) refl) })
  | inr h ↦
      let some_partial =
        queued_count-any_waiting s.partials (ground (arith, any_waiting-nil s.finals h)) in
      let p =
        picks s.last_partial_session s.partials v.partials_tidy
          (any_waiting-ne_nil s.partials some_partial) in
      inr
        (record { no_final = h; pick = p; job_is = rw (h, p.chosen) (rw (p.at, pop_partial) refl) })
]

submit_final-IsSound :
    (job : SttJob) (s : SttScheduler) → IsSound s → IsSound (after s (submit_final job s))
unfolding submit_final
submit_final-IsSound job s v = ground (
  arith,
  push-Tidy (record job { final = true }) s.finals,
  queued_count-push job.session_id (record job { final = true }) s.finals,
  any_queued-push is_partial job.session_id (record job { final = true }) s.finals,
)

submit_partial-IsSound :
    (job : SttJob) (s : SttScheduler)
    → IsSound s
    → IsSound (unless_dropped s (submit_partial job s))
unfolding submit_partial refuses_partial
submit_partial-IsSound job s v = ground (
  arith,
  push-Tidy (record job { final = false }) s.partials,
  queued_count-push job.session_id (record job { final = false }) s.partials,
  any_queued-push is_final job.session_id (record job { final = false }) s.partials,
  push-Single job.session_id (record job { final = false }) s.partials,
)

cancel_session-IsSound : (k : Text) (s : SttScheduler) → IsSound s → IsSound (cancel_session k s)
unfolding cancel_session
cancel_session-IsSound k s v = record {
  finals_tidy = without-Tidy k s.finals v.finals_tidy;
  partials_tidy = without-Tidy k s.partials v.partials_tidy;
  bounded =
      omega (
        arith,
        queued_count-without-le k s.finals,
        queued_count-without-le k s.partials,
        v.bounded,
      );
  only_finals = ground (arith, any_queued-without is_partial k s.finals, v.only_finals);
  only_partials = ground (arith, any_queued-without is_final k s.partials, v.only_partials);
  one_partial_each = without-Single k s.partials v.one_partial_each;
}

aclose-IsSound : (s : SttScheduler) → IsSound s → IsSound (aclose s)
unfolding aclose Queues.queued_count
aclose-IsSound s v = record {
  finals_tidy = (tt, tt);
  partials_tidy = (tt, tt);
  bounded = omega arith;
  only_finals = refl;
  only_partials = refl;
  one_partial_each = tt;
}

final_taken-IsSound :
    (s : SttScheduler) → IsSound s → (n : FinalNext s) → IsSound (start_job (next_job s) s)
final_taken-IsSound s v n =
    let h = n.pick.popped in
    rw n.job_is (record {
      finals_tidy = (h.keyed, h.filled v.finals_tidy.1);
      partials_tidy = v.partials_tidy;
      bounded = omega (arith, h.one_less, v.bounded);
      only_finals = ground (arith, h.same_jobs is_partial, v.only_finals);
      only_partials = v.only_partials;
      one_partial_each = v.one_partial_each;
    })

partial_taken-IsSound :
    (s : SttScheduler) → IsSound s → (n : PartialNext s) → IsSound (start_job (next_job s) s)
partial_taken-IsSound s v n =
    let h = n.pick.popped in
    rw n.job_is (record {
      finals_tidy = v.finals_tidy;
      partials_tidy = (h.keyed, h.filled v.partials_tidy.1);
      bounded = omega (arith, h.one_less, v.bounded);
      only_finals = v.only_finals;
      only_partials = ground (arith, h.same_jobs is_final, v.only_partials);
      one_partial_each =
          pop_left-Single n.pick.session s.partials n.pick.job n.pick.rest n.pick.at
            v.one_partial_each;
    })

take-IsSound : (s : SttScheduler) → may_take s ≡ true → IsSound s → IsSound (take s)
unfolding take
take-IsSound s m v = elim (Bool-cases s.closed) [
  | inl e ↦ simp e (record {
    finals_tidy = v.finals_tidy;
    partials_tidy = v.partials_tidy;
    bounded = v.bounded;
    only_finals = v.only_finals;
    only_partials = v.only_partials;
    one_partial_each = v.one_partial_each;
  })
  | inr e ↦ simp e (elim (next_job-cases s v (ground arith)) [
    | inl n ↦ final_taken-IsSound s v n
    | inr n ↦ partial_taken-IsSound s v n
  ])
]

pub step-IsSound : (s : SttScheduler) (call : Call) → IsSound s → IsSound (step s call)
unfolding step
step-IsSound s starts v = unfold start in ground arith
step-IsSound s (submits_final job) v = submit_final-IsSound job s v
step-IsSound s (submits_partial job) v = submit_partial-IsSound job s v
step-IsSound s (cancels k) v = cancel_session-IsSound k s v
step-IsSound s closes v = aclose-IsSound s v
step-IsSound s stops v = unfold stop_worker in ground arith
step-IsSound s takes v = elim (Bool-cases (may_take s)) [
  | inl e ↦ rw e (take-IsSound s e v)
  | inr e ↦ rw e v
]
step-IsSound s (finishes ran) v = unfold finish in ground arith

pub init-IsSound : (n : ℕ) → IsSound (init n)
unfolding init Queues.queued_count
init-IsSound n = record {
  finals_tidy = (tt, tt);
  partials_tidy = (tt, tt);
  bounded = omega arith;
  only_finals = refl;
  only_partials = refl;
  one_partial_each = tt;
}

pub run-IsSound : (s : SttScheduler) (calls : List Call) → IsSound s → IsSound (run s calls)
unfolding run
run-IsSound s [] v = v
run-IsSound s (call ∷ calls) v = run-IsSound (step s call) calls (step-IsSound s call v)

-- Every history from a new scheduler keeps both kinds of jobs together within the limit and each under
-- its session, the final queues to final jobs, the partial queues to partial ones, at most one of a
-- session.
pub reachable-IsSound : (n : ℕ) (calls : List Call) → IsSound (run (init n) calls)
reachable-IsSound n calls = run-IsSound (init n) calls (init-IsSound n)
