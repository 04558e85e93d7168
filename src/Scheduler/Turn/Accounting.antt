-- ===== src/Scheduler/Turn/Accounting.antt =====
-- No job is lost: after `submit` it is queued, active, or its future is done.
use livekit_hugging_voice.Base.{
  ℕ, ◌≡◌, refl, subst, inl, inr, Bool, true, false, ◌||◌, Option, none, some, List, [], ◌∷◌, arith,
  ◌==◌, Bool-cases, Option-cases, eq_refl, ok,
}
use livekit_hugging_voice.Text.{Text}
use livekit_hugging_voice.Scheduler.Queues
use livekit_hugging_voice.Scheduler.Queues.{Queues}
use livekit_hugging_voice.Scheduler.Queues.Keys.{any, any_queued, any-all_jobs, any_queued-push}
use livekit_hugging_voice.Scheduler.Queues.Popped.{any_queued-without}
use livekit_hugging_voice.Scheduler.Queues.Put.{any_queued-put, get-jobs_of}
use livekit_hugging_voice.Scheduler.Futures.{Futures, cancelled, done, settle, done-settle}
use livekit_hugging_voice.Scheduler.Turn.Invariant.{
  IsOrderly, submit-IsOrderly, step-IsOrderly, take-Serves,
}
use livekit_hugging_voice.Scheduler.Turn.{
  TurnJob, is_empty, cancel_all, remove_job, TurnScheduler, Ran, submit, without_job, abandon,
  cancel_session, aclose, outcome_of, take, finish, Call, submits, abandons, cancels, closes, takes,
  finishes, after, between_jobs, step, run,
}
use livekit_hugging_voice.Scheduler.Turn.Tidy.{is_empty-cons}

abbrev pub is_job : ℕ → TurnJob → Bool
is_job i job = job.job_id == i

abbrev pub active_is : ℕ → Option TurnJob → Bool
active_is i none = false
active_is i (some job) = is_job i job

-- The future is done, or the job is queued, or it is the active one.
abbrev pub accounted : {R : Type 0} → ℕ → TurnScheduler R → Bool
accounted i s = done i s.futures || any_queued (is_job i) s.queues || active_is i s.active

done-cancel_all :
    {R : Type 0} (i : ℕ) (jobs : List TurnJob) (fs : Futures R)
    → done i (cancel_all jobs fs) ≡ (any (is_job i) jobs || done i fs)
unfolding cancel_all
done-cancel_all i [] fs = refl
done-cancel_all i (job ∷ jobs) fs = ground (
  arith,
  done-cancel_all i jobs (settle job.job_id cancelled fs),
  done-settle job.job_id i cancelled fs,
)

-- a job that leaves the deque is the one that was removed
any-remove_job :
    (i j : ℕ) (jobs : List TurnJob)
    → any (is_job i) jobs ≡ true
    → (j == i || any (is_job i) (remove_job j jobs)) ≡ true
unfolding remove_job
any-remove_job i j [] h = cc
any-remove_job i j (job ∷ jobs) h = ground (arith, any-remove_job i j jobs)

is_empty-any :
    (p : TurnJob → Bool) (jobs : List TurnJob) → is_empty jobs ≡ true → any p jobs ≡ false
is_empty-any p [] h = refl
is_empty-any p (x ∷ jobs) h = cc

any_queued-without_job :
    (i : ℕ) (job : TurnJob) (q : Queues TurnJob) (o : Option (List TurnJob))
    → Queues.get job.session_id q ≡ o
    → any_queued (is_job i) q ≡ true
    → (job.job_id == i || any_queued (is_job i) (without_job job o q)) ≡ true
unfolding without_job
any_queued-without_job i job q none e h = ground arith
any_queued-without_job i job q (some jobs) e h =
    let left = remove_job job.job_id jobs in
    ground (
      arith,
      get-jobs_of job.session_id jobs q e,
      any-remove_job i job.job_id jobs,
      any_queued-without (is_job i) job.session_id q,
      any_queued-put (is_job i) job.session_id left q,
      is_empty-any (is_job i) left,
    )

module _ {R : Type 0} (i : ℕ) where
  submit-accounted :
      (job : TurnJob) (s : TurnScheduler R)
      → accounted i s ≡ true
      → accounted i (after s (submit job s)) ≡ true
  unfolding submit
  submit-accounted job s h = ground (arith, any_queued-push (is_job i) job.session_id job s.queues)

  abandon-accounted :
      (job : TurnJob) (s : TurnScheduler R)
      → accounted i s ≡ true
      → accounted i (abandon job s) ≡ true
  unfolding abandon
  abandon-accounted job s h = ground (
    arith,
    done-settle job.job_id i cancelled s.futures,
    any_queued-without_job i job s.queues (Queues.get job.session_id s.queues) refl,
  )

  cancel_session-accounted :
      (k : Text) (s : TurnScheduler R)
      → accounted i s ≡ true
      → accounted i (cancel_session k s) ≡ true
  unfolding cancel_session
  cancel_session-accounted k s h = ground (
    arith,
    done-cancel_all i (Queues.jobs_of k s.queues) s.futures,
    any_queued-without (is_job i) k s.queues,
  )

  aclose-accounted : (s : TurnScheduler R) → accounted i s ≡ true → accounted i (aclose s) ≡ true
  unfolding aclose
  aclose-accounted s h = ground (
    arith,
    done-cancel_all i (Queues.all_jobs s.queues) s.futures,
    any-all_jobs (is_job i) s.queues,
  )

  finish-accounted :
      (ran : Ran R) (s : TurnScheduler R) → accounted i s ≡ true → accounted i (finish ran s) ≡ true
  unfolding finish
  finish-accounted ran s h = elim (Option-cases s.active) [
    | inl e ↦ ground arith
    | inr (job, e) ↦ ground (arith, done-settle job.job_id i (outcome_of ran) s.futures)
  ]

  take-accounted :
      (s : TurnScheduler R)
      → IsOrderly s
      → s.active ≡ none
      → accounted i s ≡ true
      → accounted i (take s) ≡ true
  take-accounted s v free h = elim (Bool-cases (is_empty s.queues)) [
    | inl e ↦ unfold take in simp e h
    | inr e ↦
        let (k, job, t) = take-Serves s v (is_empty-cons s.queues e) in
        ground (arith, t.now_active, t.same_futures, t.popped.same_jobs (is_job i))
  ]

  step-accounted :
      (s : TurnScheduler R) (call : Call R)
      → IsOrderly s
      → accounted i s ≡ true
      → accounted i (step s call) ≡ true
  unfolding step
  step-accounted s (submits job) v h = submit-accounted job s h
  step-accounted s (abandons job) v h = abandon-accounted job s h
  step-accounted s (cancels k) v h = cancel_session-accounted k s h
  step-accounted s closes v h = aclose-accounted s h
  step-accounted s takes v h = elim (Bool-cases (between_jobs s)) [
    | inl e ↦ rw e (take-accounted s v (ground arith) h)
    | inr e ↦ rw e h
  ]
  step-accounted s (finishes ran) v h = finish-accounted ran s h

  run-accounted :
      (s : TurnScheduler R) (calls : List (Call R))
      → IsOrderly s
      → accounted i s ≡ true
      → accounted i (run s calls) ≡ true
  unfolding run
  run-accounted s [] v h = h
  run-accounted s (call ∷ calls) v h =
      run-accounted (step s call) calls (step-IsOrderly s call v) (step-accounted s call v h)

submitted-accounted :
    {R : Type 0} (job : TurnJob) (s s' : TurnScheduler R)
    → submit job s ≡ ok s'
    → accounted job.job_id s' ≡ true
unfolding submit
submitted-accounted job s s' e =
    ground
      (arith, any_queued-push (is_job job.job_id) job.session_id job s.queues, eq_refl job.job_id)

-- A job that was accepted is never lost: after any further history its future is done, or the job is
-- still queued, or it is the active one.
pub submit-accounted_ever_after :
    {R : Type 0} (job : TurnJob) (s s' : TurnScheduler R) (calls : List (Call R))
    → IsOrderly s
    → submit job s ≡ ok s'
    → accounted job.job_id (run s' calls) ≡ true
submit-accounted_ever_after job s s' calls v e =
    run-accounted job.job_id s' calls
      (subst (λ r. IsOrderly (after s r)) e (submit-IsOrderly job s v))
      (submitted-accounted job s s' e)
