-- ===== src/Scheduler/Stt/Accounting.antt =====
-- No job is lost: after it is accepted it is queued, active, or its future is done, and a shutdown
-- leaves no future pending.
use livekit_hugging_voice.Base.{
  ℕ, ◌≡◌, refl, subst, inl, inr, Bool, true, false, ◌||◌, Option, none, some, List, [], ◌∷◌, arith,
  Bool-cases, Option-cases, eq_refl, ok,
}
use livekit_hugging_voice.Text.{Text}
use livekit_hugging_voice.Scheduler.Queues.{all_jobs, jobs_of}
use livekit_hugging_voice.Scheduler.Queues.Keys.{any, any_queued, any-all_jobs, any_queued-push}
use livekit_hugging_voice.Scheduler.Queues.Popped.{any_queued-without}
use livekit_hugging_voice.Scheduler.Futures.{
  Futures, cancelled, done, done-settle, has_id, cancel_each, done-cancel_each,
}
use livekit_hugging_voice.Scheduler.Stt.{
  SttJob, SttScheduler, Ran, Call, starts, submits_final, submits_partial, cancels, closes, stops,
  takes, finishes, start, id_of, submit_final, submit_partial, cancel_session, aclose,
  cancel_active, stop_worker, take, outcome_of, finish, after, unless_dropped, may_take, step, run,
}
use livekit_hugging_voice.Scheduler.Stt.Invariant.{IsSound, step-IsSound}
use livekit_hugging_voice.Scheduler.Stt.Priority.{take-Starts}

abbrev pub active_is : ℕ → Option SttJob → Bool
active_is i none = false
active_is i (some job) = has_id id_of i job

-- The future is done, or the job is queued, or it is the active one.
abbrev pub tracked : ℕ → SttScheduler → Bool
tracked i s =
    done i s.futures
    || any_queued (has_id id_of i) s.finals
    || any_queued (has_id id_of i) s.partials
    || active_is i s.active

done-cancel_active :
    (i : ℕ) (o : Option SttJob) (fs : Futures Text)
    → done i (cancel_active o fs) ≡ (active_is i o || done i fs)
done-cancel_active i none fs = refl
done-cancel_active i (some job) fs = done-settle job.job_id i cancelled fs

-- the futures after the jobs of two lists are cancelled
done-cancel_both :
    (i : ℕ) (finals partials : List SttJob) (fs : Futures Text)
    → done i (cancel_each id_of partials (cancel_each id_of finals fs))
      ≡ (any (has_id id_of i) partials || any (has_id id_of i) finals || done i fs)
done-cancel_both i finals partials fs = ground (
  arith,
  done-cancel_each id_of i partials (cancel_each id_of finals fs),
  done-cancel_each id_of i finals fs,
)

module _ (i : ℕ) where
  submit_final-tracked :
      (job : SttJob) (s : SttScheduler)
      → tracked i s ≡ true
      → tracked i (after s (submit_final job s)) ≡ true
  unfolding submit_final
  submit_final-tracked job s h = ground (
    arith,
    any_queued-push (has_id id_of i) job.session_id (record job { final = true }) s.finals,
  )

  submit_partial-tracked :
      (job : SttJob) (s : SttScheduler)
      → tracked i s ≡ true
      → tracked i (unless_dropped s (submit_partial job s)) ≡ true
  unfolding submit_partial
  submit_partial-tracked job s h = ground (
    arith,
    any_queued-push (has_id id_of i) job.session_id (record job { final = false }) s.partials,
  )

  cancel_session-tracked :
      (k : Text) (s : SttScheduler) → tracked i s ≡ true → tracked i (cancel_session k s) ≡ true
  unfolding cancel_session
  cancel_session-tracked k s h = ground (
    arith,
    done-cancel_both i (jobs_of k s.finals) (jobs_of k s.partials) s.futures,
    any_queued-without (has_id id_of i) k s.finals,
    any_queued-without (has_id id_of i) k s.partials,
  )

  aclose-tracked : (s : SttScheduler) → tracked i s ≡ true → tracked i (aclose s) ≡ true
  unfolding aclose
  aclose-tracked s h = ground (
    arith,
    done-cancel_both i (all_jobs s.finals) (all_jobs s.partials) s.futures,
    any-all_jobs (has_id id_of i) s.finals,
    any-all_jobs (has_id id_of i) s.partials,
  )

  stop_worker-tracked : (s : SttScheduler) → tracked i s ≡ true → tracked i (stop_worker s) ≡ true
  unfolding stop_worker
  stop_worker-tracked s h = ground (arith, done-cancel_active i s.active s.futures)

  finish-tracked :
      (ran : Ran) (s : SttScheduler) → tracked i s ≡ true → tracked i (finish ran s) ≡ true
  unfolding finish
  finish-tracked ran s h = elim (Option-cases s.active) [
    | inl e ↦ ground arith
    | inr (job, e) ↦ ground (arith, done-settle job.job_id i (outcome_of ran) s.futures)
  ]

  take-tracked :
      (s : SttScheduler)
      → IsSound s
      → may_take s ≡ true
      → tracked i s ≡ true
      → tracked i (take s) ≡ true
  take-tracked s v m h = elim (Bool-cases s.closed) [
    | inl e ↦ unfold take in simp e h
    | inr e ↦
        let (job, t) = take-Starts s v m e in
        ground (arith, t.now_active, t.same_futures, t.same_queued (has_id id_of i))
  ]

  step-tracked :
      (s : SttScheduler) (call : Call)
      → IsSound s
      → tracked i s ≡ true
      → tracked i (step s call) ≡ true
  unfolding step
  step-tracked s starts v h = unfold start in ground arith
  step-tracked s (submits_final job) v h = submit_final-tracked job s h
  step-tracked s (submits_partial job) v h = submit_partial-tracked job s h
  step-tracked s (cancels k) v h = cancel_session-tracked k s h
  step-tracked s closes v h = aclose-tracked s h
  step-tracked s stops v h = ground (arith, stop_worker-tracked s h)
  step-tracked s takes v h = elim (Bool-cases (may_take s)) [
    | inl e ↦ rw e (take-tracked s v e h)
    | inr e ↦ rw e h
  ]
  step-tracked s (finishes ran) v h = finish-tracked ran s h

  run-tracked :
      (s : SttScheduler) (calls : List Call)
      → IsSound s
      → tracked i s ≡ true
      → tracked i (run s calls) ≡ true
  unfolding run
  run-tracked s [] v h = h
  run-tracked s (call ∷ calls) v h =
      run-tracked (step s call) calls (step-IsSound s call v) (step-tracked s call v h)

  shutdown-done :
      (s : SttScheduler) → tracked i s ≡ true → done i (stop_worker (aclose s)).futures ≡ true
  unfolding stop_worker aclose
  shutdown-done s h = ground (
    arith,
    done-cancel_active i s.active
        (cancel_each id_of (all_jobs s.partials) (cancel_each id_of (all_jobs s.finals) s.futures)),
    done-cancel_both i (all_jobs s.finals) (all_jobs s.partials) s.futures,
    any-all_jobs (has_id id_of i) s.finals,
    any-all_jobs (has_id id_of i) s.partials,
  )

final_submitted-tracked :
    (job : SttJob) (s s' : SttScheduler) → submit_final job s ≡ ok s' → tracked job.job_id s' ≡ true
unfolding submit_final
final_submitted-tracked job s s' e = ground (
  arith,
  any_queued-push (has_id id_of job.job_id) job.session_id (record job { final = true }) s.finals,
  eq_refl job.job_id,
)

accepted-IsSound :
    (job : SttJob) (s s' : SttScheduler) → IsSound s → submit_final job s ≡ ok s' → IsSound s'
accepted-IsSound job s s' v e =
    subst (λ r. IsSound (after s r)) e (unfold step in step-IsSound s (submits_final job) v)

-- A final job that was accepted is never lost: after any further history its future is done, or the job
-- is still queued, or it is the active one.
pub submit_final-tracked_ever_after :
    (job : SttJob) (s s' : SttScheduler) (calls : List Call)
    → IsSound s
    → submit_final job s ≡ ok s'
    → tracked job.job_id (run s' calls) ≡ true
submit_final-tracked_ever_after job s s' calls v e =
    run-tracked job.job_id s' calls (accepted-IsSound job s s' v e)
      (final_submitted-tracked job s s' e)

-- After any history, a shutdown that runs to its end has settled the future of every final job that was
-- accepted: no caller of `submit_final` waits for ever.
pub shutdown-settles_finals :
    (job : SttJob) (s s' : SttScheduler) (calls : List Call)
    → IsSound s
    → submit_final job s ≡ ok s'
    → done job.job_id (stop_worker (aclose (run s' calls))).futures ≡ true
shutdown-settles_finals job s s' calls v e =
    shutdown-done job.job_id (run s' calls) (submit_final-tracked_ever_after job s s' calls v e)
