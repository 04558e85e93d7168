-- ===== src/Scheduler/Turn/Invariant.antt =====
-- What every history of the turn scheduler keeps, and what its worker takes.
use livekit_hugging_voice.Base.{
  ℕ, ◌≡◌, refl, ◌≢◌, inl, inr, true, false, some, List, [], ◌∷◌, arith, Bool-cases, ok,
}
use livekit_hugging_voice.Text.{Text}
use livekit_hugging_voice.Scheduler.Queues
use livekit_hugging_voice.Scheduler.Queues.{Queues}
use livekit_hugging_voice.Scheduler.Queues.Popped.{Popped}
use livekit_hugging_voice.Scheduler.Turn.{
  TurnJob, is_empty, TurnScheduler, Ran, init, submit, abandon, cancel_session, aclose, start_job,
  take, finish, Call, submits, abandons, cancels, closes, takes, finishes, after, between_jobs,
  step, run,
}
use livekit_hugging_voice.Scheduler.Turn.Tidy.{
  session_of, Tidy, without-Tidy, without_job-Tidy, push-Tidy, without_job-nil, without-nil,
  is_empty-nil, is_empty-cons, is_empty-false, next_job-eq,
}

pub record IsOrderly {R : Type 0} (s : TurnScheduler R) : Type 0 where
  pub tidy : Tidy s.max_jobs s.queues
  pub gauge : s.queue_depth ≡ Queues.queued_count s.queues
  -- a queued job has a worker that will take it
  pub worked : s.worker ≡ false → s.queues ≡ []

module _ {R : Type 0} where
  pub submit-IsOrderly :
      (job : TurnJob) (s : TurnScheduler R) → IsOrderly s → IsOrderly (after s (submit job s))
  unfolding submit
  submit-IsOrderly job s v = ground (arith, push-Tidy s.max_jobs job s.queues)

  abandon-IsOrderly :
      (job : TurnJob) (s : TurnScheduler R) → IsOrderly s → IsOrderly (abandon job s)
  unfolding abandon
  abandon-IsOrderly job s v = record {
    tidy =
        without_job-Tidy s.max_jobs job s.queues (Queues.get job.session_id s.queues) refl v.tidy;
    gauge = refl;
    worked = λ h. without_job-nil job s.queues (v.worked h);
  }

  cancel_session-IsOrderly :
      (k : Text) (s : TurnScheduler R) → IsOrderly s → IsOrderly (cancel_session k s)
  unfolding cancel_session
  cancel_session-IsOrderly k s v = record {
    tidy = without-Tidy s.max_jobs k s.queues v.tidy;
    gauge = refl;
    worked = λ h. without-nil k s.queues (v.worked h);
  }

  aclose-IsOrderly : (s : TurnScheduler R) → IsOrderly s → IsOrderly (aclose s)
  unfolding aclose Queues.queued_count
  aclose-IsOrderly s v = record { tidy = (tt, tt, omega arith); gauge = refl; worked = λ h. refl }

  take-IsOrderly : (s : TurnScheduler R) → s.worker ≡ true → IsOrderly s → IsOrderly (take s)
  unfolding take
  take-IsOrderly s w v = elim (Bool-cases (is_empty s.queues)) [
    | inl e ↦
        simp e (record { tidy = v.tidy; gauge = v.gauge; worked = λ h. is_empty-nil s.queues e })
    | inr e ↦
        let (k, job, rest, picked, h, at) = next_job-eq s v.tidy (is_empty-cons s.queues e) in
        simp e (
          rw (at, start_job)
            (record {
              tidy = (h.keyed, h.filled v.tidy.1, omega (arith, h.one_less, v.tidy.2));
              gauge = refl;
              worked = λ f. cc (f, w);
            }))
  ]

  finish-IsOrderly : (ran : Ran R) (s : TurnScheduler R) → IsOrderly s → IsOrderly (finish ran s)
  unfolding finish
  finish-IsOrderly ran s v = ground arith

  pub step-IsOrderly : (s : TurnScheduler R) (call : Call R) → IsOrderly s → IsOrderly (step s call)
  unfolding step
  step-IsOrderly s (submits job) v = submit-IsOrderly job s v
  step-IsOrderly s (abandons job) v = abandon-IsOrderly job s v
  step-IsOrderly s (cancels k) v = cancel_session-IsOrderly k s v
  step-IsOrderly s closes v = aclose-IsOrderly s v
  step-IsOrderly s takes v = elim (Bool-cases (between_jobs s)) [
    | inl e ↦ rw e (take-IsOrderly s (ground arith) v)
    | inr e ↦ rw e v
  ]
  step-IsOrderly s (finishes ran) v = finish-IsOrderly ran s v

  -- A scheduler is made with a positive limit only, and starts valid.
  pub init-IsOrderly : (n : ℕ) (s : TurnScheduler R) → init n ≡ ok s → IsOrderly s
  unfolding init Queues.queued_count
  init-IsOrderly n s e = ground arith

  -- Every history of calls keeps the queued jobs within the limit and under their own sessions, no
  -- deque empty, the gauge at their number, and a live worker as long as any job is queued.
  pub run-IsOrderly :
      (s : TurnScheduler R) (calls : List (Call R)) → IsOrderly s → IsOrderly (run s calls)
  unfolding run
  run-IsOrderly s [] v = v
  run-IsOrderly s (call ∷ calls) v = run-IsOrderly (step s call) calls (step-IsOrderly s call v)

  -- What the worker takes from a valid scheduler with queued jobs.
  pub record Serves (k : Text) (job : TurnJob) (s s' : TurnScheduler R) : Type 0 where
    pub chosen : Queues.next_session s.last_session s.queues ≡ some k
    pub popped : Popped session_of k s.queues job s'.queues
    pub now_active : s'.active ≡ some job
    pub remembered : s'.last_session ≡ some k
    pub still_working : s'.worker ≡ s.worker
    pub same_futures : s'.futures ≡ s.futures

  -- A valid scheduler with queued jobs never fails to pick one: the worker takes the oldest job of the
  -- session that the round robin chooses, and leaves the other sessions' queues as they were.
  pub take-Serves :
      (s : TurnScheduler R)
      → IsOrderly s
      → s.queues ≢ []
      → (k : Text) × (job : TurnJob) × Serves k job s (take s)
  unfolding take
  take-Serves s v ne =
      let (k, job, rest, picked, h, at) = next_job-eq s v.tidy ne in
      (
        k,
        job,
        simp (is_empty-false s.queues ne) (
            rw (at, start_job)
              (record {
                chosen = picked;
                popped = h;
                now_active = refl;
                remembered = refl;
                still_working = refl;
                same_futures = refl;
              })),
      )
