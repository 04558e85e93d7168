-- ===== src/Scheduler/Turn.antt =====
-- services/gpu-service/src/hugging_voice_service/schedulers/turn.py. Each body of
-- `async with self._condition` is one function, as is the part of the worker's loop between two of
-- them; the schedule is a list of calls. A job object is named by a number; `R` is what the runtime
-- returns, and its call, with the answers of `is_stale` around it, is an argument of `finish`.
mod Tidy
mod Invariant
mod Accounting
mod Starvation
mod Examples
use livekit_hugging_voice.Base.{
  ℕ, zero, suc, ◌+◌, ◌-◌, ◌*◌, ◌/◌, ◌%◌, ◌≤◌, ◌<◌, min, max, ◌≡◌, refl, sym, ap, subst, ◌∙◌, ◌≢◌,
  ◌↔◌, ◌⊎◌, inl, inr, Bool, true, false, not, ◌&&◌, ◌||◌, Option, none, some, List, [], ◌∷◌, ◌++◌,
  map, append-nil, append_assoc, arith, ltb, leb, ◌==◌, if◌then◌else◌, Bool-cases, Option-cases,
  ==_iff, eq_refl, length, get_elem?, drop, length-append, length-drop, length-take, drop-append,
  take-append, drop-drop, Result, ok, err, ◌>>=◌, Result-cases,
}
use livekit_hugging_voice.Base.Int.{ℤ}
use livekit_hugging_voice.Text.{Text, text_eq}
use livekit_hugging_voice.Scheduler.Queues
use livekit_hugging_voice.Scheduler.Queues.{Queues}
use livekit_hugging_voice.Scheduler.Futures.{Futures, Outcome, result, cancelled, failed, settle}

pub record TurnJob : Type 0 where
  pub job_id : ℕ
  pub session_id : Text
  pub turn_id : Text
  pub turn_revision : ℤ
  pub candidate_id : ℕ
  pub audio : List ℕ

pub data Fault : Type 0 where
  no_capacity scheduler_closed queue_full : Fault

abbrev pub is_empty : {A : Type 0} → List A → Bool
is_empty [] = true
is_empty (x ∷ xs) = false

unfoldable pub cancel_all : {R : Type 0} → List TurnJob → Futures R → Futures R
cancel_all [] fs = fs
cancel_all (job ∷ jobs) fs = cancel_all jobs (settle job.job_id cancelled fs)

-- `del queue[index]` for the first entry that is the job itself
unfoldable pub remove_job : ℕ → List TurnJob → List TurnJob
remove_job i [] = []
remove_job i (job ∷ jobs) = if job.job_id == i then jobs else job ∷ remove_job i jobs

-- the queues without one job of a session
unfoldable pub without_job : TurnJob → Option (List TurnJob) → Queues TurnJob → Queues TurnJob
unfolding remove_job
without_job job none q = q
without_job job (some jobs) q =
    let left = remove_job job.job_id jobs in
    if is_empty left then Queues.without job.session_id q else Queues.put job.session_id left q

pub record TurnScheduler (R : Type 0) : Type 0 where
  pub max_jobs : ℕ
  pub queues : Queues TurnJob
  pub active : Option TurnJob
  pub last_session : Option Text
  pub worker : Bool
  pub closed : Bool
  pub futures : Futures R
  pub queue_depth : ℕ
  pub stale_results : ℕ

-- How a job ran: found stale before the runtime was called, or after the call returned or raised.
pub data Ran (R : Type 0) : Type 0 where
  found_stale : Ran R
  returned : R → (stale_after : Bool) → Ran R
  raised : Ran R

module _ {R : Type 0} where
  unfoldable pub init : ℕ → Result Fault (TurnScheduler R)
  init max_jobs =
      if ltb max_jobs 1
      then err no_capacity
      else ok (record {
        max_jobs = max_jobs;
        queues = [];
        active = none;
        last_session = none;
        worker = false;
        closed = false;
        futures = [];
        queue_depth = 0;
        stale_results = 0;
      })

  -- `self._queues = queues` and the gauge
  abbrev pub with_queues : Queues TurnJob → TurnScheduler R → TurnScheduler R
  with_queues q s = record s { queues = q; queue_depth = Queues.queued_count q }

  -- `submit`, up to the await
  unfoldable pub submit : TurnJob → TurnScheduler R → Result Fault (TurnScheduler R)
  submit job s =
      if s.closed
      then err scheduler_closed
      else if leb s.max_jobs (Queues.queued_count s.queues)
      then err queue_full
      else ok (record (with_queues (Queues.push job.session_id job s.queues) s) { worker = true })

  -- `submit`, cancelled at the await, which has cancelled the future
  unfoldable pub abandon : TurnJob → TurnScheduler R → TurnScheduler R
  unfolding without_job
  abandon job s =
      record (with_queues (without_job job (Queues.get job.session_id s.queues) s.queues) s) {
        futures = settle job.job_id cancelled s.futures;
      }

  unfoldable pub cancel_session : Text → TurnScheduler R → TurnScheduler R
  unfolding cancel_all
  cancel_session session_id s = record (with_queues (Queues.without session_id s.queues) s) {
    futures = cancel_all (Queues.jobs_of session_id s.queues) s.futures;
  }

  -- what `wait_session_idle` waits for
  unfoldable pub session_idle : Text → TurnScheduler R → Bool
  session_idle session_id s =
      elim (Queues.get session_id s.queues) [ none ↦ true | some jobs ↦ false ]
      && elim s.active [ none ↦ true | some job ↦ not (text_eq job.session_id session_id) ]

  -- `aclose`, up to the await of the worker
  unfoldable pub aclose : TurnScheduler R → TurnScheduler R
  unfolding cancel_all
  aclose s = record s {
    closed = true;
    futures = cancel_all (Queues.all_jobs s.queues) s.futures;
    queues = [];
    queue_depth = 0;
  }

  -- the job of `_next_job`, once its session is chosen
  unfoldable pub pop_job :
      Text
      → Option (TurnJob × Queues TurnJob)
      → TurnScheduler R
      → Option (TurnJob × TurnScheduler R)
  pop_job session none s = none
  pop_job session (some (job, rest)) s =
      some (job, record s { queues = rest; last_session = some session })

  -- `_next_job`; `none` is an exception
  unfoldable pub next_job : TurnScheduler R → Option (TurnJob × TurnScheduler R)
  unfolding pop_job
  next_job s = elim (Queues.next_session s.last_session s.queues) [
    | none ↦ none
    | some session ↦ pop_job session (Queues.pop_left session s.queues) s
  ]

  -- The first locked part of the worker's loop: it takes a job or ends, and an exception ends it.
  unfoldable pub start_job : Option (TurnJob × TurnScheduler R) → TurnScheduler R → TurnScheduler R
  start_job none s = record s { worker = false }
  start_job (some (job, s')) s = with_queues s'.queues (record s' { active = some job })

  unfoldable pub take : TurnScheduler R → TurnScheduler R
  unfolding start_job next_job
  take s = if is_empty s.queues then record s { worker = false } else start_job (next_job s) s

  abbrev pub outcome_of : Ran R → Outcome R
  outcome_of found_stale = result none
  outcome_of (returned r true) = result none
  outcome_of (returned r false) = result (some r)
  outcome_of raised = failed

  abbrev pub stale_of : Ran R → ℕ
  stale_of found_stale = 1
  stale_of (returned r true) = 1
  stale_of _ = 0

  -- The rest of the loop's round, for the job that is active.
  unfoldable pub finish : Ran R → TurnScheduler R → TurnScheduler R
  finish ran s = elim s.active [
    | none ↦ s
    | some job ↦ record s {
      futures = settle job.job_id (outcome_of ran) s.futures;
      active = none;
      stale_results = s.stale_results + stale_of ran;
    }
  ]

pub data Call (R : Type 0) : Type 0 where
  submits : TurnJob → Call R
  abandons : TurnJob → Call R
  cancels : Text → Call R
  closes : Call R
  takes : Call R
  finishes : Ran R → Call R

module _ {R : Type 0} where
  abbrev pub after : TurnScheduler R → Result Fault (TurnScheduler R) → TurnScheduler R
  after s (ok s') = s'
  after s (err e) = s

  -- the one worker runs, and is between two jobs
  abbrev pub between_jobs : TurnScheduler R → Bool
  between_jobs s = s.worker && elim s.active [ none ↦ true | some job ↦ false ]

  unfoldable pub step : TurnScheduler R → Call R → TurnScheduler R
  step s (submits job) = after s (submit job s)
  step s (abandons job) = abandon job s
  step s (cancels session_id) = cancel_session session_id s
  step s closes = aclose s
  step s takes = if between_jobs s then take s else s
  step s (finishes ran) = finish ran s

  unfoldable pub run : TurnScheduler R → List (Call R) → TurnScheduler R
  run s [] = s
  run s (call ∷ calls) = run (step s call) calls
