-- ===== src/Scheduler/Stt.antt =====
-- services/gpu-service/src/hugging_voice_service/schedulers/stt.py: final jobs before partial ones, one
-- worker. Each body of `async with self._condition` is one function, as is the part of the worker's
-- loop between two of them. The transcript that the runtime returns, with the answers of `is_stale`
-- around the call, is an argument of `finish`.
mod Tidy
mod Invariant
mod Priority
mod Accounting
mod Examples
use livekit_hugging_voice.Base.{
  ℕ, zero, suc, ◌+◌, ◌-◌, ◌*◌, ◌/◌, ◌%◌, ◌≤◌, ◌<◌, min, max, ◌≡◌, refl, sym, ap, subst, ◌∙◌, ◌≢◌,
  ◌↔◌, ◌⊎◌, inl, inr, Bool, true, false, not, ◌&&◌, ◌||◌, Option, none, some, List, [], ◌∷◌, ◌++◌,
  map, append-nil, append_assoc, arith, ltb, leb, ◌==◌, if◌then◌else◌, Bool-cases, Option-cases,
  ==_iff, eq_refl, length, get_elem?, drop, length-append, length-drop, length-take, drop-append,
  take-append, drop-drop, Result, ok, err, ◌>>=◌, Result-cases,
}
use livekit_hugging_voice.Base.Int.{ℤ}
use livekit_hugging_voice.Text.{Text, text_eq}
use livekit_hugging_voice.Scheduler.Queues
use livekit_hugging_voice.Scheduler.Queues.{Queues}
use livekit_hugging_voice.Scheduler.Futures.{
  Futures, Outcome, result, cancelled, failed, settle, cancel_each,
}

pub record SttJob : Type 0 where
  pub job_id : ℕ
  pub session_id : Text
  pub turn_id : Text
  pub turn_revision : ℤ
  pub audio : List ℕ
  pub final : Bool

pub data Fault : Type 0 where
  already_started scheduler_closed queue_full became_stale : Fault

-- `worker`: the task is there, ended or not; `running`: it has not ended.
pub record SttScheduler : Type 0 where
  pub max_jobs : ℕ
  pub finals : Queues SttJob
  pub partials : Queues SttJob
  pub worker : Bool
  pub running : Bool
  pub closed : Bool
  pub active : Option SttJob
  pub last_final_session : Option Text
  pub last_partial_session : Option Text
  pub futures : Futures Text

unfoldable pub init : ℕ → SttScheduler
init max_jobs = record {
  max_jobs = max_jobs;
  finals = [];
  partials = [];
  worker = false;
  running = false;
  closed = false;
  active = none;
  last_final_session = none;
  last_partial_session = none;
  futures = [];
}

unfoldable pub start : SttScheduler → Result Fault SttScheduler
start s = if s.worker then err already_started else ok (record s { worker = true; running = true })

abbrev pub queued_count : SttScheduler → ℕ
queued_count s = Queues.queued_count s.finals + Queues.queued_count s.partials

abbrev pub is_empty : {A : Type 0} → List A → Bool
is_empty [] = true
is_empty (x ∷ xs) = false

-- `any(queues.values())`
abbrev pub any_waiting : Queues SttJob → Bool
any_waiting q = not (is_empty (Queues.waiting q))

abbrev pub is_active : SttScheduler → Bool
is_active s = elim s.active [ none ↦ false | some job ↦ true ]

-- `submit_final`, up to the await of `_enqueue_and_wait`
unfoldable pub submit_final : SttJob → SttScheduler → Result Fault SttScheduler
submit_final job s =
    if s.closed
    then err scheduler_closed
    else if leb s.max_jobs (queued_count s)
    then err queue_full
    else ok
        (record s { finals = Queues.push job.session_id (record job { final = true }) s.finals })

-- What `submit_final` makes of the future's result.
unfoldable pub final_result : Option Text → Result Fault Text
final_result none = err became_stale
final_result (some transcript) = ok transcript

-- the five reasons to drop a partial job
unfoldable pub refuses_partial : SttJob → SttScheduler → Bool
unfolding Queues.waiting
refuses_partial job s =
    s.closed
    || is_active s
    || leb s.max_jobs (queued_count s)
    || any_waiting s.finals
    || not (is_empty (Queues.jobs_of job.session_id s.partials))

-- `submit_partial`, up to the await; `none` is the job dropped.
unfoldable pub submit_partial : SttJob → SttScheduler → Option SttScheduler
unfolding refuses_partial
submit_partial job s =
    if refuses_partial job s
    then none
    else some (record s {
      partials = Queues.push job.session_id (record job { final = false }) s.partials;
    })

abbrev pub id_of : SttJob → ℕ
id_of job = job.job_id

unfoldable pub cancel_session : Text → SttScheduler → SttScheduler
cancel_session session_id s = record s {
  finals = Queues.without session_id s.finals;
  partials = Queues.without session_id s.partials;
  futures =
      cancel_each id_of (Queues.jobs_of session_id s.partials)
        (cancel_each id_of (Queues.jobs_of session_id s.finals) s.futures);
}

-- what `wait_session_idle` waits for
unfoldable pub session_idle : Text → SttScheduler → Bool
session_idle session_id s =
    elim s.active [ none ↦ true | some job ↦ not (text_eq job.session_id session_id) ]
    && is_empty (Queues.jobs_of session_id s.finals)
    && is_empty (Queues.jobs_of session_id s.partials)

-- `aclose`, up to the cancellation of the worker
unfoldable pub aclose : SttScheduler → SttScheduler
aclose s = record s {
  closed = true;
  finals = [];
  partials = [];
  futures =
      cancel_each id_of (Queues.all_jobs s.partials)
        (cancel_each id_of (Queues.all_jobs s.finals) s.futures);
}

abbrev pub cancel_active : Option SttJob → Futures Text → Futures Text
cancel_active none fs = fs
cancel_active (some job) fs = settle job.job_id cancelled fs

-- The worker is cancelled, in a job or between two.
unfoldable pub stop_worker : SttScheduler → SttScheduler
stop_worker s = record s {
  worker = false;
  running = false;
  active = none;
  futures = cancel_active s.active s.futures;
}

unfoldable pub pop_final :
    Text → Option (SttJob × Queues SttJob) → SttScheduler → Option (SttJob × SttScheduler)
pop_final session none s = none
pop_final session (some (job, rest)) s =
    some (job, record s { finals = rest; last_final_session = some session })

unfoldable pub pop_partial :
    Text → Option (SttJob × Queues SttJob) → SttScheduler → Option (SttJob × SttScheduler)
pop_partial session none s = none
pop_partial session (some (job, rest)) s =
    some (job, record s { partials = rest; last_partial_session = some session })

-- `_next_job`; `none` is an exception
unfoldable pub next_job : SttScheduler → Option (SttJob × SttScheduler)
unfolding Queues.waiting pop_final pop_partial
next_job s =
    if any_waiting s.finals
    then elim (Queues.next_session s.last_final_session s.finals) [
      | none ↦ none
      | some session ↦ pop_final session (Queues.pop_left session s.finals) s
    ]
    else elim (Queues.next_session s.last_partial_session s.partials) [
      | none ↦ none
      | some session ↦ pop_partial session (Queues.pop_left session s.partials) s
    ]

abbrev pub start_job : Option (SttJob × SttScheduler) → SttScheduler → SttScheduler
start_job none s = record s { running = false }
start_job (some (job, s')) s = record s' { active = some job }

-- The first locked part of the worker's loop, once its wait is over.
unfoldable pub take : SttScheduler → SttScheduler
unfolding next_job
take s = if s.closed then record s { running = false } else start_job (next_job s) s

-- How a job ran: found stale before the runtime was called, or after the call returned or raised.
pub data Ran : Type 0 where
  found_stale : Ran
  returned : Text → (stale_after : Bool) → Ran
  raised : Ran

abbrev pub outcome_of : Ran → Outcome Text
outcome_of found_stale = result none
outcome_of (returned transcript true) = result none
outcome_of (returned transcript false) = result (some transcript)
outcome_of raised = failed

-- The rest of the loop's round, for the job that is active.
unfoldable pub finish : Ran → SttScheduler → SttScheduler
finish ran s = elim s.active [
  | none ↦ s
  | some job ↦ record s { futures = settle job.job_id (outcome_of ran) s.futures; active = none }
]

pub data Call : Type 0 where
  starts : Call
  submits_final submits_partial : SttJob → Call
  cancels : Text → Call
  closes : Call
  stops : Call
  takes : Call
  finishes : Ran → Call

abbrev pub after : SttScheduler → Result Fault SttScheduler → SttScheduler
after s (ok s') = s'
after s (err e) = s

abbrev pub unless_dropped : SttScheduler → Option SttScheduler → SttScheduler
unless_dropped s none = s
unless_dropped s (some s') = s'

-- the worker runs, is between two jobs, and its wait is over
abbrev pub may_take : SttScheduler → Bool
may_take s = s.running && not (is_active s) && (s.closed || ltb 0 (queued_count s))

unfoldable pub step : SttScheduler → Call → SttScheduler
step s starts = after s (start s)
step s (submits_final job) = after s (submit_final job s)
step s (submits_partial job) = unless_dropped s (submit_partial job s)
step s (cancels session_id) = cancel_session session_id s
step s closes = aclose s
step s stops = if s.closed then stop_worker s else s
step s takes = if may_take s then take s else s
step s (finishes ran) = finish ran s

unfoldable pub run : SttScheduler → List Call → SttScheduler
run s [] = s
run s (call ∷ calls) = run (step s call) calls
