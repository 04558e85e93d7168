-- ===== src/Scheduler/Tts.antt =====
-- services/gpu-service/src/hugging_voice_service/schedulers/tts.py: a pool of workers, at most one job of a
-- session at a time. Each body of `async with self._condition` is one function, as is the part of a
-- worker's loop between two of them. What the runtime streams for a job, with the answer of
-- `is_current` before each frame, is an argument of `finish`.
mod Keys
mod Rotation
mod Shape
mod Invariant
mod Choice
mod Taking
mod History
mod Examples
use livekit_hugging_voice.Base.{
  ℕ, zero, suc, ◌+◌, ◌-◌, ◌*◌, ◌/◌, ◌%◌, ◌≤◌, ◌<◌, min, max, ◌≡◌, refl, sym, ap, subst, ◌∙◌, ◌≢◌,
  ◌↔◌, ◌⊎◌, inl, inr, Bool, true, false, not, ◌&&◌, ◌||◌, Option, none, some, List, [], ◌∷◌, ◌++◌,
  map, append-nil, append_assoc, arith, ltb, leb, ◌==◌, if◌then◌else◌, Bool-cases, Option-cases,
  ==_iff, eq_refl, length, get_elem?, drop, length-append, length-drop, length-take, drop-append,
  take-append, drop-drop, Result, ok, err, ◌>>=◌, Result-cases,
}
use livekit_hugging_voice.Text.{Text, text_eq}
use livekit_hugging_voice.Cancellation.{GenerationToken, token_eq}
use livekit_hugging_voice.Scheduler.Queues
use livekit_hugging_voice.Scheduler.Queues.{Queues}
use livekit_hugging_voice.Scheduler.Queues.Waiting.{mem}
use livekit_hugging_voice.Scheduler.Futures.{
  Futures, Outcome, result, cancelled, failed, settle, cancel_each,
}

pub data TtsPriority : Type 0 where
  final_response filler_or_explicit_say : TtsPriority

pub record TtsJob : Type 0 where
  pub job_id : ℕ
  pub token : GenerationToken
  pub text : Text
  pub language : Text
  pub instructions : Text
  pub ref_audio : Option Text
  pub ref_text : Option Text
  pub priority : TtsPriority

pub data Fault : Type 0 where
  worker_count max_jobs_too_small already_started scheduler_closed queue_full : Fault

-- The last three are the gauges; `emitted` is what `on_frame` was called with.
pub record TtsScheduler : Type 0 where
  pub runtimes : ℕ
  pub max_jobs : ℕ
  pub queues : Queues TtsJob
  pub session_order : List Text
  pub active_sessions : List Text
  pub active : List (ℕ × TtsJob)
  pub started : Bool
  pub closed : Bool
  pub futures : Futures (Unit {0})
  pub emitted : List (ℕ × List ℕ)
  pub stale_chunks_dropped : ℕ
  pub tts_queue_depth : ℕ
  pub tts_sessions_waiting : ℕ
  pub tts_active_sessions : ℕ

abbrev pub session_of : TtsJob → Text
session_of job = job.token.session_id

abbrev pub id_of : TtsJob → ℕ
id_of job = job.job_id

abbrev pub is_empty : {A : Type 0} → List A → Bool
is_empty [] = true
is_empty (x ∷ xs) = false

-- `deque.remove`, `set.discard`
unfoldable pub discard : Text → List Text → List Text
discard k [] = []
discard k (s ∷ ss) = if text_eq s k then ss else s ∷ discard k ss

-- `set.add`
unfoldable pub add : Text → List Text → List Text
unfolding mem
add k ss = if mem k ss then ss else k ∷ ss

abbrev pub one_if : Bool → ℕ
one_if true = 1
one_if false = 0

-- the sessions with queued jobs and no active one
unfoldable pub sessions_waiting : List Text → Queues TtsJob → ℕ
unfolding mem
sessions_waiting busy [] = 0
sessions_waiting busy ((k, jobs) ∷ q) =
    one_if (not (mem k busy) && not (is_empty jobs)) + sessions_waiting busy q

-- `_refresh_queue_metrics`
unfoldable pub refresh : TtsScheduler → TtsScheduler
unfolding sessions_waiting
refresh s = record s {
  tts_queue_depth = Queues.queued_count s.queues;
  tts_sessions_waiting = sessions_waiting s.active_sessions s.queues;
  tts_active_sessions = length s.active_sessions;
}

unfoldable pub init : ℕ → ℕ → Result Fault TtsScheduler
init runtimes max_jobs =
    if not (leb 1 runtimes && leb runtimes 4)
    then err worker_count
    else if ltb max_jobs runtimes
    then err max_jobs_too_small
    else ok (record {
      runtimes = runtimes;
      max_jobs = max_jobs;
      queues = [];
      session_order = [];
      active_sessions = [];
      active = [];
      started = false;
      closed = false;
      futures = [];
      emitted = [];
      stale_chunks_dropped = 0;
      tts_queue_depth = 0;
      tts_sessions_waiting = 0;
      tts_active_sessions = 0;
    })

unfoldable pub start : TtsScheduler → Result Fault TtsScheduler
start s = if s.started then err already_started else ok (record s { started = true })

unfoldable pub job_count : TtsScheduler → ℕ
job_count s = Queues.queued_count s.queues + length s.active

abbrev pub has_key : {A : Type 0} → Option A → Bool
has_key none = false
has_key (some jobs) = true

-- the job in the deque of its session, which goes to the end of the order if it is new
unfoldable pub enqueue : TtsJob → TtsScheduler → TtsScheduler
enqueue job s =
    let session_id = session_of job in
    record s {
      queues = Queues.push session_id job s.queues;
      session_order =
          if has_key (Queues.get session_id s.queues)
          then s.session_order
          else s.session_order ++ session_id ∷ [];
    }

-- `synthesize`, up to the await
unfoldable pub synthesize : TtsJob → TtsScheduler → Result Fault TtsScheduler
unfolding job_count refresh enqueue
synthesize job s =
    if s.closed
    then err scheduler_closed
    else if leb s.max_jobs (job_count s)
    then err queue_full
    else ok (refresh (enqueue job s))

-- `_drop_session_queue`
unfoldable pub drop_session_queue : Text → TtsScheduler → TtsScheduler
unfolding discard
drop_session_queue session_id s = record s {
  queues = Queues.without session_id s.queues;
  session_order = discard session_id s.session_order;
}

-- the jobs of a generation, and the others
unfoldable pub of_generation : GenerationToken → List TtsJob → List TtsJob
of_generation token [] = []
of_generation token (job ∷ jobs) =
    if token_eq job.token token then job ∷ of_generation token jobs else of_generation token jobs

unfoldable pub retained : GenerationToken → List TtsJob → List TtsJob
retained token [] = []
retained token (job ∷ jobs) =
    if token_eq job.token token then retained token jobs else job ∷ retained token jobs

unfoldable pub keep_jobs : Text → List TtsJob → TtsScheduler → TtsScheduler
unfolding drop_session_queue
keep_jobs session_id jobs s =
    if is_empty jobs
    then drop_session_queue session_id s
    else record s { queues = Queues.put session_id jobs s.queues }

unfoldable pub drop_generation : GenerationToken → TtsScheduler → TtsScheduler
unfolding of_generation retained keep_jobs
drop_generation token s =
    let jobs = Queues.jobs_of token.session_id s.queues in
    record (keep_jobs token.session_id (retained token jobs) s) {
      futures = cancel_each id_of (of_generation token jobs) s.futures;
    }

unfoldable pub cancel_generation : GenerationToken → TtsScheduler → TtsScheduler
unfolding drop_generation refresh
cancel_generation token s = refresh (drop_generation token s)

-- what `wait_session_idle` waits for
unfoldable pub session_idle : Text → TtsScheduler → Bool
unfolding mem
session_idle session_id s =
    not (mem session_id s.active_sessions) && is_empty (Queues.jobs_of session_id s.queues)

unfoldable pub cancel_all : TtsScheduler → TtsScheduler
cancel_all s = record s {
  closed = true;
  futures = cancel_each id_of (Queues.all_jobs s.queues) s.futures;
  queues = [];
  session_order = [];
}

-- `aclose`, up to the cancellation of the workers
unfoldable pub aclose : TtsScheduler → TtsScheduler
unfolding refresh cancel_all
aclose s = if s.closed then s else refresh (cancel_all s)

-- a session that a worker may take from
abbrev pub is_runnable : List Text → Text → List TtsJob → Bool
is_runnable busy session_id jobs = not (is_empty jobs) && not (mem session_id busy)

unfoldable pub any_runnable : List Text → Queues TtsJob → Bool
unfolding mem
any_runnable busy [] = false
any_runnable busy ((k, jobs) ∷ q) = is_runnable busy k jobs || any_runnable busy q

-- `_has_runnable_job`
unfoldable pub has_runnable_job : TtsScheduler → Bool
unfolding any_runnable
has_runnable_job s = any_runnable s.active_sessions s.queues

abbrev pub same_priority : TtsPriority → TtsPriority → Bool
same_priority final_response final_response = true
same_priority filler_or_explicit_say filler_or_explicit_say = true
same_priority _ _ = false

-- the oldest job of the session with the others, if it may be taken at this priority
unfoldable pub ready_jobs :
    List Text → TtsPriority → Text → Option (List TtsJob) → Option (TtsJob × List TtsJob)
unfolding mem
ready_jobs busy p k none = none
ready_jobs busy p k (some []) = none
ready_jobs busy p k (some (job ∷ jobs)) =
    if not (mem k busy) && same_priority job.priority p then some (job, jobs) else none

-- What a scan of the order gives: the job with its session and the others of it, and the order then.
pub record Scan : Type 0 where
  pub found : Option (Text × TtsJob × List TtsJob)
  pub order : List Text

-- `for _ in range(count)`: the order is rotated before each test. An empty order, which would be an
-- IndexError, ends the scan.
unfoldable pub scan : List Text → TtsPriority → Queues TtsJob → ℕ → List Text → Scan
unfolding ready_jobs
scan busy p q zero order = record { found = none; order = order }
scan busy p q (suc n) [] = record { found = none; order = [] }
scan busy p q (suc n) (k ∷ ks) =
    let rest = scan busy p q n (ks ++ k ∷ []) in
    elim (ready_jobs busy p k (Queues.get k q)) [
      | none ↦ rest
      | some (job, jobs) ↦ record { found = some (k, job, jobs); order = ks ++ k ∷ [] }
    ]

unfoldable pub scan_all : TtsScheduler → TtsPriority → List Text → Scan
unfolding scan
scan_all s p order = scan s.active_sessions p s.queues (length order) order

unfoldable pub prefer : Scan → Scan → Scan
prefer finals fillers = elim finals.found [ none ↦ fillers | some x ↦ finals ]

-- `_next_job` scans for a final response, then for the rest; nothing found is its RuntimeError.
unfoldable pub next_scan : TtsScheduler → Scan
unfolding scan_all prefer
next_scan s =
    let finals = scan_all s final_response s.session_order in
    prefer finals (scan_all s filler_or_explicit_say finals.order)

-- A worker takes the job: the last part of `_next_job` with the rest of the locked part of the loop.
-- Without a job the exception ends the worker.
unfoldable pub make_active :
    ℕ → List Text → Text → TtsJob → List TtsJob → TtsScheduler → TtsScheduler
unfolding add
make_active worker_id order k job jobs s = record s {
  queues = Queues.put k jobs s.queues;
  session_order = order;
  active_sessions = add (session_of job) s.active_sessions;
  active = (worker_id, job) ∷ s.active;
}

unfoldable pub start_job : ℕ → Scan → TtsScheduler → TtsScheduler
unfolding refresh make_active
start_job worker_id found s = elim found.found [
  | none ↦ record s { session_order = found.order }
  | some (k, job, jobs) ↦ refresh (make_active worker_id found.order k job jobs s)
]

unfoldable pub take : ℕ → TtsScheduler → TtsScheduler
unfolding next_scan start_job
take worker_id s = if s.closed then s else start_job worker_id (next_scan s) s

-- How the runtime served a job: whether it was current at the start, the frames, each with whether the
-- job was current then, and whether an exception came after them.
pub record Ran : Type 0 where
  pub current : Bool
  pub frames : List (List ℕ × Bool)
  pub raises : Bool

-- the frames before the first stale one
unfoldable pub emits : List (List ℕ × Bool) → List (List ℕ)
emits [] = []
emits ((frame, current) ∷ frames) = let rest = emits frames in if current then frame ∷ rest else []

unfoldable pub all_current : List (List ℕ × Bool) → Bool
all_current [] = true
all_current ((frame, current) ∷ frames) = current && all_current frames

-- the future after `_execute_job`
unfoldable pub outcome_of : Ran → Outcome (Unit {0})
unfolding all_current
outcome_of ran = if ran.current && all_current ran.frames && ran.raises then failed else result none

abbrev pub labelled : ℕ → List (List ℕ) → List (ℕ × List ℕ)
labelled i [] = []
labelled i (frame ∷ frames) = (i, frame) ∷ labelled i frames

-- `_execute_job`
unfoldable pub execute_job : Ran → TtsJob → TtsScheduler → TtsScheduler
unfolding emits all_current outcome_of
execute_job ran job s = record s {
  emitted = s.emitted ++ (if ran.current then labelled job.job_id (emits ran.frames) else []);
  stale_chunks_dropped =
      s.stale_chunks_dropped + one_if (ran.current && not (all_current ran.frames));
  futures = settle job.job_id (outcome_of ran) s.futures;
}

unfoldable pub job_of_worker : ℕ → List (ℕ × TtsJob) → Option TtsJob
job_of_worker w [] = none
job_of_worker w ((v, job) ∷ jobs) = if v == w then some job else job_of_worker w jobs

-- `self._active.pop(worker_id, None)`
unfoldable pub without_worker : ℕ → List (ℕ × TtsJob) → List (ℕ × TtsJob)
without_worker w [] = []
without_worker w ((v, job) ∷ jobs) = if v == w then jobs else (v, job) ∷ without_worker w jobs

-- the `finally` of the worker's loop is the next three
unfoldable pub release_worker : ℕ → Text → TtsScheduler → TtsScheduler
unfolding without_worker discard
release_worker worker_id session_id s = record s {
  active = without_worker worker_id s.active;
  active_sessions = discard session_id s.active_sessions;
}

unfoldable pub drop_if_empty : Text → TtsScheduler → TtsScheduler
unfolding drop_session_queue
drop_if_empty session_id s =
    if is_empty (Queues.jobs_of session_id s.queues) then drop_session_queue session_id s else s

unfoldable pub leave_job : ℕ → Text → TtsScheduler → TtsScheduler
unfolding release_worker drop_if_empty refresh
leave_job worker_id session_id s =
    refresh (drop_if_empty session_id (release_worker worker_id session_id s))

unfoldable pub finish_job : ℕ → Ran → Option TtsJob → TtsScheduler → TtsScheduler
unfolding execute_job leave_job
finish_job worker_id ran none s = s
finish_job worker_id ran (some job) s = leave_job worker_id (session_of job) (execute_job ran job s)

unfoldable pub finish : ℕ → Ran → TtsScheduler → TtsScheduler
unfolding job_of_worker finish_job
finish worker_id ran s = finish_job worker_id ran (job_of_worker worker_id s.active) s

unfoldable pub stop_job : ℕ → Option TtsJob → TtsScheduler → TtsScheduler
unfolding leave_job
stop_job worker_id none s = s
stop_job worker_id (some job) s =
    leave_job worker_id (session_of job)
      (record s { futures = settle job.job_id cancelled s.futures })

-- A worker is cancelled, in a job or between two.
unfoldable pub stop_worker : ℕ → TtsScheduler → TtsScheduler
unfolding job_of_worker stop_job
stop_worker worker_id s = stop_job worker_id (job_of_worker worker_id s.active) s

pub data Call : Type 0 where
  starts : Call
  synthesizes : TtsJob → Call
  cancels : GenerationToken → Call
  closes : Call
  takes : ℕ → Call
  finishes : ℕ → Ran → Call
  stops : ℕ → Call

abbrev pub after : TtsScheduler → Result Fault TtsScheduler → TtsScheduler
after s (ok s') = s'
after s (err e) = s

-- the workers run, this one is between two jobs, and its wait is over
unfoldable pub may_take : ℕ → TtsScheduler → Bool
unfolding job_of_worker has_runnable_job
may_take worker_id s =
    s.started
    && ltb worker_id s.runtimes
    && not (has_key (job_of_worker worker_id s.active))
    && (s.closed || has_runnable_job s)

unfoldable pub step : TtsScheduler → Call → TtsScheduler
unfolding may_take
step s starts = after s (start s)
step s (synthesizes job) = after s (synthesize job s)
step s (cancels token) = cancel_generation token s
step s closes = aclose s
step s (takes worker_id) = if may_take worker_id s then take worker_id s else s
step s (finishes worker_id ran) = finish worker_id ran s
step s (stops worker_id) = if s.closed then stop_worker worker_id s else s

unfoldable pub run : TtsScheduler → List Call → TtsScheduler
run s [] = s
run s (call ∷ calls) = run (step s call) calls
