-- ===== src/Scheduler/Tts/History.antt =====
-- Histories of the TTS scheduler.
use livekit_hugging_voice.Base.{
  ℕ, ◌≤◌, ◌≡◌, sym, ap, subst, ◌∙◌, inl, inr, true, some, List, [], ◌∷◌, arith, ◌==◌, Bool-cases,
  Option-cases, length, ok,
}
use livekit_hugging_voice.Text.{text_eq_iff, text_eq_refl}
use livekit_hugging_voice.Scheduler.Queues
use livekit_hugging_voice.Scheduler.Queues.{Queues, get, jobs_of}
use livekit_hugging_voice.Scheduler.Queues.Waiting.{mem, AllDifferent}
use livekit_hugging_voice.Scheduler.Queues.Keys.{queued_count-without-le}
use livekit_hugging_voice.Scheduler.Futures.{Futures, settle, cancelled}
use livekit_hugging_voice.Scheduler.Tts.{
  TtsJob, TtsScheduler, Ran, Call, starts, synthesizes, cancels, closes, takes, finishes, stops,
  session_of, is_empty, discard, sessions_waiting, init, start, job_count, drop_session_queue,
  execute_job, job_of_worker, without_worker, release_worker, drop_if_empty, leave_job, finish_job,
  finish, stop_job, stop_worker, may_take, step, run,
}
use livekit_hugging_voice.Scheduler.Tts.Keys.{mem-discard, discard-AllDifferent}
use livekit_hugging_voice.Scheduler.Tts.Shape.{empty-Shape, drop-Shape, leave-Shape}
use livekit_hugging_voice.Scheduler.Tts.Invariant.{
  sessions, IsRegular, IsCoherent, refresh-IsCoherent, synthesize-IsCoherent,
  cancel_generation-IsCoherent, aclose-IsCoherent,
}
use livekit_hugging_voice.Scheduler.Tts.Taking.{take-IsCoherent}

mem-sessions :
    (w : ℕ) (active : List (ℕ × TtsJob)) (job : TtsJob)
    → job_of_worker w active ≡ some job
    → mem (session_of job) (sessions active) ≡ true
unfolding job_of_worker mem
mem-sessions w [] job e = cc
mem-sessions w ((v, j) ∷ active) job e =
    ground (arith, mem-sessions w active job, text_eq_refl (session_of j))

sessions-without_worker :
    (w : ℕ) (active : List (ℕ × TtsJob)) (job : TtsJob)
    → job_of_worker w active ≡ some job
    → AllDifferent (sessions active)
    → discard (session_of job) (sessions active) ≡ sessions (without_worker w active)
unfolding job_of_worker without_worker discard
sessions-without_worker w [] job e d = cc
sessions-without_worker w ((v, j) ∷ active) job e d = elim (Bool-cases (v == w)) [
  | inl h ↦ ground (arith, text_eq_refl (session_of j), text_eq_refl (session_of job))
  | inr h ↦ ground (
    arith,
    mem-sessions w active job,
    sessions-without_worker w active job (ground arith) d.1,
    text_eq_iff (session_of j) (session_of job),
    d.0,
  )
]

length-without_worker :
    (w : ℕ) (active : List (ℕ × TtsJob)) → length (without_worker w active) ≤ length active
unfolding without_worker
length-without_worker w [] = omega arith
length-without_worker w ((v, j) ∷ active) = ground (arith, length-without_worker w active)

leave-IsRegular :
    (w : ℕ) (job : TtsJob) (s : TtsScheduler)
    → job_of_worker w s.active ≡ some job
    → IsRegular s
    → IsRegular (drop_if_empty (session_of job) (release_worker w (session_of job) s))
unfolding drop_if_empty release_worker drop_session_queue job_count
leave-IsRegular w job s at v =
    let k = session_of job in
    let are : discard k s.active_sessions ≡ sessions (without_worker w s.active) =
      ap (discard k) v.busy_are
      ∙ sessions-without_worker w s.active job at (subst AllDifferent v.busy_are v.busy_once) in
    let once = discard-AllDifferent k s.active_sessions v.busy_once in
    elim (Bool-cases (is_empty (jobs_of k s.queues))) [
      | inl e ↦ rw e (record {
        shape =
            drop-Shape k s.queues s.session_order s.active_sessions (discard k s.active_sessions)
              v.shape (λ i ne. ground (arith, mem-discard i k s.active_sessions v.busy_once));
        busy_are = are;
        busy_once = once;
        bounded = omega (
          arith,
          v.bounded,
          queued_count-without-le k s.queues,
          length-without_worker w s.active,
        );
      })
      | inr e ↦ rw e (record {
        shape = leave-Shape k s.queues s.session_order s.active_sessions v.shape v.busy_once e;
        busy_are = are;
        busy_once = once;
        bounded = omega (arith, v.bounded, length-without_worker w s.active);
      })
    ]

leave_job-IsCoherent :
    (w : ℕ) (job : TtsJob) (s : TtsScheduler)
    → job_of_worker w s.active ≡ some job
    → IsRegular s
    → IsCoherent (leave_job w (session_of job) s)
unfolding leave_job
leave_job-IsCoherent w job s at v =
    refresh-IsCoherent (drop_if_empty (session_of job) (release_worker w (session_of job) s))
      (leave-IsRegular w job s at v)

execute_job-IsRegular :
    (ran : Ran) (job : TtsJob) (s : TtsScheduler) → IsRegular s → IsRegular (execute_job ran job s)
unfolding execute_job job_count
execute_job-IsRegular ran job s v = record {
  shape = v.shape;
  busy_are = v.busy_are;
  busy_once = v.busy_once;
  bounded = v.bounded;
}

futures-IsRegular :
    (fs : Futures (Unit {0})) (s : TtsScheduler)
    → IsRegular s
    → IsRegular (record s { futures = fs })
unfolding job_count
futures-IsRegular fs s v = record {
  shape = v.shape;
  busy_are = v.busy_are;
  busy_once = v.busy_once;
  bounded = v.bounded;
}

finish-IsCoherent :
    (w : ℕ) (ran : Ran) (s : TtsScheduler) → IsCoherent s → IsCoherent (finish w ran s)
unfolding finish
finish-IsCoherent w ran s v = elim (Option-cases (job_of_worker w s.active)) [
  | inl e ↦ subst (λ o. IsCoherent (finish_job w ran o s)) (sym e) (unfold finish_job in v)
  | inr (job, e) ↦
      subst (λ o. IsCoherent (finish_job w ran o s)) (sym e)
        (unfold finish_job in
          (leave_job-IsCoherent w job (execute_job ran job s) (unfold execute_job in e)
            (execute_job-IsRegular ran job s v.regular)))
]

stop_worker-IsCoherent : (w : ℕ) (s : TtsScheduler) → IsCoherent s → IsCoherent (stop_worker w s)
unfolding stop_worker
stop_worker-IsCoherent w s v = elim (Option-cases (job_of_worker w s.active)) [
  | inl e ↦ subst (λ o. IsCoherent (stop_job w o s)) (sym e) (unfold stop_job in v)
  | inr (job, e) ↦
      let fs = settle job.job_id cancelled s.futures in
      subst (λ o. IsCoherent (stop_job w o s)) (sym e)
        (unfold stop_job in
          (leave_job-IsCoherent w job (record s { futures = fs }) e
            (futures-IsRegular fs s v.regular)))
]

start-IsCoherent : (s : TtsScheduler) → IsCoherent s → IsCoherent (step s starts)
unfolding step start job_count
start-IsCoherent s v = ground arith

pub step-IsCoherent : (s : TtsScheduler) (call : Call) → IsCoherent s → IsCoherent (step s call)
step-IsCoherent s starts v = start-IsCoherent s v
step-IsCoherent s (synthesizes job) v = unfold step in synthesize-IsCoherent job s v
step-IsCoherent s (cancels token) v = unfold step in cancel_generation-IsCoherent token s v
step-IsCoherent s closes v = unfold step in aclose-IsCoherent s v
step-IsCoherent s (takes w) v = elim (Bool-cases (may_take w s)) [
  | inl e ↦ unfold step in rw e (take-IsCoherent w s e v)
  | inr e ↦ unfold step in rw e v
]
step-IsCoherent s (finishes w ran) v = unfold step in finish-IsCoherent w ran s v
step-IsCoherent s (stops w) v = unfold step in ground (arith, stop_worker-IsCoherent w s v)

-- A scheduler is only made with 1 to 4 runtimes and a limit that is not below their number, and starts
-- coherent.
pub init-IsCoherent : (n m : ℕ) (s : TtsScheduler) → init n m ≡ ok s → IsCoherent s
unfolding init job_count sessions_waiting Queues.queued_count
init-IsCoherent n m s e = ground (arith, empty-Shape [])

-- Every history of a coherent scheduler keeps it so: at most one job of a session is active and the busy
-- sessions are those of the active jobs, the order has each session with a queue once, a queue without
-- jobs is of a busy session, queued and active jobs together are within the limit, and the gauges are
-- right.
pub run-IsCoherent :
    (s : TtsScheduler) (calls : List Call) → IsCoherent s → IsCoherent (run s calls)
unfolding run
run-IsCoherent s [] v = v
run-IsCoherent s (call ∷ calls) v = run-IsCoherent (step s call) calls (step-IsCoherent s call v)
