-- ===== src/Scheduler/Tts/Invariant.antt =====
-- What every history of the TTS scheduler keeps.
use livekit_hugging_voice.Base.{
  ℕ, suc, ◌≤◌, ◌≡◌, refl, ap, ◌∙◌, inl, inr, false, List, [], ◌∷◌, arith, leb, Bool-cases, length,
}
use livekit_hugging_voice.Text.{Text}
use livekit_hugging_voice.Cancellation.{GenerationToken}
use livekit_hugging_voice.Scheduler.Queues
use livekit_hugging_voice.Scheduler.Queues.{Queues, get, jobs_of}
use livekit_hugging_voice.Scheduler.Queues.Waiting.{AllDifferent}
use livekit_hugging_voice.Scheduler.Queues.Keys.{
  OwnedBy, queued_count-push, queued_count-without-le,
}
use livekit_hugging_voice.Scheduler.Queues.Put.{queued_count-put, jobs_of-OwnedBy}
use livekit_hugging_voice.Scheduler.Tts.{
  TtsJob, TtsScheduler, session_of, is_empty, sessions_waiting, refresh, job_count, enqueue,
  synthesize, drop_session_queue, retained, keep_jobs, drop_generation, cancel_generation,
  cancel_all, aclose, after,
}
use livekit_hugging_voice.Scheduler.Tts.Shape.{
  Shape, empty-Shape, push-Shape, put-Shape, drop-Shape, jobs_of-has_key,
}

-- the sessions of the active jobs
abbrev pub sessions : List (ℕ × TtsJob) → List Text
sessions [] = []
sessions ((w, job) ∷ jobs) = session_of job ∷ sessions jobs

-- without the gauges
pub record IsRegular (s : TtsScheduler) : Type 0 where
  pub shape : Shape s.queues s.session_order s.active_sessions
  pub busy_are : s.active_sessions ≡ sessions s.active
  pub busy_once : AllDifferent s.active_sessions
  pub bounded : job_count s ≤ s.max_jobs

pub record IsCoherent (s : TtsScheduler) : Type 0 where
  pub regular : IsRegular s
  pub queue_gauge : s.tts_queue_depth ≡ Queues.queued_count s.queues
  pub waiting_gauge : s.tts_sessions_waiting ≡ sessions_waiting s.active_sessions s.queues
  pub active_gauge : s.tts_active_sessions ≡ length s.active

length-sessions : (jobs : List (ℕ × TtsJob)) → length (sessions jobs) ≡ length jobs
length-sessions [] = refl
length-sessions (j ∷ jobs) = ap suc (length-sessions jobs)

pub refresh-IsCoherent : (s : TtsScheduler) → IsRegular s → IsCoherent (refresh s)
unfolding refresh job_count
refresh-IsCoherent s v = record {
  regular = record {
    shape = v.shape;
    busy_are = v.busy_are;
    busy_once = v.busy_once;
    bounded = v.bounded;
  };
  queue_gauge = refl;
  waiting_gauge = refl;
  active_gauge = ap (length {A = Text}) v.busy_are ∙ length-sessions s.active;
}

retained-OwnedBy :
    (k : Text) (token : GenerationToken) (jobs : List TtsJob)
    → OwnedBy session_of k jobs
    → OwnedBy session_of k (retained token jobs)
unfolding retained
retained-OwnedBy k token [] o = tt
retained-OwnedBy k token (job ∷ jobs) o = ground (arith, retained-OwnedBy k token jobs o.1)

length-retained :
    (token : GenerationToken) (jobs : List TtsJob) → length (retained token jobs) ≤ length jobs
unfolding retained
length-retained token [] = omega arith
length-retained token (job ∷ jobs) = ground (arith, length-retained token jobs)

is_empty-retained :
    (token : GenerationToken) (jobs : List TtsJob)
    → is_empty (retained token jobs) ≡ false
    → is_empty jobs ≡ false
unfolding retained
is_empty-retained token [] e = e
is_empty-retained token (job ∷ jobs) e = refl

enqueue-IsRegular :
    (job : TtsJob) (s : TtsScheduler)
    → leb s.max_jobs (job_count s) ≡ false
    → IsRegular s
    → IsRegular (enqueue job s)
unfolding enqueue job_count
enqueue-IsRegular job s room v = record {
  shape = push-Shape job s.queues s.session_order s.active_sessions v.shape;
  busy_are = v.busy_are;
  busy_once = v.busy_once;
  bounded = ground (arith, queued_count-push (session_of job) job s.queues);
}

pub synthesize-IsCoherent :
    (job : TtsJob) (s : TtsScheduler) → IsCoherent s → IsCoherent (after s (synthesize job s))
unfolding synthesize
synthesize-IsCoherent job s v = elim (Bool-cases (leb s.max_jobs (job_count s))) [
  | inl full ↦ ground arith
  | inr room ↦
      let made = refresh-IsCoherent (enqueue job s) (enqueue-IsRegular job s room v.regular) in
      ground (arith, made)
]

keep_jobs-IsRegular :
    (k : Text) (jobs : List TtsJob) (s : TtsScheduler)
    → OwnedBy session_of k jobs
    → length jobs ≤ length (jobs_of k s.queues)
    → IsRegular s
    → IsRegular (keep_jobs k jobs s)
unfolding keep_jobs drop_session_queue job_count
keep_jobs-IsRegular k jobs s o le v = elim (Bool-cases (is_empty jobs)) [
  | inl e ↦ simp e (record {
    shape =
        drop-Shape k s.queues s.session_order s.active_sessions s.active_sessions v.shape
          (λ i ne. refl);
    busy_are = v.busy_are;
    busy_once = v.busy_once;
    bounded = omega (arith, v.bounded, queued_count-without-le k s.queues);
  })
  | inr e ↦ simp e (record {
    shape =
        put-Shape k jobs s.queues s.session_order s.active_sessions o
          (jobs_of-has_key k s.queues (nonempty jobs (jobs_of k s.queues) e le))
          (λ nil. cc (e, ap (is_empty {A = TtsJob}) nil)) v.shape;
    busy_are = v.busy_are;
    busy_once = v.busy_once;
    bounded = omega (arith, v.bounded, queued_count-put k jobs s.queues, le);
  })
]
  where
    nonempty :
        (xs ys : List TtsJob) → is_empty xs ≡ false → length xs ≤ length ys → is_empty ys ≡ false
    nonempty [] ys e le = cc
    nonempty (x ∷ xs) [] e le = absurd (omega (arith, le))
    nonempty (x ∷ xs) (y ∷ ys) e le = refl

pub cancel_generation-IsCoherent :
    (token : GenerationToken) (s : TtsScheduler)
    → IsCoherent s
    → IsCoherent (cancel_generation token s)
unfolding cancel_generation drop_generation job_count
cancel_generation-IsCoherent token s v =
    let k = token.session_id in
    let r =
      keep_jobs-IsRegular k (retained token (jobs_of k s.queues)) s
        (retained-OwnedBy k token (jobs_of k s.queues)
          (jobs_of-OwnedBy session_of k s.queues v.regular.shape.keyed))
        (length-retained token (jobs_of k s.queues)) v.regular in
    refresh-IsCoherent (drop_generation token s) (record {
      shape = r.shape;
      busy_are = r.busy_are;
      busy_once = r.busy_once;
      bounded = r.bounded;
    })

cancel_all-IsRegular : (s : TtsScheduler) → IsRegular s → IsRegular (cancel_all s)
unfolding cancel_all job_count Queues.queued_count
cancel_all-IsRegular s v = record {
  shape = empty-Shape s.active_sessions;
  busy_are = v.busy_are;
  busy_once = v.busy_once;
  bounded = omega (arith, v.bounded);
}

pub aclose-IsCoherent : (s : TtsScheduler) → IsCoherent s → IsCoherent (aclose s)
unfolding aclose
aclose-IsCoherent s v =
    let made = refresh-IsCoherent (cancel_all s) (cancel_all-IsRegular s v.regular) in
    ground (arith, made)
