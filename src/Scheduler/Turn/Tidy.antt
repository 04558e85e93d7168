-- ===== src/Scheduler/Turn/Tidy.antt =====
-- The turn scheduler's queues: what each change of them keeps.
use livekit_hugging_voice.Base.{
  ℕ, ◌≤◌, ◌<◌, ◌≡◌, refl, sym, ap, subst, ◌≢◌, inl, inr, true, false, Option, none, some, List, [],
  ◌∷◌, arith, Bool-cases, length,
}
use livekit_hugging_voice.Text.{Text}
use livekit_hugging_voice.Scheduler.Queues
use livekit_hugging_voice.Scheduler.Queues.{Queues}
use livekit_hugging_voice.Scheduler.Queues.Keys.{
  OwnedBy, Keyed, push-Keyed, without-Keyed, queued_count-push, queued_count-without-le,
}
use livekit_hugging_voice.Scheduler.Queues.Popped.{
  Filled, push-Filled, without-Filled, waiting-ne_nil, waiting-AllDifferent, Popped,
  pop_left-Popped,
}
use livekit_hugging_voice.Scheduler.Queues.Put.{
  put-Keyed, put-Filled, get-jobs_of, jobs_of-OwnedBy, queued_count-put,
}
use livekit_hugging_voice.Scheduler.Queues.RoundRobin.{next_session_total}
use livekit_hugging_voice.Scheduler.Turn.{
  TurnJob, is_empty, remove_job, TurnScheduler, without_job, pop_job, next_job,
}

abbrev pub session_of : TurnJob → Text
session_of job = job.session_id

-- Queues as the scheduler keeps them: within the limit, no empty deque, each job under its session.
abbrev pub Tidy : ℕ → Queues TurnJob → Type 0
Tidy max_jobs q = Keyed session_of q × Filled q × (Queues.queued_count q ≤ max_jobs)

remove_job-le : (i : ℕ) (jobs : List TurnJob) → length (remove_job i jobs) ≤ length jobs
unfolding remove_job
remove_job-le i [] = omega arith
remove_job-le i (job ∷ jobs) = ground (arith, remove_job-le i jobs)

pub remove_job-OwnedBy :
    (k : Text) (i : ℕ) (jobs : List TurnJob)
    → OwnedBy session_of k jobs
    → OwnedBy session_of k (remove_job i jobs)
unfolding remove_job
remove_job-OwnedBy k i [] o = tt
remove_job-OwnedBy k i (job ∷ jobs) o = ground (arith, remove_job-OwnedBy k i jobs o.1)

pub is_empty-ne : (jobs : List TurnJob) → is_empty jobs ≡ false → jobs ≢ []
is_empty-ne [] h e = cc
is_empty-ne (x ∷ jobs) h e = cc

pub without-Tidy : (n : ℕ) (k : Text) (q : Queues TurnJob) → Tidy n q → Tidy n (Queues.without k q)
without-Tidy n k q t = (
  without-Keyed session_of k q t.0,
  without-Filled k q t.1,
  omega (arith, queued_count-without-le k q),
)

pub without_job-Tidy :
    (n : ℕ) (job : TurnJob) (q : Queues TurnJob) (o : Option (List TurnJob))
    → Queues.get job.session_id q ≡ o
    → Tidy n q
    → Tidy n (without_job job o q)
unfolding without_job
without_job-Tidy n job q none e t = t
without_job-Tidy n job q (some jobs) e t =
    elim (Bool-cases (is_empty (remove_job job.job_id jobs))) [
      | inl h ↦ rw h (without-Tidy n job.session_id q t)
      | inr h ↦ rw h (put-Tidy h)
    ]
  where
    same : Queues.jobs_of job.session_id q ≡ jobs
    same = get-jobs_of job.session_id jobs q e

    put-Tidy :
        is_empty (remove_job job.job_id jobs) ≡ false
        → Tidy n (Queues.put job.session_id (remove_job job.job_id jobs) q)
    put-Tidy h = (
      put-Keyed session_of job.session_id (remove_job job.job_id jobs) q
          (remove_job-OwnedBy job.session_id job.job_id jobs (
            subst (OwnedBy session_of job.session_id) same
              (jobs_of-OwnedBy session_of job.session_id q t.0)))
          t.0,
      put-Filled job.session_id (remove_job job.job_id jobs) q (is_empty-ne _ h) t.1,
      omega (
        arith,
        queued_count-put job.session_id (remove_job job.job_id jobs) q,
        ap (length {A = TurnJob}) same,
        remove_job-le job.job_id jobs,
      ),
    )

pub push-Tidy :
    (n : ℕ) (job : TurnJob) (q : Queues TurnJob)
    → Queues.queued_count q < n
    → Tidy n q
    → Tidy n (Queues.push job.session_id job q)
push-Tidy n job q h t = (
  push-Keyed session_of job.session_id job q refl t.0,
  push-Filled job.session_id job q t.1,
  omega (arith, queued_count-push job.session_id job q),
)

-- the queues of a job that left
pub without_job-nil :
    (job : TurnJob) (q : Queues TurnJob)
    → q ≡ []
    → without_job job (Queues.get job.session_id q) q ≡ []
without_job-nil job q e =
    subst (λ (p : Queues TurnJob). without_job job (Queues.get job.session_id p) p ≡ []) (sym e)
      (unfold Queues.get without_job in refl)

pub without-nil : (k : Text) (q : Queues TurnJob) → q ≡ [] → Queues.without k q ≡ []
without-nil k q e =
    subst (λ (p : Queues TurnJob). Queues.without k p ≡ []) (sym e) (unfold Queues.without in refl)

-- What the round robin takes from tidy queues, if they hold any job.
pub next_job-eq :
    {R : Type 0} (s : TurnScheduler R)
    → Tidy s.max_jobs s.queues
    → s.queues ≢ []
    → (k : Text) × (job : TurnJob) × (rest : Queues TurnJob) × (Queues.next_session s.last_session
          s.queues
        ≡ some k)
      × Popped session_of k s.queues job rest
      × (next_job s ≡ some (job, record s { queues = rest; last_session = some k }))
unfolding next_job
next_job-eq s t ne =
    let (k, picked, m) =
      next_session_total s.last_session s.queues (waiting-AllDifferent session_of s.queues t.0)
        (waiting-ne_nil s.queues t.1 ne) in
    let (job, rest, popped, h) = pop_left-Popped session_of k s.queues t.0 m in
    (k, job, rest, picked, h, rw (picked, next_job) (rw (popped, pop_job) refl))

pub is_empty-nil : (q : Queues TurnJob) → is_empty q ≡ true → q ≡ []
is_empty-nil [] h = refl
is_empty-nil (x ∷ q) h = cc

pub is_empty-cons : (q : Queues TurnJob) → is_empty q ≡ false → q ≢ []
is_empty-cons [] h e = cc
is_empty-cons (x ∷ q) h e = cc

pub is_empty-false : (q : Queues TurnJob) → q ≢ [] → is_empty q ≡ false
is_empty-false [] h = absurd (h refl)
is_empty-false (x ∷ q) h = refl
