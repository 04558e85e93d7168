-- ===== src/Scheduler/Stt/Priority.antt =====
-- Which job the STT worker takes.
use livekit_hugging_voice.Base.{◌+◌, ◌≡◌, refl, ◌⊎◌, inl, inr, Bool, true, false, ◌||◌, some, arith}
use livekit_hugging_voice.Text.{Text}
use livekit_hugging_voice.Scheduler.Queues
use livekit_hugging_voice.Scheduler.Queues.{Queues}
use livekit_hugging_voice.Scheduler.Queues.Keys.{any_queued}
use livekit_hugging_voice.Scheduler.Queues.Popped.{Popped}
use livekit_hugging_voice.Scheduler.Stt.{
  SttJob, SttScheduler, any_waiting, may_take, next_job, start_job, take, queued_count,
}
use livekit_hugging_voice.Scheduler.Stt.Tidy.{session_of}
use livekit_hugging_voice.Scheduler.Stt.Invariant.{
  is_final, is_partial, IsSound, FinalNext, PartialNext, next_job-cases,
}

-- `s'` is `s` after its worker took `job`.
pub record Starts (job : SttJob) (s s' : SttScheduler) : Type 0 where
  pub now_active : s'.active ≡ some job
  pub same_futures : s'.futures ≡ s.futures
  pub same_queued :
      (p : SttJob → Bool)
      → (any_queued p s.finals || any_queued p s.partials)
        ≡ (p job || any_queued p s'.finals || any_queued p s'.partials)
  pub one_less : queued_count s ≡ queued_count s' + 1

-- The oldest final job of the session that is next among those with final jobs.
pub record StartsFinal (s s' : SttScheduler) : Type 0 where
  pub session : Text
  pub job : SttJob
  pub starts : Starts job s s'
  pub is_one : job.final ≡ true
  pub next_of_finals : Queues.next_session s.last_final_session s.finals ≡ some session
  pub popped : Popped session_of session s.finals job s'.finals
  pub partials_kept : s'.partials ≡ s.partials

-- No final job waits; the oldest partial job of the session that is next among those with partial jobs.
pub record StartsPartial (s s' : SttScheduler) : Type 0 where
  pub session : Text
  pub job : SttJob
  pub starts : Starts job s s'
  pub is_none : job.final ≡ false
  pub no_final : any_waiting s.finals ≡ false
  pub next_of_partials : Queues.next_session s.last_partial_session s.partials ≡ some session
  pub popped : Popped session_of session s.partials job s'.partials
  pub finals_kept : s'.finals ≡ s.finals

starts-final :
    (s : SttScheduler) → IsSound s → FinalNext s → StartsFinal s (start_job (next_job s) s)
starts-final s v n =
    let h = n.pick.popped in
    rw n.job_is (record {
      session = n.pick.session;
      job = n.pick.job;
      starts = record {
        now_active = refl;
        same_futures = refl;
        same_queued = λ p. ground (arith, h.same_jobs p);
        one_less = omega (arith, h.one_less);
      };
      is_one = ground (arith, h.same_jobs is_partial, v.only_finals);
      next_of_finals = n.pick.chosen;
      popped = h;
      partials_kept = refl;
    })

starts-partial :
    (s : SttScheduler) → IsSound s → PartialNext s → StartsPartial s (start_job (next_job s) s)
starts-partial s v n =
    let h = n.pick.popped in
    rw n.job_is (record {
      session = n.pick.session;
      job = n.pick.job;
      starts = record {
        now_active = refl;
        same_futures = refl;
        same_queued = λ p. ground (arith, h.same_jobs p);
        one_less = omega (arith, h.one_less);
      };
      is_none = ground (arith, h.same_jobs is_final, v.only_partials);
      no_final = n.no_final;
      next_of_partials = n.pick.chosen;
      popped = h;
      finals_kept = refl;
    })

-- An open scheduler whose worker is ready always starts a job: a final one if any waits, a partial one
-- otherwise, the oldest of the session that is next in the round robin of its kind, and the other kind's
-- queues stay as they are.
pub take-FinalFirst :
    (s : SttScheduler)
    → IsSound s
    → may_take s ≡ true
    → s.closed ≡ false
    → StartsFinal s (take s) ⊎ StartsPartial s (take s)
unfolding take
take-FinalFirst s v m open_ = simp open_ (elim (next_job-cases s v (ground arith)) [
  | inl n ↦ inl (starts-final s v n)
  | inr n ↦ inr (starts-partial s v n)
])

pub take-Starts :
    (s : SttScheduler)
    → IsSound s
    → may_take s ≡ true
    → s.closed ≡ false
    → (job : SttJob) × Starts job s (take s)
take-Starts s v m open_ = elim (take-FinalFirst s v m open_) [
  | inl f ↦ (f.job, f.starts)
  | inr p ↦ (p.job, p.starts)
]
