-- ===== src/Scheduler/Tts/Taking.antt =====
-- What a worker takes.
use livekit_hugging_voice.Base.{
  ℕ, ◌≡◌, ◌≢◌, refl, sym, ap, subst, ◌∙◌, ◌⊎◌, inl, inr, true, false, some, List, [], ◌∷◌, ◌++◌,
  arith, if◌then◌else◌, Bool-cases, Option-cases, length,
}
use livekit_hugging_voice.Text.{Text}
use livekit_hugging_voice.Scheduler.Queues
use livekit_hugging_voice.Scheduler.Queues.{Queues, get, jobs_of}
use livekit_hugging_voice.Scheduler.Queues.Waiting.{mem, AllDifferent}
use livekit_hugging_voice.Scheduler.Queues.Keys.{OwnedBy}
use livekit_hugging_voice.Scheduler.Queues.Put.{
  queued_count-put, get-put_self, get-put_ne, get-jobs_of, jobs_of-OwnedBy,
}
use livekit_hugging_voice.Scheduler.Tts.{
  TtsPriority, final_response, filler_or_explicit_say, TtsJob, TtsScheduler, session_of, add,
  refresh, job_count, has_runnable_job, scan_all, next_scan, make_active, start_job, take, may_take,
}
use livekit_hugging_voice.Scheduler.Tts.Rotation.{NoneReady, scan-mem, scan-AllDifferent}
use livekit_hugging_voice.Scheduler.Tts.Shape.{Shape, take-Shape}
use livekit_hugging_voice.Scheduler.Tts.Invariant.{IsRegular, IsCoherent, refresh-IsCoherent}
use livekit_hugging_voice.Scheduler.Tts.Choice.{Chosen, next_scan-Chosen, prefer-some, prefer-none}

-- `order'` is `order` in another arrangement
abbrev SameNames : List Text → List Text → Type 0
SameNames order order' = ((i : Text) → mem i order' ≡ mem i order) × AllDifferent order'

scan_all-SameNames :
    (s : TtsScheduler) (p : TtsPriority) (order : List Text)
    → AllDifferent order
    → SameNames order (scan_all s p order).order
unfolding scan_all
scan_all-SameNames s p order d = (
  λ i. scan-mem s.active_sessions p s.queues i (length order) order,
  scan-AllDifferent s.active_sessions p s.queues (length order) order d,
)

next_scan-SameNames :
    (s : TtsScheduler)
    → AllDifferent s.session_order
    → SameNames s.session_order (next_scan s).order
unfolding next_scan
next_scan-SameNames s d =
    let finals = scan_all s final_response s.session_order in
    let fillers = scan_all s filler_or_explicit_say finals.order in
    let (same, once) = scan_all-SameNames s final_response s.session_order d in
    elim (Option-cases finals.found) [
      | inl e ↦
          let (same', once') = scan_all-SameNames s filler_or_explicit_say finals.order once in
          subst (λ r. SameNames s.session_order r.order) (sym (prefer-none finals fillers e))
            (λ i. same' i ∙ same i, once')
      | inr (x, e) ↦
          subst (λ r. SameNames s.session_order r.order) (sym (prefer-some finals fillers x e))
            (same, once)
    ]

-- the job is of the session that was chosen
Chosen-session : (s : TtsScheduler) → IsRegular s → (c : Chosen s) → session_of c.job ≡ c.session
Chosen-session s v c =
    (subst (OwnedBy session_of c.session) (get-jobs_of c.session (c.job ∷ c.jobs) s.queues c.holds)
      (jobs_of-OwnedBy session_of c.session s.queues v.shape.keyed)).0

abbrev new_order : (s : TtsScheduler) → Chosen s → List Text
new_order s c = c.after ++ (c.before ++ c.session ∷ [])

add-free : (k : Text) (busy : List Text) → mem k busy ≡ false → add k busy ≡ k ∷ busy
unfolding add
add-free k busy e = rw e refl

make_active-IsRegular :
    (w : ℕ) (s : TtsScheduler) (c : Chosen s)
    → IsRegular s
    → IsRegular (make_active w (new_order s c) c.session c.job c.jobs s)
unfolding make_active job_count
make_active-IsRegular w s c v =
    let (same, once) =
      subst (λ r. SameNames s.session_order r.order) c.scan_is
        (next_scan-SameNames s v.shape.order_once) in
    let own = Chosen-session s v c in
    let added : add (session_of c.job) s.active_sessions ≡ c.session ∷ s.active_sessions =
      ap (λ k. add k s.active_sessions) own ∙ add-free c.session s.active_sessions c.free in
    record {
      shape = subst (Shape (Queues.put c.session c.jobs s.queues) (new_order s c)) (sym added) (
          take-Shape c.session c.job c.jobs s.queues s.session_order (new_order s c)
            s.active_sessions c.holds same once v.shape);
      busy_are = cc (added, own, v.busy_are);
      busy_once = subst AllDifferent (sym added) (c.free, v.busy_once);
      bounded = omega (
        arith,
        v.bounded,
        queued_count-put c.session c.jobs s.queues,
        ap (length {A = TtsJob}) (get-jobs_of c.session (c.job ∷ c.jobs) s.queues c.holds),
      );
    }

start_job-eq :
    (w : ℕ) (s : TtsScheduler) (c : Chosen s)
    → start_job w (next_scan s) s ≡ refresh (make_active w (new_order s c) c.session c.job c.jobs s)
unfolding start_job
start_job-eq w s c = rw c.scan_is refl

take-eq :
    (w : ℕ) (s : TtsScheduler) (c : Chosen s)
    → s.closed ≡ false
    → take w s ≡ refresh (make_active w (new_order s c) c.session c.job c.jobs s)
unfolding take
take-eq w s c e = ap (λ b. if b then s else start_job w (next_scan s) s) e ∙ start_job-eq w s c

pub take-IsCoherent :
    (w : ℕ) (s : TtsScheduler) → may_take w s ≡ true → IsCoherent s → IsCoherent (take w s)
unfolding may_take
take-IsCoherent w s m v = elim (Bool-cases s.closed) [
  | inl e ↦ unfold take in ground arith
  | inr e ↦
      let c = next_scan-Chosen s v.regular.shape (ground arith) in
      subst IsCoherent (sym (take-eq w s c e)) (
        refresh-IsCoherent (make_active w (new_order s c) c.session c.job c.jobs s)
          (make_active-IsRegular w s c v.regular))
]

-- What a worker takes: the oldest job of a session that was not busy, which goes to the back of the order.
pub record TakesNext (w : ℕ) (s s' : TtsScheduler) : Type 0 where
  pub priority : TtsPriority
  pub session : Text
  pub job : TtsJob
  pub jobs : List TtsJob
  pub before : List Text
  pub after : List Text
  pub in_order : s.session_order ≡ before ++ session ∷ after
  -- no session before it is free with a job of the priority in front
  pub none_before : NoneReady s.active_sessions priority s.queues before
  -- it is a final response, or no free session has one in front
  pub finals_first :
      (priority ≡ final_response)
      ⊎ NoneReady s.active_sessions final_response s.queues s.session_order
  pub of_priority : job.priority ≡ priority
  pub was_free : mem session s.active_sessions ≡ false
  pub oldest : get session s.queues ≡ some (job ∷ jobs)
  pub to_the_back : s'.session_order ≡ after ++ (before ++ session ∷ [])
  pub now_active : s'.active ≡ (w, job) ∷ s.active
  pub now_busy : s'.active_sessions ≡ session ∷ s.active_sessions
  pub same_futures : s'.futures ≡ s.futures
  -- the job is off its queue, and no other queue has changed
  pub taken_off : get session s'.queues ≡ some jobs
  pub others_kept : (k : Text) → k ≢ session → get k s'.queues ≡ get k s.queues

-- A coherent, open scheduler with a runnable job never fails to pick one: a worker takes the oldest job of
-- the first free session in the order off its queue, final responses before fillers, leaves the other queues,
-- and the session goes to the back.
pub take-TakesNext :
    (w : ℕ) (s : TtsScheduler)
    → IsCoherent s
    → s.closed ≡ false
    → has_runnable_job s ≡ true
    → TakesNext w s (take w s)
take-TakesNext w s v open_ r =
    let c = next_scan-Chosen s v.regular.shape r in
    let own = Chosen-session s v.regular c in
    subst (TakesNext w s) (sym (take-eq w s c open_)) (
      unfold refresh make_active in
      (record {
        priority = c.priority;
        session = c.session;
        job = c.job;
        jobs = c.jobs;
        before = c.before;
        after = c.after;
        in_order = c.in_order;
        none_before = c.none_before;
        finals_first = c.finals_first;
        of_priority = c.priority_is;
        was_free = c.free;
        oldest = c.holds;
        to_the_back = refl;
        now_active = refl;
        now_busy =
            ap (λ k. add k s.active_sessions) own ∙ add-free c.session s.active_sessions c.free;
        same_futures = refl;
        taken_off = get-put_self c.session c.jobs s.queues;
        others_kept = λ k ne. get-put_ne c.session k c.jobs s.queues ne;
      }))
