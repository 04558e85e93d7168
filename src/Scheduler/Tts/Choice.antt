-- ===== src/Scheduler/Tts/Choice.antt =====
-- Which job `_next_job` takes, whenever `_has_runnable_job` holds.
use livekit_hugging_voice.Base.{
  ◌≡◌, refl, ap, subst, ◌∙◌, ◌⊎◌, inl, inr, true, false, Option, none, some, List, [], ◌∷◌, ◌++◌,
  append-nil, arith, Bool-cases, length,
}
use livekit_hugging_voice.Text.{Text, text_eq, text_eq_iff, text_eq_refl}
use livekit_hugging_voice.Scheduler.Queues.{Queues, get}
use livekit_hugging_voice.Scheduler.Queues.Waiting.{mem}
use livekit_hugging_voice.Scheduler.Queues.Keys.{FreshKey, Keyed}
use livekit_hugging_voice.Scheduler.Tts.{
  TtsPriority, final_response, filler_or_explicit_say, TtsJob, TtsScheduler, Scan, session_of,
  has_key, any_runnable, has_runnable_job, same_priority, ready_jobs, scan, scan_all, prefer,
  next_scan,
}
use livekit_hugging_voice.Scheduler.Tts.Keys.{get-FreshKey}
use livekit_hugging_voice.Scheduler.Tts.Rotation.{
  NoneReady, NoneReady-mem, Found, Missed, scan-finds,
}
use livekit_hugging_voice.Scheduler.Tts.Shape.{Shape}

-- The first session in the order that is free and has a job of the priority in front; a filler only if no
-- free session has a final response in front.
pub record Chosen (s : TtsScheduler) : Type 0 where
  pub priority : TtsPriority
  pub session : Text
  pub job : TtsJob
  pub jobs : List TtsJob
  pub before : List Text
  pub after : List Text
  pub in_order : s.session_order ≡ before ++ session ∷ after
  pub none_before : NoneReady s.active_sessions priority s.queues before
  pub finals_first :
      (priority ≡ final_response)
      ⊎ NoneReady s.active_sessions final_response s.queues s.session_order
  pub holds : get session s.queues ≡ some (job ∷ jobs)
  pub free : mem session s.active_sessions ≡ false
  pub priority_is : job.priority ≡ priority
  pub scan_is :
      next_scan s
      ≡ record { found = some (session, job, jobs); order = after ++ (before ++ session ∷ []) }

same_priority-eq : (a b : TtsPriority) → same_priority a b ≡ true → a ≡ b
same_priority-eq final_response final_response e = refl
same_priority-eq final_response filler_or_explicit_say e = cc
same_priority-eq filler_or_explicit_say final_response e = cc
same_priority-eq filler_or_explicit_say filler_or_explicit_say e = refl

ready_jobs-Holds :
    (busy : List Text) (p : TtsPriority) (k : Text) (o : Option (List TtsJob)) (job : TtsJob)
    (jobs : List TtsJob)
    → ready_jobs busy p k o ≡ some (job, jobs)
    → (o ≡ some (job ∷ jobs)) × (mem k busy ≡ false) × (job.priority ≡ p)
unfolding ready_jobs
ready_jobs-Holds busy p k none job jobs e = absurd (cc e)
ready_jobs-Holds busy p k (some []) job jobs e = absurd (cc e)
ready_jobs-Holds busy p k (some (x ∷ xs)) job jobs e =
    (ground arith, ground arith, ground (arith, same_priority-eq x.priority p))

-- a free session with a job in front
record Runnable (busy : List Text) (q : Queues TtsJob) : Type 0 where
  session : Text
  job : TtsJob
  jobs : List TtsJob
  at : get session q ≡ some (job ∷ jobs)
  free : mem session busy ≡ false

other_key :
    (j i : Text) (js jobs : List TtsJob) (q : Queues TtsJob)
    → FreshKey j q
    → get i q ≡ some jobs
    → get i ((j, js) ∷ q) ≡ some jobs
unfolding get
other_key j i js jobs q f at = elim (Bool-cases (text_eq j i)) [
  | inl e ↦
      absurd (cc (at, subst (λ n. get n q ≡ none) ((text_eq_iff j i).0 e) (get-FreshKey j q f)))
  | inr e ↦ rw e at
]

cons-Runnable :
    (busy : List Text) (k : Text) (js : List TtsJob) (q : Queues TtsJob)
    → FreshKey k q
    → Runnable busy q
    → Runnable busy ((k, js) ∷ q)
cons-Runnable busy k js q f r = record {
  session = r.session;
  job = r.job;
  jobs = r.jobs;
  at = other_key k r.session js (r.job ∷ r.jobs) q f r.at;
  free = r.free;
}

any_runnable-Runnable :
    (busy : List Text) (q : Queues TtsJob)
    → Keyed session_of q
    → any_runnable busy q ≡ true
    → Runnable busy q
unfolding any_runnable get
any_runnable-Runnable busy [] w h = absurd (cc h)
any_runnable-Runnable busy ((k, []) ∷ q) w h =
    cons-Runnable busy k [] q w.1 (any_runnable-Runnable busy q w.2 h)
any_runnable-Runnable busy ((k, x ∷ xs) ∷ q) w h = elim (Bool-cases (mem k busy)) [
  | inl e ↦ cons-Runnable busy k (x ∷ xs) q w.1 (any_runnable-Runnable busy q w.2 (ground arith))
  | inr e ↦ record { session = k; job = x; jobs = xs; at = rw (text_eq_refl k) refl; free = e }
]

-- A session with a job in front that is ready at neither priority is busy.
never_ready-busy :
    (busy : List Text) (k : Text) (job : TtsJob) (jobs : List TtsJob)
    → ready_jobs busy final_response k (some (job ∷ jobs)) ≡ none
    → ready_jobs busy filler_or_explicit_say k (some (job ∷ jobs)) ≡ none
    → mem k busy ≡ true
unfolding ready_jobs
never_ready-busy busy k job jobs a b = elim (Bool-cases (mem k busy)) [
  | inl e ↦ e
  | inr e ↦ elim (priority_cases job.priority) [
    | inl p ↦ absurd (ground (arith, ap (same_priority job.priority) p, p))
    | inr p ↦ absurd (ground (arith, p))
  ]
]
  where
    priority_cases : (p : TtsPriority) → (p ≡ final_response) ⊎ (p ≡ filler_or_explicit_say)
    priority_cases final_response = inl refl
    priority_cases filler_or_explicit_say = inr refl

NoneReady-not_runnable :
    (s : TtsScheduler)
    → Shape s.queues s.session_order s.active_sessions
    → NoneReady s.active_sessions final_response s.queues s.session_order
    → NoneReady s.active_sessions filler_or_explicit_say s.queues s.session_order
    → has_runnable_job s ≡ false
unfolding has_runnable_job
NoneReady-not_runnable s h a b = elim (Bool-cases (any_runnable s.active_sessions s.queues)) [
  | inl e ↦
      let r = any_runnable-Runnable s.active_sessions s.queues h.keyed e in
      let listed : mem r.session s.session_order ≡ true =
        h.ordered r.session ∙ ap (has_key {A = List TtsJob}) r.at in
      absurd (
        cc (
          r.free,
          never_ready-busy s.active_sessions r.session r.job r.jobs
              (subst (λ o. ready_jobs s.active_sessions final_response r.session o ≡ none) r.at
                (NoneReady-mem s.active_sessions final_response s.queues r.session s.session_order a
                  listed))
              (subst (λ o. ready_jobs s.active_sessions filler_or_explicit_say r.session o ≡ none)
                r.at
                (NoneReady-mem s.active_sessions filler_or_explicit_say s.queues r.session
                  s.session_order b listed)),
        ))
  | inr e ↦ e
]

-- the scan of the whole order
scan_all-finds :
    (s : TtsScheduler) (p : TtsPriority)
    → Found s.active_sessions p s.queues s.session_order [] (scan_all s p s.session_order)
      ⊎ Missed s.active_sessions p s.queues s.session_order [] (scan_all s p s.session_order)
unfolding scan_all
scan_all-finds s p =
    subst
      (λ order.
        Found s.active_sessions p s.queues s.session_order []
          (scan s.active_sessions p s.queues (length s.session_order) order)
        ⊎ Missed s.active_sessions p s.queues s.session_order []
            (scan s.active_sessions p s.queues (length s.session_order) order))
      (append-nil s.session_order) (scan-finds s.active_sessions p s.queues s.session_order [])

Found-Chosen :
    (s : TtsScheduler) (p : TtsPriority) (found : Scan)
    → (p ≡ final_response) ⊎ NoneReady s.active_sessions final_response s.queues s.session_order
    → next_scan s ≡ found
    → Found s.active_sessions p s.queues s.session_order [] found
    → Chosen s
Found-Chosen s p found first is f =
    let (at, free, pr) =
      ready_jobs-Holds s.active_sessions p f.session (get f.session s.queues) f.job f.jobs
        f.ready in
    record {
      priority = p;
      session = f.session;
      job = f.job;
      jobs = f.jobs;
      before = f.before;
      after = f.after;
      in_order = f.in_order;
      none_before = f.none_before;
      finals_first = first;
      holds = at;
      free = free;
      priority_is = pr;
      scan_is = ground (arith, is, f.is_it, f.to_the_back);
    }

pub prefer-some : (a b : Scan) (x : Text × TtsJob × List TtsJob) → a.found ≡ some x → prefer a b ≡ a
unfolding prefer
prefer-some a b x e = rw e refl

pub prefer-none : (a b : Scan) → a.found ≡ none → prefer a b ≡ b
unfolding prefer
prefer-none a b e = rw e refl

next_scan-final :
    (s : TtsScheduler) (x : Text × TtsJob × List TtsJob)
    → (scan_all s final_response s.session_order).found ≡ some x
    → next_scan s ≡ scan_all s final_response s.session_order
unfolding next_scan
next_scan-final s x e =
    let finals = scan_all s final_response s.session_order in
    prefer-some finals (scan_all s filler_or_explicit_say finals.order) x e

next_scan-filler :
    (s : TtsScheduler)
    → (scan_all s final_response s.session_order).found ≡ none
    → (scan_all s final_response s.session_order).order ≡ s.session_order
    → next_scan s ≡ scan_all s filler_or_explicit_say s.session_order
unfolding next_scan
next_scan-filler s e same =
    let finals = scan_all s final_response s.session_order in
    prefer-none finals (scan_all s filler_or_explicit_say finals.order) e
    ∙ ap (scan_all s filler_or_explicit_say) same

-- `_next_job` finds a job whenever `_has_runnable_job` holds: its RuntimeError never comes.
pub next_scan-Chosen :
    (s : TtsScheduler)
    → Shape s.queues s.session_order s.active_sessions
    → has_runnable_job s ≡ true
    → Chosen s
unfolding next_scan
next_scan-Chosen s h r = elim (scan_all-finds s final_response) [
  | inl f ↦
      Found-Chosen s final_response (scan_all s final_response s.session_order) (inl refl)
        (next_scan-final s _ f.is_it) f
  | inr missed ↦ elim (scan_all-finds s filler_or_explicit_say) [
    | inl f ↦
        Found-Chosen s filler_or_explicit_say (scan_all s filler_or_explicit_say s.session_order)
          (inr missed.none_ready) (next_scan-filler s missed.nothing missed.same_order) f
    | inr missed' ↦ absurd (cc (r, NoneReady-not_runnable s h missed.none_ready missed'.none_ready))
  ]
]
