-- ===== src/Scheduler/Turn/Starvation.antt =====
-- A waiting session that is never served. `_next_job` looks for the session after the last one only
-- while that one has further jobs; otherwise it starts again at the first name.
use livekit_hugging_voice.Base.{
  ◌+◌, ◌<◌, ◌≡◌, refl, sym, subst, true, false, Option, none, some, List, [], ◌∷◌, arith, length,
}
use livekit_hugging_voice.Text.{Text, text_eq, text_eq_iff, text_eq_refl, text_lt, text_lt_irrefl}
use livekit_hugging_voice.Scheduler.Queues
use livekit_hugging_voice.Scheduler.Queues.{Queues}
use livekit_hugging_voice.Scheduler.Turn.{
  TurnJob, is_empty, TurnScheduler, returned, with_queues, submit, pop_job, next_job, start_job,
  take, finish, submits, takes, finishes, step, run,
}

-- `c` waits with the jobs `first` and `others`, and the worker is free.
pub record Waits {R : Type 0} (c : Text) (first : TurnJob) (others : List TurnJob)
    (s : TurnScheduler R) : Type 0 where
  pub alone : s.queues ≡ (c, first ∷ others) ∷ []
  pub free : s.active ≡ none
  pub alive : s.worker ≡ true
  pub open_ : s.closed ≡ false
  pub room : length others + 1 < s.max_jobs

-- the last session served is neither of the two that wait now
abbrev pub Neither : Option Text → Text → Text → Type 0
Neither none n c = Unit {0}
Neither (some l) n c = (text_eq n l ≡ false) × (text_eq c l ≡ false)

-- Jobs of sessions whose names come before `c`, no two of one session in a row.
abbrev pub Overtaking : Option Text → Text → List TurnJob → Type 0
Overtaking last c [] = Unit {0}
Overtaking last c (job ∷ jobs) =
    (text_lt job.session_id c ≡ true)
    × Neither last job.session_id c
    × Overtaking (some job.session_id) c jobs

-- A session submits a job while `c` waits, and the worker serves one job.
abbrev pub serve_one : {R : Type 0} → R → TurnJob → TurnScheduler R → TurnScheduler R
serve_one r job s = run s (submits job ∷ takes ∷ finishes (returned r false) ∷ [])

abbrev pub serve_all : {R : Type 0} → R → List TurnJob → TurnScheduler R → TurnScheduler R
serve_all r [] s = s
serve_all r (job ∷ jobs) s = serve_all r jobs (serve_one r job s)

text_lt-ne : (n c : Text) → text_lt n c ≡ true → text_eq c n ≡ false
text_lt-ne n c h = ground (arith, text_eq_iff c n, text_lt_irrefl n)

picks_other :
    (n c : Text) (job first : TurnJob) (others : List TurnJob) (last : Option Text)
    → text_lt n c ≡ true
    → Neither last n c
    → Queues.next_session last (Queues.push n job ((c, first ∷ others) ∷ [])) ≡ some n
unfolding Queues.next_session Queues.push
picks_other n c job first others none lt ne = rw (text_lt-ne n c lt) (rw lt refl)
picks_other n c job first others (some l) lt ne =
    rw (text_lt-ne n c lt) (rw lt (rw (ne.0, ne.1) refl))

pops_other :
    (n c : Text) (job first : TurnJob) (others : List TurnJob)
    → text_lt n c ≡ true
    → Queues.pop_left n (Queues.push n job ((c, first ∷ others) ∷ []))
      ≡ some (job, (c, first ∷ others) ∷ [])
unfolding Queues.pop_left Queues.push
pops_other n c job first others lt =
    rw (text_lt-ne n c lt) (rw (text_eq_refl n) (rw (text_lt-ne n c lt) refl))

-- `c` still waits after one round, and the other session was served last.
abbrev StillWaits : {R : Type 0} → Text → TurnJob → List TurnJob → Text → TurnScheduler R → Type 0
StillWaits c first others n s = Waits c first others s × (s.last_session ≡ some n)

module _ {R : Type 0} (r : R) (c : Text) (first : TurnJob) (others : List TurnJob) where
  submitted : TurnJob → TurnScheduler R → TurnScheduler R
  submitted job s = record (with_queues (Queues.push job.session_id job s.queues) s) {
    worker = true;
  }

  submit-eq :
      (job : TurnJob) (s : TurnScheduler R)
      → Waits c first others s
      → step s (submits job) ≡ submitted job s
  unfolding step submit submitted
  submit-eq job s w = ground (
    arith,
    w.open_,
    w.room,
    subst (λ q. Queues.queued_count q ≡ length others + 1) (sym w.alone)
        (unfold Queues.queued_count in omega arith),
  )

  taken : TurnJob → TurnScheduler R → TurnScheduler R
  unfolding submitted
  taken job s = record (with_queues ((c, first ∷ others) ∷ []) (submitted job s)) {
    active = some job;
    last_session = some job.session_id;
  }

  pushed-cons :
      (job : TurnJob) (q : Queues TurnJob) → is_empty (Queues.push job.session_id job q) ≡ false
  unfolding Queues.push
  pushed-cons job [] = refl
  pushed-cons job ((k, jobs) ∷ q) = ground arith

  take-eq :
      (job : TurnJob) (s : TurnScheduler R)
      → text_lt job.session_id c ≡ true
      → Neither s.last_session job.session_id c
      → Waits c first others s
      → step (submitted job s) takes ≡ taken job s
  unfolding step take start_job next_job pop_job submitted taken
  take-eq job s lt ne w = ground (
    arith,
    w.free,
    pushed-cons job s.queues,
    subst
        (λ q.
          Queues.next_session s.last_session (Queues.push job.session_id job q)
          ≡ some job.session_id)
        (sym w.alone) (picks_other job.session_id c job first others s.last_session lt ne),
    subst
        (λ q.
          Queues.pop_left job.session_id (Queues.push job.session_id job q)
          ≡ some (job, (c, first ∷ others) ∷ []))
        (sym w.alone) (pops_other job.session_id c job first others lt),
  )

  serve_one-StillWaits :
      (job : TurnJob) (s : TurnScheduler R)
      → text_lt job.session_id c ≡ true
      → Neither s.last_session job.session_id c
      → Waits c first others s
      → StillWaits c first others job.session_id (serve_one r job s)
  unfolding run
  serve_one-StillWaits job s lt ne w =
      rw (submit-eq job s w, take-eq job s lt ne w)
        (unfold step finish taken submitted in
          (
            record { alone = refl; free = refl; alive = refl; open_ = w.open_; room = w.room },
            refl,
          ))

  -- Sessions whose names come before `c` and that take turns, each with one job at a time, are all
  -- served before `c`, however many jobs they submit: `c` waits with the same jobs as before.
  pub serve_all-Waits :
      (jobs : List TurnJob) (s : TurnScheduler R)
      → Overtaking s.last_session c jobs
      → Waits c first others s
      → Waits c first others (serve_all r jobs s)
  serve_all-Waits [] s o w = w
  serve_all-Waits (job ∷ jobs) s o w =
      let (still, last) = serve_one-StillWaits job s o.0 o.1 w in
      serve_all-Waits jobs (serve_one r job s) (subst (λ l. Overtaking l c jobs) (sym last) o.2)
        still
