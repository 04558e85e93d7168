-- ===== src/Scheduler/Stt/Tidy.antt =====
-- The STT scheduler's queues: what each change of them keeps, and what is picked from them.
use livekit_hugging_voice.Base.{
  ◌≤◌, ◌<◌, ◌≡◌, refl, ap, subst, ◌≢◌, inl, inr, true, false, Option, some, List, [], ◌∷◌, arith,
  Bool-cases, Option-cases, length,
}
use livekit_hugging_voice.Text.{Text, text_eq}
use livekit_hugging_voice.Scheduler.Queues
use livekit_hugging_voice.Scheduler.Queues.{
  Queues, push, without, waiting, popped, pop_left, jobs_of,
}
use livekit_hugging_voice.Scheduler.Queues.Keys.{Keyed, push-Keyed, without-Keyed}
use livekit_hugging_voice.Scheduler.Queues.Popped.{
  Filled, push-Filled, without-Filled, waiting-AllDifferent, Popped, pop_left-Popped,
}
use livekit_hugging_voice.Scheduler.Queues.RoundRobin.{next_session_total}
use livekit_hugging_voice.Scheduler.Stt.{SttJob, is_empty, any_waiting}

abbrev pub session_of : SttJob → Text
session_of job = job.session_id

-- no deque has two jobs
abbrev pub Single : Queues SttJob → Type 0
Single [] = Unit {0}
Single ((k, jobs) ∷ q) = (length jobs ≤ 1) × Single q

-- keyed by session and without empty deques
abbrev pub Tidy : Queues SttJob → Type 0
Tidy q = Keyed session_of q × Filled q

pub push-Tidy : (job : SttJob) (q : Queues SttJob) → Tidy q → Tidy (push job.session_id job q)
push-Tidy job q t =
    (push-Keyed session_of job.session_id job q refl t.0, push-Filled job.session_id job q t.1)

pub without-Tidy : (k : Text) (q : Queues SttJob) → Tidy q → Tidy (without k q)
without-Tidy k q t = (without-Keyed session_of k q t.0, without-Filled k q t.1)

pub push-Single :
    (k : Text) (job : SttJob) (q : Queues SttJob)
    → is_empty (jobs_of k q) ≡ true
    → Single q
    → Single (push k job q)
unfolding push jobs_of
push-Single k job [] e w = (omega arith, tt)
push-Single k job ((j, []) ∷ q) e w = ground (arith, push-Single k job q)
push-Single k job ((j, x ∷ jobs) ∷ q) e w = ground (arith, push-Single k job q)

pub without-Single : (k : Text) (q : Queues SttJob) → Single q → Single (without k q)
unfolding without
without-Single k [] w = tt
without-Single k ((j, jobs) ∷ q) w = ground (arith, without-Single k q w.1)

popped-Single :
    (j : Text) (x : SttJob) (jobs : List SttJob) (q : Queues SttJob)
    → Single ((j, x ∷ jobs) ∷ q)
    → (rest : Queues SttJob) → popped j jobs q ≡ rest
    → Single rest
popped-Single j x [] q w rest e = subst Single e w.1
popped-Single j x (y ∷ jobs) q w rest e = absurd (omega (arith, w.0))

pub pop_left-Single :
    (k : Text) (q : Queues SttJob) (job : SttJob) (rest : Queues SttJob)
    → pop_left k q ≡ some (job, rest)
    → Single q
    → Single rest
unfolding pop_left
pop_left-Single k [] job rest e w = cc
pop_left-Single k ((j, []) ∷ q) job rest e w = elim (Option-cases (pop_left k q)) [
  | inl none_left ↦ ground (arith, none_left)
  | inr ((job', rest'), at) ↦ ground (arith, at, pop_left-Single k q job' rest' at w.1)
]
pop_left-Single k ((j, x ∷ jobs) ∷ q) job rest e w = elim (Bool-cases (text_eq j k)) [
  | inl same ↦ popped-Single j x jobs q w rest (ground (arith, same))
  | inr other ↦ elim (Option-cases (pop_left k q)) [
    | inl none_left ↦ ground (arith, none_left, other)
    | inr ((job', rest'), at) ↦ ground (arith, at, other, pop_left-Single k q job' rest' at w.1)
  ]
]

-- What the round robin picks and pops.
pub record Picked (last : Option Text) (q : Queues SttJob) : Type 0 where
  pub session : Text
  pub job : SttJob
  pub rest : Queues SttJob
  pub chosen : Queues.next_session last q ≡ some session
  pub at : pop_left session q ≡ some (job, rest)
  pub popped : Popped session_of session q job rest

pub picks : (last : Option Text) (q : Queues SttJob) → Tidy q → waiting q ≢ [] → Picked last q
picks last q t ne =
    let (k, chosen, m) = next_session_total last q (waiting-AllDifferent session_of q t.0) ne in
    let (job, rest, at, h) = pop_left-Popped session_of k q t.0 m in
    record { session = k; job = job; rest = rest; chosen = chosen; at = at; popped = h }

pub any_waiting-ne_nil : (q : Queues SttJob) → any_waiting q ≡ true → waiting q ≢ []
any_waiting-ne_nil q h e = cc (h, ap (is_empty {A = Text}) e)

waiting_nil-queued_count :
    (q : Queues SttJob) → is_empty (waiting q) ≡ true → Queues.queued_count q ≡ 0
unfolding waiting Queues.queued_count
waiting_nil-queued_count [] e = refl
waiting_nil-queued_count ((k, []) ∷ q) e = omega (arith, waiting_nil-queued_count q e)
waiting_nil-queued_count ((k, x ∷ jobs) ∷ q) e = cc

pub queued_count-any_waiting :
    (q : Queues SttJob) → 0 < Queues.queued_count q → any_waiting q ≡ true
queued_count-any_waiting q h = elim (Bool-cases (is_empty (waiting q))) [
  | inl e ↦ absurd (omega (arith, waiting_nil-queued_count q e))
  | inr e ↦ rw e refl
]

pub any_waiting-nil : (q : Queues SttJob) → any_waiting q ≡ false → Queues.queued_count q ≡ 0
any_waiting-nil q e = waiting_nil-queued_count q (ground arith)
