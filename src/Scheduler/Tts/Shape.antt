-- ===== src/Scheduler/Tts/Shape.antt =====
-- The TTS scheduler's queues beside the order of its sessions and the busy sessions.
use livekit_hugging_voice.Base.{
  ◌≡◌, refl, subst, ◌∙◌, ◌≢◌, inl, inr, true, false, some, List, [], ◌∷◌, ◌++◌, arith,
  if◌then◌else◌, Bool-cases, Option-cases,
}
use livekit_hugging_voice.Text.{Text, text_eq, text_eq_iff, text_eq_refl}
use livekit_hugging_voice.Scheduler.Queues.{Queues, get, jobs_of, push, put, without}
use livekit_hugging_voice.Scheduler.Queues.Waiting.{mem, AllDifferent}
use livekit_hugging_voice.Scheduler.Queues.Keys.{OwnedBy, Keyed, push-Keyed, without-Keyed}
use livekit_hugging_voice.Scheduler.Queues.Put.{put-Keyed, get-jobs_of, jobs_of-OwnedBy}
use livekit_hugging_voice.Scheduler.Tts.{TtsJob, session_of, is_empty, has_key, discard}
use livekit_hugging_voice.Scheduler.Tts.Keys.{
  get-push, get-put, absent-jobs_of, get-without, mem-append, mem-discard, discard-AllDifferent,
  snoc-AllDifferent,
}

-- The order has each key once, and a key without jobs is of a busy session.
pub record Shape (q : Queues TtsJob) (order busy : List Text) : Type 0 where
  pub keyed : Keyed session_of q
  pub ordered : (k : Text) → mem k order ≡ has_key (get k q)
  pub order_once : AllDifferent order
  pub no_leak : (k : Text) → get k q ≡ some [] → mem k busy ≡ true

pub empty-Shape : (busy : List Text) → Shape [] [] busy
unfolding mem get
empty-Shape busy = record { keyed = tt; ordered = λ k. refl; order_once = tt; no_leak = λ k e. cc }

snoc-ne_nil : (jobs : List TtsJob) (job : TtsJob) → jobs ++ job ∷ [] ≢ []
snoc-ne_nil [] job e = cc
snoc-ne_nil (x ∷ jobs) job e = cc

pub push-Shape :
    (job : TtsJob) (q : Queues TtsJob) (order busy : List Text)
    → Shape q order busy
    → Shape
        (push (session_of job) job q)
        (if has_key (get (session_of job) q) then order else order ++ session_of job ∷ [])
        busy
unfolding mem
push-Shape job q order busy h = record {
  keyed = push-Keyed session_of (session_of job) job q refl h.keyed;
  ordered = λ k. ground (
    arith,
    mem-append k order (session_of job ∷ []),
    get-push k (session_of job) job q,
    h.ordered k,
    h.ordered (session_of job),
    text_eq_iff (session_of job) k,
  );
  order_once = elim (Bool-cases (has_key (get (session_of job) q))) [
    | inl e ↦ rw e h.order_once
    | inr e ↦ rw e (snoc-AllDifferent (session_of job) order (h.ordered _ ∙ e) h.order_once)
  ];
  no_leak = λ k e. ground (
    arith,
    get-push k (session_of job) job q,
    snoc-ne_nil (jobs_of (session_of job) q) job,
    h.no_leak k,
  );
}

-- another deque for a session that has one
pub put-Shape :
    (k : Text) (jobs : List TtsJob) (q : Queues TtsJob) (order busy : List Text)
    → OwnedBy session_of k jobs
    → has_key (get k q) ≡ true
    → (jobs ≡ [] → mem k busy ≡ true)
    → Shape q order busy
    → Shape (put k jobs q) order busy
put-Shape k jobs q order busy o has idle h = record {
  keyed = put-Keyed session_of k jobs q o h.keyed;
  ordered = λ i. ground (arith, get-put i k jobs q, h.ordered i, text_eq_iff k i);
  order_once = h.order_once;
  no_leak = λ i e. elim (Bool-cases (text_eq k i)) [
    | inl same ↦
        subst (λ n. mem n busy ≡ true) ((text_eq_iff k i).0 same)
          (idle (ground (arith, get-put i k jobs q)))
    | inr other ↦ h.no_leak i (ground (arith, get-put i k jobs q))
  ];
}

pub drop-Shape :
    (k : Text) (q : Queues TtsJob) (order busy busy' : List Text)
    → Shape q order busy
    → ((i : Text) → text_eq k i ≡ false → mem i busy' ≡ mem i busy)
    → Shape (without k q) (discard k order) busy'
drop-Shape k q order busy busy' h same = record {
  keyed = without-Keyed session_of k q h.keyed;
  ordered = λ i. ground (
    arith,
    mem-discard i k order h.order_once,
    get-without session_of i k q h.keyed,
    h.ordered i,
  );
  order_once = discard-AllDifferent k order h.order_once;
  no_leak = λ i e. ground (arith, get-without session_of i k q h.keyed, h.no_leak i, same i);
}

pub jobs_of-has_key :
    (k : Text) (q : Queues TtsJob) → is_empty (jobs_of k q) ≡ false → has_key (get k q) ≡ true
jobs_of-has_key k q e = elim (Option-cases (get k q)) [
  | inl none_there ↦ ground (arith, absent-jobs_of k q none_there, none_there)
  | inr (jobs, at) ↦ rw at refl
]

-- The session is busy no more, and has jobs.
pub leave-Shape :
    (k : Text) (q : Queues TtsJob) (order busy : List Text)
    → Shape q order busy
    → AllDifferent busy
    → is_empty (jobs_of k q) ≡ false
    → Shape q order (discard k busy)
leave-Shape k q order busy h once full = record {
  keyed = h.keyed;
  ordered = h.ordered;
  order_once = h.order_once;
  no_leak = λ i e.
      ground
        (arith, mem-discard i k busy once, h.no_leak i e, get-jobs_of i [] q e, text_eq_iff k i);
}

-- The session that a worker takes from is busy.
pub take-Shape :
    (k : Text) (job : TtsJob) (jobs : List TtsJob) (q : Queues TtsJob)
    (order order' busy : List Text)
    → get k q ≡ some (job ∷ jobs)
    → ((i : Text) → mem i order' ≡ mem i order)
    → AllDifferent order'
    → Shape q order busy
    → Shape (put k jobs q) order' (k ∷ busy)
take-Shape k job jobs q order order' busy at same once h =
    put-Shape k jobs q order' (k ∷ busy)
      (subst (OwnedBy session_of k) (get-jobs_of k (job ∷ jobs) q at)
        (jobs_of-OwnedBy session_of k q h.keyed)).1
      (rw at refl) (λ e. unfold mem in rw (text_eq_refl k) refl)
      (record {
        keyed = h.keyed;
        ordered = λ i. same i ∙ h.ordered i;
        order_once = once;
        no_leak = λ i e. unfold mem in ground (arith, h.no_leak i e);
      })
