-- ===== src/Pipeline/Stages.antt =====
-- services/gpu-service/src/hugging_voice_service/pipeline.py: what each send of a response does to the
-- order of the events, with the transport refusing from any event on.
use livekit_hugging_voice.Base.{
  ℕ, zero, suc, ◌≡◌, refl, sym, ap, subst, ◌∙◌, ◌⊎◌, inl, inr, Bool, true, false, Option, none,
  some, List, [], ◌∷◌, ◌++◌, arith, if◌then◌else◌,
}
use livekit_hugging_voice.Text.{text_eq_refl}
use livekit_hugging_voice.Cancellation.{GenerationToken}
use livekit_hugging_voice.Pipeline.{
  ErrorCode, ResponseStatus, ResponseReason, ResponseContext, ResponseTask, Event, output_text_done,
  output_audio_done, response_done, error, Fault, transport_refused, refuse, VoicePipeline, Run,
  continue, ◌>>◌, modify, send, send_within, send_error,
}
use livekit_hugging_voice.Pipeline.Responses.{
  or_else, no_usage, with_context, on_response, text_done_of, audio_done_of, finalize_of,
  finish_token,
}
use livekit_hugging_voice.Pipeline.Follows.{
  Progress, follow, and_follow, follow_all-append, progress,
}

-- the transport has refused an event, and takes none now
abbrev pub Blocks : Bool → Bool × ℕ → Type 0
Blocks closed (refused, room) = (refused ≡ true) × ((closed ≡ true) ⊎ (room ≡ 0))

abbrev pub IsBlocked : VoicePipeline → Type 0
IsBlocked s = Blocks s.transport_closed (s.refused, s.room)

-- which of `text_done`, `audio_done` and `finalized` are set
pub record Flags : Type 0 where
  pub text : Bool
  pub audio : Bool
  pub final : Bool

abbrev pub progress_of : Flags → ResponseContext → Progress
progress_of f c = record {
  id = c.response_id;
  text_done = f.text;
  audio_done = f.audio;
  done = f.final;
}

-- the context has these flags, and the client was told so
abbrev pub Agrees : Flags → Option Progress → Option ResponseContext → Type 0
Agrees f p none = ⊥
Agrees f p (some c) =
    (c.text_done ≡ f.text)
    × (c.audio_done ≡ f.audio)
    × (c.finalized ≡ f.final)
    × (p ≡ some (progress_of f c))

-- The events are in order, and if the transport still takes events, the response is at these flags.
pub record Reached (f : Flags) (sent : List Event) (closed : Bool) (room : Bool × ℕ)
    (response : Option ResponseContext) : Type 0 where
  pub last : Option Progress
  pub reached : progress sent ≡ some last
  pub agrees : Blocks closed room ⊎ Agrees f last response

abbrev pub At : Flags → VoicePipeline → Type 0
At f s = Reached f s.sent s.transport_closed (s.refused, s.room) s.response

-- so it is after a function that raises only what the transport refuses
abbrev pub Brings : Flags → VoicePipeline × Option Fault → Type 0
Brings f (s, none) = At f s
Brings f (s, some e) = At f s × IsBlocked s

abbrev pub made : Bool → Bool → Bool → Flags
made t a d = record { text = t; audio = a; final = d }

pub blocked_anyhow : (f g : Flags) (s : VoicePipeline) → At f s → IsBlocked s → At g s
blocked_anyhow f g s h b = record { last = h.last; reached = h.reached; agrees = inl b }

pub then-Brings :
    (g : Flags) (x : VoicePipeline × Option Fault) (f : Flags) (k : Run)
    → Brings f x
    → ((s : VoicePipeline) → At f s → Brings g (k s))
    → Brings g (continue x k)
then-Brings g (s, none) f k h keep = keep s h
then-Brings g (s, some e) f k h keep = (blocked_anyhow f g s h.0 h.1, h.1)

abbrev pub taken : Event → ℕ → VoicePipeline → VoicePipeline
taken event room s = record s { sent = s.sent ++ event ∷ []; room = room }

abbrev pub SendOutcome : Event → VoicePipeline → VoicePipeline × Option Fault → Type 0
SendOutcome event s x =
    ((x ≡ (refuse s, some transport_refused)) × IsBlocked (refuse s))
    ⊎ ((left : ℕ) × (x ≡ (taken event left s, none)) × (¬ IsBlocked s))

send_within-cases :
    (room : ℕ) (event : Event) (s : VoicePipeline)
    → room ≡ s.room
    → s.transport_closed ≡ false
    → SendOutcome event s (send_within room event s)
send_within-cases zero event s e o = inl (refl, (refl, inr (sym e)))
send_within-cases (suc room) event s e o = inr (room, refl, ground arith)

send_if-cases :
    (closed : Bool) (event : Event) (s : VoicePipeline)
    → s.transport_closed ≡ closed
    → SendOutcome event s
        (if closed then (refuse s, some transport_refused) else send_within s.room event s)
send_if-cases true event s e = inl (refl, (refl, inl e))
send_if-cases false event s e = send_within-cases s.room event s refl e

-- The transport refuses an event and every later one before the next await, or takes it.
pub send-cases : (event : Event) (s : VoicePipeline) → SendOutcome event s (send event s)
unfolding send
send-cases event s = send_if-cases s.transport_closed event s refl

pub progress-taken :
    (event : Event) (room : ℕ) (s : VoicePipeline) (p q : Option Progress)
    → progress s.sent ≡ some p
    → follow p event ≡ some q
    → progress (taken event room s).sent ≡ some q
progress-taken event room s p q e f =
    follow_all-append (some none) s.sent event ∙ ap (λ o. and_follow o event) e ∙ f

-- An event that the automaton follows from `p` to `q`, sent where the response has moved on to `g`.
pub send-Brings :
    (event : Event) (g : Flags) (s : VoicePipeline) (p q : Option Progress)
    → progress s.sent ≡ some p
    → IsBlocked s ⊎ ((follow p event ≡ some q) × Agrees g q s.response)
    → Brings g (send event s)
send-Brings event g s p q e h = elim (send-cases event s) [
  | inl (refused, b) ↦
      subst (Brings g) (sym refused) (record { last = p; reached = e; agrees = inl b }, b)
  | inr (left, took, free) ↦ elim h [
    | inl b ↦ absurd (free b)
    | inr (f, a) ↦
        subst (Brings g) (sym took)
          (record { last = q; reached = progress-taken event left s p q e f; agrees = inr a })
  ]
]

pub no_response : (f : Flags) (s : VoicePipeline) → s.response ≡ none → At f s → IsBlocked s
no_response f s e h = elim h.agrees [ inl b ↦ b | inr a ↦ absurd (subst (Agrees f h.last) e a) ]

finish-Brings :
    (g : Flags) (token : GenerationToken) (s : VoicePipeline)
    → At g s
    → Brings g (modify (finish_token token) s)
finish-Brings g token s h = h

module _ (s : VoicePipeline) where
  pub text_done_first :
      (o : Option ResponseContext)
      → s.response ≡ o
      → At (made false false false) s
      → Brings (made true false false) (on_response o text_done_of s)
  unfolding text_done_of follow
  text_done_first none e h = blocked_anyhow _ _ s h (no_response _ s e h)
  text_done_first (some c) e h = ground (
    arith,
    send-Brings (output_text_done (record c { text_done = true })) (made true false false)
        (with_context (record c { text_done = true }) s) h.last
        (some (progress_of (made true false false) c)) h.reached,
    text_eq_refl c.response_id,
  )

  pub text_done_again :
      (a d : Bool) (o : Option ResponseContext)
      → s.response ≡ o
      → At (made true a d) s
      → Brings (made true a d) (on_response o text_done_of s)
  unfolding text_done_of follow
  text_done_again a d none e h = h
  text_done_again a d (some c) e h = ground (
    arith,
    send-Brings (output_text_done (record c { text_done = true })) (made true a d)
        (with_context (record c { text_done = true }) s) h.last
        (some (progress_of (made true false false) c)) h.reached,
    text_eq_refl c.response_id,
  )

  pub audio_done_first :
      (o : Option ResponseContext)
      → s.response ≡ o
      → At (made true false false) s
      → Brings (made true true false) (on_response o audio_done_of s)
  unfolding audio_done_of follow
  audio_done_first none e h = blocked_anyhow _ _ s h (no_response _ s e h)
  audio_done_first (some c) e h = ground (
    arith,
    send-Brings (output_audio_done (record c { audio_done = true })) (made true true false)
        (with_context (record c { audio_done = true }) s) h.last
        (some (progress_of (made true true false) c)) h.reached,
    text_eq_refl c.response_id,
  )

  pub audio_done_again :
      (t d : Bool) (o : Option ResponseContext)
      → s.response ≡ o
      → At (made t true d) s
      → Brings (made t true d) (on_response o audio_done_of s)
  unfolding audio_done_of follow
  audio_done_again t d none e h = h
  audio_done_again t d (some c) e h = ground (
    arith,
    send-Brings (output_audio_done (record c { audio_done = true })) (made t true d)
        (with_context (record c { audio_done = true }) s) h.last
        (some (progress_of (made true true false) c)) h.reached,
    text_eq_refl c.response_id,
  )

  -- `response.done` for a context that is not finalized, with both of the others sent or neither
  closing :
      (t a d : Bool) (status : ResponseStatus) (reason : ResponseReason) (c : ResponseContext)
      → s.response ≡ some c
      → At (made t a d) s
      → IsBlocked s ⊎ ((t ≡ a) × (d ≡ false))
      → Brings (made t a true) (
          (send (
                response_done
                  (record c { finalized = true })
                  status
                  reason
                  (or_else c.usage no_usage))
              >> modify (finish_token c.token))
            (with_context (record c { finalized = true }) s))
  unfolding follow
  closing t a d status reason c e h fit =
      then-Brings (made t a true)
        (send
          (response_done (record c { finalized = true }) status reason (or_else c.usage no_usage))
          (with_context (record c { finalized = true }) s))
        (made t a true) (modify (finish_token c.token))
        (ground (
          arith,
          send-Brings
              (response_done (record c { finalized = true }) status reason
                (or_else c.usage no_usage))
              (made t a true) (with_context (record c { finalized = true }) s) h.last
              (some (progress_of (made t a true) c)) h.reached,
          text_eq_refl c.response_id,
        ))
        (finish-Brings (made t a true) c.token)

  pub finalize_first :
      (b : Bool) (status : ResponseStatus) (reason : ResponseReason) (o : Option ResponseContext)
      → s.response ≡ o
      → At (made b b false) s
      → Brings (made b b true) (on_response o (finalize_of status reason) s)
  unfolding finalize_of
  finalize_first b status reason none e h = blocked_anyhow _ _ s h (no_response _ s e h)
  finalize_first b status reason (some c) e h =
      ground (arith, closing b b false status reason c e h (inr (refl, refl)))

  pub finalize_again :
      (t a : Bool) (status : ResponseStatus) (reason : ResponseReason) (o : Option ResponseContext)
      → s.response ≡ o
      → At (made t a true) s
      → Brings (made t a true) (on_response o (finalize_of status reason) s)
  unfolding finalize_of
  finalize_again t a status reason none e h = h
  finalize_again t a status reason (some c) e h =
      ground (arith, closing t a true status reason c e h)

-- an event of no response
abbrev pub IsNeutral : Event → Type 0
IsNeutral event = (p : Option Progress) → follow p event ≡ some p

pub neutral-Brings :
    (event : Event) (f : Flags) (s : VoicePipeline)
    → IsNeutral event
    → At f s
    → Brings f (send event s)
neutral-Brings event f s n h =
    ground (arith, n h.last, send-Brings event f s h.last h.last h.reached)

pub error-Brings :
    (code : ErrorCode) (f : Flags) (s : VoicePipeline) → At f s → Brings f (send_error code s)
unfolding send_error follow
error-Brings code f s h = neutral-Brings (error code) f s (λ p. refl) h

-- what a send leaves alone
pub send-frame :
    (event : Event) (s : VoicePipeline)
    → ((send event s).0.response_task ≡ s.response_task)
      × ((send event s).0.response ≡ s.response)
      × ((send event s).0.cancellation ≡ s.cancellation)
send-frame event s = elim (send-cases event s) [
  | inl (refused, b) ↦ rw refused (refl, refl, refl)
  | inr (left, took, free) ↦ rw took (refl, refl, refl)
]

pub At-with :
    (f : Flags) (s : VoicePipeline) (c c' : ResponseContext) (ot : Option ResponseTask)
    → s.response ≡ some c
    → ((p : Option Progress) → Agrees f p (some c) → Agrees f p (some c'))
    → At f s
    → At f (record s { response = some c'; response_task = ot })
At-with f s c c' ot e k h = record {
  last = h.last;
  reached = h.reached;
  agrees = elim h.agrees [ inl b ↦ inl b | inr a ↦ inr (k h.last (subst (Agrees f h.last) e a)) ];
}

-- a delta leaves the stage as it is
pub delta-Brings :
    (event : Event) (f : Flags) (s : VoicePipeline) (c : ResponseContext)
    → s.response ≡ some c
    → follow (some (progress_of f c)) event ≡ some (some (progress_of f c))
    → At f s
    → Brings f (send event s)
delta-Brings event f s c e k h = send-Brings event f s h.last h.last h.reached (elim h.agrees [
  | inl b ↦ inl b
  | inr a ↦ inr (
    let a' : Agrees f h.last (some c) = subst (Agrees f h.last) e a in
        subst (λ q. follow q event ≡ some q) (sym a'.3) k,
    a,
  )
])
