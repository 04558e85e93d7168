-- ===== src/Pipeline/Cuts.antt =====
-- services/gpu-service/src/hugging_voice_service/pipeline.py: a turn that ends inside the window is cut
-- without a raise, and what the caller's audio does keeps the window.
use livekit_hugging_voice.Base.{
  ℕ, ◌+◌, ◌-◌, ◌*◌, ◌≤◌, ◌≡◌, refl, sym, ap, subst, ◌∙◌, ◌⊎◌, inl, inr, Bool, true, false, Option,
  none, some, List, arith, if◌then◌else◌, drop, Result, ok, err,
}
use livekit_hugging_voice.Base.Int.{ℤ}
use livekit_hugging_voice.Text.{Text}
use livekit_hugging_voice.AudioBuffer.{
  BoundedAudioBuffer, BufferFault, slice_samples, discard_before,
}
use livekit_hugging_voice.Pipeline.{
  transport_refused, refuse, Event, speech_stopped, Fault, VoicePipeline, continue, modify,
}
use livekit_hugging_voice.Pipeline.Responses.{is_some}
use livekit_hugging_voice.Pipeline.Speech.{
  ms_of, is_completed, queue_turn, with_buffer, cut_turn, complete_turn, stop_segment, speech_stops,
}
use livekit_hugging_voice.Pipeline.Stages.{send-cases, taken}
use livekit_hugging_voice.Pipeline.Frames.{if-Keeps}
use livekit_hugging_voice.Pipeline.Windows.{
  Covers, Pending, Opens, Held, Window, IsWindowed, reopened, slice_inside, discard_inside,
}

-- the buffer from the end of a turn on
abbrev pub cut_to : ℕ → VoicePipeline → VoicePipeline
cut_to n s = record s {
  input_audio_buffer = record s.input_audio_buffer {
    bytes = drop ((n - s.input_audio_buffer.first_sample) * 2) s.input_audio_buffer.bytes;
    first_sample = n;
  };
}

-- what `_complete_turn` does with an end inside the buffer
cut_inside :
    (turn_id : Text) (revision : ℤ) (m n : ℕ) (s : VoicePipeline)
    → s.input_audio_buffer.first_sample ≤ m
    → m ≤ n
    → n ≤ s.input_audio_buffer.end_sample
    → (audio : List ℕ) × (cut_turn turn_id revision n s (slice_samples m n s.input_audio_buffer)
        ≡ queue_turn turn_id revision (cut_to n s) (ok audio))
cut_inside t v m n s h k l =
    let (audio, e) = slice_inside m n s.input_audio_buffer h k l in
    let d = discard_inside n s.input_audio_buffer (omega (arith, h, k)) l in
    (
      audio,
      ap (cut_turn t v n s) e
          ∙ ap (λ r. continue (with_buffer s r) (λ u. queue_turn t v u (ok audio))) d,
    )

abbrev closed_turn : Text → ℤ → VoicePipeline → VoicePipeline
closed_turn t v s = record s {
  completed_turn = some (t, v);
  partial_epoch = s.partial_epoch + 1;
  partial_task = none;
}

-- A property of what `_complete_turn` gives needs a proof for a turn that is queued already, and one
-- for a turn that is cut.
complete_by :
    (P : VoicePipeline × Option Fault → Type 0) (turn_id : Text) (revision : ℤ) (m n : ℕ)
    (s : VoicePipeline)
    → s.input_audio_buffer.first_sample ≤ m
    → m ≤ n
    → n ≤ s.input_audio_buffer.end_sample
    → P (s, none)
    → ((audio : List ℕ)
        → P (queue_turn turn_id revision (cut_to n (closed_turn turn_id revision s)) (ok audio)))
    → P (complete_turn turn_id revision m n s)
unfolding complete_turn
complete_by P t v m n s h k l old new = by_key (is_completed t v s.completed_turn)
  where
    by_key :
        (b : Bool)
        → P (
            if b
            then (s, none)
            else cut_turn t v n (closed_turn t v s) (slice_samples m n s.input_audio_buffer))
    by_key true = old
    by_key false =
        let (audio, e) = cut_inside t v m n (closed_turn t v s) h k l in subst P (sym e) (new audio)

abbrev stopping :
    Text → ℕ → ℕ → VoicePipeline → VoicePipeline × Option Fault → VoicePipeline × Option Fault
stopping t m n s x =
    continue (continue x (modify (λ u. record u { speech_start_sample = none })))
      (complete_turn t s.current_turn_revision m n)

-- What `_speech_stopped` gives inside the window, if `P` holds where the transport refuses, where the
-- turn is queued already, and where it is cut.
stop_by :
    (P : VoicePipeline × Option Fault → Type 0) (ot : Option Text) (os : Option ℕ) (n : ℕ)
    (s : VoicePipeline)
    → s.speech_start_sample ≡ os
    → Opens s.input_audio_buffer os
    → Covers os n s.input_audio_buffer
    → (is_some ot ≡ false → P (s, none))
    → P (refuse s, some transport_refused)
    → ((event : Event) (left : ℕ)
        → P (record (taken event left s) { speech_start_sample = none }, none))
    → ((event : Event) (left : ℕ) (t : Text) (v : ℤ) (audio : List ℕ)
        → P (
            queue_turn t v
              (cut_to n
                (closed_turn t v (record (taken event left s) { speech_start_sample = none })))
              (ok audio)))
    → P (stop_segment ot os n s)
stop_by P none os n s e h k idle refused_ old new = idle refl
stop_by P (some t) none n s e h k idle refused_ old new = absurd k
stop_by P (some t) (some m) n s e h k idle refused_ old new =
    let event = speech_stopped t s.current_turn_revision (ms_of n) in
    elim (send-cases event s) [
      | inl (refused, b) ↦ subst (λ x. P (stopping t m n s x)) (sym refused) refused_
      | inr (left, took, free) ↦
          subst (λ x. P (stopping t m n s x)) (sym took)
            (complete_by P t s.current_turn_revision m n
              (record (taken event left s) { speech_start_sample = none }) h.0 k.0 k.1
              (old event left) (new event left t s.current_turn_revision))
    ]

abbrev IsRefusedAtMost : VoicePipeline × Option Fault → Type 0
IsRefusedAtMost x = (x.1 ≡ none) ⊎ (x.1 ≡ some transport_refused)

-- Inside the window the end of a turn raises nothing but what the transport refuses: no slice and no
-- cut falls outside the buffer.
pub speech_stops_inside :
    (n : ℕ) (s : VoicePipeline)
    → Opens s.input_audio_buffer s.speech_start_sample
    → Covers s.speech_start_sample n s.input_audio_buffer
    → ((speech_stops n s).1 ≡ none) ⊎ ((speech_stops n s).1 ≡ some transport_refused)
unfolding speech_stops
speech_stops_inside n s h k =
    stop_by IsRefusedAtMost s.current_turn_id s.speech_start_sample n s refl h k (λ e. inl refl)
      (inr refl) (λ event left. inl refl) (λ event left t v audio. inl refl)

Covers-end : (os : Option ℕ) (n : ℕ) (b : BoundedAudioBuffer) → Covers os n b → n ≤ b.end_sample
Covers-end none n b h = absurd h
Covers-end (some m) n b h = h.1

not-Held : (b : Bool) (os : Option ℕ) → b ≡ false → Held b os → os ≡ none
not-Held b none e h = refl
not-Held b (some m) e h = ground (arith, e, h)

-- the window is kept, and unless something is raised no segment is open
abbrev pub IsStopped : VoicePipeline × Option Fault → Type 0
IsStopped x = IsWindowed x.0 × (x.1 ≡ none → x.0.speech_start_sample ≡ none)

-- The end of a turn keeps the window, if no candidate awaits a later one.
pub speech_stops-IsStopped :
    (n : ℕ) (s : VoicePipeline)
    → s.input_audio_buffer.first_sample ≤ s.input_audio_buffer.end_sample
    → Opens s.input_audio_buffer s.speech_start_sample
    → Covers s.speech_start_sample n s.input_audio_buffer
    → Pending s.smart_turn s.input_audio_buffer none s.turn_candidate_id s.turn_candidate_task
        s.turn_fallback_task
    → Held (is_some s.current_turn_id) s.speech_start_sample
    → IsStopped (speech_stops n s)
unfolding speech_stops
speech_stops-IsStopped n s o h k p held =
    stop_by IsStopped s.current_turn_id s.speech_start_sample n s refl h k
      (λ e. (kept, λ f. not-Held (is_some s.current_turn_id) s.speech_start_sample e held))
      (kept, λ f. ground arith) (λ event left. ((o, tt, p, tt), λ f. refl))
      (λ event left t v audio.
        ((Covers-end s.speech_start_sample n s.input_audio_buffer k, tt, p, tt), λ f. refl))
  where
    kept : IsWindowed s
    kept = (
      o,
      h,
      reopened s.smart_turn s.input_audio_buffer s.speech_start_sample s.turn_candidate_id
          s.turn_candidate_task s.turn_fallback_task p,
      held,
    )

discard-IsWindowed :
    (n : ℕ) (s : VoicePipeline) (r : Result BufferFault BoundedAudioBuffer)
    → discard_before n s.input_audio_buffer ≡ r
    → s.speech_start_sample ≡ none
    → IsWindowed s
    → IsWindowed (with_buffer s r).0
discard-IsWindowed n s (err e) q none_open h = h
discard-IsWindowed n s (ok b) q none_open h = (
  unfold discard_before in ground (arith, q),
  subst (Opens b) (sym none_open) tt,
  subst
      (λ os.
        Pending s.smart_turn b os s.turn_candidate_id s.turn_candidate_task s.turn_fallback_task)
      (sym none_open)
      (subst
        (λ os.
          Pending s.smart_turn s.input_audio_buffer os s.turn_candidate_id s.turn_candidate_task
            s.turn_fallback_task)
        none_open h.2),
  h.3,
)

queue-IsWindowed :
    (t : Text) (v : ℤ) (audio : List ℕ) (x : VoicePipeline × Option Fault)
    → IsWindowed x.0
    → IsWindowed (continue x (λ u. queue_turn t v u (ok audio))).0
queue-IsWindowed t v audio (s, none) h = h
queue-IsWindowed t v audio (s, some e) h = h

cut-IsWindowed :
    (t : Text) (v : ℤ) (n : ℕ) (s : VoicePipeline) (r : Result BufferFault (List ℕ))
    → s.speech_start_sample ≡ none
    → IsWindowed s
    → IsWindowed (cut_turn t v n s r).0
cut-IsWindowed t v n s (err e) none_open h = h
cut-IsWindowed t v n s (ok audio) none_open h =
    queue-IsWindowed t v audio (with_buffer s (discard_before n s.input_audio_buffer))
      (discard-IsWindowed n s (discard_before n s.input_audio_buffer) refl none_open h)

-- With no segment open, `_complete_turn` keeps the window, at whatever samples.
complete-IsWindowed :
    (t : Text) (v : ℤ) (m n : ℕ) (s : VoicePipeline)
    → s.speech_start_sample ≡ none
    → IsWindowed s
    → IsWindowed (complete_turn t v m n s).0
unfolding complete_turn
complete-IsWindowed t v m n s none_open h =
    if-Keeps Window (is_completed t v s.completed_turn) (s, none) _ (λ e. h)
      (λ e.
        cut-IsWindowed t v n (closed_turn t v s) (slice_samples m n s.input_audio_buffer) none_open
          h)

-- The end of a turn at any sample keeps the window, if no candidate awaits a later one.
pub speech_stops-IsWindowed :
    (n : ℕ) (s : VoicePipeline)
    → IsWindowed s
    → Pending s.smart_turn s.input_audio_buffer none s.turn_candidate_id s.turn_candidate_task
        s.turn_fallback_task
    → IsWindowed (speech_stops n s).0
unfolding speech_stops
speech_stops-IsWindowed n s h p = by_turn s.current_turn_id s.speech_start_sample
  where
    by_turn : (ot : Option Text) (os : Option ℕ) → IsWindowed (stop_segment ot os n s).0
    by_turn none os = h
    by_turn (some t) none = h
    by_turn (some t) (some m) =
        elim (send-cases (speech_stopped t s.current_turn_revision (ms_of n)) s) [
          | inl (refused, b) ↦ subst (λ x. IsWindowed (stopping t m n s x).0) (sym refused) h
          | inr (left, took, free) ↦
              subst (λ x. IsWindowed (stopping t m n s x).0) (sym took)
                (complete-IsWindowed t s.current_turn_revision m n
                  (record (taken (speech_stopped t s.current_turn_revision (ms_of n)) left s) {
                    speech_start_sample = none;
                  })
                  refl (h.0, tt, p, tt))
        ]
