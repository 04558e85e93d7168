-- ===== src/Pipeline/Live.antt =====
-- services/gpu-service/src/hugging_voice_service/pipeline.py: commits, clears and verdicts keep the window
-- of the open segment, and so does each history before the drain.
use livekit_hugging_voice.Base.{
  ℕ, ◌+◌, ◌≤◌, ◌≡◌, refl, sym, subst, inl, inr, Bool, true, not, ◌&&◌, Option, none, some, [],
  arith, leb, ◌==◌,
}
use livekit_hugging_voice.AudioBuffer.{BoundedAudioBuffer, clear, size_bytes}
use livekit_hugging_voice.Pipeline.{
  model_failure, TurnCandidate, speech_started, Fault, VoicePipeline, Run, continue, ◌>>◌, modify,
  handled, send_error, close_transport,
}
use livekit_hugging_voice.Pipeline.Responses.{is_some, or_else}
use livekit_hugging_voice.Pipeline.Speech.{
  cancel_turn_detection, ms_of, speech_stops, is_awaited, judge_turn, detection_failed,
  free_candidate, classified_of, in_task, candidate_classified, candidate_fails, free_fallback,
  fallback_of, fallback_wakes, clear_buffer, open_manual, manual_turn, commit_open, commit_audio,
  clear_audio, max_incomplete_verdicts,
}
use livekit_hugging_voice.Pipeline.Stages.{send-cases, taken}
use livekit_hugging_voice.Pipeline.Frames.{continue-Keeps, caught-Keeps, error-Keeps}
use livekit_hugging_voice.Pipeline.Windows.{
  Covers, Waits, Pending, Opens, Window, Held, IsWindowed, reopened,
}
use livekit_hugging_voice.Pipeline.Cuts.{IsStopped, speech_stops-IsStopped}
use livekit_hugging_voice.Pipeline.Segments.{windowed_if}

-- after a turn's end without a raise the buffer may be cleared
cleared-IsWindowed :
    (s : VoicePipeline) → s.speech_start_sample ≡ none → IsWindowed s → IsWindowed (clear_buffer s)
unfolding clear
cleared-IsWindowed s e h = (
  omega arith,
  subst (Opens (clear s.input_audio_buffer)) (sym e) tt,
  uncovered s.turn_candidate_task s.turn_fallback_task (
      subst
        (λ os.
          Pending s.smart_turn s.input_audio_buffer os s.turn_candidate_id s.turn_candidate_task
            s.turn_fallback_task)
        e h.2),
  h.3,
)
  where
    uncovered :
        (ct ft : Option TurnCandidate)
        → Pending s.smart_turn s.input_audio_buffer none s.turn_candidate_id ct ft
        → Pending s.smart_turn
            (clear s.input_audio_buffer)
            s.speech_start_sample
            s.turn_candidate_id
            ct
            ft
    uncovered none none h = tt
    uncovered (some c) none h = (h.0, (h.1.0, λ e. absurd (h.1.1 e)))
    uncovered none (some c) h = (h.0, (h.1.0, λ e. absurd (h.1.1 e)))
    uncovered (some c) (some d) h = absurd h

stopped_and_cleared :
    (x : VoicePipeline × Option Fault)
    → IsStopped x
    → IsWindowed (continue x (modify clear_buffer)).0
stopped_and_cleared (s, none) h = cleared-IsWindowed s (h.1 refl) h.0
stopped_and_cleared (s, some e) h = h.0

-- an end at the last sample is covered
Covers-all :
    (os : Option ℕ) (b : BoundedAudioBuffer)
    → is_some os ≡ true
    → Opens b os
    → Covers os b.end_sample b
Covers-all none b e h = ground arith
Covers-all (some m) b e h = (h.1, omega arith)

manual-IsWindowed :
    (s : VoicePipeline)
    → Pending s.smart_turn s.input_audio_buffer none s.turn_candidate_id s.turn_candidate_task
        s.turn_fallback_task
    → s.input_audio_buffer.first_sample ≤ s.input_audio_buffer.end_sample
    → IsWindowed (manual_turn s).0
unfolding manual_turn
manual-IsWindowed s p o =
    let s' = open_manual s in
    let m = s.input_audio_buffer.end_sample in
    let event =
      speech_started (or_else s'.current_turn_id []) s'.current_turn_revision
        (ms_of s.input_audio_buffer.first_sample) in
    let opened : Opens s.input_audio_buffer s'.speech_start_sample = (omega arith, o) in
    elim (send-cases event s') [
      | inl (refused, b) ↦
          subst
            (λ (x : VoicePipeline × Option Fault).
              IsWindowed (continue (continue x (speech_stops m)) (modify clear_buffer)).0)
            (sym refused)
            (
              o,
              opened,
              reopened s.smart_turn s.input_audio_buffer s'.speech_start_sample s.turn_candidate_id
                  s.turn_candidate_task s.turn_fallback_task p,
              refl,
            )
      | inr (left, took, free) ↦
          subst
            (λ (x : VoicePipeline × Option Fault).
              IsWindowed (continue (continue x (speech_stops m)) (modify clear_buffer)).0)
            (sym took)
            (stopped_and_cleared (speech_stops m (taken event left s'))
              (speech_stops-IsStopped m (taken event left s') o opened (o, omega arith) p refl))
    ]

pub commit-IsWindowed : (s : VoicePipeline) → IsWindowed s → IsWindowed (commit_audio s).0
unfolding commit_audio commit_open
commit-IsWindowed s h =
    let s' = record (cancel_turn_detection s) { turn_candidate_id = s.turn_candidate_id + 1 } in
    let m = s.input_audio_buffer.end_sample in
    windowed_if (is_some s.speech_start_sample) ((speech_stops m >> modify clear_buffer) s') _
      (λ e. stopped_and_cleared (speech_stops m s') (
        speech_stops-IsStopped m s' h.0 h.1
          (Covers-all s.speech_start_sample s.input_audio_buffer e h.1) tt h.3))
      (λ e.
        windowed_if (size_bytes s.input_audio_buffer == 0) (s', none) (manual_turn s')
          (λ f. (h.0, h.1, tt, h.3)) (λ f. manual-IsWindowed s' tt h.0))

pub clear-IsWindowed : (s : VoicePipeline) → IsWindowed (clear_audio s)
unfolding clear_audio clear
clear-IsWindowed s = (omega arith, tt, tt, tt)

pub detection_failed-IsWindowed :
    (s : VoicePipeline) → IsWindowed s → IsWindowed (detection_failed s).0
detection_failed-IsWindowed s h =
    continue-Keeps Window (send_error model_failure s) close_transport
      (error-Keeps Window model_failure s h) (λ u k. k)

-- an awaited candidate is covered
pub awaited-Covers :
    (c : TurnCandidate) (s : VoicePipeline)
    → is_awaited c s ≡ true
    → Waits s.input_audio_buffer s.speech_start_sample s.turn_candidate_id c
    → Covers s.speech_start_sample c.sample_index s.input_audio_buffer
unfolding is_awaited
awaited-Covers c s e h = h.1 (ground (arith, e))

-- a stop for an awaited candidate, whose task was the only one
judged_stop :
    (c : TurnCandidate) (s : VoicePipeline)
    → is_awaited c s ≡ true
    → Waits s.input_audio_buffer s.speech_start_sample s.turn_candidate_id c
    → s.turn_candidate_task ≡ none
    → s.turn_fallback_task ≡ none
    → IsWindowed s
    → IsWindowed (speech_stops c.sample_index s).0
judged_stop c s e w ct ft h =
    (speech_stops-IsStopped c.sample_index s h.0 h.1 (awaited-Covers c s e w)
      (subst
        (λ ot.
          Pending s.smart_turn s.input_audio_buffer none s.turn_candidate_id ot
            s.turn_fallback_task)
        (sym ct)
        (subst (λ ot. Pending s.smart_turn s.input_audio_buffer none s.turn_candidate_id none ot)
          (sym ft) tt))
      h.3).0

judge-IsWindowed :
    (c : TurnCandidate) (complete : Bool) (s : VoicePipeline)
    → is_awaited c s ≡ true
    → s.smart_turn ≡ true
    → Waits s.input_audio_buffer s.speech_start_sample s.turn_candidate_id c
    → s.turn_candidate_task ≡ none
    → s.turn_fallback_task ≡ none
    → IsWindowed s
    → IsWindowed (judge_turn c complete s).0
unfolding judge_turn
judge-IsWindowed c complete s e smart w ct ft h =
    let counted = record s { incomplete_verdicts = s.incomplete_verdicts + 1 } in
    windowed_if complete (speech_stops c.sample_index s) _ (λ f. judged_stop c s e w ct ft h)
      (λ f.
        windowed_if (leb max_incomplete_verdicts (s.incomplete_verdicts + 1))
          (speech_stops c.sample_index counted)
          (record counted { turn_fallback_task = some c }, none)
          (λ f. judged_stop c counted (unfold is_awaited in e) w ct ft h)
          (λ f. (
            h.0,
            h.1,
            subst
                (λ ot.
                  Pending s.smart_turn s.input_audio_buffer s.speech_start_sample
                    s.turn_candidate_id ot (some c))
                (sym ct) (smart, w),
            h.3,
          )))

pub only_candidate :
    (smart : Bool) (b : BoundedAudioBuffer) (start : Option ℕ) (id : ℕ) (c : TurnCandidate)
    (ot : Option TurnCandidate)
    → Pending smart b start id (some c) ot
    → (ot ≡ none) × (smart ≡ true) × Waits b start id c
only_candidate smart b start id c none h = (refl, h.0, h.1)
only_candidate smart b start id c (some d) h = absurd h

only_fallback :
    (smart : Bool) (b : BoundedAudioBuffer) (start : Option ℕ) (id : ℕ) (c : TurnCandidate)
    (ot : Option TurnCandidate)
    → Pending smart b start id ot (some c)
    → (ot ≡ none) × (smart ≡ true) × Waits b start id c
only_fallback smart b start id c none h = (refl, h.0, h.1)
only_fallback smart b start id c (some d) h = absurd h

-- both slots free
freed :
    (s : VoicePipeline)
    → s.turn_candidate_task ≡ none
    → s.turn_fallback_task ≡ none
    → s.input_audio_buffer.first_sample ≤ s.input_audio_buffer.end_sample
    → Opens s.input_audio_buffer s.speech_start_sample
    → Held (is_some s.current_turn_id) s.speech_start_sample
    → IsWindowed s
freed s ct ft o w held = (
  o,
  w,
  subst
      (λ ot.
        Pending s.smart_turn s.input_audio_buffer s.speech_start_sample s.turn_candidate_id ot
          s.turn_fallback_task)
      (sym ct)
      (subst
        (λ ot.
          Pending s.smart_turn s.input_audio_buffer s.speech_start_sample s.turn_candidate_id none
            ot)
        (sym ft) tt),
  held,
)

answered-IsWindowed :
    (answer : Option Bool) (c : TurnCandidate) (s : VoicePipeline)
    → s.smart_turn ≡ true
    → Waits s.input_audio_buffer s.speech_start_sample s.turn_candidate_id c
    → s.turn_candidate_task ≡ none
    → s.turn_fallback_task ≡ none
    → IsWindowed s
    → IsWindowed (classified_of answer c s).0
unfolding classified_of
answered-IsWindowed none c s smart w ct ft h = h
answered-IsWindowed (some complete) c s smart w ct ft h =
    windowed_if (is_awaited c s) (handled (judge_turn c complete) detection_failed s) (s, none)
      (λ e.
        caught-Keeps Window (judge_turn c complete s) detection_failed
          (judge-IsWindowed c complete s e smart w ct ft h) detection_failed-IsWindowed)
      (λ e. h)

candidate_of :
    (oc : Option TurnCandidate) (f : TurnCandidate → Run) (s : VoicePipeline)
    → s.turn_candidate_task ≡ oc
    → IsWindowed s
    → ((c : TurnCandidate)
        → s.smart_turn ≡ true
        → Waits s.input_audio_buffer s.speech_start_sample s.turn_candidate_id c
        → s.turn_fallback_task ≡ none
        → IsWindowed (free_candidate s)
        → IsWindowed (f c s).0)
    → IsWindowed (in_task oc f s).0
candidate_of none f s e h k = h
candidate_of (some c) f s e h k =
    let (ft, smart, w) =
      only_candidate s.smart_turn s.input_audio_buffer s.speech_start_sample s.turn_candidate_id c
        s.turn_fallback_task
        (subst
          (λ ot.
            Pending s.smart_turn s.input_audio_buffer s.speech_start_sample s.turn_candidate_id ot
              s.turn_fallback_task)
          e h.2) in
    k c smart w ft (freed (free_candidate s) refl ft h.0 h.1 h.3)

pub classified-IsWindowed :
    (answer : Option Bool) (s : VoicePipeline)
    → IsWindowed s
    → IsWindowed (candidate_classified answer s).0
unfolding candidate_classified
classified-IsWindowed answer s h =
    candidate_of s.turn_candidate_task (λ c t. classified_of answer c (free_candidate t)) s refl h
      λ c smart w ft k. answered-IsWindowed answer c (free_candidate s) smart w refl ft k

pub fails-IsWindowed : (s : VoicePipeline) → IsWindowed s → IsWindowed (candidate_fails s).0
unfolding candidate_fails
fails-IsWindowed s h =
    candidate_of s.turn_candidate_task (λ c t. detection_failed (free_candidate t)) s refl h
      λ c smart w ft k. detection_failed-IsWindowed (free_candidate s) k

fallback_of-IsWindowed :
    (active expired : Bool) (oc : Option TurnCandidate) (s : VoicePipeline)
    → s.turn_fallback_task ≡ oc
    → IsWindowed s
    → IsWindowed (in_task oc (fallback_of active expired) s).0
unfolding fallback_of
fallback_of-IsWindowed active expired none s e h = h
fallback_of-IsWindowed active expired (some c) s e h =
    let (ct, smart, w) =
      only_fallback s.smart_turn s.input_audio_buffer s.speech_start_sample s.turn_candidate_id c
        s.turn_candidate_task
        (subst
          (λ ot.
            Pending s.smart_turn s.input_audio_buffer s.speech_start_sample s.turn_candidate_id
              s.turn_candidate_task ot)
          e h.2) in
    let k = freed (free_fallback s) ct refl h.0 h.1 h.3 in
    windowed_if (not s.draining && s.turn_candidate_id == c.candidate_id && active && not expired)
      (s, none) _ (λ f. h)
      (λ f.
        windowed_if (is_awaited c s) (speech_stops c.sample_index (free_fallback s))
          (free_fallback s, none)
          (λ a. judged_stop c (free_fallback s) (unfold is_awaited in a) w ct refl k) (λ a. k))

pub fallback-IsWindowed :
    (active expired : Bool) (s : VoicePipeline)
    → IsWindowed s
    → IsWindowed (fallback_wakes active expired s).0
unfolding fallback_wakes
fallback-IsWindowed active expired s h =
    fallback_of-IsWindowed active expired s.turn_fallback_task s refl h
