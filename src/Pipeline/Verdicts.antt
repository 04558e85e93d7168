-- ===== src/Pipeline/Verdicts.antt =====
-- services/gpu-service/src/hugging_voice_service/pipeline.py: which verdicts end a turn, and that a turn is
-- queued once.
use livekit_hugging_voice.Base.{
  ℕ, ◌+◌, ◌≤◌, ◌≡◌, refl, sym, ap, subst, ◌∙◌, ◌⊎◌, inl, inr, Bool, true, false, Option, none, some,
  List, arith, leb, Bool-cases, if◌then◌else◌, Result, ok, err,
}
use livekit_hugging_voice.Base.Int.{ℤ, int_eq_iff}
use livekit_hugging_voice.Text.{Text, text_eq_iff, text_eq_refl}
use livekit_hugging_voice.AudioBuffer.{
  BoundedAudioBuffer, BufferFault, slice_samples, discard_before,
}
use livekit_hugging_voice.Pipeline.{
  model_failure, TurnCandidate, Fault, VoicePipeline, continue, caught, handled, send_error,
  close_transport, Event, error, transport_refused, send,
}
use livekit_hugging_voice.Pipeline.Stages.{send-cases}
use livekit_hugging_voice.Pipeline.Speech.{
  is_completed, queue_turn, with_buffer, cut_turn, complete_turn, speech_stops, is_awaited,
  judge_turn, detection_failed, free_candidate, classified_of, in_task, candidate_classified,
  max_incomplete_verdicts,
}
use livekit_hugging_voice.Pipeline.Windows.{Pending, IsWindowed}
use livekit_hugging_voice.Pipeline.Cuts.{speech_stops-IsStopped}
use livekit_hugging_voice.Pipeline.Live.{awaited-Covers, only_candidate}

completed_key :
    (t : Text) (v : ℤ) (n : ℕ) (s : VoicePipeline) (r : Result BufferFault (List ℕ))
    → (cut_turn t v n s r).0.completed_turn ≡ s.completed_turn
completed_key t v n s (err e) = refl
completed_key t v n s (ok audio) = by_result (discard_before n s.input_audio_buffer)
  where
    by_result :
        (r : Result BufferFault BoundedAudioBuffer)
        → (continue (with_buffer s r) (λ u. queue_turn t v u (ok audio))).0.completed_turn
          ≡ s.completed_turn
    by_result (ok b) = refl
    by_result (err e) = refl

key_equal : (t : Text) (v : ℤ) → is_completed t v (some (t, v)) ≡ true
key_equal t v = rw (text_eq_refl t, (int_eq_iff v v).1 refl) refl

is_completed_eq :
    (t : Text) (v : ℤ) (o : Option (Text × ℤ)) → is_completed t v o ≡ true → o ≡ some (t, v)
is_completed_eq t v none e = ground arith
is_completed_eq t v (some (t', v')) e = ground (arith, text_eq_iff t t', int_eq_iff v v')

key_after :
    (t : Text) (v : ℤ) (m n : ℕ) (s : VoicePipeline)
    → (complete_turn t v m n s).0.completed_turn ≡ some (t, v)
unfolding complete_turn
key_after t v m n s = by_key (is_completed t v s.completed_turn) refl
  where
    s' : VoicePipeline
    s' = record s {
      completed_turn = some (t, v);
      partial_epoch = s.partial_epoch + 1;
      partial_task = none;
    }

    by_key :
        (b : Bool)
        → is_completed t v s.completed_turn ≡ b
        → (if b
            then (s, none)
            else cut_turn t v n s' (slice_samples m n s.input_audio_buffer)).0.completed_turn
          ≡ some (t, v)
    by_key true e = is_completed_eq t v s.completed_turn e
    by_key false e = completed_key t v n s' (slice_samples m n s.input_audio_buffer)

if_true : (b : Bool) (x y : VoicePipeline × Option Fault) → b ≡ true → (if b then x else y) ≡ x
if_true b x y e = rw e refl

if_false : (b : Bool) (x y : VoicePipeline × Option Fault) → b ≡ false → (if b then x else y) ≡ y
if_false b x y e = rw e refl

queued_already :
    (t : Text) (v : ℤ) (m n : ℕ) (u : VoicePipeline)
    → u.completed_turn ≡ some (t, v)
    → complete_turn t v m n u ≡ (u, none)
unfolding complete_turn
queued_already t v m n u e =
    if_true (is_completed t v u.completed_turn) (u, none) _
      (ap (is_completed t v) e ∙ key_equal t v)

-- After `_complete_turn`, also after one that raised, a second call for the same turn and revision, at
-- whatever samples, changes nothing and raises nothing.
pub complete_turn_once :
    (t : Text) (v : ℤ) (m n m' n' : ℕ) (s : VoicePipeline)
    → complete_turn t v m' n' (complete_turn t v m n s).0 ≡ ((complete_turn t v m n s).0, none)
complete_turn_once t v m n m' n' s =
    queued_already t v m' n' (complete_turn t v m n s).0 (key_after t v m n s)

-- a verdict on a candidate that is not awaited only frees the task's slot
stale_verdict :
    (answer : Option Bool) (c : TurnCandidate) (s : VoicePipeline)
    → s.turn_candidate_task ≡ some c
    → is_awaited c s ≡ false
    → candidate_classified answer s ≡ (free_candidate s, none)
unfolding candidate_classified
stale_verdict answer c s e stale =
    ap (λ oc. in_task oc (λ c t. classified_of answer c (free_candidate t)) s) e ∙ by_answer answer
  where
    by_answer :
        (answer : Option Bool)
        → classified_of answer c (free_candidate s) ≡ (free_candidate s, none)
    by_answer none = unfold classified_of in refl
    by_answer (some b) =
        unfold classified_of in
        if_false (is_awaited c (free_candidate s))
          (handled (judge_turn c b) detection_failed (free_candidate s)) (free_candidate s, none)
          (unfold is_awaited in stale)

-- the turn of the candidate is still the current one, its segment is open, and no later signal came
pub record Awaited (c : TurnCandidate) (s : VoicePipeline) : Type 0 where
  pub not_draining : s.draining ≡ false
  pub same_turn : s.current_turn_id ≡ some c.turn_id
  pub same_revision : s.current_turn_revision ≡ c.revision
  pub last_candidate : s.turn_candidate_id ≡ c.candidate_id
  pub start : ℕ
  pub open_since : s.speech_start_sample ≡ some start

is_awaited-Awaited :
    (c : TurnCandidate) (s : VoicePipeline) (ot : Option Text) (os : Option ℕ)
    → s.current_turn_id ≡ ot
    → s.speech_start_sample ≡ os
    → is_awaited c s ≡ true
    → Awaited c s
unfolding is_awaited
is_awaited-Awaited c s none os e f h = absurd (ground (arith, e, h))
is_awaited-Awaited c s (some t) none e f h = absurd (ground (arith, f, h))
is_awaited-Awaited c s (some t) (some m) e f h = record {
  not_draining = ground (arith, h);
  same_turn = e ∙ ap some ((text_eq_iff t c.turn_id).0 (ground (arith, e, h)));
  same_revision = (int_eq_iff s.current_turn_revision c.revision).0 (ground (arith, h));
  last_candidate = ground (arith, h);
  start = m;
  open_since = f;
}

-- A verdict on the candidate in the task's slot changes more than that slot only if the session does not
-- drain, the candidate's turn and revision are the current ones, no later signal gave a new number, and the
-- segment is still open.
pub candidate_classified-Awaited :
    (answer : Option Bool) (c : TurnCandidate) (s : VoicePipeline)
    → s.turn_candidate_task ≡ some c
    → Awaited c s ⊎ (candidate_classified answer s ≡ (free_candidate s, none))
candidate_classified-Awaited answer c s e = elim (Bool-cases (is_awaited c s)) [
  | inl h ↦ inl (is_awaited-Awaited c s s.current_turn_id s.speech_start_sample refl refl h)
  | inr h ↦ inr (stale_verdict answer c s e h)
]

send_raises :
    (event : Event) (s : VoicePipeline)
    → ((send event s).1 ≡ none) ⊎ ((send event s).1 ≡ some transport_refused)
send_raises event s = elim (send-cases event s) [
  | inl (refused, b) ↦ inr (ap (λ (x : VoicePipeline × Option Fault). x.1) refused)
  | inr (left, took, free) ↦ inl (ap (λ (x : VoicePipeline × Option Fault). x.1) took)
]

-- a stop that raises is followed by the close of the transport
closed_after :
    (x : VoicePipeline × Option Fault)
    → (x.1 ≡ none → x.0.speech_start_sample ≡ none)
    → ((caught x detection_failed).0.speech_start_sample ≡ none)
      ⊎ ((caught x detection_failed).1 ≡ some transport_refused)
      ⊎ ((caught x detection_failed).0.transport_closed ≡ true)
unfolding send_error
closed_after (s, none) h = inl (h refl)
closed_after (s, some e) h =
    after_error (send (error model_failure) s) (send_raises (error model_failure) s)
  where
    after_error :
        (y : VoicePipeline × Option Fault)
        → (y.1 ≡ none) ⊎ (y.1 ≡ some transport_refused)
        → ((continue y close_transport).0.speech_start_sample ≡ none)
          ⊎ ((continue y close_transport).1 ≡ some transport_refused)
          ⊎ ((continue y close_transport).0.transport_closed ≡ true)
    after_error (u, none) h = inr (inr refl)
    after_error (u, some e) (inl h) = absurd (ground (arith, h))
    after_error (u, some e) (inr h) = inr (inl h)

judged_second :
    (c : TurnCandidate) (s : VoicePipeline)
    → 1 ≤ s.incomplete_verdicts
    → judge_turn c false s
      ≡ speech_stops c.sample_index (record s { incomplete_verdicts = s.incomplete_verdicts + 1 })
unfolding judge_turn
judged_second c s one =
    if_true (leb max_incomplete_verdicts (s.incomplete_verdicts + 1))
      (speech_stops c.sample_index (record s { incomplete_verdicts = s.incomplete_verdicts + 1 })) _
      (ground arith)

-- In a state that keeps the window, an awaited verdict that the turn is not complete, after one before it
-- in the segment, ends the segment: none is open afterwards, unless the transport refuses an event
-- or is closed.
pub second_verdict :
    (c : TurnCandidate) (s : VoicePipeline)
    → IsWindowed s
    → s.turn_candidate_task ≡ some c
    → is_awaited c s ≡ true
    → 1 ≤ s.incomplete_verdicts
    → ((candidate_classified (some false) s).0.speech_start_sample ≡ none)
      ⊎ ((candidate_classified (some false) s).1 ≡ some transport_refused)
      ⊎ ((candidate_classified (some false) s).0.transport_closed ≡ true)
unfolding candidate_classified
second_verdict c s h e awaited one =
    let (ft, smart, w) =
      only_candidate s.smart_turn s.input_audio_buffer s.speech_start_sample s.turn_candidate_id c
        s.turn_fallback_task
        (subst
          (λ ot.
            Pending s.smart_turn s.input_audio_buffer s.speech_start_sample s.turn_candidate_id ot
              s.turn_fallback_task)
          e h.2) in
    let u = free_candidate s in
    let counted = record u { incomplete_verdicts = u.incomplete_verdicts + 1 } in
    let stopped =
      speech_stops-IsStopped c.sample_index counted h.0 h.1 (awaited-Covers c s awaited w)
        (subst (λ ot. Pending s.smart_turn s.input_audio_buffer none s.turn_candidate_id none ot)
          (sym ft) tt)
        h.3 in
    subst Ends (sym (is_stop u counted awaited one))
      (closed_after (speech_stops c.sample_index counted) stopped.1)
  where
    Ends : VoicePipeline × Option Fault → Type 0
    Ends x =
        (x.0.speech_start_sample ≡ none)
        ⊎ (x.1 ≡ some transport_refused)
        ⊎ (x.0.transport_closed ≡ true)

    is_stop :
        (u counted : VoicePipeline)
        → is_awaited c s ≡ true
        → 1 ≤ s.incomplete_verdicts
        → in_task s.turn_candidate_task (λ c t. classified_of (some false) c (free_candidate t)) s
          ≡ caught
              (speech_stops c.sample_index
                (record (free_candidate s) { incomplete_verdicts = s.incomplete_verdicts + 1 }))
              detection_failed
    is_stop u counted a one =
        ap (λ oc. in_task oc (λ c t. classified_of (some false) c (free_candidate t)) s) e
        ∙ (unfold classified_of in
            if_true (is_awaited c (free_candidate s))
              (handled (judge_turn c false) detection_failed (free_candidate s))
              (free_candidate s, none) (unfold is_awaited in a))
        ∙ ap (λ x. caught x detection_failed) (judged_second c (free_candidate s) one)
