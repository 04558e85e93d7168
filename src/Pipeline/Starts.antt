-- ===== src/Pipeline/Starts.antt =====
-- services/gpu-service/src/hugging_voice_service/pipeline.py: the start of a response, at once or deferred.
use livekit_hugging_voice.Base.{
  ◌≡◌, refl, sym, subst, ◌∙◌, inl, inr, Bool, true, false, not, ◌&&◌, ◌||◌, Option, none, some,
  List, [], arith, if◌then◌else◌,
}
use livekit_hugging_voice.Text.{Text}
use livekit_hugging_voice.Pipeline.{
  refuse, ErrorCode, ToolCall, ResponseContext, ResponseTask, Event, response_created, error, Fault,
  value_error, rejected, session_state_conflict, tool_call_state_conflict, FunctionTool, Deferred,
  after_direct_speak, after_announcement, VoicePipeline, Run, continue, modify, swallow, handled,
  caught, finally, send, send_error,
}
use livekit_hugging_voice.Pipeline.Responses.{
  Request, new_context, new_task, activate, schedule, begin_response, freeze_tools, start_beside,
  start_with, start_response, ensure_turn, turn_is_current, drop_deferred, start_tool_call_response,
  start_response_after_direct_speak, run_deferred, deferred_wakes, is_some,
}
use livekit_hugging_voice.Pipeline.Follows.{Progress, begun, is_over, follow}
use livekit_hugging_voice.Pipeline.Stages.{IsBlocked, IsNeutral, send-cases, progress-taken}
use livekit_hugging_voice.Pipeline.Orderly.{Fits, IsSound}
use livekit_hugging_voice.Pipeline.Tasks.{if-IsSound}

created_of :
    (r : Request) (s : VoicePipeline) (p : Option Progress)
    → is_over p ≡ true
    → follow p (response_created (new_context r s))
      ≡ some (some (begun (new_context r s).response_id))
unfolding follow
created_of r s p e = rw e refl

-- Where no response is active, the new one is at its first stage.
begin-IsSound :
    (r : Request) (s : VoicePipeline)
    → s.response ≡ none
    → IsSound s
    → IsSound (begin_response r s).0
unfolding begin_response new_context
begin-IsSound r s e h =
    elim (send-cases (response_created (new_context r s)) (activate (new_context r s) s)) [
      | inl (refused, b) ↦
          subst
            (λ (x : VoicePipeline × Option Fault).
              IsSound (continue x (modify (schedule (new_task r)))).0)
            (sym refused) (record { last = h.last; reached = h.reached; fits = inl b })
      | inr (left, took, free) ↦
          subst
            (λ (x : VoicePipeline × Option Fault).
              IsSound (continue x (modify (schedule (new_task r)))).0)
            (sym took)
            (record {
              last = some (begun (new_context r s).response_id);
              reached =
                  progress-taken (response_created (new_context r s)) left
                    (activate (new_context r s) s) h.last
                    (some (begun (new_context r s).response_id)) h.reached
                    (created_of r s h.last (was_over free));
              fits = inr ((refl, refl, refl, refl), λ e. ground arith);
            })
    ]
  where
    idle :
        (ot : Option ResponseTask)
        → Fits h.last ot none s.cancellation.current
        → is_over h.last ≡ true
    idle none f = f
    idle (some t) f = absurd f

    was_over : (¬ IsBlocked s) → is_over h.last ≡ true
    was_over free = elim h.fits [
      | inl b ↦ absurd (free b)
      | inr f ↦
          idle s.response_task
            (subst (λ oc. Fits h.last s.response_task oc s.cancellation.current) e f)
    ]

ensured : (ot : Option Text) (s : VoicePipeline) → IsSound s → IsSound (ensure_turn ot s)
unfolding ensure_turn
ensured none s h = h
ensured (some t) s h = h

ensured_response : (ot : Option Text) (s : VoicePipeline) → (ensure_turn ot s).response ≡ s.response
unfolding ensure_turn
ensured_response none s = refl
ensured_response (some t) s = refl

frozen : (r : Request) (s : VoicePipeline) → IsSound s → IsSound (freeze_tools r s)
unfolding freeze_tools
frozen r s h = by_flag (is_some r.direct_text)
  where
    by_flag : (b : Bool) → IsSound (if b then s else record s { tools_frozen = true })
    by_flag true = h
    by_flag false = h

frozen_response : (r : Request) (s : VoicePipeline) → (freeze_tools r s).response ≡ s.response
unfolding freeze_tools
frozen_response r s = by_flag (is_some r.direct_text)
  where
    by_flag : (b : Bool) → (if b then s else record s { tools_frozen = true }).response ≡ s.response
    by_flag true = refl
    by_flag false = refl

start_beside-IsSound :
    (r : Request) (c : ResponseContext) (s : VoicePipeline)
    → IsSound s
    → IsSound (start_beside r c s).0
unfolding start_beside
start_beside-IsSound r c s h =
    if-IsSound (not (is_some r.direct_text) && c.direct_speak) _ (s, some value_error)
      (λ e.
        if-IsSound (is_some s.deferred_response) (s, some (rejected session_state_conflict)) _
          (λ e. h) (λ e. h))
      (λ e. h)

start_with-IsSound :
    (oc : Option ResponseContext) (r : Request) (s : VoicePipeline)
    → s.response ≡ oc
    → IsSound s
    → IsSound (start_with oc r s).0
start_with-IsSound (some c) r s e h = start_beside-IsSound r c s h
start_with-IsSound none r s e h =
    let s' = ensure_turn s.current_turn_id (freeze_tools r s) in
    if-IsSound (not (is_some r.direct_text) && is_some s.pending_call)
      (s, some (rejected tool_call_state_conflict)) (begin_response r s') (λ e. h)
      (λ e'.
        begin-IsSound r s'
          (ensured_response s.current_turn_id (freeze_tools r s) ∙ frozen_response r s ∙ e)
          (ensured s.current_turn_id (freeze_tools r s) (frozen r s h)))

pub start_response-IsSound :
    (r : Request) (s : VoicePipeline) → IsSound s → IsSound (start_response r s).0
unfolding start_response
start_response-IsSound r s h = start_with-IsSound s.response r s refl h

refuse-IsSound : (s : VoicePipeline) → IsSound s → IsSound (refuse s)
refuse-IsSound s h = record {
  last = h.last;
  reached = h.reached;
  fits = elim h.fits [ inl b ↦ inl (refl, b.1) | inr f ↦ inr f ];
}

-- An event of no response leaves the flags as they fit.
pub neutral-IsSound :
    (event : Event) (s : VoicePipeline) → IsNeutral event → IsSound s → IsSound (send event s).0
neutral-IsSound event s n h = elim (send-cases event s) [
  | inl (refused, b) ↦
      subst (λ (x : VoicePipeline × Option Fault). IsSound x.0) (sym refused) (refuse-IsSound s h)
  | inr (left, took, free) ↦
      subst (λ (x : VoicePipeline × Option Fault). IsSound x.0) (sym took)
        (record {
          last = h.last;
          reached = progress-taken event left s h.last h.last h.reached (n h.last);
          fits = elim h.fits [ inl b ↦ absurd (free b) | inr f ↦ inr f ];
        })
]

pub error-IsSound :
    (code : ErrorCode) (s : VoicePipeline) → IsSound s → IsSound (send_error code s).0
unfolding send_error follow
error-IsSound code s h = neutral-IsSound (error code) s (λ p. refl) h

pub caught-IsSound :
    (x : VoicePipeline × Option Fault) (k : Run)
    → IsSound x.0
    → ((s : VoicePipeline) → IsSound s → IsSound (k s).0)
    → IsSound (caught x k).0
caught-IsSound (s, none) k h keep = h
caught-IsSound (s, some e) k h keep = keep s h

pub continue-IsSound :
    (x : VoicePipeline × Option Fault) (k : Run)
    → IsSound x.0
    → ((s : VoicePipeline) → IsSound s → IsSound (k s).0)
    → IsSound (continue x k).0
continue-IsSound (s, none) k h keep = keep s h
continue-IsSound (s, some e) k h keep = h

abbrev call_request : ResponseContext → ToolCall → Request
call_request c call = record {
  response_instructions = [];
  wanted_tools = some c.tools;
  wanted_choice = some c.tool_choice;
  direct_text = none;
  pending_tool_call = some call;
}

abbrev later_request : Text → Option (List FunctionTool) → Option Text → Request
later_request i t c = record {
  response_instructions = i;
  wanted_tools = t;
  wanted_choice = c;
  direct_text = none;
  pending_tool_call = none;
}

run_deferred-IsSound :
    (d : Option Deferred) (s : VoicePipeline) → IsSound s → IsSound (run_deferred d s).0
unfolding start_tool_call_response start_response_after_direct_speak
run_deferred-IsSound none s h = h
run_deferred-IsSound (some (after_announcement c call)) s h =
    if-IsSound (s.draining || not (turn_is_current c s) || is_some s.response)
      (drop_deferred s, none)
      (finally (swallow (start_response (call_request c call))) drop_deferred s) (λ e. h)
      (λ e. start_response-IsSound (call_request c call) s h)
run_deferred-IsSound (some (after_direct_speak i t c)) s h =
    if-IsSound s.draining (drop_deferred s, none)
      (finally
        (handled (start_response (later_request i t c)) (send_error tool_call_state_conflict))
        drop_deferred s)
      (λ e. h)
      (λ e.
        caught-IsSound (start_response (later_request i t c) s)
          (send_error tool_call_state_conflict) (start_response-IsSound (later_request i t c) s h)
          (error-IsSound tool_call_state_conflict))

pub deferred_wakes-IsSound : (s : VoicePipeline) → IsSound s → IsSound (deferred_wakes s).0
unfolding deferred_wakes
deferred_wakes-IsSound s h =
    if-IsSound s.response_idle (run_deferred s.deferred_response s) (s, none)
      (λ e. run_deferred-IsSound s.deferred_response s h) (λ e. h)
