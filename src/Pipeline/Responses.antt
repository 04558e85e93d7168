-- ===== src/Pipeline/Responses.antt =====
-- services/gpu-service/src/hugging_voice_service/pipeline.py: the life of a response. A response's task
-- runs from one await to the next, and one function here is one such stretch; a task has one context,
-- the active response, until its `finally` clears it.
mod Closing
mod Running
mod Cancelling
mod Starting
unfoldable pub use livekit_hugging_voice.Pipeline.Responses.Closing.{
  is_some, or_else, with_context, on_response, text_done_of, send_text_done, audio_done_of,
  send_audio_done, no_usage, finish_token, finalize_of, finalize_response, clear_response,
  both_done, owes_speech, reason_of, cancelled_handler, failed_handler, fail_response,
  end_cancelled, goes_on, ends,
}
unfoldable pub use livekit_hugging_voice.Pipeline.Responses.Running.{
  issued_call, emit_of, emit_tool_call, is_live, run_tool_call_of, with_phase, run_speak_of,
  first_step, same_phase, resumed, task_starts, take_streamed, streamed_of, stream_yields,
  speak_or_fail, ended_of, stream_ends, stream_fails, remember, append_answer,
  defer_tool_call_response, deferred_call, keep_answer, after_speech, spoken_of, speech_ends,
  speech_fails, frame_of, send_frame,
}
unfoldable pub use livekit_hugging_voice.Pipeline.Responses.Cancelling.{
  settle_of, settle, stop_task, cancel_context, names_other, cancel_of, cancel_response,
}
unfoldable pub use livekit_hugging_voice.Pipeline.Responses.Starting.{
  ensure_turn, joined, new_context, chosen_runner, new_task, activate, schedule, begin_response,
  freeze_tools, start_beside, start_with, start_response, turn_is_current, drop_deferred,
  start_tool_call_response, start_response_after_direct_speak, run_deferred, deferred_wakes,
}
pub use livekit_hugging_voice.Pipeline.Responses.Starting.{Request}
