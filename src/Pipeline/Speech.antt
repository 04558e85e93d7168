-- ===== src/Pipeline/Speech.antt =====
-- services/gpu-service/src/hugging_voice_service/pipeline.py: the audio of the caller and the turns that
-- it is cut into. The VAD runs in another thread, so `_append_audio` is two functions: up to the wait for
-- its signals, and from them on. The clock and the floats are answers that the functions are given.
-- `_completed_turns` is a list without a limit: what waits to be put into a full queue waits in order.
mod Turns
mod Candidates
mod Hearing
mod Answering
unfoldable pub use livekit_hugging_voice.Pipeline.Speech.Turns.{
  cancel_turn_detection, ms_of, open_segment, barge_in, announce_start, speech_starts,
  speech_resumes, is_completed, queue_turn, with_buffer, cut_turn, complete_turn, stop_segment,
  speech_stops, open_candidate, stop_candidate, speech_stop_candidate,
}
unfoldable pub use livekit_hugging_voice.Pipeline.Speech.Candidates.{
  names_turn, is_awaited, max_incomplete_verdicts, judge_turn, detection_failed, free_candidate,
  classified_of, in_task, candidate_classified, candidate_fails, free_fallback, fallback_of,
  fallback_wakes,
}
unfoldable pub use livekit_hugging_voice.Pipeline.Speech.Hearing.{
  open_partial, partial_of, schedule_partial, user_item_id, send_partial, transcribed_of,
  partial_transcribed, append_payload, receive_audio, hear, hear_all, trim_silence, hear_audio,
}
unfoldable pub use livekit_hugging_voice.Pipeline.Speech.Answering.{
  clear_buffer, open_manual, manual_turn, commit_open, commit_audio, clear_audio, no_request,
  answer_turn, process_completed_turn, worked_of, turn_transcribed,
}
