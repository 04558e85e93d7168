-- ===== src/Scheduler.antt =====
-- services/gpu-service/src/hugging_voice_service/schedulers: the bounded queues before the three
-- shared model runtimes.
pub mod Queues
pub mod Futures
pub mod Turn
pub mod Stt
pub mod Tts
