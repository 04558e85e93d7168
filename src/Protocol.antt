-- ===== src/Protocol.antt =====
-- packages/hugging-voice-protocol: what both ends of the WebSocket share.
pub mod Json
pub mod Audio
