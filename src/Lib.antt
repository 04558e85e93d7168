-- ===== src/Lib.antt =====
-- livekit-hugging-voice: a GPU service that hears, answers and speaks for several LiveKit sessions at
-- once, and the plugin that connects an agent to it.
--
-- The plugin picks a service (Endpoints). A connection that is admitted (Connection) claims a slot
-- (Capacity), is kept as a session until it is released (Registry), and is served over one socket
-- (Transport). Its audio is stored (AudioBuffer) and heard by a voice activity detection (Vad). The end of
-- a turn is judged, the audio is transcribed and the answer is spoken by model runtimes that all sessions
-- share, each behind a bounded scheduler (Scheduler.Turn, Scheduler.Stt, Scheduler.Tts). What was said and
-- which tools were called is kept in a bounded memory (Conversation), and a generation that is interrupted
-- is made stale (Cancellation). The pipeline of a session (Pipeline) connects these: it cuts the audio into
-- turns, starts, speaks and cancels responses, and tells the client of each.
--
-- Files, with paths from the repository's root; G stands for
-- services/gpu-service/src/hugging_voice_service:
--   Cancellation       G/cancellation.py: GenerationToken, GenerationCancellation
--   Capacity           G/capacity.py: SessionSlot, CapacityManager
--   AudioBuffer        G/sessions.py: BoundedAudioBuffer
--   Registry           G/sessions.py: SessionRegistry over the slots of Capacity
--   Conversation       G/conversation.py: Conversation; GemmaMessage of G/runtimes/llama_cpp_chat.py
--   Protocol.Json      packages/hugging-voice-protocol/src/hugging_voice_protocol/events.py:
--                      canonical_json
--   Protocol.Audio     .../hugging_voice_protocol/audio.py: the codec of audio payloads, with base64
--   Scheduler.Turn     G/schedulers/turn.py: TurnScheduler
--   Scheduler.Stt      G/schedulers/stt.py: STTScheduler
--   Scheduler.Tts      G/schedulers/tts.py: TTSScheduler
--   Scheduler.Queues   the dicts of deques of the three, with `_next_session` and `_pop`
--   Scheduler.Futures  the futures that their jobs carry
--   Vad                G/runtimes/silero.py: SessionVAD
--   Transport          G/realtime.py: WebSocketTransport
--   Pipeline           G/pipeline.py: VoicePipeline.__init__, the data, and the monad of its coroutines;
--                      the events of .../hugging_voice_protocol/events.py
--   Pipeline.Responses `_start_response`, the runners, `_cancel_response`, the deferred responses
--   Pipeline.Speech    `_append_audio`, the turns, their candidates and partial transcripts, `_commit_audio`
--   Pipeline.Items     `_create_conversation_item`
--   Pipeline.Events    `handle_event`, `_update_session`, `drain`, and the history of a session
--   Pipeline.Follows   the order of events that the client relies on, as an automaton
--   Pipeline.Windows   where the open segment and its candidate lie in the buffer
--   Connection         G/realtime.py: RealtimeService.handle_websocket; G/auth.py: TokenAuthenticator;
--                      the codes of .../hugging_voice_protocol/errors.py
--   Endpoints          packages/livekit-plugins-hugging-voice/livekit/plugins/hugging_voice/
--                      endpoint_resolver.py: EndpointResolver
--   Base, Text         tests on numbers, lists, results, `int`, and `str` as a list of code points
--
-- A component's file holds its state as a record and one function for each method, with an error result
-- where the method raises. asyncio runs a method without interruption up to its next await, so each body
-- of a lock or condition, and each stretch between two awaits, is one function; a `step` function makes
-- one call of a component, and histories of calls stand for every interleaving. Values that come from
-- outside are arguments: the time, the results of the model runtimes, the answers of the callbacks
-- `is_stale` and `is_current`, and those of DNS and HTTP. Objects that the code compares by identity carry
-- a number. The Silero model and the floats are parameters of Vad, the shuffle is one of Endpoints.
--
-- A coroutine of Pipeline is a function from the state to the state and what it raised, so that what it
-- wrote before it raised stays. A task is the record of where it waits, and a call of the history wakes it;
-- an await on a lock that is free is no wait. The draws of uuid4 are a function of their number, the
-- comparisons of clocks and of floats are answers of the call. The transport is a queue of which only the
-- room counts: each send takes some or is refused, and the calls `delivers` of the history make it again.
-- Each refusal is noted, for the theorems on the order of events.
--
-- Loops follow the lists that they run over. Two use fuel: the windows of Vad, with the number of bytes,
-- of which each round takes some, and the scan of Scheduler.Tts, with the length of the order, which is
-- the count of its own range.
--
-- Not modelled: of the pipeline the prefill of the prefix, the choice of voices and languages and the
-- segments that the synthesis gets; the inbound queue of a connection, the text segmenter, the service
-- lifecycle, the configuration, the event validators and the rest of the plugin; the calls of the models,
-- of llama.cpp and of HTTP, which are I/O; and metrics other than those that a component's record holds.
pub mod Base
pub mod Text
pub mod Cancellation
pub mod Capacity
pub mod AudioBuffer
pub mod Protocol
pub mod Conversation
pub mod Scheduler
pub mod Vad
pub mod Transport
pub mod Registry
pub mod Endpoints
pub mod Connection
pub mod Pipeline
