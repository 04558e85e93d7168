-- ===== src/Pipeline/Windows.antt =====
-- services/gpu-service/src/hugging_voice_service/pipeline.py: the open segment lies in the buffer, and so
-- does what an awaited candidate would cut, at each await.
use livekit_hugging_voice.Base.{
  ℕ, ◌+◌, ◌-◌, ◌*◌, ◌≤◌, ◌≡◌, refl, Bool, true, Option, none, some, List, arith, take, drop, ok,
}
use livekit_hugging_voice.AudioBuffer.{BoundedAudioBuffer, slice_samples, discard_before}
use livekit_hugging_voice.Pipeline.{TurnCandidate, VoicePipeline}
use livekit_hugging_voice.Pipeline.Frames.{Keeps}

abbrev pub Covers : Option ℕ → ℕ → BoundedAudioBuffer → Type 0
Covers none n b = ⊥
Covers (some m) n b = (m ≤ n) × (n ≤ b.end_sample)

-- A candidate with the current number would cut inside the buffer.
abbrev pub Waits : BoundedAudioBuffer → Option ℕ → ℕ → TurnCandidate → Type 0
Waits b start id c = (c.candidate_id ≤ id) × (c.candidate_id ≡ id → Covers start c.sample_index b)

abbrev pub Pending :
    Bool → BoundedAudioBuffer → Option ℕ → ℕ → Option TurnCandidate → Option TurnCandidate → Type 0
Pending smart b start id none none = Unit
Pending smart b start id (some c) none = (smart ≡ true) × Waits b start id c
Pending smart b start id none (some c) = (smart ≡ true) × Waits b start id c
Pending smart b start id (some c) (some d) = ⊥

abbrev pub Opens : BoundedAudioBuffer → Option ℕ → Type 0
Opens b none = Unit
Opens b (some m) = (b.first_sample ≤ m) × (m ≤ b.end_sample)

-- an open segment has a turn
abbrev pub Held : Bool → Option ℕ → Type 0
Held turn none = Unit
Held turn (some m) = turn ≡ true

abbrev pub Window :
    Bool
    → Bool
    → BoundedAudioBuffer
    → Option ℕ
    → ℕ
    → Option TurnCandidate
    → Option TurnCandidate
    → Type 0
Window smart turn b start id ct ft =
    (b.first_sample ≤ b.end_sample)
    × Opens b start
    × Pending smart b start id ct ft
    × Held turn start

pub Window-turn :
    (smart turn : Bool) (b : BoundedAudioBuffer) (start : Option ℕ) (id : ℕ)
    (ct ft : Option TurnCandidate)
    → Window smart turn b start id ct ft
    → Window smart true b start id ct ft
Window-turn smart turn b none id ct ft h = h
Window-turn smart turn b (some m) id ct ft h = (h.0, h.1, h.2, refl)

abbrev pub IsWindowed : VoicePipeline → Type 0
IsWindowed = Keeps Window

-- without an open segment no candidate has the current number
pub reopened :
    (smart : Bool) (b : BoundedAudioBuffer) (start : Option ℕ) (id : ℕ)
    (ct ft : Option TurnCandidate)
    → Pending smart b none id ct ft
    → Pending smart b start id ct ft
reopened smart b start id none none h = tt
reopened smart b start id (some c) none h = (h.0, (h.1.0, λ e. absurd (h.1.1 e)))
reopened smart b start id none (some c) h = (h.0, (h.1.0, λ e. absurd (h.1.1 e)))
reopened smart b start id (some c) (some d) h = absurd h

-- a new number leaves the candidates before it behind
pub outdated :
    (smart : Bool) (b : BoundedAudioBuffer) (start : Option ℕ) (id : ℕ)
    (ct ft : Option TurnCandidate)
    → Pending smart b start id ct ft
    → Pending smart b start (id + 1) ct ft
outdated smart b start id none none h = tt
outdated smart b start id (some c) none h =
    (h.0, (omega (arith, h.1.0), λ e. absurd (omega (arith, h.1.0, e))))
outdated smart b start id none (some c) h =
    (h.0, (omega (arith, h.1.0), λ e. absurd (omega (arith, h.1.0, e))))
outdated smart b start id (some c) (some d) h = absurd h

pub Covers-longer :
    (start : Option ℕ) (n : ℕ) (b b' : BoundedAudioBuffer)
    → b.end_sample ≤ b'.end_sample
    → Covers start n b
    → Covers start n b'
Covers-longer none n b b' le h = h
Covers-longer (some m) n b b' le h = (h.0, omega (arith, h.1, le))

pub Pending-longer :
    (smart : Bool) (b b' : BoundedAudioBuffer) (start : Option ℕ) (id : ℕ)
    (ct ft : Option TurnCandidate)
    → b.end_sample ≤ b'.end_sample
    → Pending smart b start id ct ft
    → Pending smart b' start id ct ft
Pending-longer smart b b' start id none none le h = tt
Pending-longer smart b b' start id (some c) none le h =
    (h.0, (h.1.0, λ e. Covers-longer start c.sample_index b b' le (h.1.1 e)))
Pending-longer smart b b' start id none (some c) le h =
    (h.0, (h.1.0, λ e. Covers-longer start c.sample_index b b' le (h.1.1 e)))
Pending-longer smart b b' start id (some c) (some d) le h = absurd h

-- The slice of a turn and the cut after it stay inside the buffer.
pub slice_inside :
    (m n : ℕ) (b : BoundedAudioBuffer)
    → b.first_sample ≤ m
    → m ≤ n
    → n ≤ b.end_sample
    → (audio : List ℕ) × (slice_samples m n b ≡ ok audio)
unfolding slice_samples
slice_inside m n b h k l =
    (take ((n - m) * 2) (drop ((m - b.first_sample) * 2) b.bytes), ground arith)

pub discard_inside :
    (n : ℕ) (b : BoundedAudioBuffer)
    → b.first_sample ≤ n
    → n ≤ b.end_sample
    → discard_before n b
      ≡ ok (record b { bytes = drop ((n - b.first_sample) * 2) b.bytes; first_sample = n })
unfolding discard_before
discard_inside n b h k = ground arith
