-- ===== src/Vad/Signals.antt =====
-- The signals of one session alternate, and their sample indices are in order.
use livekit_hugging_voice.Base.{
  ℕ, zero, suc, ◌+◌, ◌%◌, ◌≤◌, ◌≡◌, refl, sym, ap, subst, ◌∙◌, inl, inr, Bool, true, false, Option,
  none, some, List, [], ◌∷◌, ◌++◌, arith, leb, ◌==◌, if◌then◌else◌, Bool-cases, Option-cases,
  length, Result, ok, err,
}
use livekit_hugging_voice.Vad.{
  Silero, SignalKind, speech_started, speech_stopped, VadSignal, Error, VadConfiguration,
  SessionVad, is_some, speaking, clear_turn_state, window_end, window_samples, window_bytes,
  heard_speech, heard_nothing, heard_silence, advance, init, infer_window, judge, is_probability,
  past_window, process_window, with_signals, chain, process_windows, process_pcm16,
}

abbrev pub Before : Option ℕ → ℕ → Type 0
Before none p = Unit {0}
Before (some n) p = n ≤ p

-- where the speech and the silence in it began
abbrev pub Silence : Option ℕ → Option ℕ → ℕ → Type 0
Silence none none p = Unit {0}
Silence none (some t) p = ⊥
Silence (some a) none p = a ≤ p
Silence (some a) (some t) p = (a ≤ t) × (t ≤ p)

-- The marks of a detection are in the audio that it has processed.
pub record IsTimed {M F : Type 0} (v : SessionVad M F) : Type 0 where
  pub candidate : Before v.candidate_start v.processed_samples
  pub candidate_silence : Before v.candidate_silence_start v.processed_samples
  pub silence : Silence v.speech_start v.silence_start v.processed_samples

-- The signals take the speech from `a` to `b`: each start is followed by a stop that is not before it, and
-- all are within the limit.
abbrev pub Fits : ℕ → Option ℕ → SignalKind → ℕ → Type 0
Fits limit none speech_started n = n ≤ limit
Fits limit (some a) speech_stopped n = (a ≤ n) × (n ≤ limit)
Fits limit _ _ n = ⊥

abbrev pub speech_after : SignalKind → ℕ → Option ℕ
speech_after speech_started n = some n
speech_after speech_stopped n = none

abbrev pub Timeline : ℕ → Option ℕ → List VadSignal → Option ℕ → Type 0
Timeline limit a [] b = a ≡ b
Timeline limit a (signal ∷ signals) b =
    Fits limit a signal.kind signal.sample_index
    × Timeline limit (speech_after signal.kind signal.sample_index) signals b

module _ {M F : Type 0} where
  Advanced : SessionVad M F → SessionVad M F × List VadSignal → Type 0
  Advanced v (v', signals) =
      (v'.processed_samples ≡ v.processed_samples)
      × Timeline (window_end v) v.speech_start signals v'.speech_start
      × IsTimed (record v' { processed_samples = window_end v })

  heard_speech-Advanced :
      (v : SessionVad M F) → v.speech_start ≡ none → IsTimed v → Advanced v (heard_speech v)
  unfolding Advanced heard_speech
  heard_speech-Advanced v e t = elim (Option-cases v.candidate_start) [
    | inl c ↦ ground arith
    | inr (start, c) ↦ ground arith
  ]

  heard_nothing-Advanced :
      (v : SessionVad M F) → v.speech_start ≡ none → IsTimed v → Advanced v (heard_nothing v, [])
  unfolding Advanced heard_nothing
  heard_nothing-Advanced v e t = elim (Option-cases v.candidate_start) [
    | inl c ↦ ground arith
    | inr (start, c) ↦ ground arith
  ]

  heard_silence-Advanced :
      (a : ℕ) (v : SessionVad M F)
      → v.speech_start ≡ some a
      → IsTimed v
      → Advanced v (heard_silence v)
  unfolding Advanced heard_silence clear_turn_state
  heard_silence-Advanced a v e t = elim (Option-cases v.silence_start) [
    | inl c ↦ ground arith
    | inr (since, c) ↦ ground arith
  ]

  -- speech goes on
  speech-Advanced :
      (a : ℕ) (v : SessionVad M F)
      → v.speech_start ≡ some a
      → IsTimed v
      → Advanced v (record v { silence_start = none }, [])
  unfolding Advanced
  speech-Advanced a v e t = ground arith

  -- `advance`, given whether there is speech now
  abbrev advance_when : Bool → Bool → SessionVad M F → SessionVad M F × List VadSignal
  advance_when true true v = (record v { silence_start = none }, [])
  advance_when true false v = heard_silence v
  advance_when false true v = heard_speech v
  advance_when false false v = (heard_nothing v, [])

  advance_eq :
      (b : Bool) (v : SessionVad M F) → advance b v ≡ advance_when (is_some v.speech_start) b v
  unfolding advance speaking
  advance_eq b v = by_cases (is_some v.speech_start) b
    where
      by_cases :
          (s b : Bool)
          → (if s
              then (if b then (record v { silence_start = none }, []) else heard_silence v)
              else if b
              then heard_speech v
              else (heard_nothing v, []))
            ≡ advance_when s b v
      by_cases true true = refl
      by_cases true false = refl
      by_cases false true = refl
      by_cases false false = refl

  before_speech-Advanced :
      (b : Bool) (v : SessionVad M F)
      → v.speech_start ≡ none
      → IsTimed v
      → Advanced v (advance_when false b v)
  before_speech-Advanced true v e t = heard_speech-Advanced v e t
  before_speech-Advanced false v e t = heard_nothing-Advanced v e t

  in_speech-Advanced :
      (b : Bool) (a : ℕ) (v : SessionVad M F)
      → v.speech_start ≡ some a
      → IsTimed v
      → Advanced v (advance_when true b v)
  in_speech-Advanced true a v e t = speech-Advanced a v e t
  in_speech-Advanced false a v e t = heard_silence-Advanced a v e t

  advance-Advanced : (b : Bool) (v : SessionVad M F) → IsTimed v → Advanced v (advance b v)
  advance-Advanced b v t = elim (Option-cases v.speech_start) [
    | inl e ↦
        subst (Advanced v) (sym (advance_eq b v ∙ ap (λ o. advance_when (is_some o) b v) e))
          (before_speech-Advanced b v e t)
    | inr (a, e) ↦
        subst (Advanced v) (sym (advance_eq b v ∙ ap (λ o. advance_when (is_some o) b v) e))
          (in_speech-Advanced b a v e t)
  ]

pub Timeline-mono :
    (l m : ℕ) (a : Option ℕ) (signals : List VadSignal) (b : Option ℕ)
    → l ≤ m
    → Timeline l a signals b
    → Timeline m a signals b
Timeline-mono l m a [] b h t = t
Timeline-mono l m a (signal ∷ signals) b h t = (
  Fits-mono a signal.kind signal.sample_index t.0,
  Timeline-mono l m (speech_after signal.kind signal.sample_index) signals b h t.1,
)
  where
    Fits-mono : (a : Option ℕ) (k : SignalKind) (n : ℕ) → Fits l a k n → Fits m a k n
    Fits-mono none speech_started n f = omega (arith, h, f)
    Fits-mono none speech_stopped n f = absurd f
    Fits-mono (some a) speech_started n f = absurd f
    Fits-mono (some a) speech_stopped n f = (f.0, omega (arith, h, f.1))

pub Timeline-append :
    (l : ℕ) (a b c : Option ℕ) (xs ys : List VadSignal)
    → Timeline l a xs b
    → Timeline l b ys c
    → Timeline l a (xs ++ ys) c
Timeline-append l a b c [] ys t u = subst (λ o. Timeline l o ys c) (sym t) u
Timeline-append l a b c (x ∷ xs) ys t u =
    (t.0, Timeline-append l (speech_after x.kind x.sample_index) b c xs ys t.1 u)

module _ {M F : Type 0} where
  -- After the audio the marks are in order, and the signals lead from the speech before to the speech after.
  abbrev pub Followed : SessionVad M F → SessionVad M F × Result Error (List VadSignal) → Type 0
  Followed v (v', err e) = IsTimed v'
  Followed v (v', ok signals) =
      IsTimed v'
      × (v.processed_samples ≤ v'.processed_samples)
      × Timeline v'.processed_samples v.speech_start signals v'.speech_start

  past_window-Followed :
      (v : SessionVad M F) (r : SessionVad M F × List VadSignal)
      → Advanced v r
      → Followed v (past_window r)
  unfolding Advanced
  past_window-Followed v (w, signals) (same, line, timed) =
      subst
        (λ n.
          IsTimed (record w { processed_samples = n })
          × (v.processed_samples ≤ n)
          × Timeline n v.speech_start signals w.speech_start)
        (ap (λ n. n + window_samples) (sym same)) (timed, omega arith, line)

  same_marks :
      (v w : SessionVad M F) (r : SessionVad M F × Result Error (List VadSignal))
      → v.processed_samples ≡ w.processed_samples
      → v.speech_start ≡ w.speech_start
      → Followed v r
      → Followed w r
  same_marks v w (u, err e) p q f = f
  same_marks v w (u, ok out) p q f = (
    f.0,
    omega (arith, f.1, p),
    subst (λ a. Timeline u.processed_samples a out u.speech_start) q f.2,
  )

  chain-Followed :
      (v : SessionVad M F) (r : SessionVad M F × Result Error (List VadSignal))
      (k : SessionVad M F → SessionVad M F × Result Error (List VadSignal))
      → Followed v r
      → ((w : SessionVad M F) → IsTimed w → Followed w (k w))
      → Followed v (chain r k)
  unfolding chain
  chain-Followed v (w, err e) k h g = h
  chain-Followed v (w, ok out) k h g = joined (k w) (g w h.0)
    where
      joined :
          (r : SessionVad M F × Result Error (List VadSignal))
          → Followed w r
          → Followed v (with_signals out r)
      joined (u, err e) f = f
      joined (u, ok rest) f = (
        f.0,
        omega (arith, h.1, f.1),
        Timeline-append u.processed_samples v.speech_start w.speech_start u.speech_start out rest
            (Timeline-mono w.processed_samples u.processed_samples v.speech_start out w.speech_start
              f.1 h.2)
            f.2,
      )

module _ {M F : Type 0} (silero : Silero M F) where
  infer_window-IsTimed : (v : SessionVad M F) → IsTimed v → IsTimed (infer_window silero v).0
  unfolding infer_window
  infer_window-IsTimed v t = record {
    candidate = t.candidate;
    candidate_silence = t.candidate_silence;
    silence = t.silence;
  }

  judge-Followed : (v : SessionVad M F) (p : F) → IsTimed v → Followed v (judge silero (v, p))
  unfolding judge
  judge-Followed v p t = elim (Bool-cases (is_probability silero p)) [
    | inl e ↦ rw e (
        past_window-Followed v (advance (silero.at_most v.configuration.threshold p) v)
          (advance-Advanced (silero.at_most v.configuration.threshold p) v t))
    | inr e ↦ rw e t
  ]

  process_window-Followed : (v : SessionVad M F) → IsTimed v → Followed v (process_window silero v)
  unfolding process_window infer_window
  process_window-Followed v t =
      same_marks (infer_window silero v).0 v (process_window silero v) refl refl (
        judge-Followed (infer_window silero v).0 (infer_window silero v).1
          (infer_window-IsTimed v t))

  process_windows-Followed :
      (n : ℕ) (v : SessionVad M F) → IsTimed v → Followed v (process_windows silero n v)
  unfolding process_windows
  process_windows-Followed zero v t = (t, omega arith, refl)
  process_windows-Followed (suc n) v t = elim (Bool-cases (leb window_bytes (length v.remainder))) [
    | inl e ↦ rw e (
        chain-Followed v (process_window silero v) (λ w. process_windows silero n w)
          (process_window-Followed v t) (λ w u. process_windows-Followed n w u))
    | inr e ↦ rw e (t, omega arith, refl)
  ]

  -- After a payload the marks of the detection are in the audio that it has processed, in order, whether
  -- the call succeeds or raises; if it succeeds, the signals lead from the speech before to the speech
  -- after: starts and stops alternate, no stop is before its start, and none is later than the audio.
  pub process_pcm16-Followed :
      (payload : List ℕ) (v : SessionVad M F)
      → IsTimed v
      → Followed v (process_pcm16 silero payload v)
  unfolding process_pcm16
  process_pcm16-Followed payload v t = elim (Bool-cases (length payload % 2 == 0)) [
    | inl e ↦ rw e (
        process_windows-Followed (length (v.remainder ++ payload))
          (record v { remainder = v.remainder ++ payload })
          (record {
            candidate = t.candidate;
            candidate_silence = t.candidate_silence;
            silence = t.silence;
          }))
    | inr e ↦ rw e t
  ]

  pub init-IsTimed : (c : VadConfiguration F) → IsTimed (init silero c)
  unfolding init
  init-IsTimed c = record { candidate = tt; candidate_silence = tt; silence = tt }
