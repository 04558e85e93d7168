-- ===== src/Vad/Chunks.antt =====
-- The detection hears the audio, not how it is cut into payloads.
use livekit_hugging_voice.Base.{
  ℕ, zero, suc, ◌-◌, ◌%◌, ◌≤◌, ◌≡◌, refl, sym, ap, subst, ◌∙◌, inl, inr, Bool, true, false, List,
  [], ◌++◌, append_assoc, arith, leb, ◌==◌, Bool-cases, length, drop, length-append, length-drop,
  drop-append, take-append, Result, ok, err,
}
use livekit_hugging_voice.Vad.{
  Silero, VadSignal, Error, SessionVad, speaking, clear_turn_state, window_bytes, heard_speech,
  heard_nothing, heard_silence, advance, infer_window, judge, is_probability, past_window,
  process_window, with_signals, chain, process_windows, process_pcm16,
}

module _ {M F : Type 0} where
  -- more bytes that wait
  abbrev extend : List ℕ → SessionVad M F → SessionVad M F
  extend ys v = record v { remainder = v.remainder ++ ys }

  abbrev extend_result :
      List ℕ
      → SessionVad M F × Result Error (List VadSignal)
      → SessionVad M F × Result Error (List VadSignal)
  extend_result ys (v, r) = (extend ys v, r)

  abbrev extend_signals : List ℕ → SessionVad M F × List VadSignal → SessionVad M F × List VadSignal
  extend_signals ys (v, signals) = (extend ys v, signals)

  advance-extend :
      (b : Bool) (ys : List ℕ) (v : SessionVad M F)
      → advance b (extend ys v) ≡ extend_signals ys (advance b v)
  unfolding advance speaking heard_speech heard_nothing heard_silence clear_turn_state
  advance-extend b ys v = ground arith

  with_signals-nil : (r : SessionVad M F × Result Error (List VadSignal)) → with_signals [] r ≡ r
  with_signals-nil (v, err e) = refl
  with_signals-nil (v, ok rest) = refl

  with_signals-append :
      (xs ys : List VadSignal) (r : SessionVad M F × Result Error (List VadSignal))
      → with_signals xs (with_signals ys r) ≡ with_signals (xs ++ ys) r
  with_signals-append xs ys (v, err e) = refl
  with_signals-append xs ys (v, ok rest) = ap (λ s. (v, ok s)) (sym (append_assoc xs ys rest))

  past_window-extend :
      (ys : List ℕ) (r : SessionVad M F × List VadSignal)
      → past_window (extend_signals ys r) ≡ extend_result ys (past_window r)
  past_window-extend ys (v, signals) = refl

  past_window-remainder :
      (v : SessionVad M F) (b : Bool) → (past_window (advance b v)).0.remainder ≡ v.remainder
  unfolding advance speaking heard_speech heard_nothing heard_silence clear_turn_state
  past_window-remainder v b = ground arith

  chain-cong :
      (r : SessionVad M F × Result Error (List VadSignal))
      (k l : SessionVad M F → SessionVad M F × Result Error (List VadSignal))
      → k r.0 ≡ l r.0
      → chain r k ≡ chain r l
  unfolding chain
  chain-cong (v, err e) k l h = refl
  chain-cong (v, ok out) k l h = ap (with_signals out) h

  -- a success of a chain is one of both parts
  record Split (v : SessionVad M F) (out : List VadSignal)
      (r : SessionVad M F × Result Error (List VadSignal))
      (k : SessionVad M F → SessionVad M F × Result Error (List VadSignal)) : Type 0 where
    mid : SessionVad M F
    first : List VadSignal
    rest : List VadSignal
    here : r ≡ (mid, ok first)
    there : k mid ≡ (v, ok rest)
    both : out ≡ first ++ rest

  with_signals-inv :
      (v : SessionVad M F) (first out : List VadSignal)
      (r : SessionVad M F × Result Error (List VadSignal))
      → with_signals first r ≡ (v, ok out)
      → (rest : List VadSignal) × (r ≡ (v, ok rest)) × (out ≡ first ++ rest)
  with_signals-inv v first out (w, err e) h = absurd (cc h)
  with_signals-inv v first out (w, ok rest) h = (rest, cc h, cc h)

  chain-Split :
      (v : SessionVad M F) (out : List VadSignal)
      (r : SessionVad M F × Result Error (List VadSignal))
      (k : SessionVad M F → SessionVad M F × Result Error (List VadSignal))
      → chain r k ≡ (v, ok out)
      → Split v out r k
  unfolding chain
  chain-Split v out (w, err e) k h = absurd (cc h)
  chain-Split v out (w, ok first) k h =
      let (rest, there, both) = with_signals-inv v first out (k w) h in
      record { mid = w; first = first; rest = rest; here = refl; there = there; both = both }

module _ {M F : Type 0} (silero : Silero M F) where
  infer_window-extend :
      (ys : List ℕ) (v : SessionVad M F)
      → window_bytes ≤ length v.remainder
      → infer_window silero (extend ys v)
        ≡ (extend ys (infer_window silero v).0, (infer_window silero v).1)
  unfolding infer_window
  infer_window-extend ys v h =
      rw (take-append window_bytes v.remainder ys h, drop-append window_bytes v.remainder ys h) refl

  judge-extend :
      (ys : List ℕ) (v : SessionVad M F) (p : F)
      → judge silero (extend ys v, p) ≡ extend_result ys (judge silero (v, p))
  unfolding judge
  judge-extend ys v p = elim (Bool-cases (is_probability silero p)) [
    | inl e ↦
        let b = silero.at_most v.configuration.threshold p in
        rw e (ap past_window (advance-extend b ys v) ∙ past_window-extend ys (advance b v))
    | inr e ↦ rw e refl
  ]

  process_window-extend :
      (ys : List ℕ) (v : SessionVad M F)
      → window_bytes ≤ length v.remainder
      → process_window silero (extend ys v) ≡ extend_result ys (process_window silero v)
  unfolding process_window
  process_window-extend ys v h =
      ap (judge silero) (infer_window-extend ys v h)
      ∙ judge-extend ys (infer_window silero v).0 (infer_window silero v).1

  judge-remainder : (v : SessionVad M F) (p : F) → (judge silero (v, p)).0.remainder ≡ v.remainder
  unfolding judge
  judge-remainder v p = elim (Bool-cases (is_probability silero p)) [
    | inl e ↦ rw e (past_window-remainder v (silero.at_most v.configuration.threshold p))
    | inr e ↦ rw e refl
  ]

  process_window-remainder :
      (v : SessionVad M F) → (process_window silero v).0.remainder ≡ drop window_bytes v.remainder
  unfolding process_window infer_window
  process_window-remainder v = judge-remainder (infer_window silero v).0 (infer_window silero v).1

  process_windows-stop :
      (n : ℕ) (v : SessionVad M F)
      → leb window_bytes (length v.remainder) ≡ false
      → process_windows silero n v ≡ (v, ok [])
  unfolding process_windows
  process_windows-stop zero v e = refl
  process_windows-stop (suc n) v e = rw e refl

  process_windows-go :
      (n : ℕ) (v : SessionVad M F)
      → leb window_bytes (length v.remainder) ≡ true
      → process_windows silero (suc n) v
        ≡ chain (process_window silero v) (λ w. process_windows silero n w)
  unfolding process_windows
  process_windows-go n v e = rw e refl

  -- enough fuel is all the same
  process_windows_enough :
      (n m : ℕ) (v : SessionVad M F)
      → length v.remainder ≤ n
      → length v.remainder ≤ m
      → process_windows silero n v ≡ process_windows silero m v
  process_windows_enough zero m v a b =
      process_windows-stop zero v (ground arith) ∙ sym (process_windows-stop m v (ground arith))
  process_windows_enough (suc n) zero v a b =
      process_windows-stop (suc n) v (ground arith)
      ∙ sym (process_windows-stop zero v (ground arith))
  process_windows_enough (suc n) (suc m) v a b =
      let w = (process_window silero v).0 in
      let left : length w.remainder ≡ length v.remainder - window_bytes =
        ap (length {A = ℕ}) (process_window-remainder v) ∙ length-drop window_bytes v.remainder in
      elim (Bool-cases (leb window_bytes (length v.remainder))) [
        | inl e ↦
            process_windows-go n v e
            ∙ chain-cong (process_window silero v) (λ u. process_windows silero n u)
                (λ u. process_windows silero m u)
                (process_windows_enough n m w (ground (arith, left)) (ground (arith, left)))
            ∙ sym (process_windows-go m v e)
        | inr e ↦ process_windows-stop (suc n) v e ∙ sym (process_windows-stop (suc m) v e)
      ]

  -- nothing was there to process
  extend_stopped :
      (m k : ℕ) (ys : List ℕ) (v v' : SessionVad M F) (out : List VadSignal)
      → ◌≡◌ {A = SessionVad M F × Result Error (List VadSignal)} (v, ok []) (v', ok out)
      → length (v.remainder ++ ys) ≤ m
      → length (v'.remainder ++ ys) ≤ k
      → process_windows silero m (extend ys v)
        ≡ with_signals out (process_windows silero k (extend ys v'))
  extend_stopped m k ys v v' out at hm hk =
      let same : v ≡ v' = cc at in
      let none_out : [] ≡ out = cc at in
      subst
        (λ o.
          process_windows silero m (extend ys v)
          ≡ with_signals o (process_windows silero k (extend ys v')))
        none_out
        (subst
          (λ (u : SessionVad M F).
            length (u.remainder ++ ys) ≤ k
            → process_windows silero m (extend ys v)
              ≡ with_signals [] (process_windows silero k (extend ys u)))
          same
          (λ hk'.
            process_windows_enough m k (extend ys v) hm hk'
            ∙ sym (with_signals-nil (process_windows silero k (extend ys v))))
          hk)

  -- Bytes that come later may as well have been there from the start.
  process_windows-extend :
      (n m k : ℕ) (ys : List ℕ) (v v' : SessionVad M F) (out : List VadSignal)
      → process_windows silero n v ≡ (v', ok out)
      → length (v.remainder ++ ys) ≤ m
      → length (v'.remainder ++ ys) ≤ k
      → process_windows silero m (extend ys v)
        ≡ with_signals out (process_windows silero k (extend ys v'))
  unfolding chain
  process_windows-extend zero m k ys v v' out e hm hk =
      extend_stopped m k ys v v' out (unfold process_windows in e) hm hk
  process_windows-extend (suc n) zero k ys v v' out e hm hk =
      extend_stopped zero k ys v v' out
        (sym (process_windows-stop (suc n) v (ground (arith, hm, length-append v.remainder ys)))
          ∙ e)
        hm hk
  process_windows-extend (suc n) (suc m) k ys v v' out e hm hk =
      elim (Bool-cases (leb window_bytes (length v.remainder))) [
        | inl full ↦
            let sp =
              chain-Split v' out (process_window silero v) (λ w. process_windows silero n w)
                (sym (process_windows-go n v full) ∙ e) in
            let enough : window_bytes ≤ length v.remainder = ground arith in
            let here = process_window-extend ys v enough ∙ ap (extend_result ys) sp.here in
            let left : length sp.mid.remainder ≡ length v.remainder - window_bytes =
              ap (λ r. length r.0.remainder) (sym sp.here)
              ∙ ap (length {A = ℕ}) (process_window-remainder v)
              ∙ length-drop window_bytes v.remainder in
            process_windows-go m (extend ys v) (ground (arith, length-append v.remainder ys))
            ∙ ap (λ r. chain r (λ w. process_windows silero m w)) here
            ∙ ap (with_signals sp.first) (
                process_windows-extend n m k ys sp.mid v' sp.rest sp.there
                  (omega (
                    arith,
                    hm,
                    left,
                    length-append v.remainder ys,
                    length-append sp.mid.remainder ys,
                    enough,
                  ))
                  hk)
            ∙ with_signals-append sp.first sp.rest (process_windows silero k (extend ys v'))
            ∙ ap (λ o. with_signals o (process_windows silero k (extend ys v'))) (sym sp.both)
        | inr stop ↦
            extend_stopped (suc m) k ys v v' out (sym (process_windows-stop (suc n) v stop) ∙ e) hm
              hk
      ]

  -- A payload that is cut into two, at a sample, gives the same signals and leaves the same state as the
  -- whole, if the first part is processed without an exception.
  pub process_pcm16-append :
      (xs ys : List ℕ) (v v' : SessionVad M F) (out : List VadSignal)
      → (length ys % 2 == 0) ≡ true
      → process_pcm16 silero xs v ≡ (v', ok out)
      → process_pcm16 silero (xs ++ ys) v ≡ with_signals out (process_pcm16 silero ys v')
  unfolding process_pcm16
  process_pcm16-append xs ys v v' out even e = elim (Bool-cases (length xs % 2 == 0)) [
    | inl whole ↦
        rw (even, both_even whole)
          (subst
            (λ bytes.
              process_windows silero (length bytes) (record v { remainder = bytes })
              ≡ with_signals out
                  (process_windows silero (length (v'.remainder ++ ys)) (extend ys v')))
            (append_assoc v.remainder xs ys)
            (process_windows-extend (length (v.remainder ++ xs))
              (length ((v.remainder ++ xs) ++ ys)) (length (v'.remainder ++ ys)) ys
              (record v { remainder = v.remainder ++ xs }) v' out (processed whole) (omega arith)
              (omega arith)))
    | inr half ↦ absurd (failed half)
  ]
    where
      both_even : (length xs % 2 == 0) ≡ true → (length (xs ++ ys) % 2 == 0) ≡ true
      both_even whole = ground (arith, length-append xs ys, even)

      processed :
          (length xs % 2 == 0) ≡ true
          → process_windows silero
              (length (v.remainder ++ xs))
              (record v { remainder = v.remainder ++ xs })
            ≡ (v', ok out)
      processed whole = ground (arith, e)

      failed : (length xs % 2 == 0) ≡ false → ⊥
      failed half = ground (arith, e)
