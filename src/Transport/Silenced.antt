-- ===== src/Transport/Silenced.antt =====
-- A cancelled generation is heard no more.
use livekit_hugging_voice.Base.{
  ℕ, ◌+◌, ◌≤◌, ◌≡◌, refl, sym, ap, subst, ◌∙◌, inl, inr, true, false, none, some, List, [], ◌∷◌,
  ◌++◌, append-nil, append_assoc, arith, if◌then◌else◌, Bool-cases, Option-cases,
}
use livekit_hugging_voice.Text.{Text, text_eq, text_eq_refl}
use livekit_hugging_voice.Transport.{
  ServerEvent, audio_delta, response_done, other, WebSocketTransport, is_member, start, send,
  is_audio_of, cancel_generation, close, put_none, abort, pick, deliver_event, deliver, Call,
  starts, sends, cancels, closes, puts_none, aborts, picks, delivers, after, step, run,
}
use livekit_hugging_voice.Transport.Growth.{Grown, run-Grown}
use livekit_hugging_voice.Transport.Quiet.{
  IsSilenced, Quiet, ends, in_flight_audio, dropped-retained_same, start-Quiet, send-Quiet,
  cancel-Quiet, put_none-Quiet, close-Quiet, abort-Quiet, pick-Quiet, deliver_event-IsSilenced,
}

module _ {E : Type 0} where
  -- The audio of a generation in a list of events, up to the end of its response.
  abbrev pub audio_before_done : Text → List (ServerEvent E) → ℕ
  audio_before_done g [] = 0
  audio_before_done g (audio_delta h e ∷ events) =
      (if text_eq h g then 1 else 0) + audio_before_done g events
  audio_before_done g (response_done h e ∷ events) =
      if text_eq h g then 0 else audio_before_done g events
  audio_before_done g (other e ∷ events) = audio_before_done g events

  audio_before_done-ends :
      (g : Text) (event : ServerEvent E) (rest : List (ServerEvent E))
      → ends g event ≡ true
      → audio_before_done g (event ∷ rest) ≡ 0
  audio_before_done-ends g (audio_delta h e) rest n = cc
  audio_before_done-ends g (response_done h e) rest n = rw n refl
  audio_before_done-ends g (other e) rest n = cc

  audio_before_done-cons :
      (g : Text) (event : ServerEvent E) (rest : List (ServerEvent E))
      → ends g event ≡ false
      → audio_before_done g (event ∷ rest)
        ≡ (if is_audio_of g (some event) then 1 else 0) + audio_before_done g rest
  unfolding is_audio_of
  audio_before_done-cons g (audio_delta h e) rest n = refl
  audio_before_done-cons g (response_done h e) rest n = rw n (omega arith)
  audio_before_done-cons g (other e) rest n = omega arith

  -- `t'` comes after `t`: of the generation, what was sent in between has no more audio than the sender
  -- held at `t`, up to the end of its response.
  pub record Silent (g : Text) (t t' : WebSocketTransport E) : Type 0 where
    pub later : List (ServerEvent E)
    pub grown : t'.sent ≡ t.sent ++ later
    pub few : audio_before_done g later ≤ in_flight_audio g t

  Quiet-Silent :
      (g : Text) (t u v : WebSocketTransport E) → Quiet g t u → Silent g u v → Silent g t v
  Quiet-Silent g t u v q s = record {
    later = s.later;
    grown = s.grown ∙ ap (λ zs. zs ++ s.later) q.same_sent;
    few = omega (arith, s.few, q.no_more);
  }

  sent-Silent :
      (g : Text) (event : ServerEvent E) (t v : WebSocketTransport E)
      → t.in_flight ≡ some event
      → Grown (deliver_event (some event) t) v
      → (ends g event ≡ false → Silent g (deliver_event (some event) t) v)
      → Silent g t v
  unfolding deliver_event Grown is_audio_of
  sent-Silent g event t v at (rest, e) f = elim (Bool-cases (ends g event)) [
    | inl n ↦ record {
      later = event ∷ rest;
      grown = e ∙ append_assoc t.sent (event ∷ []) rest;
      few = omega (arith, audio_before_done-ends g event rest n);
    }
    | inr n ↦
        let s = f n in
        record {
          later = event ∷ s.later;
          grown = s.grown ∙ append_assoc t.sent (event ∷ []) s.later;
          few = held n s.later s.few;
        }
  ]
    where
      held :
          ends g event ≡ false
          → (later : List (ServerEvent E))
          → audio_before_done g later ≤ in_flight_audio g (deliver_event (some event) t)
          → audio_before_done g (event ∷ later) ≤ in_flight_audio g t
      held n later few = ground (arith, audio_before_done-cons g event later n, at, few)

  no_delivery-Silent :
      (g : Text) (t : WebSocketTransport E) (calls : List (Call E))
      → Silent g t (run t calls)
      → Silent g t (run (deliver_event none t) calls)
  unfolding deliver_event
  no_delivery-Silent g t calls s = s

  run-Silent :
      (g : Text) (t : WebSocketTransport E) (calls : List (Call E))
      → IsSilenced g t
      → Silent g t (run t calls)
  unfolding run step deliver deliver_event
  run-Silent g t [] q = record { later = []; grown = sym (append-nil t.sent); few = omega arith }
  run-Silent g t (starts ∷ calls) q =
      let u = start-Quiet g t q in
      Quiet-Silent g t (after t (start t)) _ u (run-Silent g _ calls u.silenced)
  run-Silent g t (sends event ∷ calls) q =
      let u = send-Quiet g event t q in
      Quiet-Silent g t (after t (send event t)) _ u (run-Silent g _ calls u.silenced)
  run-Silent g t (cancels h ∷ calls) q =
      let u = cancel-Quiet g h t q in
      Quiet-Silent g t (cancel_generation h t).0 _ u (run-Silent g _ calls u.silenced)
  run-Silent g t (closes ∷ calls) q =
      let u = close-Quiet g t q in Quiet-Silent g t (close t) _ u (run-Silent g _ calls u.silenced)
  run-Silent g t (puts_none ∷ calls) q =
      let u = put_none-Quiet g t q in
      Quiet-Silent g t (put_none t) _ u (run-Silent g _ calls u.silenced)
  run-Silent g t (aborts ∷ calls) q =
      let u = abort-Quiet g t q in Quiet-Silent g t (abort t) _ u (run-Silent g _ calls u.silenced)
  run-Silent g t (picks ∷ calls) q =
      let u = pick-Quiet g t q in Quiet-Silent g t (pick t) _ u (run-Silent g _ calls u.silenced)
  run-Silent g t (delivers ∷ calls) q = elim (Option-cases t.in_flight) [
    | inl none_held ↦
        subst (λ o. Silent g t (run (deliver_event o t) calls)) (sym none_held)
          (no_delivery-Silent g t calls (run-Silent g t calls q))
    | inr (event, held) ↦
        subst (λ o. Silent g t (run (deliver_event o t) calls)) (sym held)
          (sent-Silent g event t (run (deliver_event (some event) t) calls) held
            (run-Grown (deliver_event (some event) t) calls)
            (λ n.
              run-Silent g (deliver_event (some event) t) calls
                (deliver_event-IsSilenced g event t n q)))
  ]

  -- After a generation is cancelled, none of its audio is sent but the delta that the sender held at that
  -- moment, whatever calls follow, until the end of its response is sent.
  pub cancel_generation-Silent :
      (g : Text) (t : WebSocketTransport E) (calls : List (Call E))
      → Silent g t (run (cancel_generation g t).0 calls)
  unfolding cancel_generation is_member
  cancel_generation-Silent g t calls =
      let s = run-Silent g (cancel_generation g t).0 calls (record {
        listed = rw (text_eq_refl g) refl;
        none_queued = dropped-retained_same g t.queue;
      }) in
      record { later = s.later; grown = s.grown; few = s.few }
