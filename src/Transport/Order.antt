-- ===== src/Transport/Order.antt =====
-- Events other than audio are neither lost nor reordered.
use livekit_hugging_voice.Base.{
  ◌≡◌, refl, sym, ap, ◌∙◌, inl, inr, true, Option, none, some, List, [], ◌∷◌, ◌++◌, append-nil,
  append_assoc, arith, Bool-cases, Option-cases, Result, ok, err,
}
use livekit_hugging_voice.Text.{Text}
use livekit_hugging_voice.Transport.{
  ServerEvent, audio_delta, response_done, other, Fault, WebSocketTransport, start, is_stale, send,
  is_audio_of, retained, cancel_generation, close, put_none, take_entry, pick, deliver_event,
  deliver, Call, starts, sends, cancels, closes, puts_none, aborts, picks, delivers, after, step,
  run,
}

module _ {E : Type 0} where
  -- the event, unless it is audio
  abbrev pub control : ServerEvent E → List (ServerEvent E)
  control (audio_delta g e) = []
  control (response_done g e) = response_done g e ∷ []
  control (other e) = other e ∷ []

  abbrev pub controls : List (ServerEvent E) → List (ServerEvent E)
  controls [] = []
  controls (event ∷ events) = control event ++ controls events

  abbrev pub entry : Option (ServerEvent E) → List (ServerEvent E)
  entry none = []
  entry (some event) = control event

  abbrev pub entries : List (Option (ServerEvent E)) → List (ServerEvent E)
  entries [] = []
  entries (x ∷ xs) = entry x ++ entries xs

  -- What is not audio: sent, held by the sender, and queued.
  abbrev pub in_order : WebSocketTransport E → List (ServerEvent E)
  in_order t = controls t.sent ++ (entry t.in_flight ++ entries t.queue)

  abbrev pub taken : ServerEvent E → Result Fault (WebSocketTransport E) → List (ServerEvent E)
  taken event (ok t) = control event
  taken event (err e) = []

  -- The events other than audio that a call accepts, and those of a history.
  abbrev pub accepts : WebSocketTransport E → Call E → List (ServerEvent E)
  accepts t (sends event) = taken event (send event t)
  accepts t _ = []

  unfoldable pub accepted : WebSocketTransport E → List (Call E) → List (ServerEvent E)
  accepted t [] = []
  accepted t (call ∷ calls) = accepts t call ++ accepted (step t call) calls

  -- `close` never has to cancel the sender.
  abbrev pub NeverAborts : List (Call E) → Type 0
  NeverAborts [] = Unit {0}
  NeverAborts (aborts ∷ calls) = ⊥
  NeverAborts (_ ∷ calls) = NeverAborts calls

  controls-append :
      (xs ys : List (ServerEvent E)) → controls (xs ++ ys) ≡ controls xs ++ controls ys
  controls-append [] ys = refl
  controls-append (x ∷ xs) ys =
      ap (λ zs. control x ++ zs) (controls-append xs ys)
      ∙ sym (append_assoc (control x) (controls xs) (controls ys))

  entries-append :
      (xs ys : List (Option (ServerEvent E))) → entries (xs ++ ys) ≡ entries xs ++ entries ys
  entries-append [] ys = refl
  entries-append (x ∷ xs) ys =
      ap (λ zs. entry x ++ zs) (entries-append xs ys)
      ∙ sym (append_assoc (entry x) (entries xs) (entries ys))

  entry_audio : (g : Text) (x : Option (ServerEvent E)) → is_audio_of g x ≡ true → entry x ≡ []
  unfolding is_audio_of
  entry_audio g none e = cc
  entry_audio g (some (audio_delta h b)) e = refl
  entry_audio g (some (response_done h b)) e = cc
  entry_audio g (some (other b)) e = cc

  control_stale :
      (gs : List Text) (event : ServerEvent E) → is_stale gs event ≡ true → control event ≡ []
  unfolding is_stale
  control_stale gs (audio_delta h b) e = refl
  control_stale gs (response_done h b) e = cc
  control_stale gs (other b) e = cc

  entries-retained :
      (g : Text) (xs : List (Option (ServerEvent E))) → entries (retained g xs) ≡ entries xs
  unfolding retained
  entries-retained g [] = refl
  entries-retained g (x ∷ xs) = elim (Bool-cases (is_audio_of g x)) [
    | inl e ↦ rw e (entries-retained g xs ∙ ap (λ zs. zs ++ entries xs) (sym (entry_audio g x e)))
    | inr e ↦ rw e (ap (λ zs. entry x ++ zs) (entries-retained g xs))
  ]

  -- the order after one more entry was queued
  queued_last :
      (x : Option (ServerEvent E)) (t : WebSocketTransport E)
      → in_order (record t { queue = t.queue ++ x ∷ [] }) ≡ in_order t ++ entry x
  queued_last x t =
      ap (λ zs. controls t.sent ++ (entry t.in_flight ++ zs))
        (entries-append t.queue (x ∷ []) ∙ ap (λ zs. entries t.queue ++ zs) (append-nil (entry x)))
      ∙ ap (λ zs. controls t.sent ++ zs)
          (sym (append_assoc (entry t.in_flight) (entries t.queue) (entry x)))
      ∙ sym (append_assoc (controls t.sent) (entry t.in_flight ++ entries t.queue) (entry x))

  send-in_order :
      (event : ServerEvent E) (t : WebSocketTransport E)
      → in_order (after t (send event t)) ≡ in_order t ++ taken event (send event t)
  unfolding send
  send-in_order event t = ground (
    arith,
    queued_last (some event) t,
    append-nil (in_order t),
    control_stale t.cancelled_generations event,
  )

  take_entry-in_order :
      (xs : List (Option (ServerEvent E))) (t : WebSocketTransport E)
      → t.queue ≡ xs
      → t.in_flight ≡ none
      → in_order (take_entry xs t) ≡ in_order t
  unfolding take_entry
  take_entry-in_order [] t e n = refl
  take_entry-in_order (none ∷ xs) t e n =
      ap (λ q. controls t.sent ++ (entry t.in_flight ++ entries q)) (sym e)
  take_entry-in_order (some event ∷ xs) t e n =
      elim (Bool-cases (is_stale t.cancelled_generations event)) [
        | inl stale ↦ rw stale (
            ap (λ zs. controls t.sent ++ (entry t.in_flight ++ (zs ++ entries xs)))
              (sym (control_stale t.cancelled_generations event stale))
            ∙ ap (λ q. controls t.sent ++ (entry t.in_flight ++ entries q)) (sym e))
        | inr fresh ↦ rw fresh (
            ap (λ q. controls t.sent ++ entries q) (sym e)
            ∙ ap (λ o. controls t.sent ++ (entry o ++ entries t.queue)) (sym n))
      ]

  deliver_event-in_order :
      (o : Option (ServerEvent E)) (t : WebSocketTransport E)
      → t.in_flight ≡ o
      → in_order (deliver_event o t) ≡ in_order t
  unfolding deliver_event
  deliver_event-in_order none t e = refl
  deliver_event-in_order (some event) t e =
      ap (λ zs. zs ++ entries t.queue)
        (controls-append t.sent (event ∷ [])
          ∙ ap (λ zs. controls t.sent ++ zs) (append-nil (control event)))
      ∙ append_assoc (controls t.sent) (control event) (entries t.queue)
      ∙ ap (λ o. controls t.sent ++ (entry o ++ entries t.queue)) (sym e)

  cancel-in_order :
      (g : Text) (t : WebSocketTransport E) → in_order (cancel_generation g t).0 ≡ in_order t
  unfolding cancel_generation
  cancel-in_order g t =
      ap (λ zs. controls t.sent ++ (entry t.in_flight ++ zs)) (entries-retained g t.queue)

  put_none-in_order : (t : WebSocketTransport E) → in_order (put_none t) ≡ in_order t
  unfolding put_none
  put_none-in_order t = ground (arith, queued_last none t, append-nil (in_order t))

  pick-in_order : (t : WebSocketTransport E) → in_order (pick t) ≡ in_order t
  unfolding pick
  pick-in_order t = elim (Option-cases t.in_flight) [
    | inl n ↦ ground (arith, take_entry-in_order t.queue t refl n)
    | inr (event, n) ↦ ground arith
  ]

  start-in_order : (t : WebSocketTransport E) → in_order (after t (start t)) ≡ in_order t
  unfolding start
  start-in_order t = ground arith

  -- a call that accepts nothing
  unchanged : (t u : WebSocketTransport E) → in_order u ≡ in_order t → in_order u ≡ in_order t ++ []
  unchanged t u e = e ∙ sym (append-nil (in_order t))

  step-in_order :
      (t : WebSocketTransport E) (call : Call E) (calls : List (Call E))
      → NeverAborts (call ∷ calls)
      → (in_order (step t call) ≡ in_order t ++ accepts t call) × NeverAborts calls
  unfolding step
  step-in_order t starts calls n = (unchanged t (after t (start t)) (start-in_order t), n)
  step-in_order t (sends event) calls n = (send-in_order event t, n)
  step-in_order t (cancels g) calls n =
      (unchanged t (cancel_generation g t).0 (cancel-in_order g t), n)
  step-in_order t closes calls n = (unchanged t (close t) (unfold close in refl), n)
  step-in_order t puts_none calls n = (unchanged t (put_none t) (put_none-in_order t), n)
  step-in_order t aborts calls n = absurd n
  step-in_order t picks calls n = (unchanged t (pick t) (pick-in_order t), n)
  step-in_order t delivers calls n =
      (unchanged t (deliver t) (unfold deliver in deliver_event-in_order t.in_flight t refl), n)

  -- Events other than audio that were accepted are sent, held or queued in the order in which they were
  -- accepted, none lost and none twice, whatever is cancelled, as long as the sender is not.
  pub run-in_order :
      (t : WebSocketTransport E) (calls : List (Call E))
      → NeverAborts calls
      → in_order (run t calls) ≡ in_order t ++ accepted t calls
  unfolding run accepted
  run-in_order t [] n = sym (append-nil (in_order t))
  run-in_order t (call ∷ calls) n =
      let (one, later) = step-in_order t call calls n in
      run-in_order (step t call) calls later
      ∙ ap (λ zs. zs ++ accepted (step t call) calls) one
      ∙ append_assoc (in_order t) (accepts t call) (accepted (step t call) calls)
