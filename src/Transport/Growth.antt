-- ===== src/Transport/Growth.antt =====
-- What was sent stays sent.
use livekit_hugging_voice.Base.{
  ◌≡◌, refl, sym, ap, ◌∙◌, Option, none, some, List, [], ◌∷◌, ◌++◌, append-nil, append_assoc, arith,
}
use livekit_hugging_voice.Transport.{
  ServerEvent, WebSocketTransport, start, send, cancel_generation, close, put_none, abort,
  take_entry, pick, deliver_event, deliver, Call, starts, sends, cancels, closes, puts_none, aborts,
  picks, delivers, step, run,
}

module _ {E : Type 0} where
  -- `sent` only grows
  unfoldable pub Grown : WebSocketTransport E → WebSocketTransport E → Type 0
  Grown t t' = (rest : List (ServerEvent E)) × (t'.sent ≡ t.sent ++ rest)

  same-Grown : (t t' : WebSocketTransport E) → t'.sent ≡ t.sent → Grown t t'
  unfolding Grown
  same-Grown t t' e = ([], e ∙ sym (append-nil t.sent))

  take_entry-sent :
      (xs : List (Option (ServerEvent E))) (t : WebSocketTransport E)
      → (take_entry xs t).sent ≡ t.sent
  unfolding take_entry
  take_entry-sent [] t = refl
  take_entry-sent (none ∷ xs) t = refl
  take_entry-sent (some event ∷ xs) t = ground arith

  deliver_event-Grown :
      (o : Option (ServerEvent E)) (t : WebSocketTransport E) → Grown t (deliver_event o t)
  unfolding deliver_event Grown
  deliver_event-Grown none t = ([], sym (append-nil t.sent))
  deliver_event-Grown (some event) t = (event ∷ [], refl)

  step-Grown : (t : WebSocketTransport E) (call : Call E) → Grown t (step t call)
  unfolding step
  step-Grown t starts = same-Grown t _ (unfold start in ground arith)
  step-Grown t (sends event) = same-Grown t _ (unfold send in ground arith)
  step-Grown t (cancels g) = same-Grown t _ (unfold cancel_generation in refl)
  step-Grown t closes = same-Grown t _ (unfold close in refl)
  step-Grown t puts_none = same-Grown t _ (unfold put_none in ground arith)
  step-Grown t aborts = same-Grown t _ (unfold abort in ground arith)
  step-Grown t picks = same-Grown t _ (unfold pick in ground (arith, take_entry-sent t.queue t))
  step-Grown t delivers = unfold deliver in deliver_event-Grown t.in_flight t

  Grown-trans : (t u v : WebSocketTransport E) → Grown t u → Grown u v → Grown t v
  unfolding Grown
  Grown-trans t u v (xs, e) (ys, f) =
      (xs ++ ys, f ∙ ap (λ zs. zs ++ ys) e ∙ append_assoc t.sent xs ys)

  pub run-Grown : (t : WebSocketTransport E) (calls : List (Call E)) → Grown t (run t calls)
  unfolding run
  run-Grown t [] = same-Grown t t refl
  run-Grown t (call ∷ calls) =
      Grown-trans t (step t call) (run (step t call) calls) (step-Grown t call)
        (run-Grown (step t call) calls)
