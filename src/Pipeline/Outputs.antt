-- ===== src/Pipeline/Outputs.antt =====
-- services/gpu-service/src/hugging_voice_service/pipeline.py: what `_create_conversation_item` takes and
-- what it rejects.
use livekit_hugging_voice.Base.{
  ◌≡◌, refl, sym, ap, subst, ◌∙◌, ◌⊎◌, inl, inr, Bool, true, false, not, ◌||◌, Option, none, some,
  arith, if◌then◌else◌, Bool-cases, Result, ok, err,
}
use livekit_hugging_voice.Base.Int.{int_eq_iff}
use livekit_hugging_voice.Text.{text_eq, text_eq_iff}
use livekit_hugging_voice.Conversation.{
  Conversation, ConversationFault, user, is_empty, has_call, commit_tool_exchange,
}
use livekit_hugging_voice.Conversation
use livekit_hugging_voice.Pipeline.{FunctionCallItem, Fault, VoicePipeline}
use livekit_hugging_voice.Pipeline.Responses.{remember}
use livekit_hugging_voice.Pipeline.Items.{
  ConversationItem, message_item, call_item, output_item, CallOutputItem, same_item, knows_tool,
  add_call, correlates, call_entry, output_entry, committed, add_output, add_item,
}

committed_ok :
    (s : VoicePipeline) (r : Result ConversationFault Conversation)
    → (committed s r).1 ≡ none
    → (r ≡ ok (committed s r).0.conversation) × ((committed s r).0.pending_call ≡ none)
committed_ok s (ok c) e = (refl, refl)
committed_ok s (err f) e = ground arith

-- what an output that is taken was taken for
pub record Answers (o : CallOutputItem) (p : FunctionCallItem) : Type 0 where
  pub same_call : o.call_id ≡ p.call_id
  pub same_name : o.name ≡ p.name
  pub same_turn : (o.turn_id ≡ p.turn_id) × (o.turn_revision ≡ p.turn_revision)
  pub same_response : (o.generation_id ≡ p.generation_id) × (o.response_id ≡ p.response_id)

matched :
    (o : CallOutputItem) (p : FunctionCallItem)
    → text_eq o.call_id p.call_id ≡ true
    → text_eq o.name p.name ≡ true
    → correlates o p ≡ true
    → Answers o p
matched o p c n k =
    let h : (o.turn_id ≡ p.turn_id)
        × (o.turn_revision ≡ p.turn_revision)
        × (o.generation_id ≡ p.generation_id)
        × (o.response_id ≡ p.response_id) =
      ground (
        arith,
        k,
        text_eq_iff o.turn_id p.turn_id,
        int_eq_iff o.turn_revision p.turn_revision,
        text_eq_iff o.generation_id p.generation_id,
        text_eq_iff o.response_id p.response_id,
      ) in
    record {
      same_call = (text_eq_iff o.call_id p.call_id).0 c;
      same_name = (text_eq_iff o.name p.name).0 n;
      same_turn = (h.0, h.1);
      same_response = (h.2, h.3);
    }

taken_for :
    (o : CallOutputItem) (p : FunctionCallItem) (s : VoicePipeline)
    → (add_output o (some p) s).1 ≡ none
    → Answers o p
      × (commit_tool_exchange (call_entry p) (output_entry o) s.conversation
          ≡ ok (add_output o (some p) s).0.conversation)
      × ((add_output o (some p) s).0.pending_call ≡ none)
unfolding add_output
taken_for o p s e = elim (Bool-cases (text_eq o.call_id p.call_id)) [
  | inr c ↦ ground (arith, c, e)
  | inl c ↦ elim (Bool-cases (text_eq o.name p.name)) [
    | inr n ↦ ground (arith, c, n, e)
    | inl n ↦ elim (Bool-cases (correlates o p)) [
      | inr k ↦ ground (arith, c, n, k, e)
      | inl k ↦ is_taken c n k (reaches c n k)
    ]
  ]
]
  where
    r : Result ConversationFault Conversation
    r = commit_tool_exchange (call_entry p) (output_entry o) s.conversation

    reaches :
        text_eq o.call_id p.call_id ≡ true
        → text_eq o.name p.name ≡ true
        → correlates o p ≡ true
        → add_output o (some p) s ≡ committed s r
    reaches c n k = unfold add_output in ground (arith, c, n, k)

    is_taken :
        text_eq o.call_id p.call_id ≡ true
        → text_eq o.name p.name ≡ true
        → correlates o p ≡ true
        → add_output o (some p) s ≡ committed s r
        → Answers o p
          × (r ≡ ok (add_output o (some p) s).0.conversation)
          × ((add_output o (some p) s).0.pending_call ≡ none)
    is_taken c n k q =
        let (a, b) =
          committed_ok s r (sym (ap (λ (x : VoicePipeline × Option Fault). x.1) q) ∙ e) in
        (
          matched o p c n k,
          a ∙ ap (λ (x : VoicePipeline × Option Fault). ok x.0.conversation) (sym q),
          ap (λ (x : VoicePipeline × Option Fault). x.0.pending_call) q ∙ b,
        )

-- An output is taken only for the pending call of the same id, name, turn, generation and response; then
-- the exchange is committed to the conversation, and no call is pending any more.
pub output-Answers :
    (o : CallOutputItem) (s : VoicePipeline)
    → (add_item (output_item o) s).1 ≡ none
    → (p : FunctionCallItem) × (s.pending_call ≡ some p)
      × Answers o p
      × (commit_tool_exchange (call_entry p) (output_entry o) s.conversation
          ≡ ok (add_item (output_item o) s).0.conversation)
      × ((add_item (output_item o) s).0.pending_call ≡ none)
unfolding add_item
output-Answers o s e = by_pending s.pending_call refl
  where
    by_pending :
        (op : Option FunctionCallItem)
        → s.pending_call ≡ op
        → (p : FunctionCallItem) × (s.pending_call ≡ some p)
          × Answers o p
          × (commit_tool_exchange (call_entry p) (output_entry o) s.conversation
              ≡ ok (add_output o s.pending_call s).0.conversation)
          × ((add_output o s.pending_call s).0.pending_call ≡ none)
    by_pending none k = absurd (
        let e' : (add_output o none s).1 ≡ none = subst (λ op. (add_output o op s).1 ≡ none) k e in
        unfold add_output in ground (arith, e'))
    by_pending (some p) k =
        let e' : (add_output o (some p) s).1 ≡ none =
          subst (λ op. (add_output o op s).1 ≡ none) k e in
        let (a, b, c) = taken_for o p s e' in
        (
          p,
          k,
          a,
          subst
              (λ op.
                commit_tool_exchange (call_entry p) (output_entry o) s.conversation
                ≡ ok (add_output o op s).0.conversation)
              (sym k) b,
          subst (λ op. (add_output o op s).0.pending_call ≡ none) (sym k) c,
        )

-- either nothing is raised, or the state is as it was
abbrev IsUntouched : VoicePipeline → VoicePipeline × Option Fault → Type 0
IsUntouched s x = (x.1 ≡ none) ⊎ (x.0 ≡ s)

if-IsUntouched :
    (s : VoicePipeline) (b : Bool) (x y : VoicePipeline × Option Fault)
    → IsUntouched s x
    → IsUntouched s y
    → IsUntouched s (if b then x else y)
if-IsUntouched s true x y h k = h
if-IsUntouched s false x y h k = k

remember-IsUntouched :
    (s : VoicePipeline) (r : Result ConversationFault Conversation) → IsUntouched s (remember s r)
remember-IsUntouched s (ok c) = inl refl
remember-IsUntouched s (err e) = inr refl

committed-IsUntouched :
    (s : VoicePipeline) (r : Result ConversationFault Conversation) → IsUntouched s (committed s r)
committed-IsUntouched s (ok c) = inl refl
committed-IsUntouched s (err e) = inr refl

call-IsUntouched :
    (c : FunctionCallItem) (op : Option FunctionCallItem) (s : VoicePipeline)
    → IsUntouched s (add_call c op s)
unfolding add_call
call-IsUntouched c none s =
    if-IsUntouched s (not s.context_replay_open || s.tools_frozen) _ _ (inr refl)
      (if-IsUntouched s (not (knows_tool c.name s.tools)) _ _ (inr refl) (inl refl))
call-IsUntouched c (some p) s = if-IsUntouched s (same_item c p) _ _ (inl refl) (inr refl)

output-IsUntouched :
    (o : CallOutputItem) (op : Option FunctionCallItem) (s : VoicePipeline)
    → IsUntouched s (add_output o op s)
unfolding add_output
output-IsUntouched o none s = inr refl
output-IsUntouched o (some p) s =
    if-IsUntouched s (not (text_eq o.call_id p.call_id)) _ _ (inr refl) (
      if-IsUntouched s (not (text_eq o.name p.name)) _ _ (inr refl) (
        if-IsUntouched s (not (correlates o p)) _ _ (inr refl) (
          committed-IsUntouched s
            (commit_tool_exchange (call_entry p) (output_entry o) s.conversation))))

-- An item that is rejected, whichever its kind and the reason, leaves the session as it was: the
-- conversation, the pending call and everything else.
pub add_item_untouched :
    (item : ConversationItem) (s : VoicePipeline)
    → ((add_item item s).1 ≡ none) ⊎ ((add_item item s).0 ≡ s)
unfolding add_item
add_item_untouched (message_item m) s =
    remember-IsUntouched s (Conversation.append m.id m.role m.content s.conversation)
add_item_untouched (call_item c) s = call-IsUntouched c s.pending_call s
add_item_untouched (output_item o) s = output-IsUntouched o s.pending_call s
