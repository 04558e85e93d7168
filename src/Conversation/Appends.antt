-- ===== src/Conversation/Appends.antt =====
-- What `append` and `commit_tool_exchange` take and reject, and what every history keeps.
use livekit_hugging_voice.Base.{
  ℕ, ◌+◌, ◌≤◌, ◌<◌, ◌≡◌, refl, ◌∙◌, ◌≢◌, ◌⊎◌, inl, inr, Bool, true, false, not, ◌||◌, List, [], ◌∷◌,
  arith, ltb, Bool-cases, length, Result, ok, err,
}
use native.Mathlib.Decide.{dec_le}
use livekit_hugging_voice.Text.{Text, text_eq, text_eq_iff, strip}
use livekit_hugging_voice.Conversation.{
  ConversationRole, FunctionCallEntry, FunctionCallOutputEntry, ConversationGroup, message,
  exchange, item_count, character_count, Conversation, ConversationFault, no_text, item_too_long,
  calls_differ, correlations_differ, already_committed, group_too_large, init, trim, append_group,
  is_empty, append, has_call, correlated, commit_tool_exchange, clear, Call, appends, commits,
  clears, after, step, run,
}
use livekit_hugging_voice.Conversation.Trim.{Fits}
use livekit_hugging_voice.Conversation.Limits.{
  Matched, NotYet, IsBounded, Appended, grown, trimmed-Appended,
}

append_group-eq-trim :
    (g : ConversationGroup) (c : Conversation)
    → Fits c.max_items c.max_characters (g ∷ [])
    → append_group g c ≡ trim (grown g c)
unfolding append_group
append_group-eq-trim g c one = ground arith

append_group-Appended :
    (g : ConversationGroup) (c : Conversation)
    → IsBounded c
    → Fits c.max_items c.max_characters (g ∷ [])
    → Matched g
    → NotYet g c.groups
    → (c' : Conversation) × (append_group g c ≡ ok c') × Appended g c c'
append_group-Appended g c v one m n =
    let (c', run, done) = trimmed-Appended g c v one m n in
    (c', append_group-eq-trim g c one ∙ run, done)

abbrev pub stripped : Text → ConversationRole → Text → ConversationGroup
stripped id role content = message (record { item_id = id; role = role; content = strip content })

append-eq-append_group :
    (id : Text) (role : ConversationRole) (content : Text) (c : Conversation)
    → is_empty (strip content) ≡ false
    → length (strip content) ≤ c.max_characters
    → append id role content c ≡ append_group (stripped id role content) c
unfolding append
append-eq-append_group id role content c text short = ground arith

-- A valid conversation takes each content that, once stripped, has text and is within the character
-- limit. It then keeps the new message and as many of the newest old groups as the two limits allow,
-- and stays valid.
pub append-Appended :
    (id : Text) (role : ConversationRole) (content : Text) (c : Conversation)
    → IsBounded c
    → is_empty (strip content) ≡ false
    → length (strip content) ≤ c.max_characters
    → (c' : Conversation) × (append id role content c ≡ ok c')
      × Appended (stripped id role content) c c'
append-Appended id role content c v text short =
    let (c', run, done) =
      append_group-Appended (stripped id role content) c v (omega arith) tt tt in
    (c', append-eq-append_group id role content c text short ∙ run, done)

-- Any other content is refused: one without text first, then one beyond the limit.
pub append_rejects :
    (id : Text) (role : ConversationRole) (content : Text) (c : Conversation)
    → (is_empty (strip content) ≡ true → append id role content c ≡ err no_text)
      × (is_empty (strip content) ≡ false
          → c.max_characters < length (strip content)
          → append id role content c ≡ err item_too_long)
unfolding append
append_rejects id role content c = (λ h. ground arith, λ h k. ground arith)

-- The five reasons to refuse an exchange, in the order of the tests, and the one way to accept it.
abbrev pub CommitOutcome :
    FunctionCallEntry
    → FunctionCallOutputEntry
    → Conversation
    → Result ConversationFault Conversation
    → Type 0
CommitOutcome call output c (ok c') =
    (call.call_id ≡ output.call_id)
    × (call.name ≡ output.name)
    × (correlated call output ≡ true)
    × (has_call call.call_id c ≡ false)
    × Appended (exchange call output) c c'
CommitOutcome call output c (err calls_differ) =
    (call.call_id ≢ output.call_id) ⊎ (call.name ≢ output.name)
CommitOutcome call output c (err correlations_differ) = correlated call output ≡ false
CommitOutcome call output c (err already_committed) = has_call call.call_id c ≡ true
CommitOutcome call output c (err group_too_large) =
    (c.max_items < 2) ⊎ (c.max_characters < length call.arguments + length output.output)
CommitOutcome call output c (err _) = ⊥

abbrev differ : FunctionCallEntry → FunctionCallOutputEntry → Bool
differ call output =
    not (text_eq call.call_id output.call_id) || not (text_eq call.name output.name)

differ-ne :
    (call : FunctionCallEntry) (output : FunctionCallOutputEntry)
    → differ call output ≡ true
    → (call.call_id ≢ output.call_id) ⊎ (call.name ≢ output.name)
differ-ne call output h =
    ground (arith, text_eq_iff call.call_id output.call_id, text_eq_iff call.name output.name)

differ-eq :
    (call : FunctionCallEntry) (output : FunctionCallOutputEntry)
    → differ call output ≡ false
    → (call.call_id ≡ output.call_id) × (call.name ≡ output.name)
differ-eq call output h =
    ground (arith, text_eq_iff call.call_id output.call_id, text_eq_iff call.name output.name)

large-CommitOutcome :
    (call : FunctionCallEntry) (output : FunctionCallOutputEntry) (c : Conversation)
    → IsBounded c
    → differ call output ≡ false
    → correlated call output ≡ true
    → has_call call.call_id c ≡ false
    → CommitOutcome call output c (append_group (exchange call output) c)
unfolding has_call
large-CommitOutcome call output c v same related new =
    let g = exchange call output in
    elim (Bool-cases (ltb c.max_items (item_count g) || ltb c.max_characters (character_count g))) [
      | inl large ↦ unfold append_group in rw large (ground arith)
      | inr small ↦
          let (c', run, done) =
            append_group-Appended g c v (ground arith) (differ-eq call output same) new in
          let (ids, names) = differ-eq call output same in rw run (ids, names, related, new, done)
    ]

-- A valid conversation commits an exchange only if the output answers this call of this response,
-- the call was not answered before, and the pair fits the limits by itself. It then stays valid,
-- with as many of the newest old groups as fit. No other error can come out, that of an empty deque
-- among them.
pub commit-CommitOutcome :
    (call : FunctionCallEntry) (output : FunctionCallOutputEntry) (c : Conversation)
    → IsBounded c
    → CommitOutcome call output c (commit_tool_exchange call output c)
unfolding commit_tool_exchange
commit-CommitOutcome call output c v = elim (Bool-cases (differ call output)) [
  | inl e ↦ rw e (differ-ne call output e)
  | inr e ↦ elim (Bool-cases (correlated call output)) [
    | inl f ↦ elim (Bool-cases (has_call call.call_id c)) [
      | inl h ↦ rw (e, f, h) h
      | inr h ↦ rw (e, f, h) (large-CommitOutcome call output c v e f h)
    ]
    | inr f ↦ rw (e, f) f
  ]
]

append-IsBounded :
    (id : Text) (role : ConversationRole) (content : Text) (c : Conversation)
    → IsBounded c
    → IsBounded (after c (append id role content c))
append-IsBounded id role content c v = elim (Bool-cases (is_empty (strip content))) [
  | inl e ↦ rw ((append_rejects id role content c).0 e) v
  | inr e ↦ elim (dec_le (length (strip content)) c.max_characters) [
    | yes h ↦ let (c', run, done) = append-Appended id role content c v e h in rw run done.valid
    | no h ↦ rw ((append_rejects id role content c).1 e (omega arith)) v
  ]
]

outcome-IsBounded :
    (call : FunctionCallEntry) (output : FunctionCallOutputEntry) (c : Conversation)
    (r : Result ConversationFault Conversation)
    → IsBounded c
    → CommitOutcome call output c r
    → IsBounded (after c r)
outcome-IsBounded call output c (ok c') v h = h.4.valid
outcome-IsBounded call output c (err e) v h = v

step-IsBounded : (c : Conversation) (call : Call) → IsBounded c → IsBounded (step c call)
unfolding step
step-IsBounded c (appends id role content) v = append-IsBounded id role content c v
step-IsBounded c (commits call output) v =
    outcome-IsBounded call output c _ v (commit-CommitOutcome call output c v)
step-IsBounded c clears v =
    unfold clear in
    record {
      positive = v.positive;
      counted_items = refl;
      counted_characters = refl;
      fits = omega arith;
      distinct = tt;
    }

-- Every history of calls, refused ones among them, keeps a valid conversation valid: its counters
-- are the sums over its groups and within the limits, and no call is answered twice.
pub run-IsBounded : (c : Conversation) (calls : List Call) → IsBounded c → IsBounded (run c calls)
unfolding run
run-IsBounded c [] v = v
run-IsBounded c (call ∷ calls) v = run-IsBounded (step c call) calls (step-IsBounded c call v)

empty-IsBounded :
    (mi mc : ℕ)
    → 1 ≤ mi
    → 1 ≤ mc
    → IsBounded
        (record { groups = []; max_items = mi; max_characters = mc; items = 0; characters = 0 })
empty-IsBounded mi mc h k = record {
  positive = (h, k);
  counted_items = refl;
  counted_characters = refl;
  fits = omega arith;
  distinct = tt;
}

-- A conversation is made with positive limits only, and starts valid and empty.
pub init-IsBounded :
    (mi mc : ℕ) (c : Conversation)
    → init mi mc ≡ ok c
    → IsBounded c × (c.groups ≡ []) × (1 ≤ mi) × (1 ≤ mc)
unfolding init
init-IsBounded mi mc c e = ground (arith, empty-IsBounded mi mc)
