-- ===== src/Conversation/Trim.antt =====
-- `_trim` drops as few of the oldest groups as it can.
use livekit_hugging_voice.Base.{
  ℕ, zero, suc, ◌+◌, ◌≤◌, ◌<◌, ◌≡◌, refl, inl, inr, ◌||◌, List, [], ◌∷◌, arith, ltb, Bool-cases,
  drop, ok,
}
use native.Mathlib.Nat.{add-sub_cancel_left}
use livekit_hugging_voice.Conversation.{
  ConversationGroup, Conversation, item_count, character_count, trim_loop, trim,
}

abbrev pub total_items : List ConversationGroup → ℕ
total_items [] = 0
total_items (group ∷ groups) = item_count group + total_items groups

abbrev pub total_characters : List ConversationGroup → ℕ
total_characters [] = 0
total_characters (group ∷ groups) = character_count group + total_characters groups

abbrev pub Fits : ℕ → ℕ → List ConversationGroup → Type 0
Fits max_items max_characters groups =
    (total_items groups ≤ max_items) × (total_characters groups ≤ max_characters)

-- `kept` is `groups` less its `n` oldest groups; it fits, and no longer rest of `groups` does.
pub record LongestRest (max_items max_characters : ℕ) (groups kept : List ConversationGroup) (n : ℕ)
    : Type 0 where
  pub is_rest : kept ≡ drop n groups
  pub fits : Fits max_items max_characters kept
  pub longest : (j : ℕ) → j < n → ¬ Fits max_items max_characters (drop j groups)

LongestRest-cons :
    (mi mc : ℕ) (g : ConversationGroup) (gs kept : List ConversationGroup) (n : ℕ)
    → ¬ Fits mi mc (g ∷ gs)
    → LongestRest mi mc gs kept n
    → LongestRest mi mc (g ∷ gs) kept (suc n)
LongestRest-cons mi mc g gs kept n over rest = record {
  is_rest = rest.is_rest;
  fits = rest.fits;
  longest = longest;
}
  where
    longest : (j : ℕ) → j < suc n → ¬ Fits mi mc (drop j (g ∷ gs))
    longest zero h = over
    longest (suc j) h = rest.longest j (omega arith)

trim_loop-LongestRest :
    (mi mc : ℕ) (groups : List ConversationGroup)
    → (n : ℕ) × (kept : List ConversationGroup) × (trim_loop mi mc groups
          (total_items groups)
          (total_characters groups)
        ≡ ok (kept, total_items kept, total_characters kept))
      × LongestRest mi mc groups kept n
unfolding trim_loop
trim_loop-LongestRest mi mc [] = (
  0,
  [],
  ground arith,
  record { is_rest = refl; fits = omega arith; longest = λ j h. omega arith },
)
trim_loop-LongestRest mi mc (g ∷ gs) =
    elim (Bool-cases (ltb mi (total_items (g ∷ gs)) || ltb mc (total_characters (g ∷ gs)))) [
      | inl over ↦
          let (n, kept, run, rest) = trim_loop-LongestRest mi mc gs in
          (
            suc n,
            kept,
            rw
                (
                  over,
                  add-sub_cancel_left (item_count g) (total_items gs),
                  add-sub_cancel_left (character_count g) (total_characters gs),
                )
                run,
            LongestRest-cons mi mc g gs kept n (λ f. ground arith) rest,
          )
      | inr under ↦ (
        0,
        g ∷ gs,
        rw under refl,
        record { is_rest = refl; fits = ground arith; longest = λ j h. omega arith },
      )
    ]

-- What `_trim` does to a conversation whose counters are right.
pub trim-LongestRest :
    (c : Conversation)
    → c.items ≡ total_items c.groups
    → c.characters ≡ total_characters c.groups
    → (n : ℕ) × (c' : Conversation) × (trim c ≡ ok c')
      × (c'.items ≡ total_items c'.groups)
      × (c'.characters ≡ total_characters c'.groups)
      × (c'.max_items ≡ c.max_items)
      × (c'.max_characters ≡ c.max_characters)
      × LongestRest c.max_items c.max_characters c.groups c'.groups n
unfolding trim
trim-LongestRest c hi hc =
    let (n, kept, run, rest) = trim_loop-LongestRest c.max_items c.max_characters c.groups in
    (
      n,
      record c { groups = kept; items = total_items kept; characters = total_characters kept },
      simp (hi, hc) (simp run refl),
      refl,
      refl,
      refl,
      refl,
      rest,
    )
