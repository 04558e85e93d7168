-- ===== src/Conversation/Limits.antt =====
-- What every history of a conversation keeps, and what each append leaves.
use livekit_hugging_voice.Base.{
  ℕ, zero, suc, ◌+◌, ◌≤◌, ◌≡◌, refl, sym, subst, false, ◌||◌, List, [], ◌∷◌, ◌++◌, arith, length,
  drop, ok,
}
use native.Mathlib.Decide.{dec_le}
use livekit_hugging_voice.Text.{Text, text_eq, text_eq_iff}
use livekit_hugging_voice.Conversation.{
  ConversationGroup, message, exchange, item_count, character_count, Conversation, trim,
  has_call_in, run,
}
use livekit_hugging_voice.Conversation.Trim.{
  total_items, total_characters, Fits, LongestRest, trim-LongestRest,
}

-- An exchange answers its own call.
abbrev pub Matched : ConversationGroup → Type 0
Matched (message e) = Unit {0}
Matched (exchange call output) = (call.call_id ≡ output.call_id) × (call.name ≡ output.name)

-- No later group answers the same call.
abbrev pub Fresh : ConversationGroup → List ConversationGroup → Type 0
Fresh (message e) groups = Unit {0}
Fresh (exchange call output) groups = has_call_in call.call_id groups ≡ false

abbrev pub Distinct : List ConversationGroup → Type 0
Distinct [] = Unit {0}
Distinct (group ∷ groups) = Matched group × Fresh group groups × Distinct groups

pub record IsBounded (c : Conversation) : Type 0 where
  pub positive : (1 ≤ c.max_items) × (1 ≤ c.max_characters)
  pub counted_items : c.items ≡ total_items c.groups
  pub counted_characters : c.characters ≡ total_characters c.groups
  pub fits : Fits c.max_items c.max_characters c.groups
  pub distinct : Distinct c.groups

total_items-append :
    (gs hs : List ConversationGroup) → total_items (gs ++ hs) ≡ total_items gs + total_items hs
total_items-append [] hs = omega arith
total_items-append (g ∷ gs) hs = omega (arith, total_items-append gs hs)

total_characters-append :
    (gs hs : List ConversationGroup)
    → total_characters (gs ++ hs) ≡ total_characters gs + total_characters hs
total_characters-append [] hs = omega arith
total_characters-append (g ∷ gs) hs = omega (arith, total_characters-append gs hs)

has_call_in-append :
    (k : Text) (gs hs : List ConversationGroup)
    → has_call_in k (gs ++ hs) ≡ (has_call_in k gs || has_call_in k hs)
unfolding has_call_in
has_call_in-append k [] hs = refl
has_call_in-append k (g ∷ gs) hs = ground (arith, has_call_in-append k gs hs)

-- the call that a new group answers is not that of any group before it
abbrev pub NotYet : ConversationGroup → List ConversationGroup → Type 0
NotYet (message e) groups = Unit {0}
NotYet (exchange call output) groups = has_call_in call.call_id groups ≡ false

text_eq_sym : (s t : Text) → text_eq s t ≡ text_eq t s
text_eq_sym s t = ground (arith, text_eq_iff s t, text_eq_iff t s)

Fresh-snoc :
    (g h : ConversationGroup) (gs : List ConversationGroup)
    → Fresh g gs
    → NotYet h (g ∷ gs)
    → Fresh g (gs ++ h ∷ [])
unfolding has_call_in
Fresh-snoc (message e) h gs f n = tt
Fresh-snoc (exchange call output) (message e) gs f n =
    ground (arith, has_call_in-append call.call_id gs (message e ∷ []))
Fresh-snoc (exchange call output) (exchange c o) gs f n = ground (
  arith,
  has_call_in-append call.call_id gs (exchange c o ∷ []),
  text_eq_sym c.call_id call.call_id,
)

NotYet-tail :
    (h g : ConversationGroup) (gs : List ConversationGroup) → NotYet h (g ∷ gs) → NotYet h gs
unfolding has_call_in
NotYet-tail (message e) g gs n = tt
NotYet-tail (exchange c o) g gs n = ground arith

Distinct-snoc :
    (gs : List ConversationGroup) (h : ConversationGroup)
    → Distinct gs
    → Matched h
    → NotYet h gs
    → Distinct (gs ++ h ∷ [])
Distinct-snoc [] (message e) d m n = (tt, tt, tt)
Distinct-snoc [] (exchange c o) d m n = (m, unfold has_call_in in refl, tt)
Distinct-snoc (g ∷ gs) h d m n =
    (d.0, Fresh-snoc g h gs d.1 n, Distinct-snoc gs h d.2 m (NotYet-tail h g gs n))

Distinct-drop : (n : ℕ) (gs : List ConversationGroup) → Distinct gs → Distinct (drop n gs)
Distinct-drop zero gs d = d
Distinct-drop (suc n) [] d = tt
Distinct-drop (suc n) (g ∷ gs) d = Distinct-drop n gs d.2

drop-length : (gs hs : List ConversationGroup) → drop (length gs) (gs ++ hs) ≡ hs
drop-length [] hs = refl
drop-length (g ∷ gs) hs = drop-length gs hs

-- What a successful append leaves: the new group and as many of the newest old ones as fit.
pub record Appended (g : ConversationGroup) (c c' : Conversation) : Type 0 where
  pub valid : IsBounded c'
  pub same_items : c'.max_items ≡ c.max_items
  pub same_characters : c'.max_characters ≡ c.max_characters
  pub dropped : ℕ
  pub newest_kept : dropped ≤ length c.groups
  pub rest : LongestRest c.max_items c.max_characters (c.groups ++ g ∷ []) c'.groups dropped

abbrev pub grown : ConversationGroup → Conversation → Conversation
grown g c = record c {
  groups = c.groups ++ g ∷ [];
  items = c.items + item_count g;
  characters = c.characters + character_count g;
}

keeps_newest :
    (mi mc : ℕ) (g : ConversationGroup) (gs kept : List ConversationGroup) (k : ℕ)
    → Fits mi mc (g ∷ [])
    → LongestRest mi mc (gs ++ g ∷ []) kept k
    → k ≤ length gs
keeps_newest mi mc g gs kept k one rest = elim (dec_le k (length gs)) [
  | yes h ↦ h
  | no h ↦ absurd (
      rest.longest (length gs) (omega arith)
        (subst (Fits mi mc) (sym (drop-length gs (g ∷ []))) one))
]

pub trimmed-Appended :
    (g : ConversationGroup) (c : Conversation)
    → IsBounded c
    → Fits c.max_items c.max_characters (g ∷ [])
    → Matched g
    → NotYet g c.groups
    → (c' : Conversation) × (trim (grown g c) ≡ ok c') × Appended g c c'
trimmed-Appended g c v one m n =
    let (k, c', run, items, characters, mi, mc, rest) =
      trim-LongestRest (grown g c)
        (omega (arith, v.counted_items, total_items-append c.groups (g ∷ [])))
        (omega (arith, v.counted_characters, total_characters-append c.groups (g ∷ []))) in
    (
      c',
      run,
      record {
        valid = record {
          positive = rw (mi, mc) v.positive;
          counted_items = items;
          counted_characters = characters;
          fits = rw (mi, mc) rest.fits;
          distinct =
              subst Distinct (sym rest.is_rest)
                (Distinct-drop k (c.groups ++ g ∷ []) (Distinct-snoc c.groups g v.distinct m n));
        };
        same_items = mi;
        same_characters = mc;
        dropped = k;
        newest_kept = keeps_newest c.max_items c.max_characters g c.groups c'.groups k one rest;
        rest = rest;
      },
    )
