-- ===== src/Scheduler/Queues/Waiting.antt =====
-- `sorted` on session names that are all different: ascending, with the same members.
use livekit_hugging_voice.Base.{
  ◌≡◌, refl, ap, ◌∙◌, inl, inr, Bool, true, false, ◌||◌, List, [], ◌∷◌, arith, Bool-cases,
}
use livekit_hugging_voice.Text.{
  Text, text_eq, text_eq_iff, text_lt, text_lt_irrefl, text_lt_trans, text_lt_connex,
}
use livekit_hugging_voice.Scheduler.Queues.{insert_sorted, sorted}

unfoldable pub mem : Text → List Text → Bool
mem x [] = false
mem x (s ∷ ss) = text_eq s x || mem x ss

abbrev pub Above : Text → List Text → Type 0
Above k [] = Unit {0}
Above k (s ∷ ss) = (text_lt k s ≡ true) × Above k ss

abbrev pub Ascending : List Text → Type 0
Ascending [] = Unit {0}
Ascending (s ∷ ss) = Above s ss × Ascending ss

abbrev pub AllDifferent : List Text → Type 0
AllDifferent [] = Unit {0}
AllDifferent (s ∷ ss) = (mem s ss ≡ false) × AllDifferent ss

pub mem-insert_sorted :
    (x k : Text) (ss : List Text) → mem x (insert_sorted k ss) ≡ (text_eq k x || mem x ss)
unfolding mem insert_sorted
mem-insert_sorted x k [] = refl
mem-insert_sorted x k (s ∷ ss) = ground (arith, mem-insert_sorted x k ss)

pub mem-sorted : (x : Text) (ss : List Text) → mem x (sorted ss) ≡ mem x ss
unfolding mem sorted
mem-sorted x [] = refl
mem-sorted x (s ∷ ss) =
    mem-insert_sorted x s (sorted ss) ∙ ap (λ b. text_eq s x || b) (mem-sorted x ss)

Above-trans : (j k : Text) (ss : List Text) → text_lt j k ≡ true → Above k ss → Above j ss
Above-trans j k [] h a = tt
Above-trans j k (s ∷ ss) h a = (text_lt_trans j k s h a.0, Above-trans j k ss h a.1)

Above-insert_sorted :
    (j k : Text) (ss : List Text) → text_lt j k ≡ true → Above j ss → Above j (insert_sorted k ss)
unfolding insert_sorted
Above-insert_sorted j k [] h a = (h, tt)
Above-insert_sorted j k (s ∷ ss) h a = ground (arith, Above-insert_sorted j k ss h a.1)

insert_sorted-Ascending :
    (k : Text) (ss : List Text) → mem k ss ≡ false → Ascending ss → Ascending (insert_sorted k ss)
unfolding insert_sorted mem
insert_sorted-Ascending k [] m a = (tt, tt)
insert_sorted-Ascending k (s ∷ ss) m a = elim (Bool-cases (text_lt s k)) [
  | inl h ↦ rw h (Above-insert_sorted s k ss h a.0, insert_sorted-Ascending k ss (ground arith) a.1)
  | inr h ↦
      let up : text_lt k s ≡ true = ground (arith, text_lt_connex s k h, text_eq_iff s k) in
      rw h ((up, Above-trans k s ss up a.0), a)
]

pub sorted-Ascending : (ss : List Text) → AllDifferent ss → Ascending (sorted ss)
unfolding sorted
sorted-Ascending [] d = tt
sorted-Ascending (s ∷ ss) d =
    insert_sorted-Ascending s (sorted ss) (mem-sorted s ss ∙ d.0) (sorted-Ascending ss d.1)

pub mem-Above : (k x : Text) (ss : List Text) → Above k ss → mem x ss ≡ true → text_lt k x ≡ true
unfolding mem
mem-Above k x [] a m = cc
mem-Above k x (s ∷ ss) a m = ground (arith, text_eq_iff s x, mem-Above k x ss a.1)

-- nothing is below the first of an ascending list
pub head-least :
    (s x : Text) (ss : List Text) → Ascending (s ∷ ss) → mem x (s ∷ ss) ≡ true → text_lt x s ≡ false
unfolding mem
head-least s x ss a m = elim (Bool-cases (text_lt x s)) [
  | inl h ↦
      ground (arith, text_eq_iff s x, mem-Above s x ss a.0, text_lt_trans x s x h, text_lt_irrefl x)
  | inr h ↦ h
]
