-- ===== src/Scheduler/Queues/Position.antt =====
-- Positions in an ascending list of session names, and what follows a position around the end.
use livekit_hugging_voice.Base.{
  ℕ, zero, suc, ◌+◌, ◌%◌, ◌<◌, ◌≡◌, refl, sym, ap, subst, ◌∙◌, ◌≢◌, ◌⊎◌, inl, inr, true, false,
  Option, none, some, List, [], ◌∷◌, arith, Bool-cases, Option-cases, length, get_elem?,
}
use livekit_hugging_voice.Text.{Text, text_eq, text_eq_iff, text_eq_refl, text_lt, text_lt_irrefl}
use livekit_hugging_voice.Scheduler.Queues.{sorted, index_of, position, shift, after_last}
use livekit_hugging_voice.Scheduler.Queues.Waiting.{mem, Ascending, mem-sorted, head-least}

-- No member of `ss` is below `k`.
abbrev pub Least : List Text → Text → Type 0
Least ss k = (s : Text) → mem s ss ≡ true → text_lt s k ≡ false

-- `k` is the first member after `l`, or the first of all when none comes after `l`.
abbrev pub NextAfter : Text → List Text → Text → Type 0
NextAfter l ss k =
    ((text_lt l k ≡ true)
      × ((s : Text) → mem s ss ≡ true → text_lt l s ≡ true → text_lt s k ≡ false))
    ⊎ (((s : Text) → mem s ss ≡ true → text_lt l s ≡ false) × Least ss k)

-- What stands at position `i + 1` of an ascending list with `l` at position `i`.
abbrev pub NextAt : ℕ → Text → List Text → Type 0
NextAt i l ss =
    ((k : Text) × (get_elem? ss (suc i) ≡ some k)
      × (suc i < length ss)
      × (text_lt l k ≡ true)
      × ((s : Text) → mem s ss ≡ true → text_lt l s ≡ true → text_lt s k ≡ false))
    ⊎ ((suc i ≡ length ss) × ((s : Text) → mem s ss ≡ true → text_lt l s ≡ false))

head-NextAt : (l : Text) (ss : List Text) → Ascending (l ∷ ss) → NextAt 0 l (l ∷ ss)
unfolding mem
head-NextAt l [] a = inr (refl, λ s m. ground (arith, text_eq_iff l s, text_lt_irrefl l))
head-NextAt l (k ∷ ss) a = inl (
  k,
  refl,
  omega arith,
  a.0.0,
  λ s m h. head-least k s ss a.1 (ground (arith, text_eq_iff l s, text_lt_irrefl l)),
)

cons-NextAt :
    (i : ℕ) (l x : Text) (ss : List Text)
    → text_lt l x ≡ false
    → NextAt i l ss
    → NextAt (suc i) l (x ∷ ss)
unfolding mem
cons-NextAt i l x ss below (inl (k, at, fits, after, least)) =
    inl (k, at, omega arith, after, λ s m h. least s (ground (arith, text_eq_iff x s)) h)
cons-NextAt i l x ss below (inr (last, none_after)) =
    inr (omega arith, λ s m. ground (arith, text_eq_iff x s, none_after s))

unfoldable pub Indexed : Text → List Text → Option ℕ → Type 0
Indexed l ss none = mem l ss ≡ false
Indexed l ss (some i) = (mem l ss ≡ true) × NextAt i l ss

shift-Indexed :
    (l x : Text) (ss : List Text) (o : Option ℕ)
    → text_eq x l ≡ false
    → Ascending (x ∷ ss)
    → Indexed l ss o
    → Indexed l (x ∷ ss) (shift o)
unfolding Indexed mem
shift-Indexed l x ss none ne a h = ground arith
shift-Indexed l x ss (some i) ne a (m, n) =
    (ground arith, cons-NextAt i l x ss (head-least x l ss a (ground arith)) n)

found : (l x : Text) (ss : List Text) → x ≡ l → Ascending (x ∷ ss) → Indexed l (x ∷ ss) (some 0)
unfolding Indexed mem
found l x ss e =
    subst (λ (y : Text). Ascending (y ∷ ss) → Indexed l (y ∷ ss) (some 0)) (sym e)
      (λ a. (rw (text_eq_refl l) refl, head-NextAt l ss a))

pub index_of-Indexed : (l : Text) (ss : List Text) → Ascending ss → Indexed l ss (index_of l ss)
unfolding index_of Indexed mem
index_of-Indexed l [] a = refl
index_of-Indexed l (x ∷ ss) a = elim (Bool-cases (text_eq x l)) [
  | inl e ↦ rw (e, index_of) (found l x ss ((text_eq_iff x l).0 e) a)
  | inr e ↦ rw (e, index_of) (shift-Indexed l x ss (index_of l ss) e a (index_of-Indexed l ss a.1))
]

mem_head : (s : Text) (ss : List Text) → mem s (s ∷ ss) ≡ true
unfolding mem
mem_head s ss = rw (text_eq_refl s) refl

mem-get_elem? : (ss : List Text) (i : ℕ) {k : Text} → get_elem? ss i ≡ some k → mem k ss ≡ true
unfolding mem
mem-get_elem? [] i h = cc
mem-get_elem? (s ∷ ss) zero {k} h = ground (arith, text_eq_iff s k)
mem-get_elem? (s ∷ ss) (suc i) h = ground (arith, mem-get_elem? ss i h)

mod_self_lem : (i n : ℕ) → suc i ≡ n → (i + 1) % n ≡ 0
mod_self_lem i n e = grind arith

-- What `after_last` picks from an ascending list that holds the last session.
pub picks_next :
    (i : ℕ) (l : Text) (ss : List Text)
    → Ascending ss
    → Indexed l ss (some i)
    → (k : Text) × (after_last (some i) ss ≡ some k) × (mem k ss ≡ true) × NextAfter l ss k
unfolding after_last Indexed
picks_next i l ss a (m, inl (k, at, fits, after, least)) =
    (k, ap (get_elem? ss) (grind arith) ∙ at, mem-get_elem? ss (suc i) at, inl (after, least))
picks_next i l [] a (m, inr (last, none_after)) = absurd (omega arith)
picks_next i l (s ∷ ss) a (m, inr (last, none_after)) = (
  s,
  ap (get_elem? (s ∷ ss)) {y = 0} (mod_self_lem i (length (s ∷ ss)) last),
  mem_head s ss,
  inr (none_after, λ x mx. head-least s x ss a mx),
)

pub Least-sorted : (ss : List Text) (k : Text) → Least (sorted ss) k → Least ss k
Least-sorted ss k least s m = least s (mem-sorted s ss ∙ m)

pub NextAfter-sorted :
    (l : Text) (ss : List Text) (k : Text) → NextAfter l (sorted ss) k → NextAfter l ss k
NextAfter-sorted l ss k (inl (after, least)) = inl (after, λ s m h. least s (mem-sorted s ss ∙ m) h)
NextAfter-sorted l ss k (inr (none_after, least)) =
    inr (λ s m. none_after s (mem-sorted s ss ∙ m), Least-sorted ss k least)

pub index_found :
    (l : Text) (ss : List Text) (o : Option ℕ)
    → mem l ss ≡ true
    → Indexed l ss o
    → (i : ℕ) × (o ≡ some i)
unfolding Indexed
index_found l ss none m h = absurd (cc (m, h))
index_found l ss (some i) m h = (i, refl)

-- The sessions that were served last and wait no more.
abbrev pub Absent : Option Text → List Text → Type 0
Absent none ss = Unit {0}
Absent (some l) ss = mem l ss ≡ false

pub position-none :
    (last : Option Text) (ss : List Text) → Ascending ss → Absent last ss → position last ss ≡ none
unfolding Indexed
position-none none ss a m = refl
position-none (some l) ss a m = elim (Option-cases (index_of l ss)) [
  | inl e ↦ e
  | inr (i, e) ↦ absurd (cc (m, (subst (Indexed l ss) e (index_of-Indexed l ss a)).0))
]

pub Absent-sorted : (last : Option Text) (ss : List Text) → Absent last ss → Absent last (sorted ss)
Absent-sorted none ss m = tt
Absent-sorted (some l) ss m = mem-sorted l ss ∙ m

pub Ascending-Least :
    (ss : List Text)
    → Ascending ss
    → ss ≢ []
    → (k : Text) × (get_elem? ss 0 ≡ some k) × (mem k ss ≡ true) × Least ss k
Ascending-Least [] a ne = absurd (ne refl)
Ascending-Least (k ∷ ss) a ne = (k, refl, mem_head k ss, λ s m. head-least k s ss a m)

pub sorted-ne_nil : (ss : List Text) → ss ≢ [] → sorted ss ≢ []
unfolding mem
sorted-ne_nil [] ne e = ne refl
sorted-ne_nil (s ∷ ss) ne e = cc (ap (mem s) e, mem-sorted s (s ∷ ss), mem_head s ss)
