-- ===== src/Registry/Slots.antt =====
-- What the calls of the capacity manager leave of a slot that is taken, and lists of session states.
use livekit_hugging_voice.Base.{
  ℕ, zero, suc, ◌≡◌, refl, sym, ap, subst, ◌∙◌, ◌≢◌, ◌⊎◌, inl, inr, Bool, false, Option, none, some,
  List, [], ◌∷◌, ◌++◌, arith, ◌==◌, if◌then◌else◌, Bool-cases, ==_iff, length, get_elem?,
}
use livekit_hugging_voice.Text.{Text, text_eq, text_eq_iff}
use livekit_hugging_voice.Capacity.{
  SessionSlot, CapacityManager, same_state, idle, claimed, released, is_active, update, stuck_slot,
  begin_release, complete_release, refresh_metrics,
}
use livekit_hugging_voice.Capacity.Admission.{
  Claimed, refused_draining, refused_full, admitted, get_elem?-update_self, get_elem?-update_ne,
}
use livekit_hugging_voice.Registry.{
  SessionLifecycle, SessionState, lookup, remove, insert, set_lifecycle,
}

-- The slot at a position is there and is not idle.
abbrev pub Busy : CapacityManager → ℕ → Type 0
Busy m i =
    (slot : SessionSlot) × (get_elem? m.slots i ≡ some slot) × (same_state slot.state idle ≡ false)

pub Claimed-Busy :
    (i : ℕ) (s : Text) (now : ℕ) (m : CapacityManager) {r : CapacityManager × Option ℕ}
    → Claimed s now m r
    → Busy m i
    → Busy r.0 i × (r.1 ≢ some i)
Claimed-Busy i s now m (refused_draining e) h = (h, λ p. cc)
Claimed-Busy i s now m (refused_full e z same d n) (slot, at, taken) =
    ((slot, rw same at, taken), λ p. cc)
Claimed-Busy i s now m (admitted {i = j} slot e at is_idle before new others n) (held, on, taken) =
    ((held, others i differs ∙ on, taken), λ p. differs (cc p))
  where
    differs : j ≢ i
    differs p = ground (arith, ap (get_elem? m.slots) p, at, on, is_idle, taken)

-- the slot that was given
pub Claimed-given :
    (i : ℕ) (s : Text) (now : ℕ) (m : CapacityManager) {r : CapacityManager × Option ℕ}
    → Claimed s now m r
    → r.1 ≡ some i
    → Busy r.0 i
Claimed-given i s now m (refused_draining e) h = absurd (cc h)
Claimed-given i s now m (refused_full e z same d n) h = absurd (cc h)
Claimed-given i s now m (admitted {m'} {i = j} slot e at is_idle before new others n) h =
    subst (Busy m') (cc h) (claimed s now slot, new, refl)

pub begin-Busy : (i j now : ℕ) (m : CapacityManager) → Busy m i → Busy (begin_release j now m) i
unfolding begin_release refresh_metrics
begin-Busy i j now m (slot, at, taken) = elim (Bool-cases (is_active j m.slots)) [
  | inl e ↦ elim (Bool-cases (j == i)) [
    | inl same ↦ rw e (
      released now slot,
      subst (λ k. get_elem? (update k (released now) m.slots) i ≡ some (released now slot))
          (sym ((==_iff j i).0 same)) (get_elem?-update_self i (released now) m.slots at),
      refl,
    )
    | inr other ↦ rw e (
      slot,
      get_elem?-update_ne j i (released now) m.slots (λ p. ground (arith, p, ==_iff j i)) ∙ at,
      taken,
    )
  ]
  | inr e ↦ rw e (slot, at, taken)
]

pub complete-Busy_ne :
    (i j : ℕ) (drained : Bool) (now : ℕ) (m : CapacityManager)
    → j ≢ i
    → Busy m i
    → Busy (complete_release j drained now m) i
unfolding complete_release refresh_metrics
complete-Busy_ne i j drained now m ne (slot, at, taken) =
    (slot, get_elem?-update_ne j i _ m.slots ne ∙ at, taken)

pub complete-Busy_stuck :
    (i now : ℕ) (m : CapacityManager) → Busy m i → Busy (complete_release i false now m) i
unfolding complete_release refresh_metrics
complete-Busy_stuck i now m (slot, at, taken) =
    (stuck_slot now slot, get_elem?-update_self i (stuck_slot now) m.slots at, refl)

module _ {A : Type 0} where
  pub lookup-remove :
      (k j : Text) (d : List (Text × A))
      → lookup k (remove j d) ≡ (if text_eq j k then none else lookup k d)
  unfolding lookup remove
  lookup-remove k j [] = ground arith
  lookup-remove k j ((i, a) ∷ d) =
      ground (arith, lookup-remove k j d, text_eq_iff i j, text_eq_iff i k, text_eq_iff j k)

  pub lookup-insert :
      (k j : Text) (a : A) (d : List (Text × A))
      → lookup k (insert j a d) ≡ (if text_eq j k then some a else lookup k d)
  unfolding lookup insert
  lookup-insert k j a d = ground (arith, lookup-remove k j d)

  pub get_elem?-append_left :
      (xs ys : List A) (n : ℕ) (a : A) → get_elem? xs n ≡ some a → get_elem? (xs ++ ys) n ≡ some a
  get_elem?-append_left [] ys n a e = cc
  get_elem?-append_left (x ∷ xs) ys zero a e = e
  get_elem?-append_left (x ∷ xs) ys (suc n) a e = get_elem?-append_left xs ys n a e

  pub get_elem?-snoc :
      (xs : List A) (y : A) (n : ℕ) (a : A)
      → get_elem? (xs ++ y ∷ []) n ≡ some a
      → (get_elem? xs n ≡ some a) ⊎ ((n ≡ length xs) × (a ≡ y))
  get_elem?-snoc [] y zero a e = inr (refl, cc e)
  get_elem?-snoc [] y (suc n) a e = absurd (cc e)
  get_elem?-snoc (x ∷ xs) y zero a e = inl e
  get_elem?-snoc (x ∷ xs) y (suc n) a e = elim (get_elem?-snoc xs y n a e) [
    | inl h ↦ inl h
    | inr (p, q) ↦ inr (ap suc p, q)
  ]

-- the object before its lifecycle was assigned, or another one
pub set_lifecycle-inv :
    (n m : ℕ) (l : SessionLifecycle) (states : List SessionState) (s' : SessionState)
    → get_elem? (set_lifecycle n l states) m ≡ some s'
    → (s : SessionState) × (get_elem? states m ≡ some s)
      × (((n ≡ m) × (s' ≡ record s { lifecycle = l })) ⊎ ((n ≢ m) × (s' ≡ s)))
unfolding set_lifecycle
set_lifecycle-inv n m l [] s' e = absurd (cc e)
set_lifecycle-inv zero zero l (s ∷ states) s' e = (s, refl, inl (refl, cc e))
set_lifecycle-inv zero (suc m) l (s ∷ states) s' e = (s', e, inr (λ p. omega (arith, p), refl))
set_lifecycle-inv (suc n) zero l (s ∷ states) s' e = (s', e, inr (λ p. omega (arith, p), refl))
set_lifecycle-inv (suc n) (suc m) l (s ∷ states) s' e =
    let (t, at, which) = set_lifecycle-inv n m l states s' e in
    elim which [
      | inl (p, q) ↦ (t, at, inl (ap suc p, q))
      | inr (p, q) ↦ (t, at, inr (λ r. p (omega (arith, r)), q))
    ]

pub set_lifecycle_self :
    (n : ℕ) (l : SessionLifecycle) (states : List SessionState) (s : SessionState)
    → get_elem? states n ≡ some s
    → get_elem? (set_lifecycle n l states) n ≡ some (record s { lifecycle = l })
unfolding set_lifecycle
set_lifecycle_self n l [] s e = cc
set_lifecycle_self zero l (x ∷ states) s e = ground arith
set_lifecycle_self (suc n) l (x ∷ states) s e = set_lifecycle_self n l states s e

pub set_lifecycle_ne :
    (n m : ℕ) (l : SessionLifecycle) (states : List SessionState)
    → n ≢ m
    → get_elem? (set_lifecycle n l states) m ≡ get_elem? states m
unfolding set_lifecycle
set_lifecycle_ne n m l [] ne = refl
set_lifecycle_ne zero zero l (s ∷ states) ne = absurd (ne refl)
set_lifecycle_ne zero (suc m) l (s ∷ states) ne = refl
set_lifecycle_ne (suc n) zero l (s ∷ states) ne = refl
set_lifecycle_ne (suc n) (suc m) l (s ∷ states) ne =
    set_lifecycle_ne n m l states (λ p. ne (ap suc p))
