-- ===== src/Registry/Ownership.antt =====
-- No two live sessions have the same slot, and no live session has an idle one.
use livekit_hugging_voice.Base.{
  ℕ, ◌≡◌, refl, sym, ap, subst, ◌∙◌, ◌≢◌, ◌⊎◌, inl, inr, Bool, true, false, Option, none, some,
  List, [], ◌∷◌, ◌++◌, length, get_elem?,
}
use livekit_hugging_voice.Text.{Text}
use livekit_hugging_voice.Capacity
use livekit_hugging_voice.Capacity.{CapacityManager}
use livekit_hugging_voice.Capacity.Admission.{Claimed, claim-Claimed}
use livekit_hugging_voice.Registry.{
  SessionLifecycle, active, draining, closed, SessionState, Release, SessionRegistry, lookup,
  with_slot,
}
use livekit_hugging_voice.Registry.Slots.{
  Busy, Claimed-Busy, Claimed-given, complete-Busy_ne, get_elem?-append_left, get_elem?-snoc,
}

abbrev pub is_live : SessionLifecycle → Bool
is_live closed = false
is_live _ = true

-- a release may be waiting for it
abbrev pub is_open : SessionLifecycle → Bool
is_open active = true
is_open draining = true
is_open _ = false

-- The object at a place that is not closed.
abbrev pub Live : SessionRegistry → ℕ → SessionState → Type 0
Live r n s = (get_elem? r.states n ≡ some s) × (is_live s.lifecycle ≡ true)

-- the object of a release task
abbrev pub Serves : Text → List SessionState → Release → Type 0
Serves k states task =
    (s : SessionState) × (get_elem? states task.state ≡ some s)
    × (s.session_id ≡ k)
    × (is_open s.lifecycle ≡ true)

pub record IsExclusive (r : SessionRegistry) : Type 0 where
  pub held : (n : ℕ) (s : SessionState) → Live r n s → Busy r.capacity s.slot
  pub apart : (n m : ℕ) (s u : SessionState) → Live r n s → Live r m u → s.slot ≡ u.slot → n ≡ m
  pub tasks : (k : Text) (task : Release) → lookup k r.releases ≡ some task → Serves k r.states task

-- a slot that is given to a new session was not that of a live one
claimed_kept :
    (k : Text) (now : ℕ) (c : CapacityManager × Option ℕ) (r : SessionRegistry)
    → Capacity.claim k now r.capacity ≡ c
    → IsExclusive r
    → (n : ℕ) (s : SessionState) → Live r n s
    → Busy c.0 s.slot × (c.1 ≢ some s.slot)
claimed_kept k now c r e v n s l =
    Claimed-Busy s.slot k now r.capacity
      (subst (Claimed k now r.capacity) e (claim-Claimed k now r.capacity)) (v.held n s l)

abbrev new_state : Text → ℕ → SessionState
new_state k i = record { session_id = k; slot = i; lifecycle = active }

-- a live object after one more was made
made-Live :
    (k : Text) (i n : ℕ) (r : SessionRegistry) (s : SessionState)
    → get_elem? (r.states ++ new_state k i ∷ []) n ≡ some s
    → is_live s.lifecycle ≡ true
    → Live r n s ⊎ ((n ≡ length r.states) × (s.slot ≡ i))
made-Live k i n r s at live = elim (get_elem?-snoc r.states (new_state k i) n s at) [
  | inl h ↦ inl (h, live)
  | inr (p, q) ↦ inr (p, ap (λ (t : SessionState). t.slot) q)
]

-- `create`, for each answer of the capacity manager
pub with_slot-IsExclusive :
    (k : Text) (now : ℕ) (vad_ok : Bool) (c : CapacityManager × Option ℕ) (r : SessionRegistry)
    → Capacity.claim k now r.capacity ≡ c
    → IsExclusive r
    → IsExclusive (with_slot k now vad_ok c r).0
unfolding with_slot
with_slot-IsExclusive k now vad_ok (c, none) r e v = record {
  held = λ n s l. (claimed_kept k now (c, none) r e v n s l).0;
  apart = v.apart;
  tasks = v.tasks;
}
with_slot-IsExclusive k now false (c, some i) r e v = record {
  held = λ n s l.
      let (taken, ne) = claimed_kept k now (c, some i) r e v n s l in
      complete-Busy_ne s.slot i true now c (λ p. ne (ap some p)) taken;
  apart = v.apart;
  tasks = v.tasks;
}
with_slot-IsExclusive k now true (c, some i) r e v = record {
  held = λ n s l. elim (made-Live k i n r s l.0 l.1) [
    | inl old ↦ (claimed_kept k now (c, some i) r e v n s old).0
    | inr (p, q) ↦ subst (Busy c) (sym q) (
        Claimed-given i k now r.capacity
          (subst (Claimed k now r.capacity) e (claim-Claimed k now r.capacity)) refl)
  ];
  apart = λ n m s u l h same. elim (made-Live k i n r s l.0 l.1) [
    | inl old ↦ elim (made-Live k i m r u h.0 h.1) [
      | inl old' ↦ v.apart n m s u old old' same
      | inr (p, q) ↦
          absurd ((claimed_kept k now (c, some i) r e v n s old).1 (ap some (sym q ∙ sym same)))
    ]
    | inr (p, q) ↦ elim (made-Live k i m r u h.0 h.1) [
      | inl old' ↦
          absurd ((claimed_kept k now (c, some i) r e v m u old').1 (ap some (sym q ∙ same)))
      | inr (p', q') ↦ p ∙ sym p'
    ]
  ];
  tasks = λ j task at.
      let (s, there, sid, open_) = v.tasks j task at in
      (s, get_elem?-append_left r.states _ task.state s there, sid, open_);
}
