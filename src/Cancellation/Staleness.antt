-- ===== src/Cancellation/Staleness.antt =====
-- A generation that was cancelled, finished or overtaken never becomes current again.
use livekit_hugging_voice.Base.{
  ◌≤◌, ◌≡◌, refl, inl, inr, true, false, Option, none, some, List, [], ◌∷◌, Bool-cases,
  Option-cases, arith,
}
use livekit_hugging_voice.Base.Int.{ℤ}
use livekit_hugging_voice.Text.{Text}
use livekit_hugging_voice.Cancellation.{
  GenerationToken, GenerationCancellation, Call, starts, cancels, finishes, resets, token_eq_iff,
  init, next_token, start, names_another, cancel, is_current, finish, step, run,
}

-- The current token carries the session's own id and the last epoch that was counted.
abbrev pub Holds : GenerationCancellation → Option GenerationToken → Type 0
Holds c none = Unit {0}
Holds c (some u) = (u.epoch ≡ c.epoch) × (u.session_id ≡ c.session_id)

pub record IsValid (c : GenerationCancellation) : Type 0 where
  pub holds : Holds c c.current

pub init-IsValid : (s : Text) → IsValid (init s)
unfolding init
init-IsValid s = record { holds = tt }

cancel-IsValid : (g : Option Text) (c : GenerationCancellation) → IsValid c → IsValid (cancel g c).0
unfolding cancel
cancel-IsValid g c v = ground arith

finish-IsValid :
    (t : GenerationToken) (c : GenerationCancellation) → IsValid c → IsValid (finish t c).0
unfolding finish
finish-IsValid t c v = elim (Bool-cases (is_current c t)) [
  | inl e ↦ ground (arith)
  | inr e ↦ ground (arith)
]

-- Every method keeps the current token at the last epoch and at the session's own id.
pub step-IsValid : (c : GenerationCancellation) (call : Call) → IsValid c → IsValid (step c call)
unfolding step
step-IsValid c (starts t r g) v = ground arith
step-IsValid c (cancels g) v = cancel-IsValid g c v
step-IsValid c (finishes t) v = finish-IsValid t c v
step-IsValid c resets v = ground arith

abbrev IsStale : GenerationToken → GenerationCancellation → Type 0
IsStale t c = (is_current c t ≡ false) × (t.epoch ≤ c.epoch)

cancel-IsStale :
    (t : GenerationToken) (g : Option Text) (c : GenerationCancellation)
    → IsStale t c
    → IsStale t (cancel g c).0
unfolding cancel is_current
cancel-IsStale t g c h = ground arith

finish-IsStale :
    (t u : GenerationToken) (c : GenerationCancellation) → IsStale t c → IsStale t (finish u c).0
unfolding finish is_current
finish-IsStale t u c h = ground arith

step-IsStale :
    (t : GenerationToken) (c : GenerationCancellation) (call : Call)
    → IsStale t c
    → IsStale t (step c call)
unfolding step is_current
step-IsStale t c (starts s r g) h = ground arith
step-IsStale t c (cancels g) h = cancel-IsStale t g c h
step-IsStale t c (finishes u) h = finish-IsStale t u c h
step-IsStale t c resets h = ground arith

-- A token whose epoch has been counted and which is not current stays so, whatever calls follow.
pub run-stale :
    (t : GenerationToken) (c : GenerationCancellation) (calls : List Call)
    → t.epoch ≤ c.epoch
    → is_current c t ≡ false
    → is_current (run c calls) t ≡ false
unfolding run
run-stale t c [] h e = e
run-stale t c (call ∷ calls) h e =
    let next = step-IsStale t c call (e, h) in run-stale t (step c call) calls next.1 next.0

-- `start` issues a token that is current, and no token of an epoch that was counted before it is
-- current after it.
pub start-is_current :
    (turn : Text) (revision : ℤ) (g : Text) (c : GenerationCancellation) (t : GenerationToken)
    → t.epoch ≤ c.epoch
    → (is_current (start turn revision g c).0 (start turn revision g c).1 ≡ true)
      × (is_current (start turn revision g c).0 t ≡ false)
unfolding start is_current
start-is_current turn revision g c t h =
    let issued = next_token turn revision g c in
    (ground (arith, (token_eq_iff issued issued).1 refl), ground arith)

-- For a token that is current, `cancel` with its generation id or with none, and `finish`, end it.
pub ends_current :
    (g : Option Text) (c : GenerationCancellation) (t : GenerationToken)
    → is_current c t ≡ true
    → names_another g t ≡ false
    → ((cancel g c).1 ≡ some t)
      × (is_current (cancel g c).0 t ≡ false)
      × ((finish t c).1 ≡ true)
      × (is_current (finish t c).0 t ≡ false)
unfolding cancel finish is_current
ends_current g c t h k = elim (Option-cases c.current) [
  | inl e ↦ ground arith
  | inr (u, e) ↦ ground (arith, token_eq_iff u t)
]
