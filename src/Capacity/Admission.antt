-- ===== src/Capacity/Admission.antt =====
-- Who gets a slot, and which slots are withheld.
use livekit_hugging_voice.Base.{
  ℕ, zero, suc, ◌+◌, ◌≡◌, refl, ap, ◌∙◌, ◌≢◌, inl, inr, true, false, Option, none, some, List, [],
  ◌∷◌, arith, if◌then◌else◌, Bool-cases, length, get_elem?, take,
}
use livekit_hugging_voice.Text.{Text}
use livekit_hugging_voice.Capacity.{
  SlotState, idle, active, draining, stuck, SessionSlot, CapacityManager, Call, claims, begins,
  completes, drains, count, report, refresh_metrics, same_state, shift, first_idle, update, claimed,
  grant, claim, released, is_active, begin_release, complete_release, begin_service_drain, step,
  run,
}

-- Each slot is in one of the four states.
count_total :
    (slots : List SessionSlot)
    → count idle slots + count active slots + count draining slots + count stuck slots
      ≡ length slots
unfolding count
count_total [] = refl
count_total (slot ∷ slots) = ground (arith, count_total slots)

-- The counts of `report` add up to the total while admission is open, and leave out the idle slots
-- once the service drains.
pub report_total :
    (m : CapacityManager)
    → (report m).active_count
        + (report m).draining_count
        + (report m).stuck_count
        + (if m.service_draining then count idle m.slots else (report m).available)
      ≡ (report m).total
unfolding report
report_total m = ground (arith, count_total m.slots)

-- The first idle slot is idle, is in range, and has none before it; `none` means that none is idle.
abbrev FirstIdle : List SessionSlot → Option ℕ → Type 0
FirstIdle slots none = count idle slots ≡ 0
FirstIdle slots (some i) =
    (slot : SessionSlot) × (get_elem? slots i ≡ some slot)
    × (slot.state ≡ idle)
    × (count idle (take i slots) ≡ 0)

shift-FirstIdle :
    (slot : SessionSlot) (slots : List SessionSlot) (o : Option ℕ)
    → same_state slot.state idle ≡ false
    → FirstIdle slots o
    → FirstIdle (slot ∷ slots) (shift o)
unfolding count
shift-FirstIdle slot slots none e h = ground arith
shift-FirstIdle slot slots (some i) e (found, at, is_idle, before) =
    (found, at, is_idle, ground arith)

same_state-eq : (a b : SlotState) → same_state a b ≡ true → a ≡ b
same_state-eq a b h = ground arith

first_idle-FirstIdle : (slots : List SessionSlot) → FirstIdle slots (first_idle slots)
unfolding first_idle count
first_idle-FirstIdle [] = refl
first_idle-FirstIdle (slot ∷ slots) = elim (Bool-cases (same_state slot.state idle)) [
  | inl e ↦ rw (e, first_idle) (slot, refl, same_state-eq _ _ e, refl)
  | inr e ↦ rw (e, first_idle) (shift-FirstIdle slot slots _ e (first_idle-FirstIdle slots))
]

pub get_elem?-update_self :
    (i : ℕ) (f : SessionSlot → SessionSlot) (slots : List SessionSlot) {slot : SessionSlot}
    → get_elem? slots i ≡ some slot
    → get_elem? (update i f slots) i ≡ some (f slot)
unfolding update
get_elem?-update_self i f [] h = cc
get_elem?-update_self zero f (x ∷ slots) h = ground arith
get_elem?-update_self (suc i) f (x ∷ slots) h = get_elem?-update_self i f slots h

pub get_elem?-update_ne :
    (i j : ℕ) (f : SessionSlot → SessionSlot) (slots : List SessionSlot)
    → i ≢ j
    → get_elem? (update i f slots) j ≡ get_elem? slots j
unfolding update
get_elem?-update_ne i j f [] h = refl
get_elem?-update_ne zero zero f (x ∷ slots) h = absurd (h refl)
get_elem?-update_ne zero (suc j) f (x ∷ slots) h = refl
get_elem?-update_ne (suc i) zero f (x ∷ slots) h = refl
get_elem?-update_ne (suc i) (suc j) f (x ∷ slots) h =
    get_elem?-update_ne i j f slots (λ e. h (ap suc e))

-- What `claim` may return, and the state that it leaves.
pub data Claimed (s : Text) (now : ℕ) (m : CapacityManager)
    : CapacityManager × Option ℕ → Type 0 where
  refused_draining : m.service_draining ≡ true → Claimed s now m (m, none)
  refused_full :
      {m' : CapacityManager}
      → m.service_draining ≡ false
      → count idle m.slots ≡ 0
      → m'.slots ≡ m.slots
      → m'.service_draining ≡ false
      → m'.telemetry.sessions_rejected ≡ m.telemetry.sessions_rejected + 1
      → Claimed s now m (m', none)
  admitted :
      {m' : CapacityManager} {i : ℕ} (slot : SessionSlot)
      → m.service_draining ≡ false
      → get_elem? m.slots i ≡ some slot
      → slot.state ≡ idle
      → count idle (take i m.slots) ≡ 0
      → get_elem? m'.slots i ≡ some (claimed s now slot)
      → ((j : ℕ) → i ≢ j → get_elem? m'.slots j ≡ get_elem? m.slots j)
      → m'.telemetry.sessions_rejected ≡ m.telemetry.sessions_rejected
      → Claimed s now m (m', some i)

grant-Claimed :
    (s : Text) (now : ℕ) (m : CapacityManager) (o : Option ℕ)
    → m.service_draining ≡ false
    → FirstIdle m.slots o
    → Claimed s now m (grant s now m o)
unfolding grant
grant-Claimed s now m none e h = refused_full e h refl e refl
grant-Claimed s now m (some i) e (slot, at, is_idle, before) =
    admitted slot e at is_idle before (get_elem?-update_self i (claimed s now) m.slots at)
      (λ j ne. get_elem?-update_ne i j (claimed s now) m.slots ne) refl

-- `claim` refuses without a change while the service drains; it refuses and counts the rejection
-- when no slot is idle; otherwise it gives the first idle slot to the session and leaves every
-- other slot as it was.
pub claim-Claimed : (s : Text) (now : ℕ) (m : CapacityManager) → Claimed s now m (claim s now m)
unfolding claim
claim-Claimed s now m = elim (Bool-cases m.service_draining) [
  | inl e ↦ simp e (refused_draining e)
  | inr e ↦ simp e (grant-Claimed s now m _ e (first_idle-FirstIdle m.slots))
]

-- The slot at a position is stuck.
abbrev pub StuckAt : ℕ → CapacityManager → Type 0
StuckAt i m = (slot : SessionSlot) × (get_elem? m.slots i ≡ some slot) × (slot.state ≡ stuck)

-- No call of the list completes a release of the slot at position `i`.
abbrev pub Leaves : ℕ → List Call → Type 0
Leaves i [] = Unit {0}
Leaves i (completes j drained now ∷ calls) = (j ≢ i) × Leaves i calls
Leaves i (_ ∷ calls) = Leaves i calls

claim-StuckAt :
    (i : ℕ) (s : Text) (now : ℕ) (m : CapacityManager) {r : CapacityManager × Option ℕ}
    → Claimed s now m r
    → StuckAt i m
    → StuckAt i r.0 × (r.1 ≢ some i)
claim-StuckAt i s now m (refused_draining e) h = (h, λ p. cc)
claim-StuckAt i s now m (refused_full e z same d n) (slot, at, is_stuck) =
    ((slot, rw same at, is_stuck), λ p. cc)
claim-StuckAt i s now m (admitted {i = j} slot e at is_idle before new others n)
      (held, on, is_stuck) =
    ((held, others i differs ∙ on, is_stuck), λ p. differs (cc p))
  where
    differs : j ≢ i
    differs p = cc (ap (get_elem? m.slots) p)

begin-StuckAt :
    (i j now : ℕ) (m : CapacityManager) → StuckAt i m → StuckAt i (begin_release j now m)
unfolding begin_release is_active
begin-StuckAt i j now m (slot, at, is_stuck) = elim (Bool-cases (is_active j m.slots)) [
  | inl e ↦ rw e (
    slot,
    get_elem?-update_ne j i (released now) m.slots (λ p. ground (arith, ap (get_elem? m.slots) p))
        ∙ at,
    is_stuck,
  )
  | inr e ↦ rw e (slot, at, is_stuck)
]

-- While nobody completes its release, a stuck slot stays stuck and is given to no session, whatever
-- other calls are made.
pub run-StuckAt :
    (i : ℕ) (m : CapacityManager) (calls : List Call) (s : Text) (now : ℕ)
    → StuckAt i m
    → Leaves i calls
    → StuckAt i (run m calls) × ((claim s now (run m calls)).1 ≢ some i)
unfolding run step
run-StuckAt i m [] s now h l = (h, (claim-StuckAt i s now m (claim-Claimed s now m) h).1)
run-StuckAt i m (claims t at ∷ calls) s now h l =
    run-StuckAt i (claim t at m).0 calls s now (claim-StuckAt i t at m (claim-Claimed t at m) h).0 l
run-StuckAt i m (begins j at ∷ calls) s now h l =
    run-StuckAt i (begin_release j at m) calls s now (begin-StuckAt i j at m h) l
run-StuckAt i m (completes j drained at ∷ calls) s now (slot, on, is_stuck) l =
    run-StuckAt i (complete_release j drained at m) calls s now
      (unfold complete_release in (slot, get_elem?-update_ne j i _ m.slots l.0 ∙ on, is_stuck)) l.1
run-StuckAt i m (drains ∷ calls) s now h l =
    run-StuckAt i (begin_service_drain m) calls s now (unfold begin_service_drain in h) l

step_draining :
    (m : CapacityManager) (call : Call)
    → m.service_draining ≡ true
    → (step m call).service_draining ≡ true
unfolding step grant refresh_metrics
step_draining m (claims s now) e = ground arith
step_draining m (begins i now) e = ground arith
step_draining m (completes i drained now) e = e
step_draining m drains e = refl

-- Once the service drains, `claim` gives no slot, reports none as available, and no later call
-- reopens admission.
pub run_draining :
    (m : CapacityManager) (calls : List Call) (s : Text) (now : ℕ)
    → m.service_draining ≡ true
    → ((run m calls).service_draining ≡ true)
      × (claim s now (run m calls) ≡ (run m calls, none))
      × ((report (run m calls)).available ≡ 0)
unfolding run
run_draining m [] s now e = (e, unfold claim in simp e, unfold report in simp e)
run_draining m (call ∷ calls) s now e =
    run_draining (step m call) calls s now (step_draining m call e)
