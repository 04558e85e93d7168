-- ===== src/Capacity/Invariant.antt =====
-- What every history of a capacity manager keeps: its slots, their owners, and its gauges.
use livekit_hugging_voice.Base.{
  ℕ, zero, suc, ◌≤◌, ◌≡◌, refl, ap, ◌∙◌, inl, inr, Bool, true, false, Option, none, some, List, [],
  ◌∷◌, arith, Bool-cases, length, get_elem?, ok,
}
use livekit_hugging_voice.Text.{Text}
use livekit_hugging_voice.Capacity.{
  SlotState, idle, active, SessionSlot, Telemetry, CapacityManager, Call, claims, begins, completes,
  drains, count, report, refresh_metrics, fresh_slots, init, first_idle, update, claimed, grant,
  claim, released, is_active, begin_release, drained_slot, stuck_slot, complete_release,
  begin_service_drain, step, run,
}

-- An idle slot has no owner and no times; an active slot has an owner.
abbrev pub Owned : SlotState → SessionSlot → Type 0
Owned idle slot =
    (slot.session_id ≡ none)
    × (slot.claimed_at ≡ none)
    × (slot.released_at ≡ none)
    × (slot.stuck_at ≡ none)
Owned active slot = (s : Text) × (slot.session_id ≡ some s)
Owned _ slot = Unit {0}

-- The slots from position `k` on carry their positions and are owned as their states say.
abbrev pub Slots : ℕ → List SessionSlot → Type 0
Slots k [] = Unit {0}
Slots k (slot ∷ slots) = (slot.index ≡ k) × Owned slot.state slot × Slots (suc k) slots

-- The gauges show what `report` counts.
pub record Shows (m : CapacityManager) : Type 0 where
  pub sees_active : m.telemetry.sessions_active ≡ (report m).active_count
  pub sees_draining : m.telemetry.sessions_draining ≡ (report m).draining_count
  pub sees_stuck : m.telemetry.sessions_stuck ≡ (report m).stuck_count
  pub sees_available : m.telemetry.sessions_available ≡ (report m).available

pub record IsValid (total : ℕ) (m : CapacityManager) : Type 0 where
  pub sized : length m.slots ≡ total
  pub placed : Slots 0 m.slots
  pub shown : Shows m

refresh-Shows : (m : CapacityManager) → Shows (refresh_metrics m)
unfolding refresh_metrics report
refresh-Shows m = ground arith

length-update :
    (i : ℕ) (f : SessionSlot → SessionSlot) (slots : List SessionSlot)
    → length (update i f slots) ≡ length slots
unfolding update
length-update i f [] = refl
length-update zero f (slot ∷ slots) = refl
length-update (suc i) f (slot ∷ slots) = ap suc (length-update i f slots)

-- A change that keeps a slot's place and leaves it owned as its new state says.
abbrev Keeps : (SessionSlot → SessionSlot) → SessionSlot → Type 0
Keeps f slot = ((f slot).index ≡ slot.index) × Owned (f slot).state (f slot)

update-Slots :
    (k i : ℕ) (f : SessionSlot → SessionSlot) (slots : List SessionSlot)
    → ((slot : SessionSlot) → get_elem? slots i ≡ some slot → Owned slot.state slot → Keeps f slot)
    → Slots k slots
    → Slots k (update i f slots)
unfolding update
update-Slots k i f [] keep v = tt
update-Slots k zero f (slot ∷ slots) keep v = ground (arith, keep slot refl v.1)
update-Slots k (suc i) f (slot ∷ slots) keep v = (v.0, v.1, update-Slots (suc k) i f slots keep v.2)

fresh_slots-Slots : (k n : ℕ) → Slots k (fresh_slots k n)
unfolding fresh_slots
fresh_slots-Slots k zero = tt
fresh_slots-Slots k (suc n) = (refl, (refl, refl, refl, refl), fresh_slots-Slots (suc k) n)

length-fresh_slots : (k n : ℕ) → length (fresh_slots k n) ≡ n
unfolding fresh_slots
length-fresh_slots k zero = refl
length-fresh_slots k (suc n) = ap suc (length-fresh_slots (suc k) n)

-- The state after a change of one slot, its metrics refreshed.
change-IsValid :
    (total i : ℕ) (f : SessionSlot → SessionSlot) (m : CapacityManager)
    → ((slot : SessionSlot)
        → get_elem? m.slots i ≡ some slot
        → Owned slot.state slot
        → Keeps f slot)
    → IsValid total m
    → IsValid total (refresh_metrics (record m { slots = update i f m.slots }))
unfolding refresh_metrics
change-IsValid total i f m keep v = record {
  sized = length-update i f m.slots ∙ v.sized;
  placed = update-Slots 0 i f m.slots keep v.placed;
  shown = refresh-Shows (record m { slots = update i f m.slots });
}

grant-IsValid :
    (total : ℕ) (s : Text) (now : ℕ) (m : CapacityManager) (o : Option ℕ)
    → IsValid total m
    → IsValid total (grant s now m o).0
unfolding grant report
grant-IsValid total s now m none v = ground arith
grant-IsValid total s now m (some i) v =
    change-IsValid total i (claimed s now) m (λ slot e w. (refl, (s, refl))) v

claim-IsValid :
    (total : ℕ) (s : Text) (now : ℕ) (m : CapacityManager)
    → IsValid total m
    → IsValid total (claim s now m).0
unfolding claim
claim-IsValid total s now m v = elim (Bool-cases m.service_draining) [
  | inl e ↦ simp e v
  | inr e ↦ simp e (grant-IsValid total s now m (first_idle m.slots) v)
]

begin-IsValid :
    (total i now : ℕ) (m : CapacityManager)
    → IsValid total m
    → IsValid total (begin_release i now m)
unfolding begin_release
begin-IsValid total i now m v = elim (Bool-cases (is_active i m.slots)) [
  | inl e ↦ rw e (change-IsValid total i (released now) m (λ slot at w. (refl, tt)) v)
  | inr e ↦ rw e v
]

complete-IsValid :
    (total i : ℕ) (drained : Bool) (now : ℕ) (m : CapacityManager)
    → IsValid total m
    → IsValid total (complete_release i drained now m)
unfolding complete_release
complete-IsValid total i true now m v =
    change-IsValid total i drained_slot m (λ slot at w. (refl, (refl, refl, refl, refl))) v
complete-IsValid total i false now m v =
    change-IsValid total i (stuck_slot now) m (λ slot at w. (refl, tt)) v

drain-IsValid :
    (total : ℕ) (m : CapacityManager) → IsValid total m → IsValid total (begin_service_drain m)
unfolding begin_service_drain refresh_metrics
drain-IsValid total m v = record {
  sized = v.sized;
  placed = v.placed;
  shown = refresh-Shows (record m { service_draining = true });
}

step-IsValid :
    (total : ℕ) (m : CapacityManager) (call : Call) → IsValid total m → IsValid total (step m call)
unfolding step
step-IsValid total m (claims s now) v = claim-IsValid total s now m v
step-IsValid total m (begins i now) v = begin-IsValid total i now m v
step-IsValid total m (completes i drained now) v = complete-IsValid total i drained now m v
step-IsValid total m drains v = drain-IsValid total m v

-- Every history of calls keeps the number of slots, their positions, their owners, and gauges that
-- show what `report` counts.
pub run-IsValid :
    (total : ℕ) (m : CapacityManager) (calls : List Call)
    → IsValid total m
    → IsValid total (run m calls)
unfolding run
run-IsValid total m [] v = v
run-IsValid total m (call ∷ calls) v =
    run-IsValid total (step m call) calls (step-IsValid total m call v)

count_fresh : (k n : ℕ) → count idle (fresh_slots k n) ≡ n
unfolding count fresh_slots
count_fresh k zero = refl
count_fresh k (suc n) = omega (arith, count_fresh (suc k) n)

abbrev new_manager : ℕ → Telemetry → CapacityManager
new_manager n t =
    refresh_metrics (record { slots = fresh_slots 0 n; service_draining = false; telemetry = t })

new_manager-IsValid : (n : ℕ) (t : Telemetry) → IsValid n (new_manager n t)
unfolding refresh_metrics
new_manager-IsValid n t = record {
  sized = length-fresh_slots 0 n;
  placed = fresh_slots-Slots 0 n;
  shown =
      refresh-Shows (record { slots = fresh_slots 0 n; service_draining = false; telemetry = t });
}

-- A manager is made with 1 to 64 slots and no other number, and starts valid with all of them idle.
pub init-IsValid :
    (n : ℕ) (t : Telemetry) (m : CapacityManager)
    → init n t ≡ ok m
    → IsValid n m × (1 ≤ n) × (n ≤ 64) × (count idle m.slots ≡ n)
unfolding init
init-IsValid n t m e = ground (arith, new_manager-IsValid n t, count_fresh 0 n)
