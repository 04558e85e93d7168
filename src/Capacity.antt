-- ===== src/Capacity.antt =====
-- services/gpu-service/src/hugging_voice_service/capacity.py: no-queue admission over a fixed list
-- of session slots. A slot object is named by its position; the clock is an argument of each call;
-- each method is one step, since its body runs under the manager's lock.
mod Invariant
pub mod Admission
mod Examples
use livekit_hugging_voice.Base.{
  ℕ, zero, suc, ◌+◌, ◌-◌, ◌*◌, ◌/◌, ◌%◌, ◌≤◌, ◌<◌, min, max, ◌≡◌, refl, sym, ap, subst, ◌∙◌, ◌≢◌,
  ◌↔◌, ◌⊎◌, inl, inr, Bool, true, false, not, ◌&&◌, ◌||◌, Option, none, some, List, [], ◌∷◌, ◌++◌,
  map, append-nil, append_assoc, arith, ltb, leb, ◌==◌, if◌then◌else◌, Bool-cases, Option-cases,
  ==_iff, eq_refl, length, get_elem?, take, drop, length-append, length-drop, length-take,
  drop-append, take-append, drop-drop, Result, ok, err, ◌>>=◌, Result-cases,
}
use livekit_hugging_voice.Text.{Text}

pub data SlotState : Type 0 where
  idle active draining stuck : SlotState

pub record SessionSlot : Type 0 where
  pub index : ℕ
  pub state : SlotState
  pub session_id : Option Text
  pub claimed_at : Option ℕ
  pub released_at : Option ℕ
  pub stuck_at : Option ℕ

abbrev pub fresh_slot : ℕ → SessionSlot
fresh_slot index = record {
  index = index;
  state = idle;
  session_id = none;
  claimed_at = none;
  released_at = none;
  stuck_at = none;
}

-- The gauges and the counter that the manager keeps in the telemetry.
pub record Telemetry : Type 0 where
  pub sessions_active : ℕ
  pub sessions_draining : ℕ
  pub sessions_stuck : ℕ
  pub sessions_available : ℕ
  pub sessions_rejected : ℕ

pub record CapacityManager : Type 0 where
  pub slots : List SessionSlot
  pub service_draining : Bool
  pub telemetry : Telemetry

abbrev pub same_state : SlotState → SlotState → Bool
same_state idle idle = true
same_state active active = true
same_state draining draining = true
same_state stuck stuck = true
same_state _ _ = false

-- `sum(slot.state is s for slot in slots)`
unfoldable pub count : SlotState → List SessionSlot → ℕ
count s [] = 0
count s (slot ∷ slots) = (if same_state slot.state s then 1 else 0) + count s slots

pub record Report : Type 0 where
  pub total : ℕ
  pub active_count : ℕ
  pub draining_count : ℕ
  pub stuck_count : ℕ
  pub available : ℕ

unfoldable pub report : CapacityManager → Report
report m = record {
  total = length m.slots;
  active_count = count active m.slots;
  draining_count = count draining m.slots;
  stuck_count = count stuck m.slots;
  available = if m.service_draining then 0 else count idle m.slots;
}

unfoldable pub refresh_metrics : CapacityManager → CapacityManager
refresh_metrics m = record m {
  telemetry = record m.telemetry {
    sessions_active = count active m.slots;
    sessions_draining = count draining m.slots;
    sessions_stuck = count stuck m.slots;
    sessions_available = if m.service_draining then 0 else count idle m.slots;
  };
}

-- `[SessionSlot(index=index) for index in range(first, first + n)]`
unfoldable pub fresh_slots : ℕ → ℕ → List SessionSlot
fresh_slots first zero = []
fresh_slots first (suc n) = fresh_slot first ∷ fresh_slots (suc first) n

pub data Error : Type 0 where
  value_error : Error

unfoldable pub init : ℕ → Telemetry → Result Error CapacityManager
unfolding fresh_slots refresh_metrics
init max_sessions telemetry =
    if leb 1 max_sessions && leb max_sessions 64
    then ok (
        refresh_metrics (record {
          slots = fresh_slots 0 max_sessions;
          service_draining = false;
          telemetry = telemetry;
        }))
    else err value_error

abbrev pub shift : Option ℕ → Option ℕ
shift none = none
shift (some i) = some (suc i)

-- The position of the first idle slot.
unfoldable pub first_idle : List SessionSlot → Option ℕ
first_idle [] = none
first_idle (slot ∷ slots) = if same_state slot.state idle then some 0 else shift (first_idle slots)

-- An assignment to the slot object at a position.
unfoldable pub update : ℕ → (SessionSlot → SessionSlot) → List SessionSlot → List SessionSlot
update i f [] = []
update zero f (slot ∷ slots) = f slot ∷ slots
update (suc i) f (slot ∷ slots) = slot ∷ update i f slots

abbrev pub claimed : Text → ℕ → SessionSlot → SessionSlot
claimed session_id now slot = record slot {
  state = active;
  session_id = some session_id;
  claimed_at = some now;
  released_at = none;
  stuck_at = none;
}

-- The rest of `claim`, for the slot that the search found.
unfoldable pub grant : Text → ℕ → CapacityManager → Option ℕ → CapacityManager × Option ℕ
unfolding update refresh_metrics
grant session_id now m none = (
  record m {
    telemetry = record m.telemetry { sessions_rejected = m.telemetry.sessions_rejected + 1 };
  },
  none,
)
grant session_id now m (some i) =
    (refresh_metrics (record m { slots = update i (claimed session_id now) m.slots }), some i)

unfoldable pub claim : Text → ℕ → CapacityManager → CapacityManager × Option ℕ
unfolding first_idle grant
claim session_id now m =
    if m.service_draining then (m, none) else grant session_id now m (first_idle m.slots)

abbrev pub released : ℕ → SessionSlot → SessionSlot
released now slot = record slot { state = draining; released_at = some now }

-- `slot.state is SlotState.ACTIVE` at a position
unfoldable pub is_active : ℕ → List SessionSlot → Bool
is_active i slots = elim (get_elem? slots i) [
  | none ↦ false
  | some slot ↦ same_state slot.state active
]

unfoldable pub begin_release : ℕ → ℕ → CapacityManager → CapacityManager
unfolding is_active update refresh_metrics
begin_release i now m =
    if is_active i m.slots
    then refresh_metrics (record m { slots = update i (released now) m.slots })
    else m

abbrev pub drained_slot : SessionSlot → SessionSlot
drained_slot slot = record slot {
  state = idle;
  session_id = none;
  claimed_at = none;
  released_at = none;
  stuck_at = none;
}

abbrev pub stuck_slot : ℕ → SessionSlot → SessionSlot
stuck_slot now slot = record slot { state = stuck; stuck_at = some now }

unfoldable pub complete_release : ℕ → Bool → ℕ → CapacityManager → CapacityManager
unfolding update refresh_metrics
complete_release i drained now m =
    refresh_metrics
      (record m { slots = update i (if drained then drained_slot else stuck_slot now) m.slots })

unfoldable pub begin_service_drain : CapacityManager → CapacityManager
unfolding refresh_metrics
begin_service_drain m = refresh_metrics (record m { service_draining = true })

pub data Call : Type 0 where
  claims : Text → ℕ → Call
  begins : ℕ → ℕ → Call
  completes : ℕ → Bool → ℕ → Call
  drains : Call

unfoldable pub step : CapacityManager → Call → CapacityManager
unfolding claim begin_release complete_release begin_service_drain
step m (claims session_id now) = (claim session_id now m).0
step m (begins i now) = begin_release i now m
step m (completes i drained now) = complete_release i drained now m
step m drains = begin_service_drain m

unfoldable pub run : CapacityManager → List Call → CapacityManager
run m [] = m
run m (call ∷ calls) = run (step m call) calls
