-- ===== src/Registry.antt =====
-- services/gpu-service/src/hugging_voice_service/sessions.py: SessionRegistry over the slots of Capacity.
-- A SessionState object is named by its place in `states`, the list of all that were made. The release of
-- a session is a task: `release` makes it, `begin` is its part up to the drain of the pipeline, and `end`
-- the part after it, with whether the drain succeeded in time.
mod Slots
mod Ownership
mod Live
mod Exclusive
mod Examples
use livekit_hugging_voice.Base.{
  ℕ, zero, suc, ◌+◌, ◌-◌, ◌*◌, ◌/◌, ◌%◌, ◌≤◌, ◌<◌, min, max, ◌≡◌, refl, sym, ap, subst, ◌∙◌, ◌≢◌,
  ◌↔◌, ◌⊎◌, inl, inr, Bool, true, false, not, ◌&&◌, ◌||◌, Option, none, some, List, [], ◌∷◌, ◌++◌,
  map, append-nil, append_assoc, arith, ltb, leb, ◌==◌, if◌then◌else◌, Bool-cases, Option-cases,
  ==_iff, eq_refl, length, get_elem?, take, drop, length-append, length-drop, length-take,
  drop-append, take-append, drop-drop, Result, ok, err, ◌>>=◌, Result-cases,
}
use livekit_hugging_voice.Text.{Text, text_eq}
use livekit_hugging_voice.Capacity
use livekit_hugging_voice.Capacity.{CapacityManager}

pub data SessionLifecycle : Type 0 where
  active draining stuck closed : SessionLifecycle

-- The part of SessionState that the registry reads or writes.
pub record SessionState : Type 0 where
  pub session_id : Text
  pub slot : ℕ
  pub lifecycle : SessionLifecycle

pub record Release : Type 0 where
  pub state : ℕ
  pub begun : Bool

pub record SessionRegistry : Type 0 where
  pub capacity : CapacityManager
  pub states : List SessionState
  pub sessions : List (Text × ℕ)
  pub releases : List (Text × Release)

module _ {A : Type 0} where
  -- `dict.get`, `dict.pop` and an assignment to a key
  unfoldable pub lookup : Text → List (Text × A) → Option A
  lookup k [] = none
  lookup k ((j, a) ∷ d) = if text_eq j k then some a else lookup k d

  unfoldable pub remove : Text → List (Text × A) → List (Text × A)
  remove k [] = []
  remove k ((j, a) ∷ d) = let rest = remove k d in if text_eq j k then rest else (j, a) ∷ rest

  unfoldable pub insert : Text → A → List (Text × A) → List (Text × A)
  unfolding remove
  insert k a d = (k, a) ∷ remove k d

-- an assignment to the lifecycle of an object
unfoldable pub set_lifecycle : ℕ → SessionLifecycle → List SessionState → List SessionState
set_lifecycle n l [] = []
set_lifecycle zero l (s ∷ states) = record s { lifecycle = l } ∷ states
set_lifecycle (suc n) l (s ∷ states) = s ∷ set_lifecycle n l states

unfoldable pub init : CapacityManager → SessionRegistry
init capacity = record { capacity = capacity; states = []; sessions = []; releases = [] }

-- What `create` returns or raises.
pub data Created : Type 0 where
  full : Created
  vad_failed : Created
  created : ℕ → Created

-- `create`, for the slot that was claimed
unfoldable pub with_slot :
    Text
    → ℕ
    → (vad_ok : Bool) → CapacityManager × Option ℕ
    → SessionRegistry
    → SessionRegistry × Created
unfolding insert
with_slot session_id now vad_ok (capacity, none) r = (record r { capacity = capacity }, full)
with_slot session_id now false (capacity, some slot) r =
    (record r { capacity = Capacity.complete_release slot true now capacity }, vad_failed)
with_slot session_id now true (capacity, some slot) r = (
  record r {
    capacity = capacity;
    states = r.states ++ record { session_id = session_id; slot = slot; lifecycle = active } ∷ [];
    sessions = insert session_id (length r.states) r.sessions;
  },
  created (length r.states),
)

unfoldable pub create : Text → ℕ → Bool → SessionRegistry → SessionRegistry × Created
unfolding with_slot
create session_id now vad_ok r =
    with_slot session_id now vad_ok (Capacity.claim session_id now r.capacity) r

unfoldable pub get : Text → SessionRegistry → Option ℕ
unfolding lookup
get session_id r = lookup session_id r.sessions

-- What `release` answers at once, or that it waits for the task.
pub data Answer : Type 0 where
  answers : Bool → Answer
  waits : Answer

unfoldable pub join_release : ℕ → Text → Option Release → SessionRegistry → SessionRegistry
unfolding insert
join_release n session_id (some task) r = r
join_release n session_id none r = record r {
  releases = insert session_id (record { state = n; begun = false }) r.releases;
}

-- The answer of a release by the lifecycle, where `joined` has the task.
unfoldable pub answer_release :
    SessionLifecycle → SessionRegistry → SessionRegistry → SessionRegistry × Answer
answer_release closed joined r = (r, answers true)
answer_release stuck joined r = (r, answers false)
answer_release active joined r = (joined, waits)
answer_release draining joined r = (joined, waits)

unfoldable pub release_state : ℕ → Option SessionState → SessionRegistry → SessionRegistry × Answer
unfolding join_release lookup answer_release
release_state n none r = (r, answers true)
release_state n (some s) r =
    answer_release s.lifecycle (join_release n s.session_id (lookup s.session_id r.releases) r) r

-- `release`; there is no call without an object
unfoldable pub release : ℕ → SessionRegistry → SessionRegistry × Answer
unfolding release_state
release n r = release_state n (get_elem? r.states n) r

-- `_release_once`, up to the await of the drain
unfoldable pub begin_task :
    Text → ℕ → Option Release → Option SessionState → SessionRegistry → SessionRegistry
unfolding insert set_lifecycle
begin_task session_id now (some task) (some s) r = record r {
  capacity = Capacity.begin_release s.slot now r.capacity;
  states = set_lifecycle task.state draining r.states;
  releases = insert session_id (record task { begun = true }) r.releases;
}
begin_task session_id now _ _ r = r

-- the rest of `_release_once`
unfoldable pub end_task :
    Text → Bool → ℕ → Option Release → Option SessionState → SessionRegistry → SessionRegistry
unfolding remove set_lifecycle
end_task session_id drained now (some task) (some s) r = record r {
  capacity = Capacity.complete_release s.slot drained now r.capacity;
  states = set_lifecycle task.state (if drained then closed else stuck) r.states;
  sessions = if drained then remove session_id r.sessions else r.sessions;
  releases = remove session_id r.releases;
}
end_task session_id drained now _ _ r = r

abbrev pub state_of : SessionRegistry → Option Release → Option SessionState
state_of r none = none
state_of r (some task) = get_elem? r.states task.state

abbrev pub has_begun : Option Release → Bool
has_begun none = false
has_begun (some task) = task.begun

unfoldable pub begin : Text → ℕ → SessionRegistry → SessionRegistry
unfolding begin_task lookup
begin session_id now r =
    let task = lookup session_id r.releases in
    if has_begun task then r else begin_task session_id now task (state_of r task) r

unfoldable pub end : Text → Bool → ℕ → SessionRegistry → SessionRegistry
unfolding end_task lookup
end session_id drained now r =
    let task = lookup session_id r.releases in
    if has_begun task then end_task session_id drained now task (state_of r task) r else r

pub data Call : Type 0 where
  creates : Text → ℕ → Bool → Call
  releases : ℕ → Call
  begins : Text → ℕ → Call
  ends : Text → Bool → ℕ → Call

unfoldable pub step : SessionRegistry → Call → SessionRegistry
step r (creates session_id now vad_ok) = (create session_id now vad_ok r).0
step r (releases n) = (release n r).0
step r (begins session_id now) = begin session_id now r
step r (ends session_id drained now) = end session_id drained now r

unfoldable pub run : SessionRegistry → List Call → SessionRegistry
run r [] = r
run r (call ∷ calls) = run (step r call) calls
