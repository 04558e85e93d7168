-- ===== src/Scheduler/Queues.antt =====
-- What the schedulers share: a dict of deques, one for each session, in the order in which its keys
-- were inserted, and the futures of the jobs.
pub mod Waiting
pub mod Keys
pub mod Popped
pub mod Put
pub mod Position
pub mod RoundRobin
mod Examples
use livekit_hugging_voice.Base.{
  ℕ, zero, suc, ◌+◌, ◌-◌, ◌*◌, ◌/◌, ◌%◌, ◌≤◌, ◌<◌, min, max, ◌≡◌, refl, sym, ap, subst, ◌∙◌, ◌≢◌,
  ◌↔◌, ◌⊎◌, inl, inr, Bool, true, false, not, ◌&&◌, ◌||◌, Option, none, some, List, [], ◌∷◌, ◌++◌,
  map, append-nil, append_assoc, arith, ltb, leb, ◌==◌, if◌then◌else◌, Bool-cases, Option-cases,
  ==_iff, eq_refl, length, get_elem?, take, drop, length-append, length-drop, length-take,
  drop-append, take-append, drop-drop, Result, ok, err, ◌>>=◌, Result-cases,
}
use livekit_hugging_voice.Text.{Text, text_eq, text_lt}

abbrev pub Queues : Type 0 → Type 0
Queues J = List (Text × List J)

module _ {J : Type 0} where
  -- `queues.get(session)`
  unfoldable pub get : Text → Queues J → Option (List J)
  get k [] = none
  get k ((j, jobs) ∷ q) = if text_eq j k then some jobs else get k q

  -- `queues.get(session, deque())`
  unfoldable pub jobs_of : Text → Queues J → List J
  jobs_of k [] = []
  jobs_of k ((j, jobs) ∷ q) = if text_eq j k then jobs else jobs_of k q

  -- `queues.setdefault(session, deque()).append(job)`
  unfoldable pub push : Text → J → Queues J → Queues J
  push k job [] = (k, job ∷ []) ∷ []
  push k job ((j, jobs) ∷ q) =
      if text_eq j k then (j, jobs ++ job ∷ []) ∷ q else (j, jobs) ∷ push k job q

  -- `queues.pop(session, None)`
  unfoldable pub without : Text → Queues J → Queues J
  without k [] = []
  without k ((j, jobs) ∷ q) = if text_eq j k then q else (j, jobs) ∷ without k q

  -- `queues[session] = jobs`
  unfoldable pub put : Text → List J → Queues J → Queues J
  put k new [] = (k, new) ∷ []
  put k new ((j, jobs) ∷ q) = if text_eq j k then (j, new) ∷ q else (j, jobs) ∷ put k new q

  -- `sum(len(jobs) for jobs in queues.values())`
  unfoldable pub queued_count : Queues J → ℕ
  queued_count [] = 0
  queued_count ((k, jobs) ∷ q) = length jobs + queued_count q

  -- all the jobs, session by session
  unfoldable pub all_jobs : Queues J → List J
  all_jobs [] = []
  all_jobs ((k, jobs) ∷ q) = jobs ++ all_jobs q

  -- `[session for session, jobs in queues.items() if jobs]`
  unfoldable pub waiting : Queues J → List Text
  waiting [] = []
  waiting ((k, []) ∷ q) = waiting q
  waiting ((k, job ∷ jobs) ∷ q) = k ∷ waiting q

  -- the deque after `popleft`, or no key when it is empty
  abbrev pub popped : Text → List J → Queues J → Queues J
  popped k [] q = q
  popped k (job ∷ jobs) q = (k, job ∷ jobs) ∷ q

-- `sorted`
unfoldable pub insert_sorted : Text → List Text → List Text
insert_sorted k [] = k ∷ []
insert_sorted k (s ∷ ss) = if text_lt s k then s ∷ insert_sorted k ss else k ∷ s ∷ ss

unfoldable pub sorted : List Text → List Text
unfolding insert_sorted
sorted [] = []
sorted (s ∷ ss) = insert_sorted s (sorted ss)

abbrev pub shift : Option ℕ → Option ℕ
shift none = none
shift (some i) = some (suc i)

-- `sessions.index(last)`, if it is there
unfoldable pub index_of : Text → List Text → Option ℕ
index_of k [] = none
index_of k (s ∷ ss) = if text_eq s k then some 0 else shift (index_of k ss)

abbrev pub position : Option Text → List Text → Option ℕ
position none ss = none
position (some k) ss = index_of k ss

-- `sessions[0]`, or the session after the last one, around the end; none if there is no session.
unfoldable pub after_last : Option ℕ → List Text → Option Text
after_last none ss = get_elem? ss 0
after_last (some i) ss = get_elem? ss ((i + 1) % length ss)

-- `_next_session`; `none` is its RuntimeError.
module _ {J : Type 0} where
  unfoldable pub next_session : Option Text → Queues J → Option Text
  unfolding waiting sorted index_of after_last
  next_session last q =
      let sessions = sorted (waiting q) in after_last (position last sessions) sessions

  -- `job = queues[session].popleft()`, and the key goes with its last job; `none` is a KeyError or an
  -- IndexError.
  unfoldable pub pop_left : Text → Queues J → Option (J × Queues J)
  pop_left k [] = none
  pop_left k ((j, []) ∷ q) =
      if text_eq j k
      then none
      else elim (pop_left k q) [ none ↦ none | some (job, rest) ↦ some (job, (j, []) ∷ rest) ]
  pop_left k ((j, first ∷ jobs) ∷ q) =
      if text_eq j k then some (first, popped j jobs q) else elim (pop_left k q) [
        | none ↦ none
        | some (job, rest) ↦ some (job, (j, first ∷ jobs) ∷ rest)
      ]
