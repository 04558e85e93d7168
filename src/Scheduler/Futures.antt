-- ===== src/Scheduler/Futures.antt =====
-- The futures that the jobs carry, keyed by the identity of the job. A future that is not in the
-- list is pending; `set_result`, `set_exception` and `cancel` are guarded by `done` everywhere.
use livekit_hugging_voice.Scheduler.Queues.Keys.{any}
use livekit_hugging_voice.Base.{
  ℕ, ◌≡◌, refl, Bool, true, false, not, ◌&&◌, ◌||◌, Option, none, some, List, [], ◌∷◌, arith, ◌==◌,
  if◌then◌else◌,
}

-- How a future ended: with a result (`none` for a stale job), by cancellation, or with an exception.
pub data Outcome (R : Type 0) : Type 0 where
  result : Option R → Outcome R
  cancelled : Outcome R
  failed : Outcome R

abbrev pub Futures : Type 0 → Type 0
Futures R = List (ℕ × Outcome R)

module _ {R : Type 0} where
  unfoldable pub outcome : ℕ → Futures R → Option (Outcome R)
  outcome i [] = none
  outcome i ((j, o) ∷ fs) = if j == i then some o else outcome i fs

  abbrev pub is_some : Option (Outcome R) → Bool
  is_some none = false
  is_some (some o) = true

  -- `future.done()`
  unfoldable pub done : ℕ → Futures R → Bool
  unfolding outcome
  done i fs = is_some (outcome i fs)

  -- `if not future.done(): future.set_…`
  unfoldable pub settle : ℕ → Outcome R → Futures R → Futures R
  unfolding done
  settle i o fs = if done i fs then fs else (i, o) ∷ fs

  -- The first outcome stays; other futures are as before.
  pub outcome-settle :
      (i j : ℕ) (o : Outcome R) (fs : Futures R)
      → outcome j (settle i o fs) ≡ (if i == j && not (done i fs) then some o else outcome j fs)
  unfolding settle
  outcome-settle i j o fs = ground arith

  pub done-settle :
      (i j : ℕ) (o : Outcome R) (fs : Futures R) → done j (settle i o fs) ≡ (i == j || done j fs)
  unfolding settle
  done-settle i j o fs = ground arith

module _ {J : Type 0} (id_of : J → ℕ) where
  abbrev pub has_id : ℕ → J → Bool
  has_id i job = id_of job == i

module _ {J R : Type 0} (id_of : J → ℕ) where
  -- `for job in jobs: if not job.future.done(): job.future.cancel()`
  unfoldable pub cancel_each : List J → Futures R → Futures R
  cancel_each [] fs = fs
  cancel_each (job ∷ jobs) fs = cancel_each jobs (settle (id_of job) cancelled fs)

module _ {J R : Type 0} (id_of : J → ℕ) where
  pub done-cancel_each :
      (i : ℕ) (jobs : List J) (fs : Futures R)
      → done i (cancel_each id_of jobs fs) ≡ (any (has_id id_of i) jobs || done i fs)
  unfolding cancel_each
  done-cancel_each i [] fs = refl
  done-cancel_each i (job ∷ jobs) fs = ground (
    arith,
    done-cancel_each i jobs (settle (id_of job) cancelled fs),
    done-settle (id_of job) i cancelled fs,
  )
