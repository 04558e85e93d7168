-- ===== src/Scheduler/Tts/Keys.antt =====
-- Looking up the deques of a dict after a change, and lists of different names.
use livekit_hugging_voice.Base.{
  ◌≡◌, refl, subst, inl, inr, true, false, not, ◌&&◌, ◌||◌, none, some, List, [], ◌∷◌, ◌++◌, arith,
  if◌then◌else◌, Bool-cases,
}
use livekit_hugging_voice.Text.{Text, text_eq, text_eq_iff}
use livekit_hugging_voice.Scheduler.Queues.{Queues, get, jobs_of, push, put, without}
use livekit_hugging_voice.Scheduler.Queues.Waiting.{mem, AllDifferent}
use livekit_hugging_voice.Scheduler.Queues.Keys.{FreshKey, Keyed}
use livekit_hugging_voice.Scheduler.Tts.{is_empty, discard}

module _ {J : Type 0} where
  pub get-push :
      (i k : Text) (job : J) (q : Queues J)
      → get i (push k job q) ≡ (if text_eq k i then some (jobs_of k q ++ job ∷ []) else get i q)
  unfolding get push jobs_of
  get-push i k job [] = ground arith
  get-push i k job ((j, jobs) ∷ q) = elim (Bool-cases (text_eq j k)) [
    | inl h ↦ ground (arith, text_eq_iff j k)
    | inr h ↦ ground (arith, get-push i k job q, text_eq_iff j i, text_eq_iff k i, text_eq_iff j k)
  ]

  pub get-put :
      (i k : Text) (new : List J) (q : Queues J)
      → get i (put k new q) ≡ (if text_eq k i then some new else get i q)
  unfolding get put
  get-put i k new [] = ground arith
  get-put i k new ((j, jobs) ∷ q) = elim (Bool-cases (text_eq j k)) [
    | inl h ↦ ground (arith, text_eq_iff j k)
    | inr h ↦ ground (arith, get-put i k new q, text_eq_iff j i, text_eq_iff k i, text_eq_iff j k)
  ]

  pub get-FreshKey : (k : Text) (q : Queues J) → FreshKey k q → get k q ≡ none
  unfolding get
  get-FreshKey k [] f = refl
  get-FreshKey k ((j, jobs) ∷ q) f = ground (arith, get-FreshKey k q f.1)

  pub absent-jobs_of : (k : Text) (q : Queues J) → get k q ≡ none → jobs_of k q ≡ []
  unfolding get jobs_of
  absent-jobs_of k [] e = refl
  absent-jobs_of k ((j, jobs) ∷ q) e = ground (arith, absent-jobs_of k q)

  pub is_empty-nil : (jobs : List J) → is_empty jobs ≡ true → jobs ≡ []
  is_empty-nil [] h = refl
  is_empty-nil (x ∷ jobs) h = cc

module _ {J : Type 0} (session_of : J → Text) where
  pub get-without :
      (i k : Text) (q : Queues J)
      → Keyed session_of q
      → get i (without k q) ≡ (if text_eq k i then none else get i q)
  unfolding get without
  get-without i k [] w = ground arith
  get-without i k ((j, jobs) ∷ q) w = elim (Bool-cases (text_eq j k)) [
    | inl h ↦ ground (
      arith,
      text_eq_iff j k,
      subst (λ n. get n q ≡ none) ((text_eq_iff j k).0 h) (get-FreshKey j q w.1),
      text_eq_iff k i,
    )
    | inr h ↦
        ground (arith, get-without i k q w.2, text_eq_iff j i, text_eq_iff k i, text_eq_iff j k)
  ]

pub mem-append : (i : Text) (xs ys : List Text) → mem i (xs ++ ys) ≡ (mem i xs || mem i ys)
unfolding mem
mem-append i [] ys = refl
mem-append i (x ∷ xs) ys = ground (arith, mem-append i xs ys)

pub mem-discard :
    (i k : Text) (ss : List Text)
    → AllDifferent ss
    → mem i (discard k ss) ≡ (mem i ss && not (text_eq k i))
unfolding mem discard
mem-discard i k [] d = refl
mem-discard i k (s ∷ ss) d = elim (Bool-cases (text_eq s k)) [
  | inl h ↦ ground (
    arith,
    text_eq_iff s k,
    subst (λ n. mem n ss ≡ false) ((text_eq_iff s k).0 h) d.0,
    text_eq_iff k i,
  )
  | inr h ↦
      ground (arith, mem-discard i k ss d.1, text_eq_iff s i, text_eq_iff k i, text_eq_iff s k)
]

pub discard-AllDifferent :
    (k : Text) (ss : List Text) → AllDifferent ss → AllDifferent (discard k ss)
unfolding discard
discard-AllDifferent k [] d = tt
discard-AllDifferent k (s ∷ ss) d =
    ground (arith, discard-AllDifferent k ss d.1, mem-discard s k ss d.1)

pub snoc-AllDifferent :
    (k : Text) (ss : List Text) → mem k ss ≡ false → AllDifferent ss → AllDifferent (ss ++ k ∷ [])
unfolding mem
snoc-AllDifferent k [] m d = (refl, tt)
snoc-AllDifferent k (s ∷ ss) m d = (
  ground (arith, mem-append s ss (k ∷ []), text_eq_iff s k, text_eq_iff k s),
  snoc-AllDifferent k ss (ground arith) d.1,
)

-- a rotation by one
pub mem-rotate : (i k : Text) (ss : List Text) → mem i (ss ++ k ∷ []) ≡ mem i (k ∷ ss)
mem-rotate i k ss = unfold mem in ground (arith, mem-append i ss (k ∷ []))
