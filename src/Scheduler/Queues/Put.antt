-- ===== src/Scheduler/Queues/Put.antt =====
-- Replacing the deque of one session.
use livekit_hugging_voice.Base.{
  ◌+◌, ◌≡◌, sym, subst, ◌≢◌, inl, inr, Bool, false, ◌||◌, some, List, [], ◌∷◌, arith, Bool-cases,
  length,
}
use livekit_hugging_voice.Text.{Text, text_eq, text_eq_iff, text_eq_refl}
use livekit_hugging_voice.Scheduler.Queues.{Queues, get, without, put, queued_count, jobs_of}
use livekit_hugging_voice.Scheduler.Queues.Keys.{any, any_queued, FreshKey, OwnedBy, Keyed}
use livekit_hugging_voice.Scheduler.Queues.Popped.{Filled}

other_name : (i k : Text) → i ≢ k → text_eq k i ≡ false
other_name i k ne = elim (Bool-cases (text_eq k i)) [
  | inl h ↦ absurd (ne (sym ((text_eq_iff k i).0 h)))
  | inr h ↦ h
]

module _ {J : Type 0} where
  pub any_queued-put :
      (p : J → Bool) (k : Text) (new : List J) (q : Queues J)
      → any_queued p (put k new q) ≡ (any p new || any_queued p (without k q))
  unfolding put without
  any_queued-put p k new [] = ground arith
  any_queued-put p k new ((j, jobs) ∷ q) = ground (arith, any_queued-put p k new q)

  pub queued_count-put :
      (k : Text) (new : List J) (q : Queues J)
      → queued_count (put k new q) + length (jobs_of k q) ≡ queued_count q + length new
  unfolding put jobs_of queued_count
  queued_count-put k new [] = omega arith
  queued_count-put k new ((j, jobs) ∷ q) = ground (arith, queued_count-put k new q)

  pub put-Filled :
      (k : Text) (new : List J) (q : Queues J) → new ≢ [] → Filled q → Filled (put k new q)
  unfolding put
  put-Filled k new [] ne f = (ne, tt)
  put-Filled k new ((j, jobs) ∷ q) ne f = ground (arith, put-Filled k new q ne f.1)

  pub get-jobs_of :
      (k : Text) (jobs : List J) (q : Queues J) → get k q ≡ some jobs → jobs_of k q ≡ jobs
  unfolding get jobs_of
  get-jobs_of k jobs [] e = cc
  get-jobs_of k jobs ((j, js) ∷ q) e = ground (arith, get-jobs_of k jobs q)

  pub get-put_self : (k : Text) (new : List J) (q : Queues J) → get k (put k new q) ≡ some new
  unfolding get put
  get-put_self k new [] = ground (arith, text_eq_refl k)
  get-put_self k new ((j, jobs) ∷ q) = ground (arith, get-put_self k new q)

  pub get-put_ne :
      (k i : Text) (new : List J) (q : Queues J) → i ≢ k → get i (put k new q) ≡ get i q
  unfolding get put
  get-put_ne k i new [] ne = ground (arith, other_name i k ne)
  get-put_ne k i new ((j, jobs) ∷ q) ne = elim (Bool-cases (text_eq j k)) [
    | inl h ↦
        let other : text_eq j i ≡ false =
          subst (λ n. text_eq n i ≡ false) (sym ((text_eq_iff j k).0 h)) (other_name i k ne) in
        ground (arith, h, other)
    | inr h ↦ ground (arith, h, get-put_ne k i new q ne)
  ]

module _ {J : Type 0} (session_of : J → Text) where
  FreshKey-put :
      (i k : Text) (new : List J) (q : Queues J)
      → text_eq k i ≡ false
      → FreshKey i q
      → FreshKey i (put k new q)
  unfolding put
  FreshKey-put i k new [] ne f = (ne, tt)
  FreshKey-put i k new ((j, jobs) ∷ q) ne f = ground (arith, FreshKey-put i k new q ne f.1)

  pub put-Keyed :
      (k : Text) (new : List J) (q : Queues J)
      → OwnedBy session_of k new
      → Keyed session_of q
      → Keyed session_of (put k new q)
  unfolding put
  put-Keyed k new [] o w = (o, tt, tt)
  put-Keyed k new ((j, jobs) ∷ q) o w = elim (Bool-cases (text_eq j k)) [
    | inl h ↦ rw h (subst (λ i. OwnedBy session_of i new) (sym ((text_eq_iff j k).0 h)) o, w.1, w.2)
    | inr h ↦ rw h (
      w.0,
      FreshKey-put j k new q (ground (arith, text_eq_iff k j, text_eq_iff j k)) w.1,
      put-Keyed k new q o w.2,
    )
  ]

  pub jobs_of-OwnedBy :
      (k : Text) (q : Queues J) → Keyed session_of q → OwnedBy session_of k (jobs_of k q)
  unfolding jobs_of
  jobs_of-OwnedBy k [] w = tt
  jobs_of-OwnedBy k ((j, jobs) ∷ q) w = elim (Bool-cases (text_eq j k)) [
    | inl h ↦ rw h (subst (λ i. OwnedBy session_of i jobs) ((text_eq_iff j k).0 h) w.0)
    | inr h ↦ rw h (jobs_of-OwnedBy k q w.2)
  ]
