-- ===== src/Scheduler/Queues/Popped.antt =====
-- Taking the oldest job of a session out of a dict of deques.
use livekit_hugging_voice.Base.{
  ◌+◌, ◌≡◌, refl, subst, ◌≢◌, inl, inr, Bool, true, false, ◌||◌, some, List, [], ◌∷◌, arith,
  Bool-cases,
}
use livekit_hugging_voice.Text.{Text, text_eq, text_eq_iff, text_eq_refl}
use livekit_hugging_voice.Scheduler.Queues.{
  Queues, push, without, queued_count, waiting, popped, pop_left, jobs_of,
}
use livekit_hugging_voice.Scheduler.Queues.Waiting.{mem, AllDifferent}
use livekit_hugging_voice.Scheduler.Queues.Keys.{any, any_queued, FreshKey, Keyed}

module _ {J : Type 0} where
  -- no deque is empty
  abbrev pub Filled : Queues J → Type 0
  Filled [] = Unit {0}
  Filled ((k, jobs) ∷ q) = (jobs ≢ []) × Filled q

  pub push-Filled : (k : Text) (job : J) (q : Queues J) → Filled q → Filled (push k job q)
  unfolding push
  push-Filled k job [] f = ((λ e. cc), tt)
  push-Filled k job ((j, []) ∷ q) f = absurd (f.0 refl)
  push-Filled k job ((j, x ∷ jobs) ∷ q) f = ground (arith, push-Filled k job q f.1)

  pub without-Filled : (k : Text) (q : Queues J) → Filled q → Filled (without k q)
  unfolding without
  without-Filled k [] f = tt
  without-Filled k ((j, jobs) ∷ q) f = ground (arith, without-Filled k q f.1)

  pub any_queued-without :
      (p : J → Bool) (k : Text) (q : Queues J)
      → any_queued p q ≡ (any p (jobs_of k q) || any_queued p (without k q))
  unfolding without jobs_of
  any_queued-without p k [] = refl
  any_queued-without p k ((j, jobs) ∷ q) = ground (arith, any_queued-without p k q)

  mem-FreshKey : (k : Text) (q : Queues J) → FreshKey k q → mem k (waiting q) ≡ false
  unfolding mem waiting
  mem-FreshKey k [] f = refl
  mem-FreshKey k ((j, []) ∷ q) f = mem-FreshKey k q f.1
  mem-FreshKey k ((j, x ∷ jobs) ∷ q) f = ground (arith, mem-FreshKey k q f.1)

  pub waiting-ne_nil : (q : Queues J) → Filled q → q ≢ [] → waiting q ≢ []
  unfolding waiting
  waiting-ne_nil [] f ne e = ne refl
  waiting-ne_nil ((k, []) ∷ q) f ne e = f.0 refl
  waiting-ne_nil ((k, x ∷ jobs) ∷ q) f ne e = cc

module _ {J : Type 0} (session_of : J → Text) where
  pub waiting-AllDifferent : (q : Queues J) → Keyed session_of q → AllDifferent (waiting q)
  unfolding waiting
  waiting-AllDifferent [] w = tt
  waiting-AllDifferent ((k, []) ∷ q) w = waiting-AllDifferent q w.2
  waiting-AllDifferent ((k, x ∷ jobs) ∷ q) w = (mem-FreshKey k q w.1, waiting-AllDifferent q w.2)

  -- `job` was the oldest of session `k`; the rest is as before.
  pub record Popped (k : Text) (q : Queues J) (job : J) (rest : Queues J) : Type 0 where
    pub session : session_of job ≡ k
    pub oldest : jobs_of k q ≡ job ∷ jobs_of k rest
    pub keyed : Keyed session_of rest
    pub filled : Filled q → Filled rest
    pub one_less : queued_count q ≡ queued_count rest + 1
    pub others : (j : Text) → text_eq j k ≡ false → jobs_of j rest ≡ jobs_of j q
    pub same_jobs : (p : J → Bool) → any_queued p q ≡ (p job || any_queued p rest)
    pub same_keys : (j : Text) → FreshKey j q → FreshKey j rest

  jobs_of-FreshKey : (k : Text) (q : Queues J) → FreshKey k q → jobs_of k q ≡ []
  unfolding jobs_of
  jobs_of-FreshKey k [] f = refl
  jobs_of-FreshKey k ((j, jobs) ∷ q) f = ground (arith, jobs_of-FreshKey k q f.1)

  popped-Popped :
      (k : Text) (job : J) (jobs : List J) (q : Queues J)
      → Keyed session_of ((k, job ∷ jobs) ∷ q)
      → Popped k ((k, job ∷ jobs) ∷ q) job (popped k jobs q)
  unfolding jobs_of queued_count
  popped-Popped k job [] q w = record {
    session = w.0.0;
    oldest = rw (text_eq_refl k) (rw (jobs_of-FreshKey k q w.1) refl);
    keyed = w.2;
    filled = λ f. f.1;
    one_less = omega arith;
    others = λ j ne. ground (arith, text_eq_iff j k, text_eq_iff k j);
    same_jobs = λ p. ground arith;
    same_keys = λ j f. f.1;
  }
  popped-Popped k job (x ∷ jobs) q w = record {
    session = w.0.0;
    oldest = rw (text_eq_refl k) refl;
    keyed = (w.0.1, w.1, w.2);
    filled = λ f. ((λ e. cc), f.1);
    one_less = omega arith;
    others = λ j ne. ground (arith, text_eq_iff j k, text_eq_iff k j);
    same_jobs = λ p. ground arith;
    same_keys = λ j f. f;
  }

  cons-Popped :
      (k j : Text) (jobs : List J) (q rest : Queues J) (job : J)
      → text_eq j k ≡ false
      → Keyed session_of ((j, jobs) ∷ q)
      → Popped k q job rest
      → Popped k ((j, jobs) ∷ q) job ((j, jobs) ∷ rest)
  unfolding jobs_of queued_count
  cons-Popped k j jobs q rest job ne w h = record {
    session = h.session;
    oldest = rw ne h.oldest;
    keyed = (w.0, h.same_keys j w.1, h.keyed);
    filled = λ f. (f.0, h.filled f.1);
    one_less = omega (arith, h.one_less);
    others = λ i n. ground (arith, h.others i n);
    same_jobs = λ p. ground (arith, h.same_jobs p);
    same_keys = λ i f. (f.0, h.same_keys i f.1);
  }

  -- A session with waiting jobs gives its oldest.
  pub pop_left-Popped :
      (k : Text) (q : Queues J)
      → Keyed session_of q
      → mem k (waiting q) ≡ true
      → (job : J) × (rest : Queues J) × (pop_left k q ≡ some (job, rest)) × Popped k q job rest
  unfolding pop_left waiting mem
  pop_left-Popped k [] w m = absurd (cc m)
  pop_left-Popped k ((j, []) ∷ q) w m = elim (Bool-cases (text_eq j k)) [
    | inl e ↦
        absurd (cc (m, mem-FreshKey k q (subst (λ i. FreshKey i q) ((text_eq_iff j k).0 e) w.1)))
    | inr e ↦
        let (job, rest, at, h) = pop_left-Popped k q w.2 m in
        (job, (j, []) ∷ rest, rw (e, at) refl, cons-Popped k j [] q rest job e w h)
  ]
  pop_left-Popped k ((j, x ∷ jobs) ∷ q) w m = elim (Bool-cases (text_eq j k)) [
    | inl e ↦
        let h = popped-Popped j x jobs q w in
        (
          x,
          popped j jobs q,
          rw e refl,
          subst (λ i. Popped i ((j, x ∷ jobs) ∷ q) x (popped j jobs q)) ((text_eq_iff j k).0 e) h,
        )
    | inr e ↦
        let (job, rest, at, h) = pop_left-Popped k q w.2 (ground arith) in
        (job, (j, x ∷ jobs) ∷ rest, rw (e, at) refl, cons-Popped k j (x ∷ jobs) q rest job e w h)
  ]
