-- ===== src/Scheduler/Tts/Rotation.antt =====
-- What a scan of the session order finds, and the order that it leaves.
use livekit_hugging_voice.Base.{
  ℕ, zero, suc, ◌≡◌, refl, sym, ap, subst, ◌∙◌, ◌⊎◌, inl, inr, true, none, some, List, [], ◌∷◌,
  ◌++◌, append-nil, append_assoc, arith, Bool-cases, Option-cases, length,
}
use livekit_hugging_voice.Text.{Text, text_eq, text_eq_iff}
use livekit_hugging_voice.Scheduler.Queues.{Queues, get}
use livekit_hugging_voice.Scheduler.Queues.Waiting.{mem, AllDifferent}
use livekit_hugging_voice.Scheduler.Tts.{TtsPriority, TtsJob, Scan, scan, ready_jobs}
use livekit_hugging_voice.Scheduler.Tts.Keys.{mem-rotate, snoc-AllDifferent}

module _ (busy : List Text) (p : TtsPriority) (q : Queues TtsJob) where
  -- no session of the list is free and has a job of the priority in front
  abbrev pub NoneReady : List Text → Type 0
  NoneReady [] = Unit {0}
  NoneReady (k ∷ ks) = (ready_jobs busy p k (get k q) ≡ none) × NoneReady ks

  -- The first session of `xs` that is ready, in an order that starts with `xs` and goes on with `ys`: it
  -- and those before it go to the back.
  pub record Found (xs ys : List Text) (s : Scan) : Type 0 where
    pub session : Text
    pub job : TtsJob
    pub jobs : List TtsJob
    pub before : List Text
    pub after : List Text
    pub in_order : xs ≡ before ++ session ∷ after
    pub none_before : NoneReady before
    pub ready : ready_jobs busy p session (get session q) ≡ some (job, jobs)
    pub is_it : s.found ≡ some (session, job, jobs)
    pub to_the_back : s.order ≡ after ++ (ys ++ (before ++ session ∷ []))

  pub record Missed (xs ys : List Text) (s : Scan) : Type 0 where
    pub none_ready : NoneReady xs
    pub nothing : s.found ≡ none
    pub same_order : s.order ≡ ys ++ xs

  cons-Found :
      (x : Text) (xs ys : List Text) (s : Scan)
      → ready_jobs busy p x (get x q) ≡ none
      → Found xs (ys ++ x ∷ []) s
      → Found (x ∷ xs) ys s
  cons-Found x xs ys s unready f = record {
    session = f.session;
    job = f.job;
    jobs = f.jobs;
    before = x ∷ f.before;
    after = f.after;
    in_order = ap (λ zs. x ∷ zs) f.in_order;
    none_before = (unready, f.none_before);
    ready = f.ready;
    is_it = f.is_it;
    to_the_back =
        f.to_the_back
        ∙ ap (λ zs. f.after ++ zs) (append_assoc ys (x ∷ []) (f.before ++ f.session ∷ []));
  }

  cons-Missed :
      (x : Text) (xs ys : List Text) (s : Scan)
      → ready_jobs busy p x (get x q) ≡ none
      → Missed xs (ys ++ x ∷ []) s
      → Missed (x ∷ xs) ys s
  cons-Missed x xs ys s unready f = record {
    none_ready = (unready, f.none_ready);
    nothing = f.nothing;
    same_order = f.same_order ∙ append_assoc ys (x ∷ []) xs;
  }

  scan-skip :
      (n : ℕ) (k : Text) (ks : List Text)
      → ready_jobs busy p k (get k q) ≡ none
      → scan busy p q (suc n) (k ∷ ks) ≡ scan busy p q n (ks ++ k ∷ [])
  unfolding scan
  scan-skip n k ks e = rw (scan, e) refl

  scan-hit :
      (n : ℕ) (k : Text) (ks : List Text) (job : TtsJob) (jobs : List TtsJob)
      → ready_jobs busy p k (get k q) ≡ some (job, jobs)
      → scan busy p q (suc n) (k ∷ ks)
        ≡ record { found = some (k, job, jobs); order = ks ++ k ∷ [] }
  unfolding scan
  scan-hit n k ks job jobs e = rw (scan, e) refl

  -- A scan that tests the sessions `xs` finds the first of them that is ready, if there is one.
  pub scan-finds :
      (xs ys : List Text)
      → Found xs ys (scan busy p q (length xs) (xs ++ ys))
        ⊎ Missed xs ys (scan busy p q (length xs) (xs ++ ys))
  unfolding scan
  scan-finds [] ys =
      inr (record { none_ready = tt; nothing = refl; same_order = sym (append-nil ys) })
  scan-finds (x ∷ xs) ys = elim (Option-cases (ready_jobs busy p x (get x q))) [
    | inl e ↦
        let skip =
          scan-skip (length xs) x (xs ++ ys) e
          ∙ ap (scan busy p q (length xs)) (append_assoc xs ys (x ∷ [])) in
        elim (scan-finds xs (ys ++ x ∷ [])) [
          | inl f ↦ inl (subst (Found (x ∷ xs) ys) (sym skip) (cons-Found x xs ys _ e f))
          | inr f ↦ inr (subst (Missed (x ∷ xs) ys) (sym skip) (cons-Missed x xs ys _ e f))
        ]
    | inr ((job, jobs), e) ↦ inl (
        subst (Found (x ∷ xs) ys) (sym (scan-hit (length xs) x (xs ++ ys) job jobs e)) (record {
          session = x;
          job = job;
          jobs = jobs;
          before = [];
          after = xs;
          in_order = refl;
          none_before = tt;
          ready = e;
          is_it = refl;
          to_the_back = append_assoc xs ys (x ∷ []);
        }))
  ]

  -- Scanning only rotates the order.
  pub scan-mem :
      (i : Text) (n : ℕ) (order : List Text) → mem i (scan busy p q n order).order ≡ mem i order
  unfolding scan
  scan-mem i zero order = refl
  scan-mem i (suc n) [] = refl
  scan-mem i (suc n) (k ∷ ks) = elim (Option-cases (ready_jobs busy p k (get k q))) [
    | inl e ↦
        ap (λ s. mem i s.order) (scan-skip n k ks e)
        ∙ scan-mem i n (ks ++ k ∷ [])
        ∙ mem-rotate i k ks
    | inr ((job, jobs), e) ↦
        ap (λ s. mem i s.order) (scan-hit n k ks job jobs e) ∙ mem-rotate i k ks
  ]

  pub scan-AllDifferent :
      (n : ℕ) (order : List Text) → AllDifferent order → AllDifferent (scan busy p q n order).order
  unfolding scan
  scan-AllDifferent zero order d = d
  scan-AllDifferent (suc n) [] d = d
  scan-AllDifferent (suc n) (k ∷ ks) d =
      let turned = snoc-AllDifferent k ks d.0 d.1 in
      elim (Option-cases (ready_jobs busy p k (get k q))) [
        | inl e ↦
            subst (λ s. AllDifferent s.order) (sym (scan-skip n k ks e))
              (scan-AllDifferent n (ks ++ k ∷ []) turned)
        | inr ((job, jobs), e) ↦
            subst (λ s. AllDifferent s.order) (sym (scan-hit n k ks job jobs e)) turned
      ]

  pub NoneReady-mem :
      (k : Text) (ks : List Text)
      → NoneReady ks
      → mem k ks ≡ true
      → ready_jobs busy p k (get k q) ≡ none
  unfolding mem
  NoneReady-mem k [] n m = cc
  NoneReady-mem k (x ∷ ks) n m = elim (Bool-cases (text_eq x k)) [
    | inl e ↦ subst (λ y. ready_jobs busy p y (get y q) ≡ none) ((text_eq_iff x k).0 e) n.0
    | inr e ↦ NoneReady-mem k ks n.1 (ground arith)
  ]
