-- ===== src/Endpoints/Ordering.antt =====
-- The order of the endpoints is one of all of them, by capacity.
use livekit_hugging_voice.Base.{
  ℕ, ◌+◌, ◌≡◌, refl, ap, ◌∙◌, Bool, true, false, Option, none, some, List, [], ◌∷◌, ◌++◌, arith,
  ltb, ◌==◌, if◌then◌else◌,
}
use livekit_hugging_voice.Base.Int.{pos, negsuc}
use livekit_hugging_voice.Text.{Text, text_eq}
use livekit_hugging_voice.Endpoints.{
  CapacitySnapshot, Probe, no_response, response, snapshot, capacity, Sorted, sort_one, classify,
  after_key, insert_by_key, sort_by_key, urls, order_by_capacity,
}

-- how many elements pass a test
unfoldable pub count : {A : Type 0} → (A → Bool) → List A → ℕ
count p [] = 0
count p (x ∷ xs) = (if p x then 1 else 0) + count p xs

abbrev pub names : List (Text × Probe) → List Text
names [] = []
names ((endpoint, probe) ∷ probes) = endpoint ∷ names probes

abbrev pub is_text : Text → Text → Bool
is_text t u = text_eq u t

abbrev pub at_url : Text → CapacitySnapshot → Bool
at_url t c = text_eq c.url t

abbrev pub has_none : CapacitySnapshot → Bool
has_none c = c.available == 0

abbrev pub has_some : CapacitySnapshot → Bool
has_some c = ltb 0 c.available

-- No endpoint comes before one that has fewer sessions, or as many and more free slots.
abbrev pub Ascending : List CapacitySnapshot → Type 0
Ascending [] = Unit {0}
Ascending (c ∷ []) = Unit {0}
Ascending (c ∷ d ∷ ds) = (after_key c d ≡ false) × Ascending (d ∷ ds)

pub count-append :
    {A : Type 0} (p : A → Bool) (xs ys : List A) → count p (xs ++ ys) ≡ count p xs + count p ys
unfolding count
count-append p [] ys = omega arith
count-append p (x ∷ xs) ys = omega (arith, count-append p xs ys)

count-urls :
    (t : Text) (cs : List CapacitySnapshot) → count (is_text t) (urls cs) ≡ count (at_url t) cs
unfolding count urls
count-urls t [] = refl
count-urls t (c ∷ cs) = omega (arith, count-urls t cs)

count-insert_by_key :
    (p : CapacitySnapshot → Bool) (c : CapacitySnapshot) (cs : List CapacitySnapshot)
    → count p (insert_by_key c cs) ≡ count p (c ∷ cs)
unfolding count insert_by_key
count-insert_by_key p c [] = refl
count-insert_by_key p c (d ∷ ds) = ground (arith, count-insert_by_key p c ds)

count-sort_by_key :
    (p : CapacitySnapshot → Bool) (cs : List CapacitySnapshot)
    → count p (sort_by_key cs) ≡ count p cs
unfolding count sort_by_key
count-sort_by_key p [] = refl
count-sort_by_key p (c ∷ cs) =
    count-insert_by_key p c (sort_by_key cs)
    ∙ (unfold count in omega (arith, count-sort_by_key p cs))

after_key-asym : (a b : CapacitySnapshot) → after_key a b ≡ true → after_key b a ≡ false
unfolding after_key
after_key-asym a b h = ground arith

insert_by_key-Ascending :
    (c : CapacitySnapshot) (cs : List CapacitySnapshot)
    → Ascending cs
    → Ascending (insert_by_key c cs)
unfolding insert_by_key
insert_by_key-Ascending c [] a = tt
insert_by_key-Ascending c (d ∷ []) a = ground (arith, after_key-asym c d)
insert_by_key-Ascending c (d ∷ e ∷ ds) a =
    ground (arith, after_key-asym c d, insert_by_key-Ascending c (e ∷ ds) a.1)

sort_by_key-Ascending : (cs : List CapacitySnapshot) → Ascending (sort_by_key cs)
unfolding sort_by_key
sort_by_key-Ascending [] = tt
sort_by_key-Ascending (c ∷ cs) =
    insert_by_key-Ascending c (sort_by_key cs) (sort_by_key-Ascending cs)

capacity-url :
    (endpoint : Text) (probe : Probe) (c : CapacitySnapshot)
    → capacity endpoint probe ≡ some c
    → c.url ≡ endpoint
unfolding capacity
capacity-url endpoint no_response c e = cc
capacity-url endpoint (response status none) c e = cc
capacity-url endpoint (response status (some (pos t, pos a, pos v))) c e =
    unfold snapshot in ground arith
capacity-url endpoint (response status (some (negsuc t, a, v))) c e =
    unfold snapshot in ground arith
capacity-url endpoint (response status (some (pos t, negsuc a, v))) c e =
    unfold snapshot in ground arith
capacity-url endpoint (response status (some (pos t, pos a, negsuc v))) c e =
    unfold snapshot in ground arith

sort_one-all :
    (t endpoint : Text) (o : Option CapacitySnapshot) (s : Sorted)
    → ((c : CapacitySnapshot) → o ≡ some c → c.url ≡ endpoint)
    → count (at_url t) (sort_one endpoint o s).available
        + count (is_text t) (sort_one endpoint o s).unknown
        + count (at_url t) (sort_one endpoint o s).full
      ≡ (if text_eq endpoint t then 1 else 0)
        + (count (at_url t) s.available + count (is_text t) s.unknown + count (at_url t) s.full)
unfolding count
sort_one-all t endpoint none s h = omega arith
sort_one-all t endpoint (some c) s h = ground (arith, ap (λ u. text_eq u t) (h c refl))

classify-all :
    (t : Text) (probes : List (Text × Probe))
    → count (at_url t) (classify probes).available
        + count (is_text t) (classify probes).unknown
        + count (at_url t) (classify probes).full
      ≡ count (is_text t) (names probes)
unfolding count classify
classify-all t [] = refl
classify-all t ((endpoint, probe) ∷ probes) =
    sort_one-all t endpoint (capacity endpoint probe) (classify probes)
      (λ c e. capacity-url endpoint probe c e)
    ∙ ap (λ n. (if text_eq endpoint t then 1 else 0) + n) (classify-all t probes)

sort_one-split :
    (endpoint : Text) (o : Option CapacitySnapshot) (s : Sorted)
    → (count has_none s.available ≡ 0) × (count has_some s.full ≡ 0)
    → (count has_none (sort_one endpoint o s).available ≡ 0)
      × (count has_some (sort_one endpoint o s).full ≡ 0)
unfolding count
sort_one-split endpoint none s h = h
sort_one-split endpoint (some c) s h = ground arith

classify-split :
    (probes : List (Text × Probe))
    → (count has_none (classify probes).available ≡ 0) × (count has_some (classify probes).full ≡ 0)
unfolding classify count
classify-split [] = (refl, refl)
classify-split ((endpoint, probe) ∷ probes) =
    sort_one-split endpoint (capacity endpoint probe) (classify probes) (classify-split probes)

-- the numbers that the endpoints answered
unfoldable pub answered : List (Text × Probe) → List CapacitySnapshot
answered [] = []
answered ((endpoint, probe) ∷ probes) = elim (capacity endpoint probe) [
  | none ↦ answered probes
  | some c ↦ c ∷ answered probes
]

-- the endpoints that gave none
unfoldable pub silent : List (Text × Probe) → List Text
silent [] = []
silent ((endpoint, probe) ∷ probes) = elim (capacity endpoint probe) [
  | none ↦ endpoint ∷ silent probes
  | some c ↦ silent probes
]

sort_one-answered :
    (p : CapacitySnapshot → Bool) (endpoint : Text) (o : Option CapacitySnapshot) (s : Sorted)
    (given : List CapacitySnapshot)
    → count p s.available + count p s.full ≡ count p given
    → count p (sort_one endpoint o s).available + count p (sort_one endpoint o s).full
      ≡ count p (elim o [ none ↦ given | some c ↦ c ∷ given ])
unfolding count
sort_one-answered p endpoint none s given h = h
sort_one-answered p endpoint (some c) s given h = ground (arith, h)

classify-answered :
    (p : CapacitySnapshot → Bool) (probes : List (Text × Probe))
    → count p (classify probes).available + count p (classify probes).full
      ≡ count p (answered probes)
unfolding count classify answered
classify-answered p [] = refl
classify-answered p ((endpoint, probe) ∷ probes) =
    sort_one-answered p endpoint (capacity endpoint probe) (classify probes) (answered probes)
      (classify-answered p probes)

sort_one-silent :
    (endpoint : Text) (o : Option CapacitySnapshot) (s : Sorted) (given : List Text)
    → s.unknown ≡ given
    → (sort_one endpoint o s).unknown ≡ elim o [ none ↦ endpoint ∷ given | some c ↦ given ]
sort_one-silent endpoint none s given h = ap (λ us. endpoint ∷ us) h
sort_one-silent endpoint (some c) s given h = ground (arith, h)

classify-silent : (probes : List (Text × Probe)) → (classify probes).unknown ≡ silent probes
unfolding classify silent
classify-silent [] = refl
classify-silent ((endpoint, probe) ∷ probes) =
    sort_one-silent endpoint (capacity endpoint probe) (classify probes) (silent probes)
      (classify-silent probes)

-- The endpoints that answered with free slots come first, least busy first, then those that gave no numbers,
-- in the order in which they were asked, then those that answered that they are full.
pub record Ranked (probes : List (Text × Probe)) (order : List Text) : Type 0 where
  pub free : List CapacitySnapshot
  pub full : List CapacitySnapshot
  pub in_order : order ≡ urls free ++ silent probes ++ urls full
  -- these are the numbers that were answered, each as often
  pub all_answers :
      (p : CapacitySnapshot → Bool) → count p free + count p full ≡ count p (answered probes)
  pub ascending : Ascending free
  pub free_have : count has_none free ≡ 0
  pub full_have_not : count has_some full ≡ 0
  pub all_there : (t : Text) → count (is_text t) order ≡ count (is_text t) (names probes)

-- For a shuffle that only rearranges, the order of the endpoints has those that answered with free slots
-- first, least busy first, then those whose probe failed, then those that answered that they are full, with
-- each answer used as often as it was given, and each endpoint as often as it was asked.
pub order_by_capacity-Ranked :
    (shuffle : List CapacitySnapshot → List CapacitySnapshot) (probes : List (Text × Probe))
    → ((p : CapacitySnapshot → Bool) (cs : List CapacitySnapshot)
        → count p (shuffle cs) ≡ count p cs)
    → Ranked probes (order_by_capacity shuffle probes)
unfolding order_by_capacity
order_by_capacity-Ranked shuffle probes rearranges =
    let s = classify probes in
    let free = sort_by_key (shuffle s.available) in
    let full = shuffle s.full in
    let kept = λ (p : CapacitySnapshot → Bool).
      count-sort_by_key p (shuffle s.available) ∙ rearranges p s.available in
    record {
      free = free;
      full = full;
      in_order = ap (λ us. urls free ++ us ++ urls full) (classify-silent probes);
      all_answers = λ p. omega (arith, kept p, rearranges p s.full, classify-answered p probes);
      ascending = sort_by_key-Ascending (shuffle s.available);
      free_have = kept has_none ∙ (classify-split probes).0;
      full_have_not = rearranges has_some s.full ∙ (classify-split probes).1;
      all_there = λ t. omega (
        arith,
        count-append (is_text t) (urls free ++ s.unknown) (urls full),
        count-append (is_text t) (urls free) s.unknown,
        count-urls t free,
        count-urls t full,
        kept (at_url t),
        rearranges (at_url t) s.full,
        classify-all t probes,
      );
    }
