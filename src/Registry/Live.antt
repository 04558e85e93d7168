-- ===== src/Registry/Live.antt =====
-- What `release` and the assignment of a lifecycle keep of the registry.
use livekit_hugging_voice.Base.{
  ℕ, ◌≡◌, refl, sym, ap, subst, ◌∙◌, ◌≢◌, ◌⊎◌, inl, inr, true, false, Option, none, some, List,
  arith, ◌==◌, Bool-cases, ==_iff, get_elem?,
}
use livekit_hugging_voice.Text.{Text, text_eq, text_eq_iff}
use livekit_hugging_voice.Registry.{
  SessionLifecycle, active, draining, stuck, closed, SessionState, Release, SessionRegistry, lookup,
  set_lifecycle, join_release, answer_release, release_state, release,
}
use livekit_hugging_voice.Registry.Slots.{
  lookup-insert, set_lifecycle-inv, set_lifecycle_self, set_lifecycle_ne,
}
use livekit_hugging_voice.Registry.Ownership.{is_live, is_open, Live, Serves, IsExclusive}

join_release-IsExclusive :
    (n : ℕ) (s : SessionState) (o : Option Release) (r : SessionRegistry)
    → get_elem? r.states n ≡ some s
    → is_open s.lifecycle ≡ true
    → IsExclusive r
    → IsExclusive (join_release n s.session_id o r)
unfolding join_release
join_release-IsExclusive n s (some task) r at open_ v = v
join_release-IsExclusive n s none r at open_ v = record {
  held = v.held;
  apart = v.apart;
  tasks = λ j task found. elim (Bool-cases (text_eq s.session_id j)) [
    | inl same ↦
        let is_new : record { state = n; begun = false } ≡ task = ground (
          arith,
          found,
          lookup-insert j s.session_id (record { state = n; begun = false }) r.releases,
        ) in
        subst (Serves j r.states) is_new (s, at, (text_eq_iff s.session_id j).0 same, open_)
    | inr differs ↦ v.tasks j task (
        ground (
          arith,
          found,
          lookup-insert j s.session_id (record { state = n; begun = false }) r.releases,
        ))
  ];
}

answer_release-IsExclusive :
    (l : SessionLifecycle) (joined r : SessionRegistry)
    → (is_open l ≡ true → IsExclusive joined)
    → IsExclusive r
    → IsExclusive (answer_release l joined r).0
unfolding answer_release
answer_release-IsExclusive closed joined r j v = v
answer_release-IsExclusive stuck joined r j v = v
answer_release-IsExclusive active joined r j v = j refl
answer_release-IsExclusive draining joined r j v = j refl

release_state-IsExclusive :
    (n : ℕ) (o : Option SessionState) (r : SessionRegistry)
    → get_elem? r.states n ≡ o
    → IsExclusive r
    → IsExclusive (release_state n o r).0
unfolding release_state
release_state-IsExclusive n none r at v = v
release_state-IsExclusive n (some s) r at v =
    answer_release-IsExclusive s.lifecycle
      (join_release n s.session_id (lookup s.session_id r.releases) r) r
      (λ open_. join_release-IsExclusive n s (lookup s.session_id r.releases) r at open_ v) v

pub release-IsExclusive :
    (n : ℕ) (r : SessionRegistry) → IsExclusive r → IsExclusive (release n r).0
unfolding release
release-IsExclusive n r v = release_state-IsExclusive n (get_elem? r.states n) r refl v

pub open-live : (l : SessionLifecycle) → is_open l ≡ true → is_live l ≡ true
open-live active e = refl
open-live draining e = refl
open-live stuck e = cc
open-live closed e = cc

pub same_state_of :
    (states : List SessionState) (n : ℕ) (s t : SessionState)
    → get_elem? states n ≡ some s
    → get_elem? states n ≡ some t
    → s ≡ t
same_state_of states n s t e f = cc (e, f)

-- a live object, before the lifecycle of an open one was assigned
pub was-Live :
    (r : SessionRegistry) (n m : ℕ) (l : SessionLifecycle) (s s' : SessionState)
    → get_elem? r.states n ≡ some s
    → is_open s.lifecycle ≡ true
    → get_elem? (set_lifecycle n l r.states) m ≡ some s'
    → is_live s'.lifecycle ≡ true
    → (t : SessionState) × Live r m t
      × (s'.slot ≡ t.slot)
      × (((n ≡ m) × (t ≡ s) × (is_live l ≡ true)) ⊎ (n ≢ m))
was-Live r n m l s s' at open_ at' live =
    let (t, there, which) = set_lifecycle-inv n m l r.states s' at' in
    elim which [
      | inl (p, q) ↦
          let same : t ≡ s =
            same_state_of r.states m t s there (ap (get_elem? r.states) (sym p) ∙ at) in
          (
            t,
            (
              there,
              ap (λ (u : SessionState). is_live u.lifecycle) same ∙ open-live s.lifecycle open_,
            ),
            ap (λ (u : SessionState). u.slot) q,
            inl (p, same, sym (ap (λ (u : SessionState). is_live u.lifecycle) q) ∙ live),
          )
      | inr (p, q) ↦ (
        t,
        (there, sym (ap (λ (u : SessionState). is_live u.lifecycle) q) ∙ live),
        ap (λ (u : SessionState). u.slot) q,
        inr p,
      )
    ]

-- two live objects after an assignment were two before it
pub apart_after :
    (r : SessionRegistry) (k : ℕ) (l : SessionLifecycle) (s : SessionState)
    → IsExclusive r
    → get_elem? r.states k ≡ some s
    → is_open s.lifecycle ≡ true
    → (n m : ℕ) (t u : SessionState) → Live (record r { states = set_lifecycle k l r.states }) n t
    → Live (record r { states = set_lifecycle k l r.states }) m u
    → t.slot ≡ u.slot
    → n ≡ m
apart_after r k l s v at open_ n m t u lt lu same =
    let (t', live, slot, which) = was-Live r k n l s t at open_ lt.0 lt.1 in
    let (u', live', slot', which') = was-Live r k m l s u at open_ lu.0 lu.1 in
    v.apart n m t' u' live live' (sym slot ∙ same ∙ slot')

-- a task is still served after an assignment of an open lifecycle, or of one to another object
pub Serves-set :
    (k : Text) (n : ℕ) (l : SessionLifecycle) (states : List SessionState) (task : Release)
    → is_open l ≡ true ⊎ (n ≢ task.state)
    → Serves k states task
    → Serves k (set_lifecycle n l states) task
Serves-set k n l states task which (s, at, sid, open_) = elim (Bool-cases (n == task.state)) [
  | inl same ↦
      let p : n ≡ task.state = (==_iff n task.state).0 same in
      elim which [
        | inl is ↦ (
          record s { lifecycle = l },
          subst
              (λ m.
                get_elem? (set_lifecycle m l states) task.state ≡ some (record s { lifecycle = l }))
              (sym p) (set_lifecycle_self task.state l states s at),
          sid,
          is,
        )
        | inr ne ↦ absurd (ne p)
      ]
  | inr other ↦ (
    s,
    set_lifecycle_ne n task.state l states (λ p. ground (arith, other, p, ==_iff n task.state))
        ∙ at,
    sid,
    open_,
  )
]
