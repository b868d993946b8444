-- ===== src/Timer/Invariant.antt =====
-- core/timer/timer.c: the operations on the sorted list, and the pending timers.
use aros_bluzing.Prelude.{
  ℕ, ◌≤◌, ◌<◌, ◌≡◌, refl, List, [], ◌∷◌, ltb, ◌==◌, true, false, Bool-cases, ==_iff, inl, inr, ◌⊎◌,
  ◌∙◌, sym, ap, All, Option, none, some, arith,
}
use mathlib.Core.Path.{subst}
use aros_bluzing.Timer.{
  Timers, update, cancel, add, pop_expired, pop_from, next_expiry, expiry_from, uint64_max,
}
use aros_bluzing.Timer.Order.{
  member, Distinct, Sorted, member-unlink, unlink-Distinct, unlink-Sorted, member-link,
  link-Distinct, link-Sorted,
}

pub record IsValid (s : Timers) : Type 0 where
  pub sorted : Sorted s.expiry s.order
  pub distinct : Distinct s.order
  pub listed : (t : ℕ) → member t s.order ≡ s.pending t

All-update :
    (expiry : ℕ → ℕ) (t e k : ℕ) (xs : List ℕ)
    → member t xs ≡ false
    → All (λ y. k ≤ expiry y) xs
    → All (λ y. k ≤ update expiry t e y) xs
unfolding member
All-update expiry t e k [] m h = tt
All-update expiry t e k (x ∷ xs) m h =
    (ground (arith, h.0), All-update expiry t e k xs (ground arith) h.1)

-- Sortedness reads only the expiries of the listed timers.
Sorted-update :
    (expiry : ℕ → ℕ) (t e : ℕ) (xs : List ℕ)
    → member t xs ≡ false
    → Sorted expiry xs
    → Sorted (update expiry t e) xs
unfolding member
Sorted-update expiry t e [] m h = tt
Sorted-update expiry t e (x ∷ xs) m h =
    let other : (x == t) ≡ false = ground arith in
    let absent : member t xs ≡ false = ground arith in
    (
      rw other (All-update expiry t e (expiry x) xs absent h.0),
      Sorted-update expiry t e xs absent h.1,
    )

pub cancel-IsValid :
    (t : ℕ) {s : Timers} → IsValid s → IsValid (cancel t s) × ((cancel t s).pending t ≡ false)
unfolding cancel
cancel-IsValid t {s} v = elim (Bool-cases (s.pending t)) [
  | inl e ↦ rw e (
    record {
      sorted = unlink-Sorted t s.expiry s.order v.sorted;
      distinct = unlink-Distinct t s.order v.distinct;
      listed = λ u. ground (arith, member-unlink t u s.order v.distinct, v.listed u);
    },
    ground arith,
  )
  | inr e ↦ rw e (v, e)
]

pub add-IsValid : (t e : ℕ) {s : Timers} → IsValid s → IsValid (add t e s)
unfolding add
add-IsValid t e {s} v =
    let (c, idle) = cancel-IsValid t v in
    let s' = cancel t s in
    let absent : member t s'.order ≡ false = c.listed t ∙ idle in
    record {
      sorted =
          link-Sorted (update s'.expiry t e) t e s'.order (ground arith)
            (Sorted-update s'.expiry t e s'.order absent c.sorted);
      distinct = link-Distinct (update s'.expiry t e) t e s'.order absent c.distinct;
      listed = λ u. ground (arith, member-link (update s'.expiry t e) t e u s'.order, c.listed u);
    }

pub pop_from-IsValid :
    (now : ℕ) (s : Timers) (order : List ℕ)
    → order ≡ s.order
    → IsValid s
    → IsValid (pop_from now s order).1
pop_from-IsValid now s [] e v = v
pop_from-IsValid now s (t ∷ rest) e v = elim (Bool-cases (ltb now (s.expiry t))) [
  | inl b ↦ rw b v
  | inr b ↦
      let sorted : Sorted s.expiry (t ∷ rest) = subst (Sorted s.expiry) (sym e) v.sorted in
      let distinct : Distinct (t ∷ rest) = subst Distinct (sym e) v.distinct in
      let listed = λ (u : ℕ). ap (member u) e ∙ v.listed u in
      rw b (record {
        sorted = sorted.1;
        distinct = distinct.1;
        listed = λ u. unfold member in ground (arith, distinct.0, listed u);
      })
]

-- Whatever is cancelled, added or popped, the list stays sorted by expiry, without duplicates, and
-- made of exactly the pending timers; a timer is not pending after its cancellation and is pending
-- with the new expiry after it was added.
pub operations-IsValid :
    (t e now : ℕ) {s : Timers}
    → IsValid s
    → IsValid (cancel t s)
      × IsValid (add t e s)
      × IsValid (pop_expired now s).1
      × ((cancel t s).pending t ≡ false)
      × ((add t e s).pending t ≡ true)
      × ((add t e s).expiry t ≡ e)
unfolding pop_expired
operations-IsValid t e now {s} v = (
  (cancel-IsValid t v).0,
  add-IsValid t e v,
  pop_from-IsValid now s s.order refl v,
  (cancel-IsValid t v).1,
  unfold add in ground arith,
  unfold add in ground arith,
)

member-All : (P : ℕ → Type 0) (u : ℕ) (xs : List ℕ) → member u xs ≡ true → All P xs → P u
unfolding member
member-All P u [] m h = absurd (cc)
member-All P u (x ∷ xs) m h = elim (Bool-cases (x == u)) [
  | inl e ↦ subst P ((==_iff x u).0 e) h.0
  | inr e ↦ member-All P u xs (ground arith) h.1
]

-- The first of a sorted chain expires no later than any timer of it.
Sorted-head :
    (expiry : ℕ → ℕ) (t u : ℕ) (xs : List ℕ)
    → Sorted expiry (t ∷ xs)
    → member u (t ∷ xs) ≡ true
    → expiry t ≤ expiry u
Sorted-head expiry t u xs h m =
    member-All (λ y. expiry t ≤ expiry y) u (t ∷ xs) m (omega arith, h.0)

-- A timer is not pending, or has the property.
abbrev pub IfPending : Timers → (ℕ → Type 0) → Type 0
IfPending s P = (u : ℕ) → (s.pending u ≡ false) ⊎ P u

abbrev pub Earliest : ℕ → Timers → Option ℕ × Timers → Type 0
Earliest now s p =
    ((t : ℕ) × (p.0 ≡ some t)
      × (s.pending t ≡ true)
      × (s.expiry t ≤ now)
      × IfPending s (λ u. s.expiry t ≤ s.expiry u)
      × (p.1.pending t ≡ false)
      × ((u : ℕ) → (u ≡ t) ⊎ (p.1.pending u ≡ s.pending u))
      × (p.1.expiry ≡ s.expiry))
    ⊎ ((p.0 ≡ none) × IfPending s (λ u. now < s.expiry u) × (p.1 ≡ s))

none_listed : (s : Timers) → [] ≡ s.order → IsValid s → (u : ℕ) → s.pending u ≡ false
none_listed s e v u = sym (v.listed u) ∙ ap (member u) (sym e) ∙ (unfold member in refl)

-- The first of the chain is pending and expires no later than any pending timer.
first_listed :
    (s : Timers) (t : ℕ) (rest : List ℕ)
    → t ∷ rest ≡ s.order
    → IsValid s
    → (s.pending t ≡ true) × IfPending s (λ u. s.expiry t ≤ s.expiry u)
first_listed s t rest e v =
    let sorted : Sorted s.expiry (t ∷ rest) = subst (Sorted s.expiry) (sym e) v.sorted in
    (
      sym (v.listed t) ∙ sym (ap (member t) e) ∙ (unfold member in ground arith),
      λ u. elim (Bool-cases (s.pending u)) [
        | inr idle ↦ inl idle
        | inl busy ↦
            inr (Sorted-head s.expiry t u rest sorted (ap (member u) e ∙ v.listed u ∙ busy))
      ],
    )

pop_from-Earliest :
    (now : ℕ) (s : Timers) (order : List ℕ)
    → order ≡ s.order
    → IsValid s
    → Earliest now s (pop_from now s order)
pop_from-Earliest now s [] e v = inr (refl, (λ u. inl (none_listed s e v u)), refl)
pop_from-Earliest now s (t ∷ rest) e v =
    let (here, first) = first_listed s t rest e v in
    elim (Bool-cases (ltb now (s.expiry t))) [
      | inl b ↦ rw b (
          inr (
            refl,
            (λ u. elim (first u) [ inl idle ↦ inl idle | inr le ↦ inr (ground (arith, b, le)) ]),
            refl,
          ))
      | inr b ↦ rw b (
          inl (
            t,
            refl,
            here,
            ground arith,
            first,
            ground arith,
            (λ u. elim (Bool-cases (u == t)) [
              | inl same ↦ inl ((==_iff u t).0 same)
              | inr other ↦ inr (rw other refl)
            ]),
            refl,
          ))
    ]

-- Popping returns a pending timer that is due and expires no later than any other pending timer, and
-- takes it off, and only it; or it returns none, changes nothing, and no pending timer is due, which
-- is so where none is pending.
pub pop_expired-Earliest : (now : ℕ) {s : Timers} → IsValid s → Earliest now s (pop_expired now s)
unfolding pop_expired
pop_expired-Earliest now {s} v = pop_from-Earliest now s s.order refl v

abbrev pub Soonest : Timers → ℕ → Type 0
Soonest s e =
    ((e ≡ uint64_max) × ((u : ℕ) → s.pending u ≡ false))
    ⊎ ((t : ℕ) × (s.pending t ≡ true) × (e ≡ s.expiry t) × IfPending s (λ u. e ≤ s.expiry u))

expiry_from-Soonest :
    (s : Timers) (order : List ℕ) → order ≡ s.order → IsValid s → Soonest s (expiry_from s order)
expiry_from-Soonest s [] e v = inl (refl, none_listed s e v)
expiry_from-Soonest s (t ∷ rest) e v =
    let (here, first) = first_listed s t rest e v in inr (t, here, refl, first)

-- The next expiry is the largest number of 64 bits where no timer is pending, and else the expiry of a
-- pending timer, which is not later than that of any pending timer.
pub next_expiry-Soonest : {s : Timers} → IsValid s → Soonest s (next_expiry s)
unfolding next_expiry
next_expiry-Soonest {s} v = expiry_from-Soonest s s.order refl v
