-- ===== src/Queue/Chain.antt =====
-- core/event/queue.c: the queue and the list of its nodes.
use aros_bluzing.Prelude.{
  ℕ, ◌≡◌, refl, sym, ap, Option, none, some, List, [], ◌∷◌, ◌++◌, ◌==◌, Bool, true, false,
  Bool-cases, inl, inr, arith, ==_iff,
}
use mathlib.Core.Path.{subst}
use aros_bluzing.Timer.Order.{member, Distinct}
use aros_bluzing.Queue.{Queue, set_next, queue_init, is_empty, push, pop}

abbrev pub last : List ℕ → Option ℕ
last [] = none
last (x ∷ []) = some x
last (x ∷ y ∷ xs) = last (y ∷ xs)

-- The nodes from `start` on are the list.
abbrev pub Linked : (ℕ → Option ℕ) → Option ℕ → List ℕ → Type 0
Linked next start [] = start ≡ none
Linked next start (x ∷ xs) = (start ≡ some x) × Linked next (next x) xs

-- The queue is the list of its nodes, none of them twice.
pub record Holds (q : Queue) (xs : List ℕ) : Type 0 where
  pub linked : Linked q.next q.head xs
  pub tail : q.tail ≡ last xs
  pub distinct : Distinct xs

-- A node outside the list may change.
Linked-set :
    (next : ℕ → Option ℕ) (node : ℕ) (v : Option ℕ) (start : Option ℕ) (xs : List ℕ)
    → member node xs ≡ false
    → Linked next start xs
    → Linked (set_next next node v) start xs
unfolding member
Linked-set next node v start [] m h = h
Linked-set next node v start (x ∷ xs) m (e, h) =
    let other : (x == node) ≡ false = ground arith in
    let rest : member node xs ≡ false = ground arith in
    (e, rw other (Linked-set next node v (next x) xs rest h))

last-member : (xs : List ℕ) (t : ℕ) → last xs ≡ some t → member t xs ≡ true
unfolding member
last-member [] t e = absurd (cc)
last-member (x ∷ []) t e = let same : x ≡ t = cc in ground arith
last-member (x ∷ y ∷ xs) t e = ground (arith, last-member (y ∷ xs) t e)

Linked-push :
    (next : ℕ → Option ℕ) (node t : ℕ) (start : Option ℕ) (xs : List ℕ)
    → member node xs ≡ false
    → Distinct xs
    → last xs ≡ some t
    → Linked next start xs
    → Linked (set_next (set_next next node none) t (some node)) start (xs ++ (node ∷ []))
unfolding member
Linked-push next node t start [] m d l h = absurd (cc)
Linked-push next node t start (x ∷ []) m d l (e, h) =
    let same : x ≡ t = cc in
    let at_last : (x == t) ≡ true = ground arith in
    let not_last : (node == t) ≡ false = ground arith in
    let itself : (node == node) ≡ true = ground arith in
    (e, (rw at_last refl, rw (not_last, itself) refl))
Linked-push next node t start (x ∷ y ∷ xs) m d l (e, h) =
    let later = last-member (y ∷ xs) t l in
    let apart : (x == t) ≡ false = elim (Bool-cases (x == t)) [
      | inl k ↦ absurd (cc (ap (λ z. member z (y ∷ xs)) ((==_iff x t).0 k)))
      | inr k ↦ k
    ] in
    let other : (x == node) ≡ false = ground arith in
    let rest : member node (y ∷ xs) ≡ false = ground arith in
    let after = set_next (set_next next node none) t (some node) in
    let same : after x ≡ next x = rw (apart, other) refl in
    (
      e,
      subst (λ s. Linked after s ((y ∷ xs) ++ (node ∷ []))) (sym same)
          (Linked-push next node t (next x) (y ∷ xs) rest (d.1) l h),
    )

last-push : (xs : List ℕ) (node : ℕ) → last (xs ++ (node ∷ [])) ≡ some node
last-push [] node = refl
last-push (x ∷ []) node = refl
last-push (x ∷ y ∷ xs) node = last-push (y ∷ xs) node

member-push :
    (xs : List ℕ) (k node : ℕ)
    → (k == node) ≡ false
    → member k xs ≡ false
    → member k (xs ++ (node ∷ [])) ≡ false
unfolding member
member-push [] k node ne h = ground (arith, ne)
member-push (x ∷ xs) k node ne h = ground (arith, member-push xs k node ne)

push-Distinct :
    (xs : List ℕ) (node : ℕ) → member node xs ≡ false → Distinct xs → Distinct (xs ++ (node ∷ []))
unfolding member
push-Distinct [] node m d = (refl, tt)
push-Distinct (x ∷ xs) node m d =
    (member-push xs x node (ground arith) (d.0), push-Distinct xs node (ground arith) (d.1))

nonempty_end : (x : ℕ) (xs : List ℕ) → (t : ℕ) × (last (x ∷ xs) ≡ some t)
nonempty_end x [] = (x, refl)
nonempty_end x (y ∷ xs) = nonempty_end y xs

-- A node that is not in the queue goes behind all that are.
pub push-Holds :
    (q : Queue) (xs : List ℕ) (node : ℕ)
    → member node xs ≡ false
    → Holds q xs
    → Holds (push node q) (xs ++ (node ∷ []))
unfolding push member
push-Holds q [] node m v =
    let itself : (node == node) ≡ true = ground arith in
    rw (v.tail) (record { linked = (refl, rw itself refl); tail = refl; distinct = (refl, tt) })
push-Holds q (x ∷ xs) node m v =
    let (t, e) = nonempty_end x xs in
    rw (v.tail, e)
      (record {
        linked = Linked-push q.next node t q.head (x ∷ xs) m (v.distinct) e (v.linked);
        tail = sym (last-push (x ∷ xs) node);
        distinct = push-Distinct (x ∷ xs) node m (v.distinct);
      })

-- The first node comes out.
pub pop-Holds :
    (q : Queue) (x : ℕ) (xs : List ℕ) → Holds q (x ∷ xs) → ((pop q).0 ≡ some x) × Holds (pop q).1 xs
unfolding pop
pop-Holds q x [] v =
    rw (v.linked.0, v.linked.1) (refl, record { linked = refl; tail = refl; distinct = tt })
pop-Holds q x (y ∷ xs) v =
    rw (v.linked.0, v.linked.1.0)
      (
        refl,
        record {
          linked = Linked-set q.next x none (some y) (y ∷ xs) (v.distinct.0) (refl, v.linked.1.1);
          tail = v.tail;
          distinct = v.distinct.1;
        },
      )

abbrev pub is_nil : List ℕ → Bool
is_nil [] = true
is_nil (x ∷ xs) = false

-- What comes out of a queue that holds the list.
abbrev pub Pops : List ℕ → Queue → Option ℕ × Queue → Type 0
Pops [] q p = p ≡ (none, q)
Pops (x ∷ xs) q p = (p.0 ≡ some x) × Holds p.1 xs

pop-Pops : (q : Queue) (xs : List ℕ) → Holds q xs → Pops xs q (pop q)
unfolding pop
pop-Pops q [] v = rw (v.linked) refl
pop-Pops q (x ∷ xs) v = pop-Holds q x xs v

pub is_empty_lem : (q : Queue) (xs : List ℕ) → Holds q xs → is_empty q ≡ is_nil xs
unfolding is_empty
is_empty_lem q [] v = rw (v.linked) refl
is_empty_lem q (x ∷ xs) v = rw (v.linked.0) refl

-- The queue is first in, first out: an initialized queue is empty, a node that is not in it goes
-- behind all that are, the first node comes out and leaves the others, and nothing comes out of an
-- empty queue, which stays as it is.
pub operations-Holds :
    (q : Queue) (xs : List ℕ) (node : ℕ)
    → member node xs ≡ false
    → Holds q xs
    → Holds (queue_init q) []
      × (is_empty q ≡ is_nil xs)
      × Holds (push node q) (xs ++ (node ∷ []))
      × Pops xs q (pop q)
unfolding queue_init
operations-Holds q xs node m v = (
  record { linked = refl; tail = refl; distinct = tt },
  is_empty_lem q xs v,
  push-Holds q xs node m v,
  pop-Pops q xs v,
)
