-- ===== src/CommandQueue/Invariant.antt =====
-- core/controller/command_queue.c: what holds of the queue between two calls.
use aros_bluzing.Prelude.{
  ℕ, ◌≡◌, refl, ◌<◌, ◌||◌, ◌∙◌, sym, ap, List, [], ◌∷◌, Option, none, some, true, false, ◌==◌,
  if◌then◌else◌, Bool-cases, ==_iff, inl, inr, ◌⊎◌, arith,
}
use mathlib.Core.Path.{subst}
use aros_bluzing.Queue.{Queue, pop}
use aros_bluzing.Queue.Chain.{Holds, pop-Holds}
use aros_bluzing.Timer.{Timers, cancel, add, unlink, link}
use aros_bluzing.Timer.Order.{member}
use aros_bluzing.Timer.Invariant
use aros_bluzing.Timer.Invariant.{cancel-IsValid, add-IsValid}
use aros_bluzing.CommandQueue.{Slot, Cmdq, max_pending}
use aros_bluzing.CommandQueue.Run.{is_at, release, arm}

abbrev pub in_flight : Option ℕ → List ℕ
in_flight none = []
in_flight (some i) = i ∷ []

module _ {C : Type 0} where
  -- The waiting commands are the nodes `ns` of the queue. A slot is in use exactly where its command
  -- waits or is in flight, never both, and the one timer that runs is that of the command in flight.
  pub record Consistent (pool : ℕ → Slot C) (pending : Queue) (outstanding : Option ℕ)
      (timers : Timers) (ns : List ℕ) : Type 0 where
    pub waiting : Holds pending ns
    pub timers_valid : Invariant.IsValid timers
    pub armed : timers.order ≡ in_flight outstanding
    pub used : (i : ℕ) → (pool i).in_use ≡ (member i ns || is_at outstanding i)
    pub apart : (i : ℕ) → is_at outstanding i ≡ true → member i ns ≡ false
    pub range : (i : ℕ) → (pool i).in_use ≡ true → i < max_pending

  -- The same while slot `i` is taken: it is out of the queue and about to be sent or completed.
  pub record Taken (pool : ℕ → Slot C) (pending : Queue) (outstanding : Option ℕ) (timers : Timers)
      (ns : List ℕ) (i : ℕ) : Type 0 where
    pub waiting : Holds pending ns
    pub timers_valid : Invariant.IsValid timers
    pub armed : (timers.order ≡ []) ⊎ (timers.order ≡ i ∷ [])
    pub in_hand : (outstanding ≡ none) ⊎ (outstanding ≡ some i)
    pub used : (j : ℕ) → (pool j).in_use ≡ (member j ns || i == j)
    pub absent : member i ns ≡ false
    pub range : (j : ℕ) → (pool j).in_use ≡ true → j < max_pending

pub at-outstanding : (o : Option ℕ) (i : ℕ) → is_at o i ≡ true → o ≡ some i
at-outstanding none i e = absurd (cc)
at-outstanding (some j) i e = ap some (ground arith)

-- The test before the call of `bt_timer_list_cancel` is also the first in it.
cancel_again :
    (i : ℕ) (timers : Timers)
    → (if timers.pending i then cancel i timers else timers) ≡ cancel i timers
unfolding cancel
cancel_again i timers = elim (Bool-cases (timers.pending i)) [
  | inl e ↦ rw e refl
  | inr e ↦ rw e refl
]

-- The timer of a slot in flight is off after the slot is completed, and no other runs.
stopped :
    (i : ℕ) {timers : Timers}
    → Invariant.IsValid timers
    → (timers.order ≡ []) ⊎ (timers.order ≡ i ∷ [])
    → (cancel i timers).order ≡ []
unfolding cancel
stopped i {timers} v (inl e) =
    let idle : timers.pending i ≡ false =
      sym (v.listed i) ∙ ap (member i) e ∙ (unfold member in refl) in
    rw idle e
stopped i {timers} v (inr e) =
    let itself : (i == i) ≡ true = ground arith in
    let busy : timers.pending i ≡ true =
      sym (v.listed i) ∙ ap (member i) e ∙ (unfold member in ground arith) in
    let alone : unlink i (i ∷ []) ≡ [] = unfold unlink in rw itself refl in
    rw busy (ap (unlink i) e ∙ alone)

-- Arming the timer of the slot makes it the one that runs.
armed_alone :
    (i expiry : ℕ) {timers : Timers}
    → Invariant.IsValid timers
    → (timers.order ≡ []) ⊎ (timers.order ≡ i ∷ [])
    → (add i expiry timers).order ≡ i ∷ []
unfolding add
armed_alone i expiry v h = rw (stopped i v h) (unfold link in refl)

pub cleared :
    (i : ℕ) (o : Option ℕ) → (o ≡ none) ⊎ (o ≡ some i) → (if is_at o i then none else o) ≡ none
cleared i o (inl e) = rw e refl
cleared i o (inr e) = let itself : (i == i) ≡ true = ground arith in rw (e, itself) refl

module _ {C U T : Type 0} where
  abbrev pub IsValid : Cmdq C U T → List ℕ → Type 0
  IsValid q ns = Consistent q.pool q.pending q.outstanding q.timers ns

  abbrev pub IsTaken : Cmdq C U T → List ℕ → ℕ → Type 0
  IsTaken q ns i = Taken q.pool q.pending q.outstanding q.timers ns i

  -- Completing a slot frees it.
  pub release-IsValid :
      (i : ℕ) (q : Cmdq C U T) {ns : List ℕ} → IsTaken q ns i → IsValid (release i q) ns
  unfolding release
  release-IsValid i q {ns} v =
      let idle = cleared i q.outstanding v.in_hand in
      record {
        waiting = v.waiting;
        timers_valid =
            subst Invariant.IsValid (sym (cancel_again i q.timers))
              (cancel-IsValid i v.timers_valid).0;
        armed =
            ap (λ t. t.order) (cancel_again i q.timers)
            ∙ stopped i v.timers_valid v.armed
            ∙ ap in_flight (sym idle);
        used = λ j. elim (Bool-cases (j == i)) [
          | inl e ↦
              let here = ap (λ k. member k ns) ((==_iff j i).0 e) ∙ v.absent in
              rw (e, here) (sym (ap (λ o. is_at o j) idle))
          | inr e ↦
              let other : (i == j) ≡ false = ground arith in
              rw e (v.used j ∙ ap (λ b. member j ns || b) (other ∙ sym (ap (λ o. is_at o j) idle)))
        ];
        apart = λ j e. absurd (cc);
        range = λ j e. elim (Bool-cases (j == i)) [
          | inl k ↦ absurd (cc (e, k))
          | inr k ↦ v.range j (
              sym
                (ap (λ b. (if b then record (q.pool i) { in_use = false } else q.pool j).in_use) k)
              ∙ e)
        ];
      }

  -- The command in flight may be taken.
  pub outstanding-IsTaken :
      (i : ℕ) (q : Cmdq C U T) {ns : List ℕ}
      → IsValid q ns
      → q.outstanding ≡ some i
      → IsTaken q ns i
  outstanding-IsTaken i q {ns} v e = record {
    waiting = v.waiting;
    timers_valid = v.timers_valid;
    armed = inr (v.armed ∙ ap in_flight e);
    in_hand = inr e;
    used = λ j. v.used j ∙ ap (λ o. member j ns || is_at o j) e;
    absent = v.apart i (ap (λ o. is_at o i) e ∙ (ground arith));
    range = v.range;
  }

  -- So may the first that waits, when none is in flight.
  pub pop-IsTaken :
      (i : ℕ) (q : Cmdq C U T) {ns : List ℕ}
      → IsValid q (i ∷ ns)
      → q.outstanding ≡ none
      → IsTaken (record q { pending = (pop q.pending).1 }) ns i
  unfolding member
  pop-IsTaken i q {ns} v e = record {
    waiting = (pop-Holds q.pending i ns v.waiting).1;
    timers_valid = v.timers_valid;
    armed = inl (v.armed ∙ ap in_flight e);
    in_hand = inl e;
    used = λ j. v.used j ∙ ap (λ o. member j (i ∷ ns) || is_at o j) e ∙ (ground arith);
    absent = v.waiting.distinct.0;
    range = v.range;
  }

  -- Arming the timer of the slot puts it in flight.
  pub arm-IsValid :
      (i now : ℕ) (q : Cmdq C U T) {ns : List ℕ} → IsTaken q ns i → IsValid (arm i now q) ns
  unfolding arm
  arm-IsValid i now q {ns} v = record {
    waiting = v.waiting;
    timers_valid = add-IsValid i _ v.timers_valid;
    armed = armed_alone i _ v.timers_valid v.armed;
    used = v.used;
    apart = λ j e. ap (λ k. member k ns) (sym ((==_iff i j).0 e)) ∙ v.absent;
    range = v.range;
  }
