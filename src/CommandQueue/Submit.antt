-- ===== src/CommandQueue/Submit.antt =====
-- core/controller/command_queue.c: submitting a command.
use aros_bluzing.Prelude.{
  ℕ, zero, suc, ◌≡◌, refl, sym, ap, ◌∙◌, ◌+◌, ◌≤◌, ◌<◌, ◌⊎◌, List, [], ◌∷◌, ◌++◌, take, Option,
  none, some, true, false, ◌==◌, ◌||◌, if◌then◌else◌, ℕ-cases, take-take, Bool-cases, Option-cases,
  ==_iff, inl, inr, arith,
}
use mathlib.Core.Path.{subst}
use aros_bluzing.Status.{ok, err, no_resources}
use aros_bluzing.Queue.{push}
use aros_bluzing.Queue.Chain.{push-Holds}
use aros_bluzing.Timer.{update}
use aros_bluzing.Timer.Order.{member}
use aros_bluzing.CommandQueue.{
  Slot, Cmdq, free_from, filled, submit, max_pending, default_timeout_us,
}
use aros_bluzing.CommandQueue.Run.{is_at}
use aros_bluzing.CommandQueue.Invariant.{IsValid}

-- In an empty pool the search stops at slot 0.
pub free_from_first :
    {C : Type 0} (pool : ℕ → Slot C)
    → (pool 0).in_use ≡ false
    → free_from pool max_pending 0 ≡ some 0
unfolding free_from
free_from_first pool e = rw e refl

-- What the caller of the queue asked for.
pub record Command (C : Type 0) : Type 0 where
  pub opcode : ℕ
  pub params : List ℕ
  pub timeout_us : ℕ
  pub on_complete : Option C

module _ {C : Type 0} where
  -- What the search of the pool finds: the first free slot, or that all are in use.
  abbrev pub FirstFree : (ℕ → Slot C) → ℕ → ℕ → Option ℕ → Type 0
  FirstFree pool n i none = (j : ℕ) → i ≤ j → j < n + i → (pool j).in_use ≡ true
  FirstFree pool n i (some k) =
      (i ≤ k)
      × (k < n + i)
      × ((pool k).in_use ≡ false)
      × ((j : ℕ) → i ≤ j → j < k → (pool j).in_use ≡ true)

  one_more :
      (pool : ℕ → Slot C) (n i : ℕ) (o : Option ℕ)
      → (pool i).in_use ≡ true
      → FirstFree pool n (suc i) o
      → FirstFree pool (suc n) i o
  one_more pool n i none e h = λ j a b. elim (ℕ-cases i j) [
    | inl k ↦ subst (λ m. (pool m).in_use ≡ true) k e
    | inr k ↦ h j (omega arith) (omega arith)
  ]
  one_more pool n i (some k) e (a, b, c, h) = (
    omega arith,
    omega arith,
    c,
    λ j l m. elim (ℕ-cases i j) [
      | inl p ↦ subst (λ m. (pool m).in_use ≡ true) p e
      | inr p ↦ h j (omega arith) m
    ],
  )

  pub free_from-FirstFree : (pool : ℕ → Slot C) (n i : ℕ) → FirstFree pool n i (free_from pool n i)
  unfolding free_from
  free_from-FirstFree pool zero i = λ j a b. absurd (omega arith)
  free_from-FirstFree pool (suc n) i = elim (Bool-cases (pool i).in_use) [
    | inr e ↦ rw e (omega arith, omega arith, e, λ j a b. absurd (omega arith))
    | inl e ↦
        rw e (one_more pool n i (free_from pool n (suc i)) e (free_from-FirstFree pool n (suc i)))
  ]

  abbrev pub command_of : Slot C → Command C
  command_of slot = record {
    opcode = slot.opcode;
    params = take slot.params_len slot.params;
    timeout_us = slot.timeout_us;
    on_complete = slot.on_complete;
  }

  -- The commands in the slots `ns`, in their order.
  abbrev pub commands : (ℕ → Slot C) → List ℕ → List (Command C)
  commands pool [] = []
  commands pool (i ∷ ns) = command_of (pool i) ∷ commands pool ns

  abbrev pub wanted : ℕ → List ℕ → ℕ → ℕ → Option C → Command C
  wanted opcode params params_len timeout_us on_complete = record {
    opcode = opcode;
    params = take params_len params;
    timeout_us = if timeout_us == 0 then default_timeout_us else timeout_us;
    on_complete = on_complete;
  }

  filled-command_of :
      (opcode : ℕ) (params : List ℕ) (n timeout_us : ℕ) (c : Option C) (slot : Slot C)
      → command_of (filled opcode params n timeout_us c slot) ≡ wanted opcode params n timeout_us c
  filled-command_of opcode params zero timeout_us c slot = refl
  filled-command_of opcode params (suc n) timeout_us c slot =
      let some_params : (suc n == 0) ≡ false = ground arith in
      rw some_params (
        ap (λ l. record (wanted opcode params (suc n) timeout_us c) { params = l })
          (take-take (suc n) (suc n) params (omega arith)))

  -- Filling a slot leaves the commands in others.
  commands-push :
      (pool : ℕ → Slot C) (i : ℕ) (slot : Slot C) (ns : List ℕ)
      → member i ns ≡ false
      → commands (update pool i slot) (ns ++ (i ∷ [])) ≡ commands pool ns ++ (command_of slot ∷ [])
  unfolding member
  commands-push pool i slot [] m = let itself : (i == i) ≡ true = ground arith in rw itself refl
  commands-push pool i slot (j ∷ ns) m =
      let other : (j == i) ≡ false = ground arith in
      let rest : member i ns ≡ false = ground arith in
      rw other (ap (λ l. command_of (pool j) ∷ l) (commands-push pool i slot ns rest))

pub member-push : (j i : ℕ) (ns : List ℕ) → member j (ns ++ (i ∷ [])) ≡ (member j ns || i == j)
unfolding member
member-push j i [] = ground arith
member-push j i (k ∷ ns) = ground (arith, member-push j i ns)

module _ {C U T : Type 0} where
  pub enqueue-IsValid :
      (i : ℕ) (slot : Slot C) (q : Cmdq C U T) (ns : List ℕ)
      → i < max_pending
      → slot.in_use ≡ true
      → (q.pool i).in_use ≡ false
      → IsValid q ns
      → (member i ns ≡ false)
        × IsValid
            (record q { pool = update q.pool i slot; pending = push i q.pending })
            (ns ++ (i ∷ []))
  enqueue-IsValid i slot q ns lt full free v =
      let absent : member i ns ≡ false = ground (arith, v.used i) in
      let idle : is_at q.outstanding i ≡ false = ground (arith, v.used i) in
      (
        absent,
        record {
          waiting = push-Holds q.pending ns i absent v.waiting;
          timers_valid = v.timers_valid;
          armed = v.armed;
          used = λ j. elim (Bool-cases (j == i)) [
            | inl e ↦ rw (e, member-push j i ns) (ground (arith, full))
            | inr e ↦ rw (e, member-push j i ns) (ground (arith, v.used j))
          ];
          apart = λ j e.
              let other : (i == j) ≡ false = elim (Bool-cases (i == j)) [
                | inl k ↦ absurd (cc (idle, e, ap (is_at q.outstanding) ((==_iff i j).0 k)))
                | inr k ↦ k
              ] in
              member-push j i ns ∙ ground (arith, v.apart j e);
          range = λ j e. elim (Bool-cases (j == i)) [
            | inl k ↦ omega (arith, (==_iff j i).0 k)
            | inr k ↦ v.range j (sym (ap (λ b. (if b then slot else q.pool j).in_use) k) ∙ e)
          ];
        },
      )

  -- Where all four slots are in use a submission is refused and changes nothing. Where one is free
  -- the queue stays consistent, the command waits behind all that waited, with the parameters and
  -- the callback that the caller gave, and nothing else changes for the others.
  pub submit-Queued :
      (opcode : ℕ) (params : List ℕ) (n timeout_us : ℕ) (c : Option C) (q : Cmdq C U T)
      (ns : List ℕ)
      → IsValid q ns
      → ((submit opcode params n timeout_us c q ≡ (err no_resources, q))
          × ((j : ℕ) → j < max_pending → (q.pool j).in_use ≡ true))
        ⊎ ((i : ℕ) × ((submit opcode params n timeout_us c q).0 ≡ ok tt)
            × IsValid (submit opcode params n timeout_us c q).1 (ns ++ (i ∷ []))
            × (commands (submit opcode params n timeout_us c q).1.pool (ns ++ (i ∷ []))
                ≡ commands q.pool ns ++ (wanted opcode params n timeout_us c ∷ []))
            × ((submit opcode params n timeout_us c q).1.outstanding ≡ q.outstanding))
  unfolding submit
  submit-Queued opcode params n timeout_us c q ns v =
      let found = free_from-FirstFree q.pool max_pending 0 in
      elim (Option-cases (free_from q.pool max_pending 0)) [
        | inl e ↦
            let all = subst (FirstFree q.pool max_pending 0) e found in
            rw e (inl (refl, λ j h. all j (omega arith) (omega arith)))
        | inr (i, e) ↦
            let (a, b, free, before) = subst (FirstFree q.pool max_pending 0) e found in
            let slot = filled opcode params n timeout_us c (q.pool i) in
            let (absent, valid) = enqueue-IsValid i slot q ns (omega arith) refl free v in
            rw e (
              inr (
                i,
                refl,
                valid,
                commands-push q.pool i slot ns absent
                    ∙ ap (λ x. commands q.pool ns ++ (x ∷ []))
                        (filled-command_of opcode params n timeout_us c (q.pool i)),
                refl,
              ))
      ]
