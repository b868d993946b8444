-- ===== src/CommandQueue/Load.antt =====
-- core/controller/command_queue.c: how many commands a queue holds.
use aros_bluzing.Prelude.{
  ℕ, zero, suc, ◌≡◌, ◌≢◌, ap, ◌∙◌, ◌+◌, ◌≤◌, ◌<◌, ◌||◌, List, [], ◌∷◌, length, Option, none, some,
  true, Option-cases, inl, inr, arith,
}
use aros_bluzing.Timer.{unlink}
use aros_bluzing.Timer.Order.{member, Distinct, member-unlink, unlink-Distinct}
use aros_bluzing.CommandQueue.{Completion, complete, timeout, send_error, Cmdq, Driver, max_pending}
use aros_bluzing.CommandQueue.Run.{is_at}
use aros_bluzing.CommandQueue.Invariant.{IsValid, in_flight}

length-unlink : (k : ℕ) (xs : List ℕ) → length xs ≤ suc (length (unlink k xs))
unfolding unlink
length-unlink k [] = omega arith
length-unlink k (x ∷ xs) = ground (arith, length-unlink k xs)

-- Distinct numbers below `k` are at most `k`.
pigeonhole :
    (k : ℕ) (xs : List ℕ) → Distinct xs → ((j : ℕ) → member j xs ≡ true → j < k) → length xs ≤ k
pigeonhole k [] d h = omega arith
pigeonhole zero (x ∷ xs) d h = absurd (omega (arith, h x (unfold member in ground arith)))
pigeonhole (suc k) (x ∷ xs) d h =
    let below : (j : ℕ) → member j (unlink k (x ∷ xs)) ≡ true → j < k =
      λ j m. ground (arith, h j, member-unlink k j (x ∷ xs) d) in
    omega (
      arith,
      length-unlink k (x ∷ xs),
      pigeonhole k (unlink k (x ∷ xs)) (unlink-Distinct k (x ∷ xs) d) below,
    )

pub failed : send_error ≢ complete
failed e = absurd (cc)

pub timed_out : timeout ≢ complete
timed_out e = absurd (cc)

module _ {C U T : Type 0} where
  -- The commands that wait and the one in flight.
  abbrev pub load : Cmdq C U T → List ℕ → ℕ
  load q ns = length (in_flight q.outstanding) + length ns

  pub load-idle : (q : Cmdq C U T) (ns : List ℕ) → q.outstanding ≡ none → load q ns ≡ length ns
  load-idle q ns e = omega (arith, ap (λ o. length (in_flight o)) e)

  pub load-busy :
      (q : Cmdq C U T) (ns : List ℕ) (i : ℕ) → q.outstanding ≡ some i → load q ns ≡ suc (length ns)
  load-busy q ns i e = omega (arith, ap (λ o. length (in_flight o)) e)

  -- The pool has four slots.
  pub load-le : (q : Cmdq C U T) (ns : List ℕ) → IsValid q ns → load q ns ≤ max_pending
  load-le q ns v = elim (Option-cases q.outstanding) [
    | inl e ↦ omega (
      arith,
      load-idle q ns e,
      pigeonhole max_pending ns v.waiting.distinct
          (λ j m. v.range j (v.used j ∙ ground (arith, m))),
    )
    | inr (i, e) ↦
        let there : is_at q.outstanding i ≡ true = ap (λ o. is_at o i) e ∙ ground arith in
        let busy : (j : ℕ) → member j (i ∷ ns) ≡ true → (q.pool j).in_use ≡ true = λ j m.
          v.used j ∙ ap (λ o. member j ns || is_at o j) e ∙ (unfold member in ground (arith, m)) in
        omega (
          arith,
          load-busy q ns i e,
          pigeonhole max_pending (i ∷ ns) (v.apart i there, v.waiting.distinct)
              (λ j m. v.range j (busy j m)),
        )
  ]

  -- A transport that does not call back before `send_command` returns, and callbacks that submit
  -- nothing when their command failed.
  pub record Quiet (d : Driver C U T) : Type 0 where
    pub silent : (t : T) (bytes : List ℕ) → (d.send_command t bytes).events ≡ []
    pub patient :
        (c : C) (x : Completion) (q : Cmdq C U T) (ns : List ℕ)
        → x.result ≢ complete
        → IsValid q ns
        → IsValid (d.call c x q) ns × ((d.call c x q).outstanding ≡ q.outstanding)

  -- The call returns, with a consistent queue in which at most `n` commands are waiting or in flight.
  pub record ReturnsIn (n : ℕ) (o : Option (Cmdq C U T)) : Type 0 where
    pub queue : Cmdq C U T
    pub nodes : List ℕ
    pub returned : o ≡ some queue
    pub valid : IsValid queue nodes
    pub bound : load queue nodes ≤ n
