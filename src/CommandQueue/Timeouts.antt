-- ===== src/CommandQueue/Timeouts.antt =====
-- core/controller/command_queue.c: timeouts, and all operations together.
use aros_bluzing.Prelude.{
  ℕ, zero, suc, ◌≡◌, refl, sym, ap, ◌∙◌, ◌⊎◌, List, [], ◌∷◌, Option, none, some, false, ltb,
  Bool-cases, Option-cases, inl, inr,
}
use mathlib.Core.Path.{subst}
use mathlib.Core.Option
use aros_bluzing.Timer.{Timers, update, pop_expired, pop_from}
use aros_bluzing.Timer.Invariant
use aros_bluzing.Timer.Invariant.{pop_from-IsValid}
use aros_bluzing.CommandQueue.{Slot, Cmdq, Driver}
use aros_bluzing.CommandQueue.Run.{Pump, advance, pump, on_event, fire, expire, tick}
use aros_bluzing.CommandQueue.Invariant.{IsValid, IsTaken, in_flight, outstanding-IsTaken}
use aros_bluzing.CommandQueue.Preserve.{
  SomeValid, EachValid, Keeps, timeout_callback-EachValid, pump-EachValid, on_event-EachValid,
}

module _ {C U T : Type 0} where
  -- What popping the timers finds: nothing, or the command in flight.
  abbrev pub Finds : Cmdq C U T → List ℕ → Option ℕ × Timers → Type 0
  Finds q ns p =
      (p.0 ≡ none)
      ⊎ ((i : ℕ) × (p.0 ≡ some i)
          × (q.outstanding ≡ some i)
          × IsTaken (record q { timers = p.1 }) ns i)

  pub pop_from-Finds :
      (now : ℕ) (q : Cmdq C U T) (ns order : List ℕ)
      → IsValid q ns
      → order ≡ q.timers.order
      → Finds q ns (pop_from now q.timers order)
  pop_from-Finds now q ns [] v e = inl refl
  pop_from-Finds now q ns (i ∷ rest) v e = elim (Bool-cases (ltb now (q.timers.expiry i))) [
    | inl b ↦ rw b (inl refl)
    | inr b ↦
        let valid = pop_from-IsValid now q.timers (i ∷ rest) e v.timers_valid in
        let after : (pop_from now q.timers (i ∷ rest)).1
            ≡ record q.timers { order = rest; pending = update q.timers.pending i false } =
          rw b refl in
        elim (Option-cases q.outstanding) [
          | inl k ↦ absurd (cc (e ∙ v.armed ∙ ap in_flight k))
          | inr (j, k) ↦
              let alone : i ∷ rest ≡ j ∷ [] = e ∙ v.armed ∙ ap in_flight k in
              let same : i ≡ j = cc in
              let last : rest ≡ [] = cc in
              let here = k ∙ ap some (sym same) in
              let t = outstanding-IsTaken i q v here in
              rw b (
                inr (
                  i,
                  refl,
                  here,
                  record {
                    waiting = t.waiting;
                    timers_valid = subst Invariant.IsValid after valid;
                    armed = inl last;
                    in_hand = t.in_hand;
                    used = t.used;
                    absent = t.absent;
                    range = t.range;
                  },
                ))
        ]
  ]

module _ {C U T : Type 0} (Inv : (ℕ → Slot C) → U → Type 0) (d : Driver C U T)
    (k : Keeps Inv d) where
  module _ (again : Pump C U T)
      (g : (now : ℕ) (q : Cmdq C U T) → SomeValid Inv q → EachValid Inv (again now q)) where
    bind-EachValid :
        (o : Option (Cmdq C U T)) (f : Cmdq C U T → Option (Cmdq C U T))
        → EachValid Inv o
        → ((q : Cmdq C U T) → SomeValid Inv q → EachValid Inv (f q))
        → EachValid Inv (Option.bind o f)
    unfolding Option.bind
    bind-EachValid none f v h = tt
    bind-EachValid (some q) f v h = h q v

    fire-EachValid :
        (loop : Cmdq C U T → Option (Cmdq C U T)) (p : Option ℕ × Timers) (q : Cmdq C U T)
        (ns : List ℕ)
        → ((r : Cmdq C U T) → SomeValid Inv r → EachValid Inv (loop r))
        → IsValid q ns
        → Inv q.pool q.user
        → Finds q ns p
        → EachValid Inv (fire d again loop p q)
    fire-EachValid loop (o, timers) q ns h v inv (inl e) =
        subst (λ x. EachValid Inv (fire d again loop (x, timers) q)) (sym e) (ns, v, inv)
    fire-EachValid loop (p, timers) q ns h v inv (inr (i, e, o, t)) =
        subst (λ x. EachValid Inv (fire d again loop (x, timers) q)) (sym e)
          (bind-EachValid _ loop
            (timeout_callback-EachValid Inv d k again g i (record q { timers = timers }) t inv) h)

    expire-EachValid :
        (n now : ℕ) (q : Cmdq C U T) → SomeValid Inv q → EachValid Inv (expire d again n now q)
    unfolding expire pop_expired
    expire-EachValid zero now q v = tt
    expire-EachValid (suc n) now q (ns, v, inv) =
        fire-EachValid (expire d again n now) (pop_expired now q.timers) q ns
          (expire-EachValid n now) v inv (pop_from-Finds now q ns q.timers.order v refl)

  pub tick-EachValid :
      (n now : ℕ) (q : Cmdq C U T) → SomeValid Inv q → EachValid Inv (tick d n now q)
  unfolding tick
  tick-EachValid n now q v =
      bind-EachValid (pump d n) (pump-EachValid Inv d k n) _ _
        (expire-EachValid (pump d n) (pump-EachValid Inv d k n) n now (advance now q) v)
        (pump-EachValid Inv d k n now)

  -- Whatever is sent, answered or timed out, in any order and however deep the transport and the
  -- callbacks call back, as long as the callbacks and the receiver keep the queue consistent: each
  -- slot in use is that of one command, which waits, once, or is in flight, at most one is in flight,
  -- and exactly its timer runs.
  pub operations-EachValid :
      (n now : ℕ) (bytes : List ℕ) (len : ℕ) (q : Cmdq C U T)
      → SomeValid Inv q
      → EachValid Inv (pump d n now q)
        × EachValid Inv (on_event d n bytes len now q)
        × EachValid Inv (tick d n now q)
  operations-EachValid n now bytes len q v = (
    pump-EachValid Inv d k n now q v,
    on_event-EachValid Inv d k n bytes len now q v,
    tick-EachValid n now q v,
  )
