-- ===== src/CommandQueue/Termination.antt =====
-- core/controller/command_queue.c: the depth of calls that a call needs.
use aros_bluzing.Prelude.{
  ℕ, zero, suc, ◌≡◌, ◌≢◌, refl, sym, ap, ◌∙◌, ◌≤◌, ◌<◌, ◌&&◌, not, List, [], length, take, Option,
  none, some, inl, inr, arith,
}
use mathlib.Core.Path.{subst}
use mathlib.Core.Option
use aros_bluzing.Status.{ok, err, Result}
use aros_bluzing.Queue.{pop}
use aros_bluzing.Queue.Chain.{pop-Holds}
use aros_bluzing.Timer.{pop_expired}
use aros_bluzing.Buffer.Writer.{Writer, writer_len}
use aros_bluzing.CommandQueue.{
  Completion, CmdqResult, complete, timeout, send_error, Slot, Cmdq, Sent, Driver, max_pending,
}
use aros_bluzing.CommandQueue.Run.{
  Pump, release, call_back, complete_slot, deliver, arm, after_send, hand_over, transmit, launch,
  advance, must_wait, pump, on_event, timeout_callback, fire, expire, tick, is_at,
}
use aros_bluzing.CommandQueue.Invariant.{
  IsValid, IsTaken, cleared, release-IsValid, outstanding-IsTaken, pop-IsTaken, arm-IsValid,
}
use aros_bluzing.CommandQueue.Preserve.{SomeValid, Keeps, either-elim, ready, on_event_with-Outcome}
use aros_bluzing.CommandQueue.Timeouts.{pop_from-Finds}
use aros_bluzing.CommandQueue.Load.{
  failed, timed_out, load, load-idle, load-busy, load-le, Quiet, ReturnsIn,
}

module _ {C U T : Type 0} (Inv : (ℕ → Slot C) → U → Type 0) (d : Driver C U T) (k : Keeps Inv d)
    (quiet : Quiet d) where
  failed_call :
      (o : Option C) (x : Completion) (q : Cmdq C U T) (ns : List ℕ)
      → x.result ≢ complete
      → IsValid q ns
      → IsValid (call_back d o x q) ns × ((call_back d o x q).outstanding ≡ q.outstanding)
  failed_call none x q ns h v = (v, refl)
  failed_call (some c) x q ns h v = quiet.patient c x q ns h v

  at_most : (m n : ℕ) {o : Option (Cmdq C U T)} → m ≤ n → ReturnsIn m o → ReturnsIn n o
  at_most m n h r = record {
    queue = r.queue;
    nodes = r.nodes;
    returned = r.returned;
    valid = r.valid;
    bound = omega (arith, r.bound);
  }

  module _ (n : ℕ) (again : Pump C U T)
      (g : (now : ℕ) (q : Cmdq C U T) (ns : List ℕ)
        → length ns < n
        → IsValid q ns
        → ReturnsIn (load q ns) (again now q)) where
    idle_again :
        (now : ℕ) (q : Cmdq C U T) (ns : List ℕ)
        → q.outstanding ≡ none
        → length ns < n
        → IsValid q ns
        → ReturnsIn (length ns) (again now q)
    idle_again now q ns e b v =
        at_most (load q ns) (length ns) (omega (arith, load-idle q ns e)) (g now q ns b v)

    complete_slot-ReturnsIn :
        (i : ℕ) (result : CmdqResult) (status : ℕ) (ps : List ℕ) (len now : ℕ) (q : Cmdq C U T)
        (ns : List ℕ)
        → result ≢ complete
        → length ns < n
        → IsTaken q ns i
        → ReturnsIn (length ns) (complete_slot d again i result status ps len now q)
    unfolding complete_slot release
    complete_slot-ReturnsIn i result status ps len now q ns h b v =
        let (valid, same) =
          failed_call (q.pool i).on_complete _ (release i q) ns h (release-IsValid i q v) in
        idle_again now _ ns (same ∙ cleared i q.outstanding v.in_hand) b valid

    silent_send :
        (now i : ℕ) (sent : Sent T) (q : Cmdq C U T) (ns : List ℕ)
        → sent.events ≡ []
        → length ns < n
        → IsValid q ns
        → q.outstanding ≡ some i
        → ReturnsIn (suc (length ns)) (hand_over d again now i sent q)
    unfolding deliver
    silent_send now i sent q ns e b v o =
        subst
          (λ es. ReturnsIn (suc (length ns)) (
            after_send d again now i sent.accepted
              (deliver d again es (some (record q { transport = sent.transport })))))
          (sym e)
          (either-elim (ReturnsIn (suc (length ns))) (not sent.accepted && is_at q.outstanding i) _
            _
            (λ f. at_most (length ns) (suc (length ns)) (omega arith) (
              complete_slot-ReturnsIn i send_error 0xff [] 0 now _ ns failed b
                (outstanding-IsTaken i q v o)))
            (λ f. record {
              queue = _;
              nodes = ns;
              returned = refl;
              valid = v;
              bound = omega (arith, load-busy q ns i o);
            }))

    transmit-ReturnsIn :
        (now i : ℕ) (p : Result (Unit {0}) × Writer) (q : Cmdq C U T) (ns : List ℕ)
        → length ns < n
        → IsTaken q ns i
        → ReturnsIn (suc (length ns)) (transmit d again now i p q)
    unfolding arm
    transmit-ReturnsIn now i (err e, w) q ns b v =
        at_most (length ns) (suc (length ns)) (omega arith)
          (complete_slot-ReturnsIn i send_error 0xff [] 0 now q ns failed b v)
    transmit-ReturnsIn now i (ok u, w) q ns b v =
        let bytes = take (writer_len w) w.bytes in
        silent_send now i (d.send_command q.transport bytes) (arm i now q) ns
          (quiet.silent q.transport bytes) b (arm-IsValid i now q v) refl

  pump-ReturnsIn :
      (n now : ℕ) (q : Cmdq C U T) (ns : List ℕ)
      → length ns < n
      → IsValid q ns
      → ReturnsIn (load q ns) (pump d n now q)
  unfolding pump
  pump-ReturnsIn zero now q ns b v = absurd (omega arith)
  pump-ReturnsIn (suc n) now q ns b v =
      either-elim (ReturnsIn (load q ns)) (must_wait q) _ _
        (λ w. record { queue = _; nodes = ns; returned = refl; valid = v; bound = omega arith })
        (λ w.
          let (i, rest, e, idle) = ready q ns v w in
          let less : suc (length rest) ≡ length ns = ap length (sym e) in
          let v' = subst (IsValid q) e v in
          at_most (suc (length rest)) (load q ns) (omega (arith, less, load-idle q ns idle)) (
            subst
              (λ o.
                ReturnsIn (suc (length rest))
                  (launch d (pump d n) now (o, (pop q.pending).1) (advance now q)))
              (sym (pop-Holds q.pending i rest v'.waiting).0)
              (transmit-ReturnsIn n (pump d n) (pump-ReturnsIn n) now i _ _ rest
                (omega (arith, less)) (pop-IsTaken i (advance now q) v' idle))))

  pub pump-Bounded :
      (n now : ℕ) (q : Cmdq C U T)
      → max_pending < n
      → SomeValid Inv q
      → ReturnsIn max_pending (pump d n now q)
  pump-Bounded n now q h (ns, v, inv) =
      let few = load-le q ns v in
      at_most (load q ns) max_pending few (pump-ReturnsIn n now q ns (omega (arith, few)) v)

  valid_now : (q : Cmdq C U T) → SomeValid Inv q → ReturnsIn max_pending (some q)
  valid_now q (ns, v, inv) = record {
    queue = q;
    nodes = ns;
    returned = refl;
    valid = v;
    bound = load-le q ns v;
  }

  on_event-Bounded :
      (n : ℕ) (bytes : List ℕ) (len now : ℕ) (q : Cmdq C U T)
      → max_pending < n
      → SomeValid Inv q
      → ReturnsIn max_pending (on_event d n bytes len now q)
  unfolding on_event
  on_event-Bounded n bytes len now q h v =
      on_event_with-Outcome Inv d k (pump d n) (ReturnsIn max_pending) valid_now
        (λ m r w. pump-Bounded n m r h w) bytes len now q v

  timeout-ReturnsIn :
      (n i : ℕ) (q : Cmdq C U T) (ns : List ℕ)
      → max_pending < n
      → length ns ≤ max_pending
      → IsTaken q ns i
      → ReturnsIn (length ns) (timeout_callback d (pump d n) i q)
  unfolding timeout_callback
  timeout-ReturnsIn n i q ns h few v =
      complete_slot-ReturnsIn n (pump d n) (pump-ReturnsIn n) i timeout 0xff [] 0 q.last_tick_us
        (record q { command_credits = 1 }) ns timed_out (omega arith) v

  then-ReturnsIn :
      (m n : ℕ) (o : Option (Cmdq C U T)) (f : Cmdq C U T → Option (Cmdq C U T))
      → ReturnsIn m o
      → ((q : Cmdq C U T) (ns : List ℕ) → load q ns ≤ m → IsValid q ns → ReturnsIn n (f q))
      → ReturnsIn n (Option.bind o f)
  unfolding Option.bind
  then-ReturnsIn m n o f r h =
      subst (λ x. ReturnsIn n (Option.bind x f)) (sym r.returned)
        (h r.queue r.nodes r.bound r.valid)

  -- Each round of the loop takes the command in flight off, so the load is less in the next.
  expire-ReturnsIn :
      (n m now : ℕ) (q : Cmdq C U T) (ns : List ℕ)
      → max_pending < n
      → load q ns < m
      → IsValid q ns
      → ReturnsIn (load q ns) (expire d (pump d n) m now q)
  unfolding expire pop_expired
  expire-ReturnsIn n zero now q ns h b v = absurd (omega arith)
  expire-ReturnsIn n (suc m) now q ns h b v =
      let loop = expire d (pump d n) m now in
      let timers = (pop_expired now q.timers).1 in
      elim (pop_from-Finds now q ns q.timers.order v refl) [
        | inl e ↦
            subst (λ x. ReturnsIn (load q ns) (fire d (pump d n) loop (x, timers) q)) (sym e)
              (record { queue = q; nodes = ns; returned = refl; valid = v; bound = omega arith })
        | inr (i, e, o, t) ↦
            let busy = load-busy q ns i o in
            let few = load-le q ns v in
            subst (λ x. ReturnsIn (load q ns) (fire d (pump d n) loop (x, timers) q)) (sym e)
              (then-ReturnsIn (length ns) (load q ns) _ loop
                (timeout-ReturnsIn n i (record q { timers = timers }) ns h
                  (omega (arith, few, busy)) t)
                (λ r ms le w.
                  at_most (load r ms) (load q ns) (omega (arith, busy))
                    (expire-ReturnsIn n m now r ms h (omega (arith, busy)) w)))
      ]

  tick-Bounded :
      (n now : ℕ) (q : Cmdq C U T)
      → max_pending < n
      → SomeValid Inv q
      → ReturnsIn max_pending (tick d n now q)
  unfolding tick
  tick-Bounded n now q h (ns, v, inv) =
      let few = load-le q ns v in
      then-ReturnsIn (load q ns) max_pending _ (pump d n now)
        (expire-ReturnsIn n n now (advance now q) ns h (omega (arith, few)) v)
        (λ r ms le w.
          at_most (load r ms) max_pending (omega (arith, le, few))
            (pump-ReturnsIn n now r ms (omega (arith, le, few)) w))

  -- Over a transport that does not call back while it sends, and with callbacks that submit nothing
  -- when their command failed, every call on a consistent queue returns within five levels of
  -- nesting, and leaves the queue consistent with at most four commands waiting or in flight.
  pub calls-ReturnsIn :
      (n now : ℕ) (bytes : List ℕ) (len : ℕ) (q : Cmdq C U T)
      → max_pending < n
      → SomeValid Inv q
      → ReturnsIn max_pending (pump d n now q)
        × ReturnsIn max_pending (on_event d n bytes len now q)
        × ReturnsIn max_pending (tick d n now q)
  calls-ReturnsIn n now bytes len q h v =
      (pump-Bounded n now q h v, on_event-Bounded n bytes len now q h v, tick-Bounded n now q h v)
