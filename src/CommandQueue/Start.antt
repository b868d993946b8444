-- ===== src/CommandQueue/Start.antt =====
-- core/controller/command_queue.c: the queue after its initialization.
use aros_bluzing.Prelude.{ℕ, ◌≡◌, refl, sym, ap, ◌∙◌, ◌≤◌, [], false, arith}
use mathlib.Core.Path.{subst}
use aros_bluzing.Queue.{queue_init}
use aros_bluzing.Timer.{timer_init}
use aros_bluzing.Timer.Order.{member, Distinct, Sorted}
use aros_bluzing.CommandQueue.{Cmdq, cmdq_init, max_pending}
use aros_bluzing.CommandQueue.Invariant.{IsValid}

module _ {C U T : Type 0} where
  -- Nothing is behind the four slots of the pool, and no timer is listed.
  pub record IsBlank (q : Cmdq C U T) : Type 0 where
    pub no_slot : (i : ℕ) → max_pending ≤ i → (q.pool i).in_use ≡ false
    pub no_timer : (i : ℕ) → max_pending ≤ i → q.timers.pending i ≡ false
    pub empty_list : q.timers.order ≡ []

  pub cmdq_init-used :
      (q : Cmdq C U T) → IsBlank q → (i : ℕ) → ((cmdq_init q).pool i).in_use ≡ false
  unfolding cmdq_init
  cmdq_init-used q b i = ground (arith, b.no_slot i)

  pub cmdq_init-IsValid : (q : Cmdq C U T) → IsBlank q → IsValid (cmdq_init q) []
  unfolding cmdq_init queue_init timer_init member
  cmdq_init-IsValid q b = record {
    waiting = record { linked = refl; tail = refl; distinct = tt };
    timers_valid = record {
      sorted = subst (Sorted (cmdq_init q).timers.expiry) (sym b.empty_list) tt;
      distinct = subst Distinct (sym b.empty_list) tt;
      listed = λ t. ap (member t) b.empty_list ∙ sym (ground (arith, b.no_timer t));
    };
    armed = b.empty_list;
    used = cmdq_init-used q b;
    apart = λ i e. absurd (cc);
    range = λ i e. absurd (cc (e, cmdq_init-used q b i));
  }
