-- ===== src/CommandQueue.antt =====
-- core/controller/command_queue.c: the queue of HCI commands, one in flight at a time.
-- A slot of the pool is known by its index, which also stands for its node in the queue of waiting
-- commands and for its timer. The callers' `on_complete` with its `user_data` is a value of a type
-- `C`, the state that callbacks and receivers change besides the queue is a `U`, and the state of
-- the transport is a `T`.
pub mod Run
pub mod Invariant
pub mod Preserve
pub mod Submit
pub mod Start
pub mod Timeouts
pub mod Load
pub mod Termination
pub mod Exchange
pub mod Answers
use aros_bluzing.Prelude.{
  ℕ, zero, suc, List, take, Bool, true, false, Option, none, some, ◌==◌, if◌then◌else◌,
}
use aros_bluzing.Status.{ok, err, no_resources, Action}
use aros_bluzing.Queue
use aros_bluzing.Queue.{Queue, queue_init}
use aros_bluzing.Timer.{Timers, update, timer_init}

pub data CmdqResult : Type 0 where
  complete timeout send_error : CmdqResult

-- A null `return_params` is the empty list.
pub record Completion : Type 0 where
  pub result : CmdqResult
  pub opcode : ℕ
  pub status : ℕ
  pub return_params : List ℕ
  pub return_params_len : ℕ

pub record Slot (C : Type 0) : Type 0 where
  pub in_use : Bool
  pub opcode : ℕ
  pub params : List ℕ
  pub params_len : ℕ
  pub timeout_us : ℕ
  pub on_complete : Option C

pub record Cmdq (C U T : Type 0) : Type 0 where
  pub pool : ℕ → Slot C
  pub pending : Queue
  pub outstanding : Option ℕ
  pub command_credits : ℕ
  pub last_tick_us : ℕ
  pub timers : Timers
  pub user : U
  pub transport : T

-- What a call of `send_command` does: whether it returns 0, the events it hands to the receiver
-- before it returns, each with its time, and the transport after it.
pub record Sent (T : Type 0) : Type 0 where
  pub accepted : Bool
  pub events : List (List ℕ × ℕ)
  pub transport : T

-- The code around the queue: the transport's `send_command`, the callbacks, and what the receiver
-- of an event does after it gave it to the queue.
pub record Driver (C U T : Type 0) : Type 0 where
  pub send_command : T → List ℕ → Sent T
  pub call : C → Completion → Cmdq C U T → Cmdq C U T
  pub receive : List ℕ → Cmdq C U T → Cmdq C U T

abbrev pub max_pending : ℕ
max_pending = 4

abbrev pub default_timeout_us : ℕ
default_timeout_us = 5000000

module _ {C : Type 0} where
  -- The loop over the pool from index `i` on, `n` slots.
  unfoldable pub free_from : (ℕ → Slot C) → ℕ → ℕ → Option ℕ
  free_from pool zero i = none
  free_from pool (suc n) i =
      let later = free_from pool n (suc i) in if (pool i).in_use then later else some i

  abbrev pub filled : ℕ → List ℕ → ℕ → ℕ → Option C → Slot C → Slot C
  filled opcode params params_len timeout_us on_complete slot = record {
    in_use = true;
    opcode = opcode;
    params = if params_len == 0 then slot.params else take params_len params;
    params_len = params_len;
    timeout_us = if timeout_us == 0 then default_timeout_us else timeout_us;
    on_complete = on_complete;
  }

module _ {C U T : Type 0} where
  abbrev init_slot : ℕ → Cmdq C U T → Cmdq C U T
  init_slot i q = record q {
    pool = update q.pool i (record (q.pool i) { in_use = false });
    timers = timer_init i q.timers;
  }

  unfoldable pub cmdq_init : Cmdq C U T → Cmdq C U T
  cmdq_init q = init_slot 3 (
      init_slot 2 (
        init_slot 1 (
          init_slot 0 (record q {
            pending = queue_init q.pending;
            outstanding = none;
            command_credits = 1;
            last_tick_us = 0;
          }))))

  abbrev pub enqueue : Option ℕ → (Slot C → Slot C) → Action (Cmdq C U T) (Unit {0})
  enqueue none fill q = (err no_resources, q)
  enqueue (some i) fill q = (
    ok tt,
    record q { pool = update q.pool i (fill (q.pool i)); pending = Queue.push i q.pending },
  )

  unfoldable pub submit : ℕ → List ℕ → ℕ → ℕ → Option C → Action (Cmdq C U T) (Unit {0})
  submit opcode params params_len timeout_us on_complete q =
      enqueue (free_from q.pool max_pending 0)
        (filled opcode params params_len timeout_us on_complete) q
