-- ===== src/Tests/Commands.antt =====
-- core/controller: the command queue and the controller on concrete inputs.
use aros_bluzing.Prelude.{
  ℕ, ◌≡◌, refl, ◌⊎◌, ◌<◌, List, [], ◌∷◌, ◌++◌, replicate, true, false, Option, none, some, arith,
}
use aros_bluzing.Status.{ok, err, no_resources}
use aros_bluzing.Queue.{push, queue_init, is_empty}
use aros_bluzing.CommandQueue.{
  Slot, Cmdq, Driver, Completion, enqueue, filled, submit, cmdq_init, max_pending,
}
use aros_bluzing.CommandQueue.Run.{pump, on_event, tick, call_back, release, first_status}
use aros_bluzing.CommandQueue.Invariant.{IsValid, IsTaken, release-IsValid}
use aros_bluzing.CommandQueue.Preserve.{SomeValid, EachValid, Keeps}
use aros_bluzing.CommandQueue.Submit.{submit-Queued, enqueue-IsValid, commands, wanted}
use aros_bluzing.CommandQueue.Start.{IsBlank, cmdq_init-IsValid, cmdq_init-used}
use aros_bluzing.CommandQueue.Timeouts.{operations-EachValid}
use aros_bluzing.CommandQueue.Load.{Quiet, ReturnsIn}
use aros_bluzing.CommandQueue.Termination.{calls-ReturnsIn}
use aros_bluzing.CommandQueue.Exchange.{pump-on_air, on_air, command_bytes}
use aros_bluzing.CommandQueue.Answers.{on_event_answers, after_answer, complete_event, status_event}

-- A callback notes its completion, and the transport takes every command and keeps its bytes.
abbrev Noted : Type 0
Noted = List Completion

abbrev Wire : Type 0
Wire = List (List ℕ)

abbrev logging : Driver ℕ Noted Wire
logging = record {
  send_command = λ sent bytes. record { accepted = true; events = []; transport = bytes ∷ sent };
  call = λ c x q. record q { user = x ∷ q.user };
  receive = λ bytes q. q;
}

abbrev Anything : (ℕ → Slot ℕ) → Noted → Type 0
Anything pool noted = Unit

abbrev unused : Slot ℕ
unused = record {
  in_use = false;
  opcode = 0;
  params = replicate 255 0;
  params_len = 0;
  timeout_us = 0;
  on_complete = none;
}

abbrev blank_queue : Cmdq ℕ Noted Wire
blank_queue = record {
  pool = λ i. unused;
  pending = record { next = λ i. none; head = none; tail = none };
  outstanding = none;
  command_credits = 0;
  last_tick_us = 0;
  timers = record { order = []; expiry = λ i. 0; pending = λ i. false };
  user = [];
  transport = [];
}

blank : IsBlank blank_queue
blank = record { no_slot = λ i h. refl; no_timer = λ i h. refl; empty_list = refl }

abbrev fresh : Cmdq ℕ Noted Wire
fresh = cmdq_init blank_queue

-- HCI Reset with callback 7.
abbrev one_waits : Cmdq ℕ Noted Wire
one_waits = (enqueue (some 0) (filled 0x0c03 [] 0 0 (some 7)) fresh).1

one_waits-IsValid : IsValid one_waits (0 ∷ [])
one_waits-IsValid =
    (enqueue-IsValid 0 (filled 0x0c03 [] 0 0 (some 7) (fresh.pool 0)) fresh [] (omega arith) refl
      (cmdq_init-used blank_queue blank 0) (cmdq_init-IsValid blank_queue blank)).1

settled :
    (i : ℕ) (x : Completion) (q : Cmdq ℕ Noted Wire) (ns : List ℕ)
    → IsTaken q ns i
    → (c : Option ℕ) → SomeValid Anything (call_back logging c x (release i q))
settled i x q ns v none = (ns, release-IsValid i q v, tt)
settled i x q ns v (some c) = (ns, release-IsValid i q v, tt)

logging-Keeps : Keeps Anything logging
logging-Keeps = record {
  settle_keeps = λ i x q ns v u. settled i x q ns v ((q.pool i).on_complete);
  receive_keeps = λ bytes q v. v;
}

logging-Quiet : Quiet logging
logging-Quiet = record { silent = λ t bytes. refl; patient = λ c x q ns h v. (v, refl) }

submit-Queued_example :
    ((submit 0x0401 (1 ∷ 2 ∷ []) 2 0 (some 9) one_waits ≡ (err no_resources, one_waits))
      × ((j : ℕ) → j < max_pending → (one_waits.pool j).in_use ≡ true))
    ⊎ ((i : ℕ) × ((submit 0x0401 (1 ∷ 2 ∷ []) 2 0 (some 9) one_waits).0 ≡ ok tt)
        × IsValid (submit 0x0401 (1 ∷ 2 ∷ []) 2 0 (some 9) one_waits).1 (0 ∷ i ∷ [])
        × (commands (submit 0x0401 (1 ∷ 2 ∷ []) 2 0 (some 9) one_waits).1.pool (0 ∷ i ∷ [])
            ≡ commands one_waits.pool (0 ∷ []) ++ (wanted 0x0401 (1 ∷ 2 ∷ []) 2 0 (some 9) ∷ []))
        × ((submit 0x0401 (1 ∷ 2 ∷ []) 2 0 (some 9) one_waits).1.outstanding
            ≡ one_waits.outstanding))
submit-Queued_example =
    submit-Queued 0x0401 (1 ∷ 2 ∷ []) 2 0 (some 9) one_waits (0 ∷ []) one_waits-IsValid

operations-EachValid_example :
    EachValid Anything (pump logging 3 10 one_waits)
    × EachValid Anything (on_event logging 3 (complete_event 1 3 12 (0 ∷ [])) 6 10 one_waits)
    × EachValid Anything (tick logging 3 10 one_waits)
operations-EachValid_example =
    operations-EachValid Anything logging logging-Keeps 3 10 (complete_event 1 3 12 (0 ∷ [])) 6
      one_waits (0 ∷ [], one_waits-IsValid, tt)

calls-ReturnsIn_example :
    ReturnsIn max_pending (pump logging 5 10 one_waits)
    × ReturnsIn max_pending (on_event logging 5 (complete_event 1 3 12 (0 ∷ [])) 6 10 one_waits)
    × ReturnsIn max_pending (tick logging 5 10 one_waits)
calls-ReturnsIn_example =
    calls-ReturnsIn Anything logging logging-Keeps logging-Quiet 5 10
      (complete_event 1 3 12 (0 ∷ [])) 6 one_waits (omega arith) (0 ∷ [], one_waits-IsValid, tt)

abbrev in_the_air : Cmdq ℕ Noted Wire
in_the_air = on_air logging 10 0 (command_bytes (one_waits.pool 0) ∷ []) one_waits

pump-on_air_example :
    (pump logging 1 10 one_waits ≡ some in_the_air)
    × IsValid in_the_air []
    × (in_the_air.outstanding ≡ some 0)
    × (in_the_air.command_credits ≡ 0)
    × (in_the_air.timers.expiry 0 ≡ 5000010)
unfolding cmdq_init queue_init push is_empty
pump-on_air_example =
    pump-on_air logging 0 10 0 one_waits [] one_waits-IsValid refl (omega arith, omega arith) refl
      refl

on_event_answers_example :
    (on_event logging 2 (complete_event 1 3 12 (0 ∷ [])) 6 20 in_the_air
      ≡ pump logging 2 20 (
          after_answer logging in_the_air.outstanding 0x0c03
            (first_status (0 ∷ []) 1)
            (0 ∷ [])
            (record in_the_air { command_credits = 1 })))
    × (on_event logging 2 (status_event 5 1 3 12) 6 20 in_the_air
        ≡ pump logging 2 20 (
            after_answer logging in_the_air.outstanding 0x0c03 5 []
              (record in_the_air { command_credits = 1 })))
on_event_answers_example =
    on_event_answers logging 2 5 1 3 12 20 (0 ∷ []) in_the_air (omega arith) (omega arith)
      (omega arith)
