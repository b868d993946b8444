-- ===== src/CommandQueue/Run.antt =====
-- core/controller/command_queue.c: sending, completing and timing out commands.
-- Sending completes commands and completing one sends the next, so these functions run on fuel, and
-- `none` is that it ran out. `again` is `bt_cmdq_pump` as far as the fuel left goes.
use aros_bluzing.Prelude.{
  ℕ, zero, suc, ◌+◌, ◌-◌, ◌^◌, ◌%◌, List, [], ◌∷◌, length, take, replicate, Bool, true, false,
  Option, none, some, ◌==◌, ltb, if◌then◌else◌, ◌||◌, ◌&&◌, not,
}
use aros_bluzing.Status.{ok, err, Result}
use mathlib.Core.Option
use aros_bluzing.Endian.{at}
use aros_bluzing.Queue
use aros_bluzing.Queue.{Queue, is_empty, is_null}
use aros_bluzing.Timer.{Timers, update, add, cancel, pop_expired}
use aros_bluzing.Buffer.Reader.{Reader, reader_init}
use aros_bluzing.Buffer.Writer.{Writer, writer_init, writer_len}
use aros_bluzing.Hci.{
  encode_command, EventHeader, parse_event_header, CommandComplete, parse_command_complete,
  CommandStatus, parse_command_status,
}
use aros_bluzing.CommandQueue.{
  CmdqResult, complete, timeout, send_error, Completion, Cmdq, Sent, Driver,
}

abbrev pub event_command_complete : ℕ
event_command_complete = 0x0e

abbrev pub event_command_status : ℕ
event_command_status = 0x0f

-- `q->outstanding == slot`
abbrev pub is_at : Option ℕ → ℕ → Bool
is_at none i = false
is_at (some j) i = j == i

-- `params_len >= 1 ? params[0] : 0xff`
abbrev pub first_status : List ℕ → ℕ → ℕ
first_status params len = if len == 0 then 0xff else at params 0

abbrev pub wire_len : ℕ
wire_len = 258

module _ {C U T : Type 0} where
  -- `complete_slot` up to the callback.
  unfoldable pub release : ℕ → Cmdq C U T → Cmdq C U T
  release i q = record q {
    timers = if q.timers.pending i then cancel i q.timers else q.timers;
    outstanding = if is_at q.outstanding i then none else q.outstanding;
    pool = update q.pool i (record (q.pool i) { in_use = false });
  }

  unfoldable pub arm : ℕ → ℕ → Cmdq C U T → Cmdq C U T
  arm i now_us q = record q {
    command_credits = q.command_credits - 1;
    outstanding = some i;
    timers = add i ((now_us + (q.pool i).timeout_us) % 2 ^ 64) q.timers;
  }

  abbrev pub advance : ℕ → Cmdq C U T → Cmdq C U T
  advance now_us q = record q {
    last_tick_us = if ltb q.last_tick_us now_us then now_us else q.last_tick_us;
  }

  abbrev pub must_wait : Cmdq C U T → Bool
  must_wait q = not (is_null q.outstanding) || (q.command_credits == 0 || is_empty q.pending)

abbrev pub Pump : Type 0 → Type 0 → Type 0 → Type 0
Pump C U T = ℕ → Cmdq C U T → Option (Cmdq C U T)

module _ {C U T : Type 0} (d : Driver C U T) where
  abbrev pub call_back : Option C → Completion → Cmdq C U T → Cmdq C U T
  call_back none completion q = q
  call_back (some c) completion q = d.call c completion q

  unfoldable pub complete_slot :
      Pump C U T → ℕ → CmdqResult → ℕ → List ℕ → ℕ → ℕ → Cmdq C U T → Option (Cmdq C U T)
  complete_slot again i result status return_params return_params_len now_us q = again now_us (
      call_back (q.pool i).on_complete
        (record {
          result = result;
          opcode = (q.pool i).opcode;
          status = status;
          return_params = return_params;
          return_params_len = return_params_len;
        })
        (release i q))

  -- What follows a change of the credits: the command in flight completes if the answer is to it,
  -- and the queue is pumped if not.
  abbrev pub answer :
      Pump C U T → Option ℕ → ℕ → ℕ → List ℕ → ℕ → ℕ → Cmdq C U T → Option (Cmdq C U T)
  answer again none opcode status params len now_us q = again now_us q
  answer again (some i) opcode status params len now_us q = elim ((q.pool i).opcode == opcode) [
    | true ↦ complete_slot again i complete status params len now_us q
    | false ↦ again now_us q
  ]

  abbrev pub on_command_complete :
      Pump C U T → ℕ → Result CommandComplete × Reader → Cmdq C U T → Option (Cmdq C U T)
  on_command_complete again now_us (err e, r) q = some q
  on_command_complete again now_us (ok cc, r) q =
      answer again q.outstanding cc.command_opcode
        (first_status cc.return_params cc.return_params_len) cc.return_params cc.return_params_len
        now_us (record q { command_credits = cc.num_hci_command_packets })

  abbrev pub on_command_status :
      Pump C U T → ℕ → Result CommandStatus × Reader → Cmdq C U T → Option (Cmdq C U T)
  on_command_status again now_us (err e, r) q = some q
  on_command_status again now_us (ok cs, r) q =
      answer again q.outstanding cs.command_opcode cs.status [] 0 now_us
        (record q { command_credits = cs.num_hci_command_packets })

  abbrev pub on_header :
      Pump C U T → ℕ → Result EventHeader × Reader → Cmdq C U T → Option (Cmdq C U T)
  on_header again now_us (err e, r) q = some q
  on_header again now_us (ok hdr, r) q = elim (hdr.event_code == event_command_complete) [
    | true ↦ on_command_complete again now_us (parse_command_complete hdr.param_len r) q
    | false ↦ elim (hdr.event_code == event_command_status) [
      | true ↦ on_command_status again now_us (parse_command_status hdr.param_len r) q
      | false ↦ some q
    ]
  ]

  unfoldable pub on_event_with : Pump C U T → List ℕ → ℕ → ℕ → Cmdq C U T → Option (Cmdq C U T)
  on_event_with again bytes length now_us q =
      on_header again now_us (parse_event_header (reader_init bytes length)) q

  -- The events that `send_command` hands to the receiver before it returns.
  unfoldable pub deliver :
      Pump C U T → List (List ℕ × ℕ) → Option (Cmdq C U T) → Option (Cmdq C U T)
  deliver again [] q = q
  deliver again (e ∷ es) none = none
  deliver again (e ∷ es) (some q) =
      deliver again es (Option.map (d.receive e.0) (on_event_with again e.0 (length e.0) e.1 q))

  -- A failure of `send_command` is the command's if the slot is still the one in flight.
  abbrev pub after_send : Pump C U T → ℕ → ℕ → Bool → Option (Cmdq C U T) → Option (Cmdq C U T)
  after_send again now_us i accepted none = none
  after_send again now_us i accepted (some q) = elim (not accepted && is_at q.outstanding i) [
    | true ↦
        complete_slot again i send_error 0xff [] 0 now_us
          (record q { command_credits = (q.command_credits + 1) % 256 })
    | false ↦ some q
  ]

  -- The call of `send_command` with the bytes of the command.
  abbrev pub hand_over : Pump C U T → ℕ → ℕ → Sent T → Cmdq C U T → Option (Cmdq C U T)
  hand_over again now_us i sent q =
      after_send again now_us i sent.accepted
        (deliver again sent.events (some (record q { transport = sent.transport })))

  abbrev pub transmit :
      Pump C U T → ℕ → ℕ → Result (Unit {0}) × Writer → Cmdq C U T → Option (Cmdq C U T)
  transmit again now_us i (err e, w) q = complete_slot again i send_error 0xff [] 0 now_us q
  transmit again now_us i (ok _, w) q =
      hand_over again now_us i (d.send_command q.transport (take (writer_len w) w.bytes))
        (arm i now_us q)

  -- A queue that is not empty has a first node.
  abbrev pub launch : Pump C U T → ℕ → Option ℕ × Queue → Cmdq C U T → Option (Cmdq C U T)
  launch again now_us (none, pending) q = some q
  launch again now_us (some i, pending) q =
      transmit again now_us i
        (encode_command (q.pool i).opcode (q.pool i).params (q.pool i).params_len
          (writer_init (replicate wire_len 0) wire_len))
        (record q { pending = pending })

  unfoldable pub pump : ℕ → Pump C U T
  pump zero now_us q = none
  pump (suc n) now_us q = elim (must_wait q) [
    | true ↦ some (advance now_us q)
    | false ↦ launch (pump n) now_us (Queue.pop q.pending) (advance now_us q)
  ]

  unfoldable pub on_event : ℕ → List ℕ → ℕ → ℕ → Cmdq C U T → Option (Cmdq C U T)
  on_event n = on_event_with (pump n)

  unfoldable pub timeout_callback : Pump C U T → ℕ → Cmdq C U T → Option (Cmdq C U T)
  timeout_callback again i q =
      complete_slot again i timeout 0xff [] 0 q.last_tick_us (record q { command_credits = 1 })

  abbrev pub fire :
      Pump C U T
      → (Cmdq C U T → Option (Cmdq C U T))
      → Option ℕ × Timers
      → Cmdq C U T
      → Option (Cmdq C U T)
  fire again loop (none, timers) q = some q
  fire again loop (some i, timers) q =
      Option.bind (timeout_callback again i (record q { timers = timers })) loop

  -- The loop of `bt_cmdq_tick`.
  unfoldable pub expire : Pump C U T → ℕ → ℕ → Cmdq C U T → Option (Cmdq C U T)
  expire again zero now_us q = none
  expire again (suc n) now_us q = fire again (expire again n now_us) (pop_expired now_us q.timers) q

  unfoldable pub tick : ℕ → ℕ → Cmdq C U T → Option (Cmdq C U T)
  tick n now_us q = Option.bind (expire (pump n) n now_us (advance now_us q)) (pump n now_us)
