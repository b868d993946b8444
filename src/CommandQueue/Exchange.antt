-- ===== src/CommandQueue/Exchange.antt =====
-- core/controller/command_queue.c: the command that goes to the transport.
use aros_bluzing.Prelude.{
  ℕ, suc, ◌≡◌, refl, ap, ◌∙◌, ◌+◌, ◌-◌, ◌%◌, ◌^◌, ◌≤◌, ◌<◌, List, [], ◌∷◌, ◌++◌, length, take,
  replicate, some, true, false, inl, inr, arith, length-take, length-replicate,
}
use aros_bluzing.Status.{ok, Result}
use aros_bluzing.Endian
use aros_bluzing.Endian.{IsByte}
use aros_bluzing.Queue.{pop}
use aros_bluzing.Queue.Chain.{pop-Holds}
use aros_bluzing.Timer.{add}
use aros_bluzing.Buffer.Writer.{Writer, writer_init, writer_len}
use aros_bluzing.Buffer.Writer.Emits.{written, room, writer_init-IsValid}
use aros_bluzing.Hci.{encode_command, max_param_len}
use aros_bluzing.Hci.Headers.{encode_command-Appends}
use aros_bluzing.CommandQueue.{Slot, Cmdq, Driver}
use aros_bluzing.CommandQueue.Run.{
  deliver, arm, after_send, hand_over, transmit, launch, advance, must_wait, pump, wire_len,
}
use aros_bluzing.CommandQueue.Preserve.{ready, either-elim}
use aros_bluzing.CommandQueue.Invariant.{IsValid, pop-IsTaken, arm-IsValid}

abbrev pub wire : {C : Type 0} → Slot C → Result (Unit {0}) × Writer
wire slot =
    encode_command slot.opcode slot.params slot.params_len
      (writer_init (replicate wire_len 0) wire_len)

-- The bytes of the command on the wire.
abbrev pub command_bytes : {C : Type 0} → Slot C → List ℕ
command_bytes slot =
    Endian.write_le16 slot.opcode ++ slot.params_len ∷ take slot.params_len slot.params

-- The parameters are in the slot, and their number is a byte.
abbrev pub IsHeld : {C : Type 0} → Slot C → Type 0
IsHeld slot = (slot.params_len ≤ max_param_len) × (slot.params_len ≤ length slot.params)

too_long :
    {C : Type 0} (slot : Slot C)
    → slot.params_len ≤ max_param_len
    → ¬ (room (writer_init (replicate wire_len 0) wire_len) < length (command_bytes slot))
unfolding writer_init Endian.write_le16
too_long slot small full = omega (arith, length-take slot.params_len slot.params)

-- Every command fits into the buffer that is sent.
wire_lem :
    {C : Type 0} (slot : Slot C)
    → IsHeld slot
    → ((wire slot).0 ≡ ok tt)
      × (take (writer_len (wire slot).1) (wire slot).1.bytes ≡ command_bytes slot)
unfolding written
wire_lem slot (small, held) =
    let (v, empty) =
      writer_init-IsValid (replicate wire_len 0) wire_len
        (omega (arith, length-replicate {A = ℕ} wire_len 0)) (omega arith) in
    elim (encode_command-Appends slot.opcode slot.params_len slot.params _ small held v).4 [
      | inl (fits, done, bytes) ↦ (done, bytes ∙ ap (λ l. l ++ command_bytes slot) empty)
      | inr (full, _, _) ↦ absurd (too_long slot small full)
    ]

module _ {C U T : Type 0} (d : Driver C U T) where
  -- The queue after the first command was handed to a transport that takes it.
  abbrev pub on_air : ℕ → ℕ → T → Cmdq C U T → Cmdq C U T
  on_air now_us i transport q =
      record (arm i now_us (record (advance now_us q) { pending = (pop q.pending).1 })) {
        transport = transport;
      }

  -- A queue that may send hands exactly the bytes of the first command that waits to the transport,
  -- once: opcode, length and parameters. If the transport takes it without an answer yet, that
  -- command is then the one in flight, the others wait in their order, one credit is used, and the
  -- timer of the command runs out after its timeout.
  pub pump-on_air :
      (n now_us i : ℕ) (q : Cmdq C U T) (ns : List ℕ)
      → IsValid q (i ∷ ns)
      → must_wait q ≡ false
      → IsHeld (q.pool i)
      → (d.send_command q.transport (command_bytes (q.pool i))).accepted ≡ true
      → (d.send_command q.transport (command_bytes (q.pool i))).events ≡ []
      → let after =
          on_air now_us i (d.send_command q.transport (command_bytes (q.pool i))).transport q in
        (pump d (suc n) now_us q ≡ some after)
        × IsValid after ns
        × (after.outstanding ≡ some i)
        × (after.command_credits ≡ q.command_credits - 1)
        × (after.timers.expiry i ≡ (now_us + (q.pool i).timeout_us) % 2 ^ 64)
  unfolding pump deliver arm
  pump-on_air n now_us i q ns v w held takes quiet =
      let (done, bytes) = wire_lem (q.pool i) held in
      let sent = d.send_command q.transport (command_bytes (q.pool i)) in
      let popped = record (advance now_us q) { pending = (pop q.pending).1 } in
      let flying = record (arm i now_us popped) { transport = sent.transport } in
      let again = pump d n in
      let (j, rest, e, idle) = ready q (i ∷ ns) v w in
      (
        either-elim (λ o. o ≡ some flying) (must_wait q) _ _ (λ b. absurd (cc))
            (λ b.
              ap (λ o. launch d again now_us (o, (pop q.pending).1) (advance now_us q))
                (pop-Holds q.pending i ns v.waiting).0
              ∙ ap (λ r. transmit d again now_us i (r, (wire (q.pool i)).1) popped) done
              ∙ ap
                  (λ l.
                    hand_over d again now_us i (d.send_command q.transport l) (arm i now_us popped))
                  bytes
              ∙ ap
                  (λ es.
                    after_send d again now_us i sent.accepted (deliver d again es (some flying)))
                  quiet
              ∙ ap (λ a. after_send d again now_us i a (some flying)) takes),
        arm-IsValid i now_us popped (pop-IsTaken i q v idle),
        refl,
        refl,
        unfold add in ground arith,
      )
