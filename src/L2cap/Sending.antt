-- ===== src/L2cap/Sending.antt =====
-- protocols/l2cap/channel_manager.c: the loop that sends a PDU in ACL packets. The transport is a
-- parameter: `send_acl` takes a packet and gives the return code and the transport after it.
use aros_bluzing.Prelude.{
  ℕ, zero, suc, ◌+◌, List, take, replicate, ◌==◌, not, if◌then◌else◌, Option, none, some,
}
use aros_bluzing.Status.{Error, ok, err, invalid_argument, buffer_underflow, Result}
use aros_bluzing.Buffer.Writer.{Writer, writer_init, writer_len}
use aros_bluzing.L2cap.{Fragmenter, fragmenter_init, fragmenter_next}

abbrev pub acl_buffer_len : ℕ
acl_buffer_len = 4 + 512

-- The writer over `acl`. What the array holds before does not matter; here it is 0.
abbrev pub acl_writer : Writer
acl_writer = writer_init (replicate acl_buffer_len 0) acl_buffer_len

abbrev pub sent_bytes : Writer → List ℕ
sent_bytes w = take (writer_len w) w.bytes

-- An underflow is the end of the PDU.
abbrev pub stop : Error → Result (Unit {0})
stop buffer_underflow = ok tt
stop e = err e

module _ {T : Type 0} (send_acl : List ℕ → T → ℕ × T) where
  abbrev pub after_send :
      (T → Option (Result (Unit {0})) × T) → ℕ × T → Option (Result (Unit {0})) × T
  after_send rest (rc, t) = if not (rc == 0) then (some (err invalid_argument), t) else rest t

  abbrev pub after_next :
      (Fragmenter → T → Option (Result (Unit {0})) × T)
      → T
      → Result (Unit {0}) × Fragmenter × Writer
      → Option (Result (Unit {0})) × T
  after_next rest t (err e, fr, w) = (some (stop e), t)
  after_next rest t (ok a, fr, w) = after_send (rest fr) (send_acl (sent_bytes w) t)

  -- The loop, on fuel; without fuel there is no outcome.
  unfoldable pub send_loop : ℕ → Fragmenter → T → Option (Result (Unit {0})) × T
  send_loop zero fr t = (none, t)
  send_loop (suc fuel) fr t = after_next (send_loop fuel) t (fragmenter_next fr acl_writer)

  -- A round sends a byte at least, if fragments may have one.
  unfoldable pub send_fragmented : ℕ → ℕ → List ℕ → ℕ → T → Option (Result (Unit {0})) × T
  send_fragmented handle acl_frag_size pdu pdu_len t =
      send_loop (suc pdu_len) (fragmenter_init handle acl_frag_size pdu pdu_len) t
