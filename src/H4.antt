-- ===== src/H4.antt =====
-- core/transport/h4.c: the receiver that cuts a stream of bytes into HCI packets. The callback is a
-- parameter: it takes a packet and the state of its owner.
pub mod Bounds
use aros_bluzing.Prelude.{
  ℕ, zero, suc, ◌+◌, ◌-◌, ◌<◌, List, replicate, take, drop, ltb, ◌==◌, not, if◌then◌else◌, Bool,
  true, false, Option, none, some, bit_and, bit_or,
}
use aros_bluzing.Status.{Error, ok, err, io, buffer_overflow, Result}
use aros_bluzing.Endian.{at, shl}
use aros_bluzing.Buffer.{add_size, sub_size}
use aros_bluzing.Buffer.Writer.{store}

pub data PacketType : Type 0 where
  command acl sco event iso : PacketType

abbrev pub max_packet_size : ℕ
max_packet_size = 4100

-- `packet` is the memory from the start of the array of `max_packet_size` bytes on.
pub record Rx : Type 0 where
  pub packet : List ℕ
  pub length : ℕ
  pub expected : ℕ
  pub header_length : ℕ
  pub type : PacketType
  pub have_type : Bool

unfoldable pub reset_packet : Rx → Rx
reset_packet rx = record rx { length = 0; expected = 0; header_length = 0; have_type = false }

unfoldable pub wire_type : PacketType → ℕ
wire_type command = 0x01
wire_type acl = 0x02
wire_type sco = 0x03
wire_type event = 0x04
wire_type iso = 0x05

abbrev pub begin_with : Rx → PacketType → ℕ → Rx
begin_with rx type header_length = record rx {
  type = type;
  header_length = header_length;
  have_type = true;
  length = 0;
  expected = header_length;
}

-- `none` for a type that a host does not receive.
unfoldable pub begin_packet : Rx → ℕ → Option Rx
begin_packet rx wire_type =
    if wire_type == 0x02
    then some (begin_with rx acl 4)
    else if wire_type == 0x03
    then some (begin_with rx sco 3)
    else if wire_type == 0x04
    then some (begin_with rx event 2)
    else if wire_type == 0x05
    then some (begin_with rx iso 4)
    else none

abbrev pub le_length : List ℕ → ℕ
le_length packet = bit_or (at packet 2) (shl 64 (at packet 3) 8)

unfoldable pub payload_length : PacketType → List ℕ → ℕ
payload_length event packet = at packet 1
payload_length acl packet = le_length packet
payload_length sco packet = at packet 2
payload_length iso packet = bit_and (le_length packet) 0x3fff
payload_length command packet = max_packet_size

-- What a round of the loop comes to: the next round, or a return.
pub data Round (S : Type 0) : Type 0 where
  goes_on : Rx → S → Round S
  fails : Error → Rx → S → Round S

abbrev pub chunk_len : Rx → ℕ → ℕ
chunk_len rx available =
    let needed = sub_size rx.expected rx.length in
    if ltb available needed then available else needed

abbrev pub copied : Rx → List ℕ → ℕ → Rx
copied rx bytes n = record rx {
  packet = store rx.packet rx.length (take n bytes);
  length = add_size rx.length n;
}

-- A receiver with every byte 0.
abbrev pub rx_init : Rx
rx_init = record {
  packet = replicate max_packet_size 0;
  length = 0;
  expected = 0;
  header_length = 0;
  type = command;
  have_type = false;
}

-- How far a round goes.
abbrev pub step_len : Bool → Rx → ℕ → ℕ
step_len true rx available = chunk_len rx available
step_len false rx available = 1

module _ {S : Type 0} (packet : PacketType → List ℕ → S → S) where
  abbrev pub deliver : Rx → S → Round S
  deliver rx s = goes_on (reset_packet rx) (packet rx.type (take rx.expected rx.packet) s)

  -- The header is there: how much is to come.
  unfoldable pub end_header : Rx → S → Round S
  end_header rx s =
      let payload = payload_length rx.type rx.packet in
      let longer = record rx { expected = add_size rx.header_length payload } in
      if ltb (max_packet_size - rx.header_length) payload
      then fails buffer_overflow (reset_packet rx) s
      else if not (payload == 0)
      then goes_on longer s
      else deliver longer s

  -- The rest of a round, after the copy.
  unfoldable pub end_copy : Rx → S → Round S
  end_copy rx s =
      if not (rx.length == rx.expected)
      then goes_on rx s
      else if rx.expected == rx.header_length
      then end_header rx s
      else deliver rx s

  abbrev pub begun : Rx → S → Option Rx → Round S
  begun rx s none = fails io (reset_packet rx) s
  begun rx s (some next) = goes_on next s

  -- A round on the bytes that are left, with a type or without.
  abbrev pub round_of : Bool → Rx → List ℕ → ℕ → S → Round S
  round_of true rx bytes available s = end_copy (copied rx bytes (chunk_len rx available)) s
  round_of false rx bytes available s = begun rx s (begin_packet rx (at bytes 0))

  abbrev pub after :
      (Rx → S → Option (Result (Unit {0}) × Rx × S)) → Round S → Option (Result (Unit {0}) × Rx × S)
  after loop (goes_on rx s) = loop rx s
  after loop (fails e rx s) = some (err e, rx, s)

  -- The loop over the bytes from `offset` on, on fuel; without fuel there is no outcome.
  unfoldable pub feed_loop : ℕ → List ℕ → ℕ → ℕ → Rx → S → Option (Result (Unit {0}) × Rx × S)
  feed_loop zero bytes length offset rx s = if ltb offset length then none else some (ok tt, rx, s)
  feed_loop (suc fuel) bytes length offset rx s =
      let available = sub_size length offset in
      let step = step_len rx.have_type rx available in
      let round = round_of rx.have_type rx (drop offset bytes) available s in
      let rest = after (feed_loop fuel bytes length (add_size offset step)) round in
      if ltb offset length then rest else some (ok tt, rx, s)

  -- A round takes a byte at least.
  unfoldable pub rx_feed : List ℕ → ℕ → Rx → S → Option (Result (Unit {0}) × Rx × S)
  rx_feed bytes length rx s = feed_loop length bytes length 0 rx s
