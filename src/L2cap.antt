-- ===== src/L2cap.antt =====
-- protocols/l2cap/l2cap.c: the basic header, the reassembly of a PDU from ACL fragments, and the
-- fragmentation of a PDU into them.
pub mod Assembly
pub mod Reassembly
pub mod Rebuild
pub mod Sending
pub mod Fragments
pub mod Transfer
pub mod Signaling
use aros_bluzing.Prelude.{
  ℕ, ◌+◌, ◌%◌, ◌^◌, List, take, drop, ltb, leb, ◌==◌, not, ◌&&◌, if◌then◌else◌, Bool,
}
use aros_bluzing.Status.{ok, err, buffer_underflow, Result, Action, bind, ◌>>=◌, ◌>>◌, return}
use aros_bluzing.Buffer.{add_size, sub_size}
use aros_bluzing.Buffer.Reader.{Reader, reader_init, read_le16}
use aros_bluzing.Buffer.Writer.{Writer, store, write_le16, write_bytes}
use aros_bluzing.Hci.{encode_acl_header}

unfoldable pub encode_header : ℕ → ℕ → Action Writer (Unit {0})
encode_header length cid = do write_le16 length; write_le16 cid

pub record Header : Type 0 where
  pub length : ℕ
  pub cid : ℕ

unfoldable pub parse_header : Action Reader Header
parse_header = do
  length ← read_le16
  cid ← read_le16
  return (record { length = length; cid = cid })

abbrev pub header_len : ℕ
header_len = 4

abbrev pub reassembly_max : ℕ
reassembly_max = 1024

-- `buf` is the array of `reassembly_max` bytes.
pub record Reassembler : Type 0 where
  pub buf : List ℕ
  pub have : ℕ
  pub want : ℕ

pub data Progress : Type 0 where
  more complete error : Progress

unfoldable pub reassembler_init : Reassembler → Reassembler
reassembler_init ra = record ra { have = 0; want = 0 }

-- The length that the header parse left in `hdr`. The parse of four bytes cannot fail.
abbrev pub declared : Result Header → ℕ
declared (ok hdr) = hdr.length
declared (err _) = 0

abbrev pub wanted : List ℕ → ℕ
wanted buf = add_size header_len (declared (parse_header (reader_init buf header_len)).0)

-- The second half of `finalize_header_and_check`, with `want` known or 0.
unfoldable pub check_have : Reassembler → Progress × Reassembler
check_have ra =
    if ra.want == 0
    then (more, ra)
    else if ltb ra.want ra.have
    then (error, reassembler_init ra)
    else if ra.have == ra.want
    then (complete, ra)
    else (more, ra)

unfoldable pub finalize_header_and_check : Reassembler → Progress × Reassembler
finalize_header_and_check ra =
    let want = wanted ra.buf in
    if ra.want == 0 && leb header_len ra.have
    then if ltb reassembly_max want
      then (error, reassembler_init (record ra { want = want }))
      else check_have (record ra { want = want })
    else check_have ra

unfoldable pub reassembler_feed : ℕ → List ℕ → ℕ → Reassembler → Progress × Reassembler
reassembler_feed pb_flag bytes len ra =
    if not (pb_flag == 1)
    then if ltb reassembly_max len
      then (error, reassembler_init ra)
      else finalize_header_and_check
          (record (reassembler_init ra) { buf = store ra.buf 0 (take len bytes); have = len })
    else if ra.have == 0
    then (error, ra)
    else if ltb reassembly_max (add_size ra.have len)
    then (error, reassembler_init ra)
    else finalize_header_and_check
        (record ra { buf = store ra.buf ra.have (take len bytes); have = add_size ra.have len })

-- The PDU is `out_len` bytes of the reassembler's own buffer.
unfoldable pub reassembler_take : Reassembler → List ℕ × Reassembler
reassembler_take ra = (take ra.have ra.buf, record ra { have = 0; want = 0 })

pub record Fragmenter : Type 0 where
  pub bytes : List ℕ
  pub len : ℕ
  pub pos : ℕ
  pub handle : ℕ
  pub frag_size : ℕ

unfoldable pub fragmenter_init : ℕ → ℕ → List ℕ → ℕ → Fragmenter
fragmenter_init handle frag_size pdu len = record {
  bytes = pdu;
  len = len;
  pos = 0;
  handle = handle;
  frag_size = frag_size;
}

abbrev pub chunk_len : Fragmenter → ℕ
chunk_len fr =
    let remaining = sub_size fr.len fr.pos in
    if ltb remaining fr.frag_size then remaining else fr.frag_size

abbrev pub next_pb_flag : Fragmenter → ℕ
next_pb_flag fr = if fr.pos == 0 then 0 else 1

abbrev pub advance :
    Fragmenter → Result (Unit {0}) × Writer → Result (Unit {0}) × Fragmenter × Writer
advance fr (ok a, w) = (ok a, record fr { pos = add_size fr.pos (chunk_len fr) }, w)
advance fr (err e, w) = (err e, fr, w)

unfoldable pub fragmenter_next : Fragmenter → Writer → Result (Unit {0}) × Fragmenter × Writer
fragmenter_next fr w =
    let chunk = chunk_len fr in
    if leb fr.len fr.pos
    then (err buffer_underflow, fr, w)
    else advance fr (
        (do
          encode_acl_header fr.handle (next_pb_flag fr) 0 (chunk % 2 ^ 16)
          write_bytes (drop fr.pos fr.bytes) chunk)
          w)
