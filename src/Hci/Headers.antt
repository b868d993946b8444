-- ===== src/Hci/Headers.antt =====
-- protocols/hci/hci.c: what the command, event and ACL headers are on the wire.
use aros_bluzing.Prelude.{
  ℕ, ◌+◌, ◌-◌, ◌⊎◌, append_assoc, ◌*◌, ◌%◌, ◌^◌, ◌≤◌, ◌<◌, ◌≡◌, ap, List, ◌∷◌, ◌++◌, length, take,
  ltb, ◌==◌, if◌then◌else◌, not, bit_and, bit_and_mask, bit_or_at, arith, Bool-cases, ==_iff, inl,
  inr, le→ltb, lt→ltb,
}
use aros_bluzing.Status.{
  ok, err, invalid_argument, buffer_underflow, Action, ◌>>=◌, ◌>>◌, return, fail_if, gets,
}
use aros_bluzing.Endian
use aros_bluzing.Endian.{IsByte, at, shl, shr}
use aros_bluzing.Endian.Values.{read_le16_value}
use aros_bluzing.Buffer.Reader.{Reader}
use aros_bluzing.Buffer.Reader.Refine.{Views, need, read_u8-Views, read_le16-Views, skip-Views}
use aros_bluzing.Buffer.Reader.Parse.{
  Parses, bind-Parses, return-Parses, fail_if-Parses, remaining-Parses, front, peek-Parses, Reads,
  Yields, Refuses, le16_needed, payload_needed, payload_front, Reads-of, Refuses-of,
}
use aros_bluzing.Buffer.Writer.{Writer, write_bytes}
use aros_bluzing.Buffer.Writer.Emits.{
  Emits, Appends, IsValid, Appends-of, then-Emits, done-Emits, write_u8-Emits, write_le16-Emits,
  write_bytes-Emits,
}
use aros_bluzing.Hci.{
  encode_command, EventHeader, parse_event_header, CommandComplete, parse_command_complete,
  CommandStatus, max_param_len, parse_command_status, handle_and_flags, encode_acl_header,
  AclHeader, parse_acl_header,
}

payload-Emits :
    (params : List ℕ) (n : ℕ)
    → n ≤ length params
    → Emits (if n == 0 then return tt else write_bytes params n) (take n params)
payload-Emits params n h = elim (Bool-cases (n == 0)) [
  | inl e ↦ let none' : n ≡ 0 = (==_iff n 0).0 e in rw (e, none') done-Emits
  | inr e ↦ rw e (write_bytes-Emits params n h)
]

pub encode_command-Emits :
    (opcode n : ℕ) (params : List ℕ)
    → n ≤ max_param_len
    → n ≤ length params
    → Emits (encode_command opcode params n) (Endian.write_le16 opcode ++ n ∷ take n params)
unfolding encode_command
encode_command-Emits opcode n params small h =
    let e : n % 256 ≡ n = omega arith in
    rw (le→ltb 255 n small, e)
      (then-Emits (write_le16-Emits opcode)
        (then-Emits (write_u8-Emits n) (payload-Emits params n h)))

-- A command that is not too long is written as its opcode, the length of its parameters and the
-- parameters, if a valid writer has room for all of it, and is refused for want of room if not.
pub encode_command-Appends :
    (opcode n : ℕ) (params : List ℕ) (w : Writer)
    → n ≤ max_param_len
    → n ≤ length params
    → IsValid w
    → Appends (Endian.write_le16 opcode ++ n ∷ take n params) w (encode_command opcode params n w)
encode_command-Appends opcode n params w small h v =
    Appends-of (encode_command-Emits opcode n params small h) w v

list_event_header : Action (List ℕ) EventHeader
list_event_header = do
  event_code ← need 1 (λ p. at p 0)
  param_len ← need 1 (λ p. at p 0)
  left ← gets length
  fail_if (ltb left param_len) buffer_underflow
  return (record { event_code = event_code; param_len = param_len })

parse_event_header-Parses : Parses parse_event_header list_event_header
unfolding parse_event_header list_event_header
parse_event_header-Parses = bind-Parses _ _ read_u8-Views λ code. bind-Parses _ _ read_u8-Views λ n.
    bind-Parses _ _ remaining-Parses λ left.
      bind-Parses _ _ (fail_if-Parses (ltb left n) buffer_underflow)
        λ _. return-Parses (record { event_code = code; param_len = n })

list_command_complete : ℕ → Action (List ℕ) CommandComplete
list_command_complete param_len = do
  fail_if (ltb param_len 3) buffer_underflow
  num_pkts ← need 1 (λ p. at p 0)
  opcode ← need 2 Endian.read_le16
  p ← front (param_len - 3)
  need (param_len - 3) (λ _. tt)
  return (record {
    num_hci_command_packets = num_pkts;
    command_opcode = opcode;
    return_params = p;
    return_params_len = param_len - 3;
  })

parse_command_complete-Parses :
    (n : ℕ) → Parses (parse_command_complete n) (list_command_complete n)
unfolding parse_command_complete list_command_complete
parse_command_complete-Parses n = bind-Parses _ _ (fail_if-Parses (ltb n 3) buffer_underflow) λ _.
    bind-Parses _ _ read_u8-Views λ num_pkts. bind-Parses _ _ read_le16-Views λ opcode.
      bind-Parses _ _ (peek-Parses (n - 3)) λ p. bind-Parses _ _ (skip-Views (n - 3)) λ _.
        return-Parses (record {
          num_hci_command_packets = num_pkts;
          command_opcode = opcode;
          return_params = p;
          return_params_len = n - 3;
        })

list_command_status : ℕ → Action (List ℕ) CommandStatus
list_command_status param_len = do
  fail_if (not (param_len == 4)) invalid_argument
  status ← need 1 (λ p. at p 0)
  num_pkts ← need 1 (λ p. at p 0)
  opcode ← need 2 Endian.read_le16
  return (record { status = status; num_hci_command_packets = num_pkts; command_opcode = opcode })

parse_command_status-Parses : (n : ℕ) → Parses (parse_command_status n) (list_command_status n)
unfolding parse_command_status list_command_status
parse_command_status-Parses n =
    bind-Parses _ _ (fail_if-Parses (not (n == 4)) invalid_argument) λ _.
      bind-Parses _ _ read_u8-Views λ status. bind-Parses _ _ read_u8-Views λ num_pkts.
        bind-Parses _ _ read_le16-Views λ opcode.
          return-Parses (record {
            status = status;
            num_hci_command_packets = num_pkts;
            command_opcode = opcode;
          })

list_acl_header : Action (List ℕ) AclHeader
list_acl_header = do
  flags ← need 2 Endian.read_le16
  data_len ← need 2 Endian.read_le16
  return (record {
    handle = bit_and flags 0x0fff;
    pb_flag = bit_and (shr flags 12) 3;
    bc_flag = bit_and (shr flags 14) 3;
    data_len = data_len;
  })

parse_acl_header-Parses : Parses parse_acl_header list_acl_header
unfolding parse_acl_header list_acl_header
parse_acl_header-Parses = bind-Parses _ _ read_le16-Views λ flags.
    bind-Parses _ _ read_le16-Views λ data_len. return-Parses (record {
      handle = bit_and flags 0x0fff;
      pb_flag = bit_and (shr flags 12) 3;
      bc_flag = bit_and (shr flags 14) 3;
      data_len = data_len;
    })

pub parse_event_header-Reads :
    (code n : ℕ) (params : List ℕ)
    → n ≤ length params
    → Reads parse_event_header
        (code ∷ n ∷ params)
        (record { event_code = code; param_len = n })
        params
unfolding list_event_header
parse_event_header-Reads code n params h =
    Reads-of parse_event_header-Parses (rw (le→ltb (length params) n h))

pub parse_event_header-Refuses :
    (code n : ℕ) (params : List ℕ)
    → length params < n
    → Refuses parse_event_header (code ∷ n ∷ params) buffer_underflow
unfolding list_event_header
parse_event_header-Refuses code n params h =
    Refuses-of parse_event_header-Parses (rw (lt→ltb (length params) n h))

pub parse_command_complete-Reads :
    (credits lo hi : ℕ) (params rest : List ℕ)
    → IsByte lo
    → IsByte hi
    → Reads
        (parse_command_complete (length params + 3))
        (credits ∷ lo ∷ hi ∷ params ++ rest)
        (record {
          num_hci_command_packets = credits;
          command_opcode = lo + 256 * hi;
          return_params = params;
          return_params_len = length params;
        })
        rest
unfolding list_command_complete
parse_command_complete-Reads credits lo hi params rest hl hh =
    let n : length params + 3 - 3 ≡ length params = omega arith in
    Reads-of (parse_command_complete-Parses (length params + 3)) (
      rw
        (
          le→ltb (length params + 3) 3 (omega arith),
          n,
          payload_front params rest,
          payload_needed (λ _. tt) params rest,
        )
        (ap
          (λ opcode. (
            ok (record {
              num_hci_command_packets = credits;
              command_opcode = opcode;
              return_params = params;
              return_params_len = length params;
            }),
            rest,
          ))
          (read_le16_value lo hi (params ++ rest) hl hh)))

pub parse_command_status-Reads :
    (status credits lo hi : ℕ) (rest : List ℕ)
    → IsByte lo
    → IsByte hi
    → Reads
        (parse_command_status 4)
        (status ∷ credits ∷ lo ∷ hi ∷ rest)
        (record {
          status = status;
          num_hci_command_packets = credits;
          command_opcode = lo + 256 * hi;
        })
        rest
unfolding list_command_status
parse_command_status-Reads status credits lo hi rest hl hh =
    Reads-of (parse_command_status-Parses 4) (rw (read_le16_value lo hi rest hl hh))

module _ (handle pb bc : ℕ) (hh : handle ≤ 0x0fff) (hp : pb ≤ 3) (hb : bc ≤ 3) where
  handle_and_flags_value :
      (handle_and_flags handle pb bc ≡ handle + 4096 * pb + 16384 * bc)
      × (handle + 4096 * pb + 16384 * bc < 2 ^ 16)
  handle_and_flags_value = (
    rw
        (
          bit_or_at 12 handle pb (pb * 4096 % 2 ^ 32) (omega arith) (omega arith),
          bit_or_at 14 (handle + pb * 4096 % 2 ^ 32) bc (bc * 16384 % 2 ^ 32) (omega arith)
              (omega arith),
        )
        (omega arith),
    omega arith,
  )

  pub acl_header_lem :
      (len : ℕ) (rest : List ℕ)
      → len < 2 ^ 16
      → let bytes = Endian.write_le16 (handle + 4096 * pb + 16384 * bc) ++ Endian.write_le16 len in
        Emits (encode_acl_header handle pb bc len) bytes
        × Reads parse_acl_header
            (bytes ++ rest)
            (record { handle = handle; pb_flag = pb; bc_flag = bc; data_len = len })
            rest
  unfolding encode_acl_header list_acl_header
  acl_header_lem len rest h =
      let v = handle + 4096 * pb + 16384 * bc in
      (
        rw (le→ltb 0x0fff handle hh, le→ltb 3 pb hp, le→ltb 3 bc hb, handle_and_flags_value.0)
            (then-Emits (write_le16-Emits _) (write_le16-Emits len)),
        Reads-of parse_acl_header-Parses (
            rw
              (
                append_assoc (Endian.write_le16 (handle + 4096 * pb + 16384 * bc))
                    (Endian.write_le16 len) rest,
                le16_needed (handle + 4096 * pb + 16384 * bc) (Endian.write_le16 len ++ rest)
                    (handle_and_flags_value.1),
                le16_needed len rest h,
              )
              (ground
                (arith, bit_and_mask 12 v, bit_and_mask 2 (shr v 12), bit_and_mask 2 (shr v 14)))),
      )

-- An ACL header with a handle of 12 bits and flags of 2 bits is written whole if the writer has room
-- for it and is refused with an overflow if it has not, after which a beginning of it may be there;
-- its bytes are read back field by field, whatever follows.
pub acl_header_back :
    (handle pb bc len : ℕ) (rest : List ℕ) (w : Writer) (r : Reader)
    → handle ≤ 0x0fff
    → pb ≤ 3
    → bc ≤ 3
    → len < 2 ^ 16
    → IsValid w
    → Views r (Endian.write_le16 (handle + 4096 * pb + 16384 * bc) ++ Endian.write_le16 len ++ rest)
    → Appends
        (Endian.write_le16 (handle + 4096 * pb + 16384 * bc) ++ Endian.write_le16 len)
        w
        (encode_acl_header handle pb bc len w)
      × Yields
          (parse_acl_header r)
          (record { handle = handle; pb_flag = pb; bc_flag = bc; data_len = len })
          rest
acl_header_back handle pb bc len rest w r hh hp hb hl v u =
    let (emits, reads) = acl_header_lem handle pb bc hh hp hb len rest hl in
    (Appends-of emits w v, reads r u)

-- A handle or a flag out of range is refused before anything is written.
pub encode_acl_header_refuses :
    (handle pb bc len : ℕ) (w : Writer)
    → (0x0fff < handle) ⊎ ((3 < pb) ⊎ (3 < bc))
    → encode_acl_header handle pb bc len w ≡ (err invalid_argument, w)
unfolding encode_acl_header
encode_acl_header_refuses handle pb bc len w h = ground arith
