-- ===== src/Hci.antt =====
-- protocols/hci/hci.c: HCI command, event and ACL packet headers.
pub mod Headers
pub mod Info
pub mod Reports
pub mod Inquiry
pub mod Columns
pub mod Advertising
use aros_bluzing.Prelude.{
  ℕ, ◌+◌, ◌-◌, ◌*◌, ◌%◌, ◌^◌, List, ltb, ◌==◌, if◌then◌else◌, not, ◌||◌, bit_and, bit_or, arith,
}
use aros_bluzing.Status.{
  invalid_argument, buffer_underflow, Action, bind, ◌>>=◌, ◌>>◌, return, fail_if, gets,
}
use aros_bluzing.Endian.{shl, shr}
use aros_bluzing.Buffer.Reader.{Reader, remaining, read_u8, read_le16, peek_or_fail, skip}
use aros_bluzing.Buffer.Writer.{Writer, write_u8, write_le16, write_bytes}

abbrev pub max_param_len : ℕ
max_param_len = 255

unfoldable pub encode_command : ℕ → List ℕ → ℕ → Action Writer (Unit {0})
encode_command opcode params params_len = do
  fail_if (ltb max_param_len params_len) invalid_argument
  write_le16 opcode
  write_u8 (params_len % 256)
  if params_len == 0 then return tt else write_bytes params params_len

pub record EventHeader : Type 0 where
  pub event_code : ℕ
  pub param_len : ℕ

unfoldable pub parse_event_header : Action Reader EventHeader
parse_event_header = do
  event_code ← read_u8
  param_len ← read_u8
  left ← gets remaining
  fail_if (ltb left param_len) buffer_underflow
  return (record { event_code = event_code; param_len = param_len })

pub record CommandComplete : Type 0 where
  pub num_hci_command_packets : ℕ
  pub command_opcode : ℕ
  pub return_params : List ℕ
  pub return_params_len : ℕ

unfoldable pub parse_command_complete : ℕ → Action Reader CommandComplete
parse_command_complete param_len = do
  fail_if (ltb param_len 3) buffer_underflow
  num_pkts ← read_u8
  opcode ← read_le16
  let return_len = param_len - 3
  p ← peek_or_fail return_len
  skip return_len
  return (record {
    num_hci_command_packets = num_pkts;
    command_opcode = opcode;
    return_params = p;
    return_params_len = return_len;
  })

pub record CommandStatus : Type 0 where
  pub status : ℕ
  pub num_hci_command_packets : ℕ
  pub command_opcode : ℕ

unfoldable pub parse_command_status : ℕ → Action Reader CommandStatus
parse_command_status param_len = do
  fail_if (not (param_len == 4)) invalid_argument
  status ← read_u8
  num_pkts ← read_u8
  opcode ← read_le16
  return (record { status = status; num_hci_command_packets = num_pkts; command_opcode = opcode })

-- `(uint16_t)(handle | (pb_flag << 12) | (bc_flag << 14))`
abbrev pub handle_and_flags : ℕ → ℕ → ℕ → ℕ
handle_and_flags handle pb_flag bc_flag =
    bit_or (bit_or handle (shl 32 pb_flag 12)) (shl 32 bc_flag 14) % 2 ^ 16

unfoldable pub encode_acl_header : ℕ → ℕ → ℕ → ℕ → Action Writer (Unit {0})
encode_acl_header handle pb_flag bc_flag data_len = do
  fail_if (ltb 0x0fff handle || (ltb 3 pb_flag || ltb 3 bc_flag)) invalid_argument
  write_le16 (handle_and_flags handle pb_flag bc_flag)
  write_le16 data_len

pub record AclHeader : Type 0 where
  pub handle : ℕ
  pub pb_flag : ℕ
  pub bc_flag : ℕ
  pub data_len : ℕ

unfoldable pub parse_acl_header : Action Reader AclHeader
parse_acl_header = do
  flags ← read_le16
  data_len ← read_le16
  return (record {
    handle = bit_and flags 0x0fff;
    pb_flag = bit_and (shr flags 12) 3;
    bc_flag = bit_and (shr flags 14) 3;
    data_len = data_len;
  })
