-- ===== src/L2cap/Signaling.antt =====
-- protocols/l2cap/signaling.c: the commands of the L2CAP signaling channel.
pub mod Scan
pub mod Options
pub mod Commands
use aros_bluzing.Prelude.{
  ℕ, suc, zero, ◌+◌, ◌%◌, ◌^◌, List, ltb, ◌==◌, not, if◌then◌else◌, Bool, true, false,
}
use aros_bluzing.Status.{
  ok, err, invalid_argument, Result, Action, bind, ◌>>=◌, ◌>>◌, return, fail, gets,
}
use aros_bluzing.Buffer.Reader.{
  Reader, reader_init, read_u8, read_le16, skip, remaining, peek_or_fail,
}
use aros_bluzing.Buffer.Writer.{Writer, write_u8, write_le16}

abbrev pub command_reject : ℕ
command_reject = 0x01

abbrev pub connection_request : ℕ
connection_request = 0x02

abbrev pub connection_response : ℕ
connection_response = 0x03

abbrev pub configure_request : ℕ
configure_request = 0x04

abbrev pub configure_response : ℕ
configure_response = 0x05

abbrev pub disconnection_request : ℕ
disconnection_request = 0x06

abbrev pub disconnection_response : ℕ
disconnection_response = 0x07

abbrev pub config_option_mtu : ℕ
config_option_mtu = 0x01

pub record SigHeader : Type 0 where
  pub code : ℕ
  pub identifier : ℕ
  pub length : ℕ

unfoldable pub sig_encode_header : ℕ → ℕ → ℕ → Action Writer (Unit {0})
sig_encode_header code identifier length = do write_u8 code; write_u8 identifier; write_le16 length

unfoldable pub sig_parse_header : Action Reader SigHeader
sig_parse_header = do
  code ← read_u8
  identifier ← read_u8
  length ← read_le16
  return (record { code = code; identifier = identifier; length = length })

unfoldable pub encode_connection_request : ℕ → ℕ → ℕ → Action Writer (Unit {0})
encode_connection_request identifier psm source_cid = do
  sig_encode_header connection_request identifier 4
  write_le16 psm
  write_le16 source_cid

pub record ConnectionRequest : Type 0 where
  pub psm : ℕ
  pub source_cid : ℕ

unfoldable pub connection_request_fields : Action Reader ConnectionRequest
connection_request_fields = do
  psm ← read_le16
  source_cid ← read_le16
  return (record { psm = psm; source_cid = source_cid })

unfoldable pub parse_connection_request : List ℕ → ℕ → Result ConnectionRequest
parse_connection_request cmd_data len =
    if not (len == 4)
    then err invalid_argument
    else (connection_request_fields (reader_init cmd_data len)).0

unfoldable pub encode_connection_response : ℕ → ℕ → ℕ → ℕ → ℕ → Action Writer (Unit {0})
encode_connection_response identifier destination_cid source_cid result status = do
  sig_encode_header connection_response identifier 8
  write_le16 destination_cid
  write_le16 source_cid
  write_le16 result
  write_le16 status

pub record ConnectionResponse : Type 0 where
  pub destination_cid : ℕ
  pub source_cid : ℕ
  pub result : ℕ
  pub status : ℕ

unfoldable pub connection_response_fields : Action Reader ConnectionResponse
connection_response_fields = do
  destination_cid ← read_le16
  source_cid ← read_le16
  result ← read_le16
  status ← read_le16
  return (record {
    destination_cid = destination_cid;
    source_cid = source_cid;
    result = result;
    status = status;
  })

unfoldable pub parse_connection_response : List ℕ → ℕ → Result ConnectionResponse
parse_connection_response cmd_data len =
    if not (len == 8)
    then err invalid_argument
    else (connection_response_fields (reader_init cmd_data len)).0

-- The end of both configuration commands: `mtu` of 0 leaves the option out.
unfoldable pub write_mtu_option : ℕ → Action Writer (Unit {0})
write_mtu_option mtu =
    if mtu == 0 then return tt else do write_u8 config_option_mtu; write_u8 2; write_le16 mtu

abbrev pub mtu_option_len : ℕ → ℕ
mtu_option_len mtu = if not (mtu == 0) then 4 else 0

unfoldable pub encode_configure_request : ℕ → ℕ → ℕ → ℕ → Action Writer (Unit {0})
encode_configure_request identifier destination_cid flags mtu = do
  sig_encode_header configure_request identifier (4 + mtu_option_len mtu)
  write_le16 destination_cid
  write_le16 flags
  write_mtu_option mtu

-- What the scan of the options has found so far.
pub record FoundMtu : Type 0 where
  pub has_mtu : Bool
  pub mtu : ℕ

unfoldable pub scan_mtu_value : ℕ → Action Reader FoundMtu
scan_mtu_value len =
    if not (len == 2)
    then fail invalid_argument
    else do mtu ← read_le16; return (record { has_mtu = true; mtu = mtu })

-- One round of the loop.
unfoldable pub scan_option : FoundMtu → Action Reader FoundMtu
scan_option found = do
  type ← read_u8
  len ← read_u8
  if type == config_option_mtu then scan_mtu_value len else do skip len; return found

-- The loop, on fuel: a round consumes two bytes at least.
unfoldable pub scan_loop : ℕ → FoundMtu → Action Reader FoundMtu
scan_loop zero found = return found
scan_loop (suc fuel) found = λ r.
    if ltb 0 (remaining r)
    then (scan_option found >>= λ next. scan_loop fuel next) r
    else (ok found, r)

unfoldable pub scan_for_mtu_option : Action Reader FoundMtu
scan_for_mtu_option = λ r. scan_loop (remaining r) (record { has_mtu = false; mtu = 0 }) r

pub record ConfigureRequest : Type 0 where
  pub destination_cid : ℕ
  pub flags : ℕ
  pub has_mtu : Bool
  pub mtu : ℕ

unfoldable pub configure_request_fields : Action Reader ConfigureRequest
configure_request_fields = do
  destination_cid ← read_le16
  flags ← read_le16
  found ← scan_for_mtu_option
  return (record {
    destination_cid = destination_cid;
    flags = flags;
    has_mtu = found.has_mtu;
    mtu = found.mtu;
  })

unfoldable pub parse_configure_request : List ℕ → ℕ → Result ConfigureRequest
parse_configure_request cmd_data len =
    if ltb len 4
    then err invalid_argument
    else (configure_request_fields (reader_init cmd_data len)).0

unfoldable pub encode_configure_response : ℕ → ℕ → ℕ → ℕ → ℕ → Action Writer (Unit {0})
encode_configure_response identifier source_cid flags result mtu = do
  sig_encode_header configure_response identifier (6 + mtu_option_len mtu)
  write_le16 source_cid
  write_le16 flags
  write_le16 result
  write_mtu_option mtu

pub record ConfigureResponse : Type 0 where
  pub source_cid : ℕ
  pub flags : ℕ
  pub result : ℕ
  pub has_mtu : Bool
  pub mtu : ℕ

unfoldable pub configure_response_fields : Action Reader ConfigureResponse
configure_response_fields = do
  source_cid ← read_le16
  flags ← read_le16
  result ← read_le16
  found ← scan_for_mtu_option
  return (record {
    source_cid = source_cid;
    flags = flags;
    result = result;
    has_mtu = found.has_mtu;
    mtu = found.mtu;
  })

unfoldable pub parse_configure_response : List ℕ → ℕ → Result ConfigureResponse
parse_configure_response cmd_data len =
    if ltb len 6
    then err invalid_argument
    else (configure_response_fields (reader_init cmd_data len)).0

unfoldable pub encode_disconnection_request : ℕ → ℕ → ℕ → Action Writer (Unit {0})
encode_disconnection_request identifier destination_cid source_cid = do
  sig_encode_header disconnection_request identifier 4
  write_le16 destination_cid
  write_le16 source_cid

unfoldable pub encode_disconnection_response : ℕ → ℕ → ℕ → Action Writer (Unit {0})
encode_disconnection_response identifier destination_cid source_cid = do
  sig_encode_header disconnection_response identifier 4
  write_le16 destination_cid
  write_le16 source_cid

pub record Disconnection : Type 0 where
  pub destination_cid : ℕ
  pub source_cid : ℕ

unfoldable pub disconnection_fields : Action Reader Disconnection
disconnection_fields = do
  destination_cid ← read_le16
  source_cid ← read_le16
  return (record { destination_cid = destination_cid; source_cid = source_cid })

unfoldable pub parse_disconnection : List ℕ → ℕ → Result Disconnection
parse_disconnection cmd_data len =
    if not (len == 4)
    then err invalid_argument
    else (disconnection_fields (reader_init cmd_data len)).0

unfoldable pub encode_command_reject : ℕ → ℕ → Action Writer (Unit {0})
encode_command_reject identifier reason = do
  sig_encode_header command_reject identifier 2
  write_le16 reason

-- `reason_data` is the field `data`: the `data_len` bytes that it points to.
pub record CommandReject : Type 0 where
  pub reason : ℕ
  pub reason_data : List ℕ
  pub data_len : ℕ

-- The peek of all that remains cannot fail.
unfoldable pub command_reject_fields : Action Reader CommandReject
command_reject_fields = do
  reason ← read_le16
  data_len ← gets remaining
  reason_data ← peek_or_fail data_len
  return (record { reason = reason; reason_data = reason_data; data_len = data_len })

unfoldable pub parse_command_reject : List ℕ → ℕ → Result CommandReject
parse_command_reject cmd_data len =
    if ltb len 2 then err invalid_argument else (command_reject_fields (reader_init cmd_data len)).0
