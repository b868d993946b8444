-- ===== src/Att.antt =====
-- protocols/att/att.c: the requests of a client of the Attribute Protocol, and the responses.
pub mod Entries
use aros_bluzing.Prelude.{ℕ, ◌+◌, ◌-◌, ◌%◌, ◌^◌, List, ltb, ◌==◌, not, ◌&&◌, ◌||◌, if◌then◌else◌}
use aros_bluzing.Status.{
  ok, err, invalid_argument, buffer_underflow, Error, Result, Action, ◌>>=◌, ◌>>◌, return, fail_if,
  gets,
}
use aros_bluzing.Buffer.Reader.{
  Reader, reader_init, remaining, read_u8, read_le16, peek_or_fail, skip,
}
use aros_bluzing.Buffer.Writer.{Writer, write_u8, write_le16, write_bytes}

unfoldable pub encode_exchange_mtu_request : ℕ → Action Writer (Unit {0})
encode_exchange_mtu_request client_rx_mtu = do write_u8 0x02; write_le16 client_rx_mtu

unfoldable pub encode_find_information_request : ℕ → ℕ → Action Writer (Unit {0})
encode_find_information_request starting_handle ending_handle = do
  write_u8 0x04
  write_le16 starting_handle
  write_le16 ending_handle

unfoldable pub encode_read_by_group_type_request : ℕ → ℕ → ℕ → Action Writer (Unit {0})
encode_read_by_group_type_request starting_handle ending_handle group_type_uuid16 = do
  write_u8 0x10
  write_le16 starting_handle
  write_le16 ending_handle
  write_le16 group_type_uuid16

unfoldable pub encode_read_by_type_request : ℕ → ℕ → ℕ → Action Writer (Unit {0})
encode_read_by_type_request starting_handle ending_handle attribute_type_uuid16 = do
  write_u8 0x08
  write_le16 starting_handle
  write_le16 ending_handle
  write_le16 attribute_type_uuid16

unfoldable pub encode_read_request : ℕ → Action Writer (Unit {0})
encode_read_request handle = do write_u8 0x0a; write_le16 handle

unfoldable pub encode_read_blob_request : ℕ → ℕ → Action Writer (Unit {0})
encode_read_blob_request handle value_offset = do
  write_u8 0x0c
  write_le16 handle
  write_le16 value_offset

unfoldable pub encode_write_request : ℕ → List ℕ → ℕ → Action Writer (Unit {0})
encode_write_request handle value value_len = do
  write_u8 0x12
  write_le16 handle
  write_bytes value value_len

unfoldable pub encode_handle_value_confirmation : Action Writer (Unit {0})
encode_handle_value_confirmation = write_u8 0x1e

pub record ErrorResponse : Type 0 where
  pub request_opcode : ℕ
  pub handle_in_error : ℕ
  pub error_code : ℕ

unfoldable pub read_error_response : Action Reader ErrorResponse
read_error_response = do
  request_opcode ← read_u8
  handle_in_error ← read_le16
  error_code ← read_u8
  return (record {
    request_opcode = request_opcode;
    handle_in_error = handle_in_error;
    error_code = error_code;
  })

unfoldable pub parse_error_response : List ℕ → ℕ → Result ErrorResponse
parse_error_response params params_len =
    if not (params_len == 4)
    then err invalid_argument
    else (read_error_response (reader_init params params_len)).0

unfoldable pub parse_exchange_mtu_response : List ℕ → ℕ → Result ℕ
parse_exchange_mtu_response params params_len =
    if not (params_len == 2)
    then err invalid_argument
    else (read_le16 (reader_init params params_len)).0

pub record InformationEntry : Type 0 where
  pub handle : ℕ
  pub uuid : List ℕ
  pub uuid_len : ℕ

pub record GroupEntry : Type 0 where
  pub handle : ℕ
  pub end_group_handle : ℕ
  pub value : List ℕ
  pub value_len : ℕ

pub record TypeEntry : Type 0 where
  pub handle : ℕ
  pub value : List ℕ
  pub value_len : ℕ

-- The three iterators have the same fields.
pub record Iter : Type 0 where
  pub r : Reader
  pub entry_len : ℕ

-- `if (... != BT_OK) return e;`
abbrev pub or_else : {A : Type 0} → Error → Result A × Reader → Result A × Reader
or_else e (ok a, r) = (ok a, r)
or_else e (err _, r) = (err e, r)

abbrev pub started : Result ℕ × Reader → Result Iter
started (ok entry_len, r) = ok (record { r = r; entry_len = entry_len })
started (err e, r) = err e

-- A step of an iterator by its reader.
abbrev pub at_reader : {A : Type 0} → (ℕ → Action Reader A) → Action Iter A
at_reader m it = let (a, r) = m it.entry_len it.r in (a, record it { r = r })

-- `(uint8_t)(entry_len - n)`
abbrev pub less_u8 : ℕ → ℕ → ℕ
less_u8 entry_len n = (2 ^ 8 + entry_len - n) % 2 ^ 8

unfoldable pub find_information_start : Action Reader ℕ
find_information_start = do
  format ← read_u8
  fail_if (not (format == 1) && not (format == 2)) invalid_argument
  left ← gets remaining
  fail_if ((left == 0) || not (left % (if format == 1 then 4 else 18) == 0)) invalid_argument
  return (if format == 1 then 4 else 18)

unfoldable pub find_information_iter_init : List ℕ → ℕ → Result Iter
find_information_iter_init params params_len =
    if ltb params_len 1
    then err invalid_argument
    else started (or_else invalid_argument (find_information_start (reader_init params params_len)))

unfoldable pub read_information : ℕ → Action Reader InformationEntry
read_information entry_len = do
  left ← gets remaining
  fail_if (left == 0) buffer_underflow
  handle ← (λ r. or_else buffer_underflow (read_le16 r))
  uuid ← peek_or_fail (less_u8 entry_len 2)
  skip (less_u8 entry_len 2)
  return (record { handle = handle; uuid = uuid; uuid_len = less_u8 entry_len 2 })

unfoldable pub find_information_iter_next : Action Iter InformationEntry
find_information_iter_next = at_reader read_information

unfoldable pub read_entry_len : ℕ → Action Reader ℕ
read_entry_len least = do
  entry_len ← read_u8
  fail_if (ltb entry_len least) invalid_argument
  return entry_len

unfoldable pub read_by_group_type_iter_init : List ℕ → ℕ → Result Iter
read_by_group_type_iter_init params params_len =
    started (read_entry_len 4 (reader_init params params_len))

unfoldable pub read_group : ℕ → Action Reader GroupEntry
read_group entry_len = do
  left ← gets remaining
  fail_if (left == 0) buffer_underflow
  fail_if (ltb left entry_len) buffer_underflow
  handle ← read_le16
  end_group_handle ← read_le16
  value ← peek_or_fail (less_u8 entry_len 4)
  skip (less_u8 entry_len 4)
  return (record {
    handle = handle;
    end_group_handle = end_group_handle;
    value = value;
    value_len = less_u8 entry_len 4;
  })

unfoldable pub read_by_group_type_iter_next : Action Iter GroupEntry
read_by_group_type_iter_next = at_reader read_group

unfoldable pub read_by_type_iter_init : List ℕ → ℕ → Result Iter
read_by_type_iter_init params params_len =
    started (read_entry_len 2 (reader_init params params_len))

unfoldable pub read_type : ℕ → Action Reader TypeEntry
read_type entry_len = do
  left ← gets remaining
  fail_if (left == 0) buffer_underflow
  fail_if (ltb left entry_len) buffer_underflow
  handle ← read_le16
  value ← peek_or_fail (less_u8 entry_len 2)
  skip (less_u8 entry_len 2)
  return (record { handle = handle; value = value; value_len = less_u8 entry_len 2 })

unfoldable pub read_by_type_iter_next : Action Iter TypeEntry
read_by_type_iter_next = at_reader read_type

pub record HandleValue : Type 0 where
  pub handle : ℕ
  pub value : List ℕ
  pub value_len : ℕ

unfoldable pub read_handle_value : Action Reader HandleValue
read_handle_value = do
  handle ← read_le16
  value_len ← gets remaining
  value ← peek_or_fail value_len
  return (record { handle = handle; value = value; value_len = value_len })

unfoldable pub parse_handle_value : List ℕ → ℕ → Result HandleValue
parse_handle_value params params_len =
    if ltb params_len 2
    then err invalid_argument
    else (read_handle_value (reader_init params params_len)).0
