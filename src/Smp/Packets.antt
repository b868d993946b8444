-- ===== src/Smp/Packets.antt =====
-- protocols/smp/smp.c: the commands of the Security Manager Protocol.
use aros_bluzing.Prelude.{
  ℕ, ◌-◌, ◌%◌, ◌^◌, List, [], ◌∷◌, drop, ltb, ◌==◌, not, ◌&&◌, ◌||◌, if◌then◌else◌, Bool, bit_and,
  bit_or,
}
use aros_bluzing.Status.{ok, err, invalid_argument, Result, Action, ◌>>◌, fail_if, is_ok}
use aros_bluzing.Endian.{at, shl}
use aros_bluzing.Buffer.{size_mod, add_size}
use aros_bluzing.Buffer.Writer.{Writer, write_u8, write_le16, write_bytes}
use aros_bluzing.Smp.{PairingFeatures, auth_req_valid_mask, features_valid, within}

abbrev pub pairing_request : ℕ
pairing_request = 0x01

abbrev pub pairing_response : ℕ
pairing_response = 0x02

abbrev pub pairing_failed : ℕ
pairing_failed = 0x05

abbrev pub central_identification : ℕ
central_identification = 0x07

abbrev pub identity_address_information : ℕ
identity_address_information = 0x09

abbrev pub security_request : ℕ
security_request = 0x0b

abbrev pub pairing_public_key : ℕ
pairing_public_key = 0x0c

abbrev pub keypress_notification : ℕ
keypress_notification = 0x0e

-- `SIZE_MAX`
abbrev pub size_max : ℕ
size_max = size_mod - 1

-- The codes of the commands that carry a value of 128 bits.
abbrev pub carries128 : ℕ → Bool
carries128 code =
    (code == 0x03)
    || ((code == 0x04)
        || ((code == 0x06) || ((code == 0x08) || ((code == 0x0a) || (code == 0x0d)))))

unfoldable pub command_data_len : ℕ → ℕ
command_data_len code =
    if (code == pairing_request) || (code == pairing_response)
    then 6
    else if carries128 code
    then 16
    else if (code == pairing_failed)
        || ((code == security_request) || (code == keypress_notification))
    then 1
    else if code == central_identification
    then 10
    else if code == identity_address_information
    then 7
    else if code == pairing_public_key
    then 64
    else size_max

-- `payload` is the list of the bytes behind the code.
pub record Command : Type 0 where
  pub code : ℕ
  pub payload : List ℕ
  pub data_len : ℕ

-- The features in the six bytes from the start of the list.
abbrev pub features_at : List ℕ → PairingFeatures
features_at p = record {
  io_capability = at p 0;
  oob_data_flag = at p 1;
  auth_req = at p 2;
  max_encryption_key_size = at p 3;
  initiator_key_distribution = at p 4;
  responder_key_distribution = at p 5;
}

abbrev pub is_pairing : ℕ → Bool
is_pairing code = (code == pairing_request) || (code == pairing_response)

-- The tests of `bt_smp_parse_command` on the fields, of a command with code `code` and the value `v`
-- in its first byte.
abbrev pub out_of_range : ℕ → ℕ → List ℕ → Bool
out_of_range code v p =
    ((code == pairing_failed) && (ltb v 0x01 || ltb 0x10 v))
    || ((is_pairing code && not (features_valid (features_at p)))
        || (((code == security_request)
              && (not (within auth_req_valid_mask v) || ltb 1 (bit_and v 0x03)))
            || (((code == keypress_notification) && ltb 4 v)
                || ((code == identity_address_information) && ltb 1 v))))

unfoldable pub parse_command : List ℕ → ℕ → Result Command
parse_command pdu pdu_len =
    let expected = command_data_len (at pdu 0) in
    if pdu_len == 0
    then err invalid_argument
    else if (expected == size_max) || not (pdu_len == add_size expected 1)
    then err invalid_argument
    else if out_of_range (at pdu 0) (at pdu 1) (drop 1 pdu)
    then err invalid_argument
    else ok (record { code = at pdu 0; payload = drop 1 pdu; data_len = expected })

unfoldable pub encode_pairing_features : ℕ → PairingFeatures → Action Writer (Unit {0})
encode_pairing_features code f = do
  fail_if (not (is_pairing code) || not (features_valid f)) invalid_argument
  write_u8 code
  write_u8 f.io_capability
  write_u8 f.oob_data_flag
  write_u8 f.auth_req
  write_u8 f.max_encryption_key_size
  write_u8 f.initiator_key_distribution
  write_u8 f.responder_key_distribution

unfoldable pub parse_pairing_features : Command → Result PairingFeatures
parse_pairing_features command =
    if not (is_pairing command.code) || not (command.data_len == 6)
    then err invalid_argument
    else if features_valid (features_at command.payload)
    then ok (features_at command.payload)
    else err invalid_argument

abbrev pub is_value128 : ℕ → Bool
is_value128 code = command_data_len code == 16

unfoldable pub encode_value128 : ℕ → List ℕ → Action Writer (Unit {0})
encode_value128 code value = do
  fail_if (not (is_value128 code)) invalid_argument
  write_u8 code
  write_bytes value 16

-- The value is the list from the pointer on.
unfoldable pub parse_value128 : Command → Result (List ℕ)
parse_value128 command =
    if not (is_value128 command.code) || not (command.data_len == 16)
    then err invalid_argument
    else ok command.payload

unfoldable pub encode_central_identification : List ℕ → ℕ → Action Writer (Unit {0})
encode_central_identification rand ediv = do
  write_u8 central_identification
  write_bytes rand 8
  write_le16 ediv

pub record CentralIdentification : Type 0 where
  pub rand : List ℕ
  pub ediv : ℕ

unfoldable pub parse_central_identification : Command → Result CentralIdentification
parse_central_identification command =
    if not (command.code == central_identification) || not (command.data_len == 10)
    then err invalid_argument
    else ok (record {
      rand = command.payload;
      ediv = bit_or (at command.payload 8) (shl 32 (at command.payload 9) 8) % 2 ^ 16;
    })

unfoldable pub encode_identity_address : ℕ → List ℕ → Action Writer (Unit {0})
encode_identity_address address_type address = do
  fail_if (ltb 1 address_type) invalid_argument
  write_u8 identity_address_information
  write_u8 address_type
  write_bytes address 6

pub record IdentityAddress : Type 0 where
  pub address_type : ℕ
  pub address : List ℕ

unfoldable pub parse_identity_address : Command → Result IdentityAddress
parse_identity_address command =
    if not (command.code == identity_address_information)
      || (not (command.data_len == 7) || ltb 1 (at command.payload 0))
    then err invalid_argument
    else ok (record { address_type = at command.payload 0; address = drop 1 command.payload })

unfoldable pub encode_public_key : List ℕ → List ℕ → Action Writer (Unit {0})
encode_public_key x y = do write_u8 pairing_public_key; write_bytes x 32; write_bytes y 32

-- The two halves, each the list from its pointer on.
unfoldable pub parse_public_key : Command → Result (List ℕ × List ℕ)
parse_public_key command =
    if not (command.code == pairing_public_key) || not (command.data_len == 64)
    then err invalid_argument
    else ok (command.payload, drop 32 command.payload)

unfoldable pub encode_u8_command : ℕ → ℕ → Action Writer (Unit {0})
encode_u8_command code value = do
  fail_if (not (is_ok (parse_command (code ∷ value ∷ []) 2))) invalid_argument
  write_u8 code
  write_u8 value
