-- ===== src/Smp/Messages.antt =====
-- protocols/smp/smp.c: the messages of the protocol by their fields.
use aros_bluzing.Prelude.{
  ℕ, ◌≡◌, refl, ap, ◌∙◌, ◌^◌, ◌≤◌, ◌<◌, List, [], ◌∷◌, ◌++◌, length, length-append, true, false,
  ◌⊎◌, inl, inr, ◌||◌, ltb, bit_and, arith,
}
use mathlib.Core.Path.{subst}
use aros_bluzing.Status.{ok, err, Result, Action, is_ok}
use aros_bluzing.Endian
use aros_bluzing.Buffer.Writer.{Writer}
use aros_bluzing.Buffer.Writer.Emits.{Appends, IsValid}
use aros_bluzing.Smp.{PairingFeatures, features_valid, within, auth_req_valid_mask}
use aros_bluzing.Smp.Packets.{
  Command, command_data_len, carries128, is_pairing, parse_command, encode_pairing_features,
  parse_pairing_features, encode_value128, parse_value128, encode_central_identification,
  parse_central_identification, encode_identity_address, parse_identity_address, encode_public_key,
  parse_public_key, encode_u8_command,
}
use aros_bluzing.Smp.Payloads.{Accepts, IsWithin, parse_command-Accepts}
use aros_bluzing.Smp.RoundTrip.{feature_bytes, pairing_features_back, value128_back}
use aros_bluzing.Smp.Keys.{
  central_identification_back, identity_address_back, public_key_back, u8_command_back,
}

-- A message by its fields.
pub data Message : Type 0 where
  features : ℕ → PairingFeatures → Message
  value128 : ℕ → List ℕ → Message
  central : List ℕ → ℕ → Message
  identity : ℕ → List ℕ → Message
  public_key : List ℕ → List ℕ → Message
  octet : ℕ → ℕ → Message

-- The fields have the sizes and the values that the protocol gives them.
abbrev pub IsProper : Message → Type 0
IsProper (features code f) = (is_pairing code ≡ true) × (features_valid f ≡ true)
IsProper (value128 code value) = (carries128 code ≡ true) × (length value ≡ 16)
IsProper (central rand ediv) = (length rand ≡ 8) × (ediv < 2 ^ 16)
IsProper (identity address_type address) = (address_type ≤ 1) × (length address ≡ 6)
IsProper (public_key x y) = (length x ≡ 32) × (length y ≡ 32)
IsProper (octet code value) =
    (code ≡ 0x05) × (1 ≤ value) × (value ≤ 0x10)
    ⊎ (code ≡ 0x0e) × (value ≤ 4)
    ⊎ (code ≡ 0x0b) × (within auth_req_valid_mask value ≡ true) × (bit_and value 0x03 ≤ 1)

abbrev pub message_bytes : Message → List ℕ
message_bytes (features code f) = code ∷ feature_bytes f
message_bytes (value128 code value) = code ∷ value
message_bytes (central rand ediv) = 0x07 ∷ rand ++ Endian.write_le16 ediv
message_bytes (identity address_type address) = 0x09 ∷ address_type ∷ address
message_bytes (public_key x y) = 0x0c ∷ x ++ y
message_bytes (octet code value) = code ∷ value ∷ []

-- The encoder of each message.
abbrev pub encode : Message → Action Writer (Unit {0})
encode (features code f) = encode_pairing_features code f
encode (value128 code value) = encode_value128 code value
encode (central rand ediv) = encode_central_identification rand ediv
encode (identity address_type address) = encode_identity_address address_type address
encode (public_key x y) = encode_public_key x y
encode (octet code value) = encode_u8_command code value

-- The parser of the payload finds the fields; a value of several bytes is the list from its first
-- byte on.
abbrev pub Reads : Message → Command → Type 0
Reads (features code f) c = parse_pairing_features c ≡ ok f
Reads (value128 code value) c = parse_value128 c ≡ ok value
Reads (central rand ediv) c =
    parse_central_identification c
    ≡ ok (record { rand = rand ++ Endian.write_le16 ediv; ediv = ediv })
Reads (identity address_type address) c =
    parse_identity_address c ≡ ok (record { address_type = address_type; address = address })
Reads (public_key x y) c = parse_public_key c ≡ ok (x ++ y, y)
Reads (octet code value) c = (c.code ≡ code) × (c.payload ≡ value ∷ [])

abbrev pub GoesBack : Message → Writer → Type 0
GoesBack m w =
    Appends (message_bytes m) w (encode m w)
    × ((c : Command) × (parse_command (message_bytes m) (length (message_bytes m)) ≡ ok c)
        × Reads m c)

is_ok-parsed : (r : Result Command) → is_ok r ≡ true → (c : Command) × (r ≡ ok c)
is_ok-parsed (ok c) h = (c, refl)
is_ok-parsed (err e) h = absurd (cc)

octet_accepted :
    (code value : ℕ)
    → IsProper (octet code value)
    → is_ok (parse_command (code ∷ value ∷ []) 2) ≡ true
unfolding parse_command command_data_len
octet_accepted code value (inl (e, low, high)) =
    let test : (ltb value 1 || ltb 0x10 value) ≡ false = ground arith in rw (e, test) refl
octet_accepted code value (inr (inl (e, high))) =
    let test : ltb 4 value ≡ false = ground arith in rw (e, test) refl
octet_accepted code value (inr (inr (e, inside, low))) =
    let test : ltb 1 (bit_and value 0x03) ≡ false = ground arith in rw (e, inside, test) refl

octet_read :
    (code value : ℕ) (c : Command)
    → parse_command (code ∷ value ∷ []) 2 ≡ ok c
    → Reads (octet code value) c
octet_read code value c h =
    let inside : IsWithin (code ∷ value ∷ []) c =
      subst (Accepts (code ∷ value ∷ [])) h
        (parse_command-Accepts (code ∷ value ∷ []) (omega arith)) in
    (inside.code, inside.payload)

-- The length of the PDU, as the lemmas write it.
at_length :
    (pdu : List ℕ) (n : ℕ) {r : Result Command}
    → length pdu ≡ n
    → parse_command pdu n ≡ r
    → parse_command pdu (length pdu) ≡ r
at_length pdu n h p = ap (parse_command pdu) h ∙ p

-- Every message with proper fields is written as its bytes, if there is room and else refused; these
-- bytes are accepted as a command, and the parser of its payload finds the fields again.
pub message_back : (m : Message) (w : Writer) → IsProper m → IsValid w → GoesBack m w
unfolding Endian.write_le16
message_back (features code f) w (p, valid) v =
    let (written, (parsed, read)) = pairing_features_back code f w p valid v in
    (written, (_, parsed, read))
message_back (value128 code value) w (p, n) v =
    let (written, (parsed, read)) = value128_back code value w p n v in
    (written, (_, at_length (code ∷ value) 17 (omega (arith, n)) parsed, read))
message_back (central rand ediv) w (n, small) v =
    let (written, parsed, read) = central_identification_back w v rand ediv n small in
    (
      written,
      (
        _,
        at_length (0x07 ∷ rand ++ Endian.write_le16 ediv) 11
            (omega (arith, n, length-append rand (Endian.write_le16 ediv))) parsed,
        read,
      ),
    )
message_back (identity address_type address) w (t, n) v =
    let (written, parsed, read) = identity_address_back w v address_type address t n in
    (written, (_, at_length (0x09 ∷ address_type ∷ address) 8 (omega (arith, n)) parsed, read))
message_back (public_key x y) w (m, n) v =
    let (written, parsed, read) = public_key_back w v x y m n in
    (
      written,
      (_, at_length (0x0c ∷ x ++ y) 65 (omega (arith, m, n, length-append x y)) parsed, read),
    )
message_back (octet code value) w p v =
    let accepted = octet_accepted code value p in
    let (c, parsed) = is_ok-parsed (parse_command (code ∷ value ∷ []) 2) accepted in
    (u8_command_back w v code value accepted, (c, parsed, octet_read code value c parsed))
