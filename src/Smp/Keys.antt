-- ===== src/Smp/Keys.antt =====
-- protocols/smp/smp.c: the commands that distribute keys.
use aros_bluzing.Prelude.{
  ℕ, ◌%◌, ◌≡◌, refl, sym, ap, ◌∙◌, ◌^◌, ◌≤◌, ◌<◌, List, [], ◌∷◌, ◌++◌, length, drop, take_all,
  drop-append, get_or-append_right, true, false, not, ltb, arith, bit_or,
}
use mathlib.Core.Path.{subst}
use aros_bluzing.Status.{ok, invalid_argument, is_ok}
use aros_bluzing.Endian
use aros_bluzing.Endian.{at, shl}
use aros_bluzing.Endian.Values.{le16_back}
use aros_bluzing.Buffer.Writer.{Writer, write_bytes}
use aros_bluzing.Buffer.Writer.Emits.{
  Emits, Appends, IsValid, Appends-of, then-Emits, write_u8-Emits, write_le16-Emits,
  write_bytes-Emits,
}
use aros_bluzing.Smp.Packets.{
  Command, command_data_len, parse_command, encode_central_identification,
  parse_central_identification, encode_identity_address, parse_identity_address, encode_public_key,
  parse_public_key, encode_u8_command,
}
use aros_bluzing.Smp.RoundTrip.{guard-Emits}

-- All of a value of `n` bytes.
whole-Emits : (n : ℕ) (l : List ℕ) → length l ≡ n → Emits (write_bytes l n) l
whole-Emits n l h =
    subst (Emits (write_bytes l n)) (take_all n l (omega (arith, h)))
      (write_bytes-Emits l n (omega (arith, h)))

-- The 16 bits behind a value of eight bytes.
ediv_back :
    (rand : List ℕ) (ediv : ℕ)
    → length rand ≡ 8
    → ediv < 2 ^ 16
    → bit_or
          (at (rand ++ Endian.write_le16 ediv) 8)
          (shl 32 (at (rand ++ Endian.write_le16 ediv) 9) 8)
        % 2 ^ 16
      ≡ ediv
unfolding Endian.read_le16 Endian.write_le16
ediv_back rand ediv n small =
    let bytes = Endian.write_le16 ediv in
    let low : at (rand ++ bytes) 8 ≡ at bytes 0 =
      ap (at (rand ++ bytes)) (omega (arith, n)) ∙ get_or-append_right rand bytes 0 0 in
    let high : at (rand ++ bytes) 9 ≡ at bytes 1 =
      ap (at (rand ++ bytes)) (omega (arith, n)) ∙ get_or-append_right rand bytes 1 0 in
    rw (low, high) (omega (arith, le16_back ediv []))

module _ (w : Writer) (valid : IsValid w) where
  pub central_identification_back :
      (rand : List ℕ) (ediv : ℕ)
      → length rand ≡ 8
      → ediv < 2 ^ 16
      → let payload = rand ++ Endian.write_le16 ediv in
        let command : Command = record { code = 0x07; payload = payload; data_len = 10 } in
        Appends (0x07 ∷ payload) w (encode_central_identification rand ediv w)
        × (parse_command (0x07 ∷ payload) 11 ≡ ok command)
        × (parse_central_identification command ≡ ok (record { rand = payload; ediv = ediv }))
  unfolding encode_central_identification parse_command parse_central_identification
      command_data_len
  central_identification_back rand ediv n small = (
    Appends-of
        (then-Emits (write_u8-Emits 0x07)
          (then-Emits (whole-Emits 8 rand n) (write_le16-Emits ediv)))
        w valid,
    refl,
    ap (λ e. ok (record { rand = rand ++ Endian.write_le16 ediv; ediv = e }))
        (ediv_back rand ediv n small),
  )

  pub identity_address_back :
      (address_type : ℕ) (address : List ℕ)
      → address_type ≤ 1
      → length address ≡ 6
      → let payload = address_type ∷ address in
        let command : Command = record { code = 0x09; payload = payload; data_len = 7 } in
        Appends (0x09 ∷ payload) w (encode_identity_address address_type address w)
        × (parse_command (0x09 ∷ payload) 8 ≡ ok command)
        × (parse_identity_address command
            ≡ ok (record { address_type = address_type; address = address }))
  unfolding encode_identity_address parse_command parse_identity_address command_data_len
  identity_address_back address_type address t n =
      let test : ltb 1 address_type ≡ false = ground arith in
      (
        Appends-of
            (guard-Emits (ltb 1 address_type) invalid_argument test (
              then-Emits (write_u8-Emits 0x09)
                (then-Emits (write_u8-Emits address_type) (whole-Emits 6 address n))))
            w valid,
        rw test refl,
        rw test refl,
      )

  pub public_key_back :
      (x y : List ℕ)
      → length x ≡ 32
      → length y ≡ 32
      → let command : Command = record { code = 0x0c; payload = x ++ y; data_len = 64 } in
        Appends (0x0c ∷ x ++ y) w (encode_public_key x y w)
        × (parse_command (0x0c ∷ x ++ y) 65 ≡ ok command)
        × (parse_public_key command ≡ ok (x ++ y, y))
  unfolding encode_public_key parse_command parse_public_key command_data_len
  public_key_back x y m n = (
    Appends-of
        (then-Emits (write_u8-Emits 0x0c) (then-Emits (whole-Emits 32 x m) (whole-Emits 32 y n))) w
        valid,
    refl,
    ap (λ l. ok (x ++ y, l)) (ap (λ k. drop k (x ++ y)) (sym m) ∙ drop-append x y),
  )

  -- A command of one byte is written when it would be accepted, and then it is accepted.
  pub u8_command_back :
      (code value : ℕ)
      → is_ok (parse_command (code ∷ value ∷ []) 2) ≡ true
      → Appends (code ∷ value ∷ []) w (encode_u8_command code value w)
  unfolding encode_u8_command
  u8_command_back code value h =
      Appends-of
        (guard-Emits (not (is_ok (parse_command (code ∷ value ∷ []) 2))) invalid_argument (ap not h)
          (then-Emits (write_u8-Emits code) (write_u8-Emits value)))
        w valid
