-- ===== src/Smp/Payloads.antt =====
-- protocols/smp/smp.c: the PDUs that are accepted, against a list of the commands.
use aros_bluzing.Prelude.{
  ℕ, zero, suc, ◌⊎◌, bit_and, bit_and_mask, sym, true, ◌%◌, ◌≡◌, refl, ap, ◌∙◌, ◌+◌, ◌-◌, ◌≤◌, ◌<◌,
  inl, inr, List, [], ◌∷◌, length, drop, get_or-drop, false, ◌==◌, ◌||◌, not, Bool-cases, arith,
}
use aros_bluzing.Status.{ok, err, invalid_argument, Result}
use aros_bluzing.Endian.{at}
use aros_bluzing.Buffer.{size_mod}
use aros_bluzing.Smp.{PairingFeatures, features_valid}
use aros_bluzing.Smp.Packets.{
  Command, features_at, command_data_len, size_max, out_of_range, parse_command,
}

-- Features with every field in its range: no reserved bit of the requirements and of the keys, and the
-- bonding flags 0 or 1.
abbrev pub InRange : PairingFeatures → Type 0
InRange f =
    (f.io_capability ≤ 4)
    × (f.oob_data_flag ≤ 1)
    × (bit_and f.auth_req 0xc2 ≡ 0)
    × (f.auth_req % 4 ≤ 1)
    × (7 ≤ f.max_encryption_key_size)
    × (f.max_encryption_key_size ≤ 16)
    × (bit_and f.initiator_key_distribution 0xf0 ≡ 0)
    × (bit_and f.responder_key_distribution 0xf0 ≡ 0)

-- The commands of the protocol: the code, the number of bytes behind it, and their ranges.
abbrev pub IsCommand : ℕ → List ℕ → Type 0
IsCommand code p =
    ((code ≡ 0x01) ⊎ (code ≡ 0x02)) × (length p ≡ 6) × InRange (features_at p)
    ⊎ ((code ≡ 0x03)
        ⊎ (code ≡ 0x04)
        ⊎ (code ≡ 0x06)
        ⊎ (code ≡ 0x08)
        ⊎ (code ≡ 0x0a)
        ⊎ (code ≡ 0x0d))
      × (length p ≡ 16)
    ⊎ (code ≡ 0x05) × (length p ≡ 1) × (1 ≤ at p 0) × (at p 0 ≤ 0x10)
    ⊎ (code ≡ 0x07) × (length p ≡ 10)
    ⊎ (code ≡ 0x09) × (length p ≡ 7) × (at p 0 ≤ 1)
    ⊎ (code ≡ 0x0b) × (length p ≡ 1) × (bit_and (at p 0) 0xc2 ≡ 0) × (at p 0 % 4 ≤ 1)
    ⊎ (code ≡ 0x0c) × (length p ≡ 64)
    ⊎ (code ≡ 0x0e) × (length p ≡ 1) × (at p 0 ≤ 4)

-- What a parsed command promises to those that index into its payload.
pub record IsWithin (pdu : List ℕ) (c : Command) : Type 0 where
  pub code : c.code ≡ at pdu 0
  pub payload : c.payload ≡ drop 1 pdu
  pub whole : c.data_len ≡ length c.payload
  pub command : IsCommand c.code c.payload

abbrev pub Accepts : List ℕ → Result Command → Type 0
Accepts pdu (err e) = e ≡ invalid_argument
Accepts pdu (ok c) = IsWithin pdu c

valid-InRange : (f : PairingFeatures) → features_valid f ≡ true → InRange f
unfolding features_valid
valid-InRange f h = (
  ground arith,
  ground arith,
  ground arith,
  ground (arith, bit_and_mask 2 f.auth_req),
  ground arith,
  ground arith,
  ground arith,
  ground arith,
)

known_codes : (code : ℕ) → (command_data_len code == size_max) ≡ false → (1 ≤ code) × (code ≤ 0x0e)
unfolding command_data_len
known_codes code h = ground arith

-- A property of the fourteen codes.
for_codes :
    (P : ℕ → Type 0)
    → P 1
    → P 2
    → P 3
    → P 4
    → P 5
    → P 6
    → P 7
    → P 8
    → P 9
    → P 10
    → P 11
    → P 12
    → P 13
    → P 14
    → (code : ℕ) → 1 ≤ code
    → code ≤ 0x0e
    → P code
for_codes P p1 p2 p3 p4 p5 p6 p7 p8 p9 p10 p11 p12 p13 p14 zero h k = absurd (omega arith)
for_codes P p1 p2 p3 p4 p5 p6 p7 p8 p9 p10 p11 p12 p13 p14 (suc zero) h k = p1
for_codes P p1 p2 p3 p4 p5 p6 p7 p8 p9 p10 p11 p12 p13 p14 (suc (suc zero)) h k = p2
for_codes P p1 p2 p3 p4 p5 p6 p7 p8 p9 p10 p11 p12 p13 p14 (suc (suc (suc zero))) h k = p3
for_codes P p1 p2 p3 p4 p5 p6 p7 p8 p9 p10 p11 p12 p13 p14 (suc (suc (suc (suc zero)))) h k = p4
for_codes P p1 p2 p3 p4 p5 p6 p7 p8 p9 p10 p11 p12 p13 p14 (suc (suc (suc (suc (suc zero))))) h k =
    p5
for_codes P p1 p2 p3 p4 p5 p6 p7 p8 p9 p10 p11 p12 p13 p14 (suc (suc (suc (suc (suc (suc zero))))))
      h k =
    p6
for_codes P p1 p2 p3 p4 p5 p6 p7 p8 p9 p10 p11 p12 p13 p14
      (suc (suc (suc (suc (suc (suc (suc zero))))))) h k =
    p7
for_codes P p1 p2 p3 p4 p5 p6 p7 p8 p9 p10 p11 p12 p13 p14
      (suc (suc (suc (suc (suc (suc (suc (suc zero)))))))) h k =
    p8
for_codes P p1 p2 p3 p4 p5 p6 p7 p8 p9 p10 p11 p12 p13 p14
      (suc (suc (suc (suc (suc (suc (suc (suc (suc zero))))))))) h k =
    p9
for_codes P p1 p2 p3 p4 p5 p6 p7 p8 p9 p10 p11 p12 p13 p14
      (suc (suc (suc (suc (suc (suc (suc (suc (suc (suc zero)))))))))) h k =
    p10
for_codes P p1 p2 p3 p4 p5 p6 p7 p8 p9 p10 p11 p12 p13 p14
      (suc (suc (suc (suc (suc (suc (suc (suc (suc (suc (suc zero))))))))))) h k =
    p11
for_codes P p1 p2 p3 p4 p5 p6 p7 p8 p9 p10 p11 p12 p13 p14
      (suc (suc (suc (suc (suc (suc (suc (suc (suc (suc (suc (suc zero)))))))))))) h k =
    p12
for_codes P p1 p2 p3 p4 p5 p6 p7 p8 p9 p10 p11 p12 p13 p14
      (suc (suc (suc (suc (suc (suc (suc (suc (suc (suc (suc (suc (suc zero))))))))))))) h k =
    p13
for_codes P p1 p2 p3 p4 p5 p6 p7 p8 p9 p10 p11 p12 p13 p14
      (suc (suc (suc (suc (suc (suc (suc (suc (suc (suc (suc (suc (suc (suc zero)))))))))))))) h k =
    p14
for_codes P p1 p2 p3 p4 p5 p6 p7 p8 p9 p10 p11 p12 p13 p14
      (suc (suc (suc (suc (suc (suc (suc (suc (suc (suc (suc (suc (suc (suc (suc code)))))))))))))))
      h k =
    absurd (omega arith)

-- The tests that the code makes of a payload leave one of the commands.
abbrev Listed : List ℕ → ℕ → Type 0
Listed p code =
    length p ≡ command_data_len code → out_of_range code (at p 0) p ≡ false → IsCommand code p

known-IsCommand :
    (code : ℕ) (p : List ℕ)
    → (command_data_len code == size_max) ≡ false
    → length p ≡ command_data_len code
    → out_of_range code (at p 0) p ≡ false
    → IsCommand code p
unfolding command_data_len
known-IsCommand code p known len fine =
    let (low, high) = known_codes code known in
    for_codes (Listed p)
      (λ len fine. inl (inl refl, len, valid-InRange (features_at p) (ground (arith, fine))))
      (λ len fine. inl (inr refl, len, valid-InRange (features_at p) (ground (arith, fine))))
      (λ len fine. inr (inl (inl refl, len))) (λ len fine. inr (inl (inr (inl refl), len)))
      (λ len fine. inr (inr (inl (refl, len, ground (arith, fine), ground (arith, fine)))))
      (λ len fine. inr (inl (inr (inr (inl refl)), len)))
      (λ len fine. inr (inr (inr (inl (refl, len)))))
      (λ len fine. inr (inl (inr (inr (inr (inl refl))), len)))
      (λ len fine. inr (inr (inr (inr (inl (refl, len, ground (arith, fine)))))))
      (λ len fine. inr (inl (inr (inr (inr (inr (inl refl)))), len)))
      (λ len fine. inr (
        inr (
          inr (
            inr (
              inr (
                inl (
                  refl,
                  len,
                  ground (arith, fine),
                  ground (arith, fine, bit_and_mask 2 (at p 0)),
                )))))))
      (λ len fine. inr (inr (inr (inr (inr (inr (inl (refl, len))))))))
      (λ len fine. inr (inl (inr (inr (inr (inr (inr refl)))), len)))
      (λ len fine. inr (inr (inr (inr (inr (inr (inr ((refl, len, ground (arith, fine)))))))))) code
      low high len fine

small_len : (code : ℕ) → (command_data_len code == size_max) ≡ false → command_data_len code ≤ 64
unfolding command_data_len
small_len code h = ground arith

length-drop_one : (l : List ℕ) → length (drop 1 l) ≡ length l - 1
length-drop_one [] = omega arith
length-drop_one (x ∷ l) = omega arith

-- A PDU is refused as an invalid argument, or it is one of the commands: its code is the first byte, its
-- payload is all that follows and has the length of that command, and the fields that have a range are
-- in it.
pub parse_command-Accepts :
    (pdu : List ℕ) → length pdu < size_mod → Accepts pdu (parse_command pdu (length pdu))
unfolding parse_command
parse_command-Accepts pdu small =
    let code = at pdu 0 in
    let n = command_data_len code in
    elim (Bool-cases (length pdu == 0)) [
      | inl a ↦ rw a refl
      | inr a ↦ elim (Bool-cases ((n == size_max) || not (length pdu == (n + 1) % size_mod))) [
        | inl b ↦ rw (a, b) refl
        | inr b ↦ elim (Bool-cases (out_of_range code (at pdu 1) (drop 1 pdu))) [
          | inl c ↦ rw (a, b, c) refl
          | inr c ↦
              let known : (n == size_max) ≡ false = ground arith in
              let whole : length (drop 1 pdu) ≡ n =
                length-drop_one pdu ∙ ground (arith, small_len code known) in
              rw (a, b, c)
                (record {
                  code = refl;
                  payload = refl;
                  whole = sym whole;
                  command =
                      known-IsCommand code (drop 1 pdu) known whole
                        (ap (λ v. out_of_range code v (drop 1 pdu)) (get_or-drop 1 0 pdu 0) ∙ c);
                })
        ]
      ]
    ]
