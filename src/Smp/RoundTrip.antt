-- ===== src/Smp/RoundTrip.antt =====
-- protocols/smp/smp.c: the pairing features and the values of 128 bits.
use aros_bluzing.Prelude.{
  ℕ, ◌≡◌, refl, sym, ◌⊎◌, inl, inr, List, [], ◌∷◌, length, take_all, Bool, true, false, ◌||◌, not,
  arith,
}
use mathlib.Core.Path.{subst}
use aros_bluzing.Status.{ok, invalid_argument, Action, fail_if, Error, ◌>>◌}
use aros_bluzing.Endian.{at}
use aros_bluzing.Buffer.Writer.{Writer, write_bytes}
use aros_bluzing.Buffer.Writer.Emits.{
  Emits, Appends, IsValid, Appends-of, then-Emits, write_u8-Emits, write_bytes-Emits,
}
use aros_bluzing.Smp.{PairingFeatures, features_valid}
use aros_bluzing.Smp.Packets.{
  command_data_len, carries128, is_pairing, is_value128, features_at, out_of_range, parse_command,
  encode_pairing_features, parse_pairing_features, encode_value128, parse_value128,
}

abbrev pub feature_bytes : PairingFeatures → List ℕ
feature_bytes f =
    f.io_capability ∷ f.oob_data_flag ∷ f.auth_req ∷ f.max_encryption_key_size
    ∷ f.initiator_key_distribution ∷ f.responder_key_distribution ∷ []

-- A guard that lets through.
pub guard-Emits :
    (b : Bool) (e : Error) {m : Action Writer (Unit {0})} {vs : List ℕ}
    → b ≡ false
    → Emits m vs
    → Emits (fail_if b e >> m) vs
guard-Emits true e h w = absurd (cc)
guard-Emits false e h w = w

pairing_codes : (code : ℕ) → is_pairing code ≡ true → (code ≡ 1) ⊎ (code ≡ 2)
pairing_codes code h = ground arith

-- A property of the two codes of the pairing features.
for_pairing : (P : ℕ → Type 0) → P 1 → P 2 → (code : ℕ) → is_pairing code ≡ true → P code
for_pairing P p q code h = elim (pairing_codes code h) [
  | inl e ↦ subst P (sym e) p
  | inr e ↦ subst P (sym e) q
]

abbrev pub FeaturesBack : PairingFeatures → ℕ → Type 0
FeaturesBack f code =
    (parse_command (code ∷ feature_bytes f) 7
      ≡ ok (record { code = code; payload = feature_bytes f; data_len = 6 }))
    × (parse_pairing_features (record { code = code; payload = feature_bytes f; data_len = 6 })
        ≡ ok f)

features_parsed :
    (f : PairingFeatures)
    → features_valid f ≡ true
    → (code : ℕ) → is_pairing code ≡ true
    → FeaturesBack f code
unfolding parse_command command_data_len parse_pairing_features
features_parsed f valid =
    let v : features_valid (features_at (feature_bytes f)) ≡ true = valid in
    for_pairing (FeaturesBack f) (rw v refl, rw v refl) (rw v refl, rw v refl)

-- Valid features are written as the code and six bytes, if there is room, and those bytes are
-- accepted as a command and parsed back to the same features.
pub pairing_features_back :
    (code : ℕ) (f : PairingFeatures) (w : Writer)
    → is_pairing code ≡ true
    → features_valid f ≡ true
    → IsValid w
    → Appends (code ∷ feature_bytes f) w (encode_pairing_features code f w) × FeaturesBack f code
unfolding encode_pairing_features
pairing_features_back code f w p valid v = (
  Appends-of
      (guard-Emits (not (is_pairing code) || not (features_valid f)) invalid_argument (ground arith)
        (then-Emits (write_u8-Emits code) (
          then-Emits (write_u8-Emits f.io_capability) (
            then-Emits (write_u8-Emits f.oob_data_flag) (
              then-Emits (write_u8-Emits f.auth_req) (
                then-Emits (write_u8-Emits f.max_encryption_key_size) (
                  then-Emits (write_u8-Emits f.initiator_key_distribution)
                    (write_u8-Emits f.responder_key_distribution))))))))
      w v,
  features_parsed f valid code p,
)

value128_codes :
    (code : ℕ)
    → carries128 code ≡ true
    → (command_data_len code ≡ 16) × ((v : ℕ) (p : List ℕ) → out_of_range code v p ≡ false)
unfolding command_data_len
value128_codes code h = (ground arith, λ v p. ground arith)

abbrev pub Value128Back : ℕ → List ℕ → Type 0
Value128Back code value =
    (parse_command (code ∷ value) 17 ≡ ok (record { code = code; payload = value; data_len = 16 }))
    × (parse_value128 (record { code = code; payload = value; data_len = 16 }) ≡ ok value)

-- A value of 128 bits is written behind its code, if there is room, and is parsed back.
pub value128_back :
    (code : ℕ) (value : List ℕ) (w : Writer)
    → carries128 code ≡ true
    → length value ≡ 16
    → IsValid w
    → Appends (code ∷ value) w (encode_value128 code value w) × Value128Back code value
unfolding encode_value128 parse_command parse_value128
value128_back code value w c n v =
    let (len, fine) = value128_codes code c in
    let test : is_value128 code ≡ true = ground (arith, len) in
    (
      Appends-of
          (guard-Emits (not (is_value128 code)) invalid_argument (ground arith) (
            then-Emits (write_u8-Emits code) (
              subst (Emits (write_bytes value 16)) (take_all 16 value (omega (arith, n)))
                (write_bytes-Emits value 16 (omega (arith, n))))))
          w v,
      (rw (len, fine (at (code ∷ value) 1) value) refl, rw test refl),
    )
