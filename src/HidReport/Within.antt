-- ===== src/HidReport/Within.antt =====
-- core/hid/report_parser.c: the bytes that the decoding of a report reads.
use aros_bluzing.Prelude.{
  ℕ, zero, suc, ◌+◌, ◌-◌, ◌*◌, ◌/◌, ◌%◌, ◌^◌, ◌≤◌, ◌<◌, ◌≡◌, refl, sym, ap, ◌∙◌, List, [], ◌∷◌,
  length, drop, get_or-drop, All, All-weaken, some, ltb, ◌==◌, not, Bool, true, false, Bool-cases,
  inl, inr, arith, bit_and,
}
use mathlib.Core.Path.{subst}
use native.Mathlib.Nat.{mul-le-mul_right}
use aros_bluzing.Status.{Status, ok}
use aros_bluzing.Endian.{at}
use aros_bluzing.HidReport.{Field, Descriptor, is_constant, report_parse}
use aros_bluzing.HidReport.Items.{Parses, report_parse-Parses}
use aros_bluzing.Buffer.{size_mod}
use aros_bluzing.HidReport.Bounds.{bits_of-small, IsPlaced, IsDescriptor}
use aros_bluzing.HidReport.Decode.{
  Value, bit_at, extract_from, extract_bits, decode_elements, unless_stopped, unless_done,
  decode_fields, decode_input,
}

-- Two lists with the same first `n` bytes.
abbrev pub Agree : ℕ → List ℕ → List ℕ → Type 0
Agree n bytes others = (i : ℕ) → i < n → at bytes i ≡ at others i

abbrev pub IsFitting : Field → Type 0
IsFitting f = (1 ≤ f.count) × (f.bit_offset + f.bit_size * f.count < 2 ^ 16)

module _ (n : ℕ) (bytes others : List ℕ) (same : Agree n bytes others) where
  bit_at-Agree : (k : ℕ) → k < 8 * n → bit_at bytes k ≡ bit_at others k
  bit_at-Agree k h = ap (λ x. not (bit_and x (2 ^ (k % 8)) == 0)) (same (k / 8) (omega arith))

  extract_from-Agree :
      (rounds i offset value : ℕ)
      → offset + i + rounds ≤ 8 * n
      → extract_from rounds i bytes offset value ≡ extract_from rounds i others offset value
  unfolding extract_from
  extract_from-Agree zero i offset value h = refl
  extract_from-Agree (suc rounds) i offset value h =
      rw (bit_at-Agree (offset + i) (omega arith))
        (extract_from-Agree rounds (suc i) offset _ (omega arith))

  extract_bits-Agree :
      (offset size : ℕ)
      → offset + size ≤ 8 * n
      → extract_bits bytes offset size ≡ extract_bits others offset size
  unfolding extract_bits
  extract_bits-Agree offset size h = extract_from-Agree size 0 offset 0 (omega arith)

  module _ {U : Type 0} (callback : Value → U → Bool × U) where
    unless_stopped-ap :
        (f g : U → Bool × U) (p : Bool × U)
        → ((u : U) → f u ≡ g u)
        → unless_stopped callback f p ≡ unless_stopped callback g p
    unless_stopped-ap f g (true, u) h = h u
    unless_stopped-ap f g (false, u) h = refl

    unless_done-ap :
        (f g : U → Status × U) (p : Bool × U)
        → ((u : U) → f u ≡ g u)
        → unless_done callback f p ≡ unless_done callback g p
    unless_done-ap f g (true, u) h = h u
    unless_done-ap f g (false, u) h = refl

    -- The elements from an index on lie within the first bytes.
    decode_elements-Agree :
        (rounds element : ℕ) (f : Field) (u : U)
        → element + rounds ≡ f.count
        → f.bit_offset + f.bit_size * f.count ≤ 8 * n
        → f.bit_offset + f.bit_size * f.count < 2 ^ 16
        → decode_elements callback rounds element bytes f u
          ≡ decode_elements callback rounds element others f u
    unfolding decode_elements
    decode_elements-Agree zero element f u e h small = refl
    decode_elements-Agree (suc rounds) element f u e h small =
        let product : suc element * f.bit_size ≤ f.count * f.bit_size =
          mul-le-mul_right f.bit_size (omega arith) in
        let place : (f.bit_offset + element * f.bit_size) % 2 ^ 16
            ≡ f.bit_offset + element * f.bit_size =
          omega (arith, product) in
        rw
          (
            place,
            extract_bits-Agree (f.bit_offset + element * f.bit_size) f.bit_size
                (omega (arith, product)),
          )
          (unless_stopped-ap _ _ _
            (λ w. decode_elements-Agree rounds (suc element) f w (omega arith) h small))

    decode_fields-Agree :
        (fs : List Field) (id : ℕ) (u : U)
        → 8 * n < 2 ^ 64
        → All IsFitting fs
        → decode_fields callback fs id bytes n u ≡ decode_fields callback fs id others n u
    unfolding decode_fields
    decode_fields-Agree [] id u small h = refl
    decode_fields-Agree (f ∷ fs) id u small (h, hs) = elim (Bool-cases (not (f.report_id == id))) [
      | inl e ↦ rw e (decode_fields-Agree fs id u small hs)
      | inr e ↦
          let bits = (f.bit_offset + f.bit_size * f.count % 2 ^ 32) % 2 ^ 32 in
          elim (Bool-cases (ltb (n * 8 % 2 ^ 64) bits)) [
            | inl b ↦ rw (e, b) refl
            | inr b ↦
                let inside : f.bit_offset + f.bit_size * f.count ≤ 8 * n = ground (arith, b, h.1) in
                elim (Bool-cases (is_constant f.flags)) [
                  | inl c ↦ rw (e, b, c) (decode_fields-Agree fs id u small hs)
                  | inr c ↦
                      rw (e, b, c)
                        (ap (unless_done callback (decode_fields callback fs id bytes n))
                            (decode_elements-Agree f.count 0 f u (omega arith) inside (h.1))
                          ∙ unless_done-ap _ _ (decode_elements callback f.count 0 others f u)
                              (λ w. decode_fields-Agree fs id w small hs))
                ]
          ]
    ]

fitting : (d : Descriptor) → IsDescriptor d → All IsFitting d.fields
fitting d v =
    All-weaken (IsPlaced d.reports) IsFitting d.fields
      (λ f p. (p.1, omega (arith, p.2, bits_of-small d.reports f.report_id v.bits))) v.placed

Agree-drop :
    (n : ℕ) (bytes others : List ℕ)
    → Agree (suc n) bytes others
    → Agree n (drop 1 bytes) (drop 1 others)
Agree-drop n bytes others same i h =
    get_or-drop 1 i bytes 0 ∙ same (1 + i) (omega arith) ∙ sym (get_or-drop 1 i others 0)

module _ {U : Type 0} (callback : Value → U → Bool × U) where
  decode_input-Agree :
      (d : Descriptor) (n : ℕ) (report other : List ℕ) (u : U)
      → IsDescriptor d
      → 8 * n < 2 ^ 64
      → Agree n report other
      → decode_input callback d report n u ≡ decode_input callback d other n u
  unfolding decode_input
  decode_input-Agree d zero report other u v small same = elim (Bool-cases d.uses_report_ids) [
    | inl e ↦ rw e refl
    | inr e ↦
        rw e (decode_fields-Agree 0 report other same callback d.fields 0 u small (fitting d v))
  ]
  decode_input-Agree d (suc n) report other u v small same = elim (Bool-cases d.uses_report_ids) [
    | inl e ↦
        let less : suc n - 1 ≡ n = omega arith in
        let other_than_zero : (suc n == 0) ≡ false = ground arith in
        rw (e, other_than_zero, less, same 0 (omega arith))
          (decode_fields-Agree n (drop 1 report) (drop 1 other) (Agree-drop n report other same)
            callback d.fields (at other 0) u (omega arith) (fitting d v))
    | inr e ↦
        rw e
          (decode_fields-Agree (suc n) report other same callback d.fields 0 u small (fitting d v))
  ]

  -- With a descriptor that the parse gave, the decoding of a report of `n` bytes depends on these
  -- bytes alone, whatever the memory behind them holds: it gives the callback the same values and has
  -- the same outcome.
  pub decode_within_report :
      (bytes : List ℕ) (d : Descriptor) (n : ℕ) (report other : List ℕ) (u : U)
      → length bytes < size_mod
      → report_parse bytes (length bytes) ≡ some (ok d)
      → 8 * n < 2 ^ 64
      → Agree n report other
      → decode_input callback d report n u ≡ decode_input callback d other n u
  decode_within_report bytes d n report other u short parsed small same =
      let sound : Parses (some (ok d)) = subst Parses parsed (report_parse-Parses bytes short) in
      decode_input-Agree d n report other u sound.0 small same
