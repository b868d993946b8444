-- ===== src/HidReport/Slices.antt =====
-- core/hid/report_parser.c: the bits of a field as a slice of one number.
use aros_bluzing.Prelude.{
  ℕ, zero, suc, ◌+◌, ◌-◌, ◌*◌, ◌/◌, ◌%◌, ◌^◌, ◌<◌, ◌≡◌, sym, ap, ◌∙◌, List, [], ◌∷◌, All, ◌==◌,
  if◌then◌else◌, Bool-cases, inl, inr, arith, bit_or, bit_or_at, mod_double, halved, halved_after,
  is_bit, pow_pos, ℕ-cases,
}
use native.Mathlib.Nat.{pow-suc}
use aros_bluzing.Endian.{IsByte, at}
use aros_bluzing.HidReport.Decode.{bit_at, extract_from, extract_bits}

-- The number with the bytes, lowest byte first.
abbrev pub number : List ℕ → ℕ
number [] = 0
number (b ∷ t) = b + 256 * number t

-- Eight bits further is a byte further.
byte_further : (b n k : ℕ) → IsByte b → (b + 256 * n) / 2 ^ (8 + k) ≡ n / 2 ^ k
byte_further b n zero h = omega arith
byte_further b n (suc k) h =
    ap (λ j. (b + 256 * n) / 2 ^ j) {x = 8 + suc k} {y = suc (8 + k)} (omega arith)
    ∙ halved_after (b + 256 * n) (8 + k)
    ∙ ap (λ x. x / 2) (byte_further b n k h)
    ∙ sym (halved_after n k)

-- The bits below the bit `m` do not depend on what stands from there on.
low_bit : (m k b n : ℕ) → k < m → (b + 2 ^ m * n) / 2 ^ k % 2 ≡ b / 2 ^ k % 2
low_bit zero k b n h = absurd (omega arith)
low_bit (suc m) zero b n h = omega (arith, ap (λ p. p * n) (pow-suc 2 m))
low_bit (suc m) (suc k) b n h =
    let half : (b + 2 ^ suc m * n) / 2 ≡ b / 2 + 2 ^ m * n =
      omega (arith, ap (λ p. p * n) (pow-suc 2 m)) in
    rw (halved (b + 2 ^ suc m * n) k, halved b k, half) (low_bit m k (b / 2) n (omega arith))

-- A bit of the bytes is a bit of the number.
number_bit :
    (bytes : List ℕ) (k : ℕ)
    → All IsByte bytes
    → at bytes (k / 8) / 2 ^ (k % 8) % 2 ≡ number bytes / 2 ^ k % 2
number_bit [] k h = omega arith
number_bit (b ∷ t) k (h, hs) = elim (Bool-cases (k / 8 == 0)) [
  | inl e ↦
      let low : k % 8 ≡ k = ground arith in
      let first : k / 8 ≡ 0 = ground arith in
      rw (low, first) (sym (low_bit 8 k b (number t) (ground arith)))
  | inr e ↦
      let j = k - 8 in
      let split : k ≡ 8 + j = ground arith in
      let byte : k / 8 ≡ suc (j / 8) = ground arith in
      let bit : k % 8 ≡ j % 8 = ground arith in
      rw (byte, bit)
        (number_bit t j hs
          ∙ ap (λ x. x % 2)
              (sym (byte_further b (number t) j h)
                ∙ ap (λ x. (b + 256 * number t) / 2 ^ x) (sym split)))
]

-- A round of the loop puts the next bit of the slice on top.
next_slice :
    (x i n v : ℕ) → v + (x % 2) * 2 ^ i + 2 ^ suc i * (x / 2 % 2 ^ n) ≡ v + 2 ^ i * (x % 2 ^ suc n)
next_slice x i n v = omega (
  arith,
  ap (λ p. p * (x / 2 % 2 ^ n)) (pow-suc 2 i),
  ap (λ r. 2 ^ i * r) (ap (λ p. x % p) (pow-suc 2 n) ∙ mod_double x (2 ^ n) (pow_pos n)),
)

with_bit :
    (b i v : ℕ) → v < 2 ^ i → b < 2 → (if b == 1 then bit_or v (2 ^ i) else v) ≡ v + b * 2 ^ i
with_bit b i v h small = elim (ℕ-cases b 0) [
  | inl e ↦ rw e (omega arith)
  | inr e ↦
      let one : b ≡ 1 = omega arith in
      rw one (bit_or_at i v 1 (2 ^ i) (omega arith) h ∙ omega arith)
]

extract_from-number :
    (n i : ℕ) (bytes : List ℕ) (offset v : ℕ)
    → All IsByte bytes
    → v < 2 ^ i
    → extract_from n i bytes offset v ≡ v + 2 ^ i * (number bytes / 2 ^ (offset + i) % 2 ^ n)
unfolding extract_from
extract_from-number zero i bytes offset v h small =
    let x = number bytes / 2 ^ (offset + i) in
    omega (arith, ap (λ r. 2 ^ i * r) {x = x % 1} {y = 0} (omega arith))
extract_from-number (suc n) i bytes offset v h small =
    let x = number bytes / 2 ^ (offset + i) in
    let test : bit_at bytes (offset + i) ≡ (x % 2 == 1) =
      is_bit ((offset + i) % 8) (at bytes ((offset + i) / 8))
      ∙ ap (λ b. b == 1) (number_bit bytes (offset + i) h) in
    let more = v + (x % 2) * 2 ^ i in
    let value : (if bit_at bytes (offset + i) then bit_or v (2 ^ i) else v) ≡ more =
      ap (λ b. if b then bit_or v (2 ^ i) else v) test ∙ with_bit (x % 2) i v small (omega arith) in
    let rest : number bytes / 2 ^ (offset + suc i) ≡ x / 2 =
      ap (λ k. number bytes / 2 ^ k) (omega arith) ∙ halved_after (number bytes) (offset + i) in
    ap (extract_from n (suc i) bytes offset) value
    ∙ extract_from-number n (suc i) bytes offset more h (grind (arith, pow-suc 2 i))
    ∙ ap (λ y. more + 2 ^ suc i * (y % 2 ^ n)) rest
    ∙ next_slice x i n v

-- The loop over the bits of a field gives the same number as a shift and a mask of all the bytes as
-- one number, lowest byte first.
pub extract_bits-number :
    (bytes : List ℕ) (offset size : ℕ)
    → All IsByte bytes
    → extract_bits bytes offset size ≡ number bytes / 2 ^ offset % 2 ^ size
unfolding extract_bits
extract_bits-number bytes offset size h =
    extract_from-number size 0 bytes offset 0 h (omega arith)
    ∙ ap (λ k. 0 + 1 * (number bytes / 2 ^ k % 2 ^ size)) {x = offset + 0} {y = offset}
        (omega arith)
    ∙ omega arith
