-- ===== src/Prelude/Bits.antt =====
-- Masks, shifts and disjoint `or` as arithmetic, at every width.
use Prim.Native.Nat.{
  ℕ, zero, suc, ◌+◌, ◌-◌, ◌*◌, ◌/◌, ◌%◌, ◌^◌, ◌≤◌, ◌<◌, min, max, bit_and, bit_or, digits,
  bit_and-bitwise, bit_or-bitwise,
}
use mathlib.Core.Path.{◌≡◌, refl, sym, ap, ◌∙◌}
use mathlib.Core.Bool.{not, ◌&&◌}
use mathlib.Core.Logic.{◌≢◌, inl, inr}
use native.Mathlib.Omega.{arith}
use aros_bluzing.Prelude.Tests.{◌==◌, ℕ-cases}
use native.Mathlib.Nat.{
  div-div-eq-div-mul, pow-suc, mod-lt, mod-eq_of_lt, mod-add-div', add-mul-mod_self_right,
}

-- The digits of a number do not depend on how much more fuel than the number there is.
module _ (end : ℕ → ℕ) (op : ℕ → ℕ → ℕ) where
  spent : (fuel y : ℕ) → digits end op fuel 0 y ≡ digits end op 0 0 y
  spent zero y = refl
  spent (suc fuel) y = refl

  same_digits : (x y f g : ℕ) → x ≤ f → x ≤ g → digits end op f x y ≡ digits end op g x y
  same_digits zero y f g hf hg = spent f y ∙ sym (spent g y)
  same_digits (suc x) y zero g hf hg = absurd (omega arith)
  same_digits (suc x) y (suc f) zero hf hg = absurd (omega arith)
  same_digits (suc x) y (suc f) (suc g) hf hg =
      let halves = same_digits (suc x / 2) (y / 2) f g (omega arith) (omega arith) in
      ap (λ d. d * 2 + op (suc x % 2) (y % 2)) halves

pub bit_or_step : (x y : ℕ) → bit_or x y ≡ 2 * bit_or (x / 2) (y / 2) + max (x % 2) (y % 2)
bit_or_step zero y = omega (arith, bit_or-bitwise 0 y, bit_or-bitwise 0 (y / 2))
bit_or_step (suc x) y =
    let q = suc x / 2 in
    let more = same_digits (λ d. d) max q (y / 2) x q (omega arith) (omega arith) in
    omega (arith, more, bit_or-bitwise (suc x) y, bit_or-bitwise q (y / 2))

pub bit_and_step : (x y : ℕ) → bit_and x y ≡ 2 * bit_and (x / 2) (y / 2) + min (x % 2) (y % 2)
bit_and_step zero y = omega (arith, bit_and-bitwise 0 y, bit_and-bitwise 0 (y / 2))
bit_and_step (suc x) y =
    let q = suc x / 2 in
    let more = same_digits (λ d. 0) min q (y / 2) x q (omega arith) (omega arith) in
    omega (arith, more, bit_and-bitwise (suc x) y, bit_and-bitwise q (y / 2))

-- One binary digit more in a remainder.
pub mod_double : (x p : ℕ) → 1 ≤ p → x % (p * 2) ≡ x / 2 % p * 2 + x % 2
mod_double x p h =
    let y = x / 2 % p * 2 + x % 2 in
    let parts : x ≡ y + x / 2 / p * (p * 2) = omega (arith, mod-add-div' (x / 2) p) in
    let small : y < p * 2 = omega (arith, mod-lt (x / 2) {m = p} h) in
    ap (λ k. k % (p * 2)) parts ∙ add-mul-mod_self_right y (x / 2 / p) (p * 2) ∙ mod-eq_of_lt small

pub pow_pos : (k : ℕ) → 1 ≤ 2 ^ k
pow_pos zero = omega arith
pow_pos (suc k) = omega (arith, pow-suc 2 k, pow_pos k)

bit_and_nothing : (bound x y : ℕ) → x ≤ bound → y ≡ 0 → bit_and x y ≡ 0
bit_and_nothing zero x y h e =
    let none_left : x ≡ 0 = omega arith in ap (λ k. bit_and k y) none_left ∙ bit_and-bitwise 0 y
bit_and_nothing (suc bound) zero y h e = bit_and-bitwise 0 y
bit_and_nothing (suc bound) (suc x) y h e = omega (
  arith,
  bit_and_step (suc x) y,
  bit_and_nothing bound (suc x / 2) (y / 2) (omega arith) (omega arith),
)

bit_and_ones : (k x m : ℕ) → m + 1 ≡ 2 ^ k → bit_and x m ≡ x % 2 ^ k
bit_and_ones zero x m h = omega (arith, bit_and_nothing x x m (omega arith) (omega arith))
bit_and_ones (suc k) x m h = omega (
  arith,
  bit_and_step x m,
  bit_and_ones k (x / 2) (m / 2) (omega (arith, pow-suc 2 k, pow_pos k)),
  mod_double x (2 ^ k) (pow_pos k),
  pow-suc 2 k,
  pow_pos k,
  ap (λ p. x % p) (pow-suc 2 k),
)

-- `x & (2^k - 1)` keeps the lowest `k` bits.
pub bit_and_mask : (k x : ℕ) → bit_and x (2 ^ k - 1) ≡ x % 2 ^ k
bit_and_mask k x = bit_and_ones k x (2 ^ k - 1) (omega (arith, pow_pos k))

-- `lo | m` is a sum where `lo` has at most `k` bits and `m` is a multiple of `2^k`.
pub bit_or_at : (k lo hi m : ℕ) → m ≡ hi * 2 ^ k → lo < 2 ^ k → bit_or lo m ≡ lo + m
bit_or_at zero zero hi m e h = omega (arith, bit_or-bitwise 0 m)
bit_or_at zero (suc lo) hi m e h = absurd (omega arith)
bit_or_at (suc k) lo hi m e h =
    let p = 2 ^ k in
    let twice : m ≡ hi * p * 2 = omega (arith, ap (λ t. hi * t) (pow-suc 2 k)) in
    omega (
      arith,
      bit_or_step lo m,
      bit_or_at k (lo / 2) hi (m / 2) (omega arith) (omega (arith, pow-suc 2 k)),
    )

bit_or_comm_fuel : (n a b : ℕ) → a ≤ n → b ≤ n → bit_or a b ≡ bit_or b a
bit_or_comm_fuel zero zero zero p q = refl
bit_or_comm_fuel zero zero (suc b) p q = absurd (omega arith)
bit_or_comm_fuel zero (suc a) b p q = absurd (omega arith)
bit_or_comm_fuel (suc n) a b p q = omega (
  arith,
  bit_or_step a b,
  bit_or_step b a,
  bit_or_comm_fuel n (a / 2) (b / 2) (omega arith) (omega arith),
)

pub bit_or_comm : (a b : ℕ) → bit_or a b ≡ bit_or b a
bit_or_comm a b = bit_or_comm_fuel (a + b) a b (omega arith) (omega arith)

pub bit_or_at_left : (k lo hi m : ℕ) → m ≡ hi * 2 ^ k → lo < 2 ^ k → bit_or m lo ≡ m + lo
bit_or_at_left k lo hi m e h = omega (arith, bit_or_comm m lo, bit_or_at k lo hi m e h)

-- A shift by one more.
pub halved : (x k : ℕ) → x / 2 ^ suc k ≡ x / 2 / 2 ^ k
halved x k = ap (λ p. x / p) (pow-suc 2 k ∙ omega arith) ∙ sym (div-div-eq-div-mul x 2 (2 ^ k))

pub halved_after : (x k : ℕ) → x / 2 ^ suc k ≡ x / 2 ^ k / 2
halved_after x k = ap (λ p. x / p) (pow-suc 2 k) ∙ sym (div-div-eq-div-mul x (2 ^ k) 2)

bit_and_bit : (k x : ℕ) → bit_and x (2 ^ k) ≡ x / 2 ^ k % 2 * 2 ^ k
bit_and_bit zero x = omega (arith, bit_and_mask 1 x)
bit_and_bit (suc k) x =
    let half : 2 ^ suc k / 2 ≡ 2 ^ k = omega (arith, pow-suc 2 k) in
    let step : bit_and x (2 ^ suc k) ≡ 2 * bit_and (x / 2) (2 ^ k) =
      omega (arith, bit_and_step x (2 ^ suc k), pow-suc 2 k, ap (bit_and (x / 2)) half) in
    rw (step, bit_and_bit k (x / 2), halved x k, pow-suc 2 k) (omega arith)

-- A bit is there.
pub is_bit : (k x : ℕ) → not (bit_and x (2 ^ k) == 0) ≡ (x / 2 ^ k % 2 == 1)
is_bit k x = elim (ℕ-cases (x / 2 ^ k % 2) 0) [
  | inl e ↦ rw (bit_and_bit k x, e) (ground arith)
  | inr e ↦
      let one : x / 2 ^ k % 2 ≡ 1 = omega arith in
      let some_bit : 1 * 2 ^ k ≢ 0 = omega (arith, pow_pos k) in
      rw (bit_and_bit k x, one) (ground arith)
]

-- A bit of `x & y`.
bit_of_and : (k x y : ℕ) → bit_and x y / 2 ^ k % 2 ≡ min (x / 2 ^ k % 2) (y / 2 ^ k % 2)
bit_of_and zero x y = omega (arith, bit_and_step x y)
bit_of_and (suc k) x y =
    let half : bit_and x y / 2 ≡ bit_and (x / 2) (y / 2) = omega (arith, bit_and_step x y) in
    rw (halved (bit_and x y) k, halved x k, halved y k, half) (bit_of_and k (x / 2) (y / 2))

pub is_bit_both :
    (k x y : ℕ)
    → not (bit_and (bit_and x y) (2 ^ k) == 0) ≡ ((x / 2 ^ k % 2 == 1) && (y / 2 ^ k % 2 == 1))
is_bit_both k x y = is_bit k (bit_and x y) ∙ ap (λ b. b == 1) (bit_of_and k x y) ∙ ground arith
