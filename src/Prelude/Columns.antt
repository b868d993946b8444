-- ===== src/Prelude/Columns.antt =====
-- Records laid out as one run of bytes, each of the same width.
use Prim.Native.Nat.{ℕ, zero, suc, ◌+◌, ◌*◌, ◌<◌}
use mathlib.Core.Path.{◌≡◌, ap, ◌∙◌}
use mathlib.Core.List.{List, [], ◌∷◌, ◌++◌, append_assoc}
use mathlib.Core.Option.{some}
use native.Mathlib.Omega.{arith}
use aros_bluzing.Prelude.Lists.{
  length, length-append, drop, get_or, get_elem?, drop-append_more, get_or-append_left,
  get_or-append_right,
}

module _ {A : Type 0} (f : A → List ℕ) where
  abbrev pub column : List A → List ℕ
  column [] = []
  column (x ∷ xs) = f x ++ column xs

  module _ (w : ℕ) (wide : (x : A) → length (f x) ≡ w) where
    pub drop-column : (xs : List A) (t : List ℕ) → drop (length xs * w) (column xs ++ t) ≡ t
    drop-column [] t = ap (λ k. drop k t) {y = 0} (omega arith)
    drop-column (x ∷ xs) t =
        ap (λ k. drop k (column (x ∷ xs) ++ t)) {y = length (f x) + length xs * w}
          (omega (arith, wide x))
        ∙ ap (drop (length (f x) + length xs * w)) (append_assoc (f x) (column xs) t)
        ∙ drop-append_more (length xs * w) (f x) (column xs ++ t)
        ∙ drop-column xs t

    pub length-column : (xs : List A) → length (column xs) ≡ length xs * w
    length-column [] = omega arith
    length-column (x ∷ xs) =
        omega (arith, length-append (f x) (column xs), wide x, length-column xs)

    pub column_at :
        (xs : List A) (t : List ℕ) (i k : ℕ) {x : A}
        → get_elem? xs i ≡ some x
        → k < w
        → get_or (column xs ++ t) (i * w + k) 0 ≡ get_or (f x) k 0
    column_at [] t i k e h = absurd (cc)
    column_at (y ∷ xs) t zero k e h =
        ap (λ l. get_or l (0 * w + k) 0) (append_assoc (f y) (column xs) t)
        ∙ ap (λ n. get_or (f y ++ (column xs ++ t)) n 0) (omega arith)
        ∙ get_or-append_left (f y) (column xs ++ t) k 0 (omega (arith, wide y))
        ∙ ap (λ z. get_or (f z) k 0) (cc)
    column_at (y ∷ xs) t (suc i) k e h =
        ap (λ l. get_or l (suc i * w + k) 0) (append_assoc (f y) (column xs) t)
        ∙ ap (λ n. get_or (f y ++ (column xs ++ t)) n 0) {y = length (f y) + (i * w + k)}
            (omega (arith, wide y))
        ∙ get_or-append_right (f y) (column xs ++ t) (i * w + k) 0
        ∙ column_at xs t i k e h

    -- The same, at an index that is given as a sum of its own.
    pub column_cell :
        (xs : List A) (t : List ℕ) (n i k : ℕ) {x : A}
        → n ≡ i * w + k
        → get_elem? xs i ≡ some x
        → k < w
        → get_or (column xs ++ t) n 0 ≡ get_or (f x) k 0
    column_cell xs t n i k p e h = rw p (column_at xs t i k e h)
