-- ===== src/Timer/Order.antt =====
-- Linking and unlinking in a sorted chain of distinct timers.
use aros_bluzing.Prelude.{
  ℕ, ◌≤◌, ◌≡◌, refl, List, [], ◌∷◌, leb, ◌==◌, if◌then◌else◌, Bool, false, ◌||◌, Bool-cases, inl,
  inr, All, All-weaken, ◌∙◌, arith,
}
use aros_bluzing.Timer.{unlink, link}

unfoldable pub member : ℕ → List ℕ → Bool
member t [] = false
member t (x ∷ xs) = x == t || member t xs

abbrev pub Distinct : List ℕ → Type 0
Distinct [] = Unit
Distinct (x ∷ xs) = (member x xs ≡ false) × Distinct xs

-- Every timer expires no later than those behind it.
abbrev pub Sorted : (ℕ → ℕ) → List ℕ → Type 0
Sorted expiry [] = Unit
Sorted expiry (x ∷ xs) = All (λ y. expiry x ≤ expiry y) xs × Sorted expiry xs

module _ (t : ℕ) where
  pub member-unlink :
      (u : ℕ) (xs : List ℕ)
      → Distinct xs
      → member u (unlink t xs) ≡ (if u == t then false else member u xs)
  unfolding member unlink
  member-unlink u [] d = ground arith
  member-unlink u (x ∷ xs) d = ground (arith, d.0, member-unlink u xs d.1)

  pub unlink-Distinct : (xs : List ℕ) → Distinct xs → Distinct (unlink t xs)
  unfolding unlink
  unlink-Distinct [] d = tt
  unlink-Distinct (x ∷ xs) d = elim (Bool-cases (x == t)) [
    | inl e ↦ rw e d.1
    | inr e ↦ rw e (member-unlink x xs d.1 ∙ rw (e, d.0), unlink-Distinct xs d.1)
  ]

  pub unlink-All : (P : ℕ → Type 0) (xs : List ℕ) → All P xs → All P (unlink t xs)
  unfolding unlink
  unlink-All P [] h = tt
  unlink-All P (x ∷ xs) h = elim (Bool-cases (x == t)) [
    | inl e ↦ rw e h.1
    | inr e ↦ rw e (h.0, unlink-All P xs h.1)
  ]

  pub unlink-Sorted :
      (expiry : ℕ → ℕ) (xs : List ℕ) → Sorted expiry xs → Sorted expiry (unlink t xs)
  unfolding unlink
  unlink-Sorted expiry [] h = tt
  unlink-Sorted expiry (x ∷ xs) h = elim (Bool-cases (x == t)) [
    | inl e ↦ rw e h.1
    | inr e ↦ rw e (unlink-All (λ y. expiry x ≤ expiry y) xs h.0, unlink-Sorted expiry xs h.1)
  ]

module _ (expiry : ℕ → ℕ) (t e : ℕ) where
  pub member-link : (u : ℕ) (xs : List ℕ) → member u (link expiry t e xs) ≡ (t == u || member u xs)
  unfolding member link
  member-link u [] = refl
  member-link u (x ∷ xs) = ground (arith, member-link u xs)

  pub link-Distinct :
      (xs : List ℕ) → member t xs ≡ false → Distinct xs → Distinct (link expiry t e xs)
  unfolding link member
  link-Distinct [] m d = (refl, tt)
  link-Distinct (x ∷ xs) m d = elim (Bool-cases (leb (expiry x) e)) [
    | inl b ↦ rw b (ground (arith, member-link x xs), link-Distinct xs (ground arith) d.1)
    | inr b ↦ rw b (m, d)
  ]

  pub link-All : (P : ℕ → Type 0) (xs : List ℕ) → P t → All P xs → All P (link expiry t e xs)
  unfolding link
  link-All P [] p h = (p, tt)
  link-All P (x ∷ xs) p h = elim (Bool-cases (leb (expiry x) e)) [
    | inl b ↦ rw b (h.0, link-All P xs p h.1)
    | inr b ↦ rw b (p, h)
  ]

  pub link-Sorted :
      (xs : List ℕ) → expiry t ≡ e → Sorted expiry xs → Sorted expiry (link expiry t e xs)
  unfolding link
  link-Sorted [] p h = (tt, tt)
  link-Sorted (x ∷ xs) p h = elim (Bool-cases (leb (expiry x) e)) [
    | inl b ↦ rw b (link-All (λ y. expiry x ≤ expiry y) xs (ground arith) h.0, link-Sorted xs p h.1)
    | inr b ↦
        let first : expiry t ≤ expiry x = ground arith in
        let later =
          All-weaken (λ y. expiry x ≤ expiry y) (λ y. expiry t ≤ expiry y) xs (λ y q. omega arith)
            h.0 in
        rw b ((first, later), h)
  ]
