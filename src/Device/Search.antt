-- ===== src/Device/Search.antt =====
-- core/device/device_registry.c: the search for an address in a valid table.
use aros_bluzing.Prelude.{
  ℕ, zero, suc, ◌+◌, ◌≤◌, ◌<◌, ◌≡◌, ◌≢◌, refl, sym, ◌∙◌, List, [], ◌∷◌, length, get_or, ◌==◌, true,
  false, Bool-cases, Option, none, some, inl, inr, arith, ==_iff,
}
use mathlib.Core.Path.{subst}
use aros_bluzing.Device.Names.{Device}
use aros_bluzing.Device.{Registry, zeroed, addr_equal, registry_max, find_from}

abbrev pub entry : Registry → ℕ → Device
entry reg i = get_or reg.devices i zeroed

-- The table has its entries in the array, and no address twice.
pub record IsValid (reg : Registry) : Type 0 where
  pub sized : length reg.devices ≡ registry_max
  pub counted : reg.count ≤ registry_max
  pub distinct :
      (i j : ℕ) → i < reg.count → j < reg.count → (entry reg i).addr ≡ (entry reg j).addr → i ≡ j

addr_equal_sound : (a b : List ℕ) → addr_equal a b ≡ true → a ≡ b
addr_equal_sound [] [] h = refl
addr_equal_sound [] (y ∷ b) h = absurd (cc)
addr_equal_sound (x ∷ a) [] h = absurd (cc)
addr_equal_sound (x ∷ a) (y ∷ b) h = elim (Bool-cases (x == y)) [
  | inl e ↦
      let same : x ≡ y = (==_iff x y).0 e in
      let rest : addr_equal a b ≡ true = sym (rw e refl) ∙ h in
      let tails = addr_equal_sound a b rest in cc
  | inr e ↦ let bad : false ≡ true = sym (rw e refl) ∙ h in absurd (cc)
]

addr_equal_refl : (a : List ℕ) → addr_equal a a ≡ true
addr_equal_refl [] = refl
addr_equal_refl (x ∷ a) = let same : (x == x) ≡ true = ground arith in rw same (addr_equal_refl a)

addr_equal_ne : (a b : List ℕ) → addr_equal a b ≡ false → a ≢ b
addr_equal_ne a b h e =
    let both : addr_equal b b ≡ false = subst (λ x. addr_equal x b ≡ false) e h in
    let bad : true ≡ false = sym (addr_equal_refl b) ∙ both in cc

-- What the search has found: the address at no entry, or the entry that has it.
abbrev pub Finding : List Device → List ℕ → ℕ → ℕ → Option ℕ → Type 0
Finding devices addr n i none = (j : ℕ) → i ≤ j → j < i + n → (get_or devices j zeroed).addr ≢ addr
Finding devices addr n i (some k) = (i ≤ k) × (k < i + n) × ((get_or devices k zeroed).addr ≡ addr)

Finding-suc :
    (devices : List Device) (addr : List ℕ) (n i : ℕ) (o : Option ℕ)
    → (get_or devices i zeroed).addr ≢ addr
    → Finding devices addr n (suc i) o
    → Finding devices addr (suc n) i o
Finding-suc devices addr n i none h f = λ j a b. elim (Bool-cases (i == j)) [
  | inl e ↦ subst (λ k. (get_or devices k zeroed).addr ≢ addr) ((==_iff i j).0 e) h
  | inr e ↦ f j (ground arith) (omega arith)
]
Finding-suc devices addr n i (some k) h (a, b, c) = (omega arith, omega arith, c)

find_from-Finding :
    (devices : List Device) (addr : List ℕ) (n i : ℕ)
    → Finding devices addr n i (find_from devices addr n i)
unfolding find_from
find_from-Finding devices addr zero i = λ j a b. absurd (omega arith)
find_from-Finding devices addr (suc n) i =
    elim (Bool-cases (addr_equal (get_or devices i zeroed).addr addr)) [
      | inl e ↦ rw e (omega arith, omega arith, addr_equal_sound _ _ e)
      | inr e ↦ rw e (
          Finding-suc devices addr n i _ (addr_equal_ne _ _ e)
            (find_from-Finding devices addr n (suc i)))
    ]

pub find-Finding :
    (reg : Registry) (addr : List ℕ)
    → Finding reg.devices addr reg.count 0 (find_from reg.devices addr reg.count 0)
find-Finding reg addr = find_from-Finding reg.devices addr reg.count 0
