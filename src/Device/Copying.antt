-- ===== src/Device/Copying.antt =====
-- core/device/device_registry.c: what `bt_device_set_name` leaves in the name of an entry.
use aros_bluzing.Prelude.{
  ℕ, zero, suc, ◌+◌, ◌≤◌, ◌<◌, ◌≡◌, ◌≢◌, refl, sym, ap, ◌∙◌, List, [], ◌∷◌, length, set, length-set,
  get_or-set_self, get_or-set_ne, ltb, leb, ◌==◌, not, ◌&&◌, true, Bool-cases, some, ◌⊎◌, inl, inr,
  arith, ==_iff, leb→le,
}
use aros_bluzing.Endian.{at}
use aros_bluzing.Device.Names.{Device, name_len, printable, copy_name, trim, set_name}

-- The copy from the byte `i` on: it ends inside the array, keeps what is before `i`, and from there
-- holds the printable form of the source.
record Copied (cs : List ℕ) (i len : ℕ) (name : List ℕ) (end : ℕ) (name' : List ℕ) : Type 0 where
  from : i ≤ end
  within : end < name_len
  sized : length name' ≡ name_len
  kept : (j : ℕ) → j < i → at name' j ≡ at name j
  copied :
      (j : ℕ)
      → i + j < end
      → (at name' (i + j) ≡ printable (at cs j)) × (i + j < len) × (at cs j ≢ 0)

Copied-cons :
    (c : ℕ) (cs : List ℕ) (i len : ℕ) (name : List ℕ) (end : ℕ) (name' : List ℕ)
    → i < len
    → c ≢ 0
    → length name ≡ name_len
    → i < name_len
    → Copied cs (suc i) len (set name i (printable c)) end name'
    → (j : ℕ) → i + j < end
    → (at name' (i + j) ≡ printable (at (c ∷ cs) j)) × (i + j < len) × (at (c ∷ cs) j ≢ 0)
Copied-cons c cs i len name end name' hl hc s h rec zero l = (
  ap (at name') {y = i} (omega arith)
      ∙ rec.kept i (omega arith)
      ∙ get_or-set_self name i (printable c) 0 (omega arith),
  omega arith,
  hc,
)
Copied-cons c cs i len name end name' hl hc s h rec (suc j) l =
    let (a, b, d) = rec.copied j (omega arith) in
    (ap (at name') {y = suc i + j} (omega arith) ∙ a, omega arith, d)

copy_name-Copied :
    (cs : List ℕ) (i len : ℕ) (name : List ℕ)
    → length name ≡ name_len
    → i < name_len
    → Copied cs i len name (copy_name cs i len name).0 (copy_name cs i len name).1
unfolding copy_name
copy_name-Copied [] i len name s h = record {
  from = omega arith;
  within = h;
  sized = s;
  kept = λ j l. refl;
  copied = λ j l. absurd (omega arith);
}
copy_name-Copied (c ∷ cs) i len name s h =
    elim (Bool-cases ((ltb i len && ltb (i + 1) name_len) && not (c == 0))) [
      | inl e ↦
          let small : suc i < name_len = ground arith in
          let rec =
            copy_name-Copied cs (suc i) len (set name i (printable c))
              (length-set name i (printable c) ∙ s) small in
          rw e (record {
            from = omega (arith, rec.from);
            within = rec.within;
            sized = rec.sized;
            kept = λ j l.
                rec.kept j (omega arith)
                ∙ get_or-set_ne name i j (printable c) 0 (λ same. absurd (omega arith));
            copied =
                λ j l. Copied-cons c cs i len name _ _ (ground arith) (ground arith) s h rec j l;
          })
      | inr e ↦ rw e (record {
        from = omega arith;
        within = h;
        sized = s;
        kept = λ j l. refl;
        copied = λ j l. absurd (omega arith);
      })
    ]

-- Trailing spaces are left out.
trim_lem :
    (name : List ℕ) (i : ℕ) → (trim name i ≤ i) × ((k : ℕ) → suc k ≡ trim name i → at name k ≢ 0x20)
unfolding trim
trim_lem name zero = (omega arith, λ k e. absurd (omega arith))
trim_lem name (suc i) = elim (Bool-cases (at name i == 0x20)) [
  | inl e ↦ let (a, b) = trim_lem name i in rw e (omega arith, b)
  | inr e ↦ rw e (
    omega arith,
    λ k l same.
        let there : at name i ≡ 0x20 = ap (at name) (omega arith) ∙ same in
        let yes_space : (at name i == 0x20) ≡ true = (==_iff (at name i) 0x20).1 there in cc,
  )
]

-- The name of an entry: printable bytes up to a NUL inside the array, the last of them no space,
-- and each of them the printable form of the byte of `src` at its place.
pub record IsName (src : List ℕ) (len : ℕ) (name : List ℕ) (end : ℕ) : Type 0 where
  pub sized : length name ≡ name_len
  pub within : end < name_len
  pub terminated : at name end ≡ 0
  pub shown : (j : ℕ) → j < end → (at name j ≡ printable (at src j)) × (j < len) × (at src j ≢ 0)
  pub range : (j : ℕ) → j < end → (0x20 ≤ at name j) × (at name j ≤ 0x7e)
  pub trimmed : (j : ℕ) → suc j ≡ end → at name j ≢ 0x20

printable_range : (c : ℕ) → (0x20 ≤ printable c) × (printable c ≤ 0x7e)
printable_range c = ground arith

stored-IsName :
    (src : List ℕ) (end len : ℕ) (name0 name : List ℕ)
    → Copied src 0 len name0 end name
    → IsName src len (set name (trim name end) 0) (trim name end)
stored-IsName src end len name0 name c =
    let (shorter, last) = trim_lem name end in
    let other : (j : ℕ) → j < trim name end → at (set name (trim name end) 0) j ≡ at name j =
      λ j l. get_or-set_ne name (trim name end) j 0 0 (λ e. absurd (omega arith)) in
    let shown : (j : ℕ)
        → j < trim name end
        → (at (set name (trim name end) 0) j ≡ printable (at src j)) × (j < len) × (at src j ≢ 0) =
      λ j l.
        let (a, b, d) = c.copied j (omega arith) in
        (other j l ∙ ap (at name) {y = 0 + j} (omega arith) ∙ a, omega arith, d) in
    record {
      sized = length-set name (trim name end) 0 ∙ c.sized;
      within = omega (arith, c.within);
      terminated = get_or-set_self name (trim name end) 0 0 (omega (arith, c.within, c.sized));
      shown = shown;
      range = λ j l.
          let (a, b) = printable_range (at src j) in
          let (e, _, _) = shown j l in (omega arith, omega arith);
      trimmed = λ j e same. last j e (sym (other j (omega arith)) ∙ same);
    }

-- A name is taken only if it is worth more than the one that is there, and never replaces it
-- otherwise. A name that is taken is NUL-terminated inside the field, holds printable bytes only,
-- each in the place of the byte of the source that it shows, goes no further than the length given
-- or the source's NUL, and does not end in a space; nothing else of the entry changes but the worth.
pub set_name-IsName :
    (src : List ℕ) (len state : ℕ) (dev : Device)
    → length dev.name ≡ name_len
    → (((state ≡ 0) ⊎ (state ≤ dev.name_state)) × (set_name (some src) len state dev ≡ dev))
      ⊎ ((dev.name_state < state)
          × ((end : ℕ) × (name : List ℕ) × IsName src len name end
              × (set_name (some src) len state dev
                  ≡ record dev { name = name; name_state = state })))
unfolding set_name
set_name-IsName src len state dev s = elim (Bool-cases (state == 0)) [
  | inl e ↦ rw e (inl (inl ((==_iff state 0).0 e), refl))
  | inr e ↦ elim (Bool-cases (leb state dev.name_state)) [
    | inl f ↦ rw (e, f) (inl (inr (leb→le _ _ f), refl))
    | inr f ↦
        let c = copy_name-Copied src 0 len dev.name s (omega arith) in
        rw (e, f)
          (inr (
            ground arith,
            (
              trim (copy_name src 0 len dev.name).1 (copy_name src 0 len dev.name).0,
              _,
              stored-IsName src _ len _ _ c,
              refl,
            ),
          ))
  ]
]
