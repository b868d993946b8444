-- ===== src/Device/Sightings.antt =====
-- core/device/device_registry.c: the registry as a table of devices.
use aros_bluzing.Prelude.{
  ℕ, suc, ◌≤◌, ◌<◌, ◌≡◌, ◌≢◌, refl, sym, ap, ◌∙◌, List, length, set, length-set, get_or-set_self,
  get_or-set_ne, leb, Bool-cases, ℕ-cases, leb→le, Option-cases, Option, none, some, ◌⊎◌, inl, inr,
  arith,
}
use mathlib.Core.Path.{subst}
use aros_bluzing.Device.Names.{Device, set_name, label_from_cod, cod_is_hid}
use aros_bluzing.Device.{
  Registry, zeroed, registry_max, registry_find, find_from, find_or_create, update, note_classic,
  note_le, classic_sighting, le_sighting, set_label,
}
use aros_bluzing.Device.Search.{entry, IsValid, Finding, find-Finding}

-- What a sighting of `addr` does to the table when its entry is changed by `change`: the entry of
-- the address is changed, or a new one is made for it, or there is no room for one; every other
-- entry stays.
abbrev pub Noted : (Device → Device) → List ℕ → Registry → Option ℕ × Registry → Type 0
Noted change addr reg p =
    ((i : ℕ) × (p.0 ≡ some i)
      × (i < reg.count)
      × (registry_find reg addr ≡ some (entry reg i))
      × (registry_find p.1 addr ≡ some (change (entry reg i)))
      × (p.1.count ≡ reg.count)
      × ((j : ℕ) → j ≢ i → entry p.1 j ≡ entry reg j))
    ⊎ ((p.0 ≡ some reg.count)
        × (registry_find reg addr ≡ none)
        × (registry_find p.1 addr ≡ some (change (record zeroed { addr = addr })))
        × (p.1.count ≡ suc reg.count)
        × ((j : ℕ) → j ≢ reg.count → entry p.1 j ≡ entry reg j))
    ⊎ ((p.0 ≡ none) × (registry_find reg addr ≡ none) × (p.1 ≡ reg) × (reg.count ≡ registry_max))

-- In a valid table, the search finds the one entry with the address.
find_unique :
    (reg : Registry) (addr : List ℕ) (i : ℕ)
    → IsValid reg
    → i < reg.count
    → (entry reg i).addr ≡ addr
    → registry_find reg addr ≡ some (entry reg i)
unfolding registry_find
find_unique reg addr i v h e = elim (Option-cases (find_from reg.devices addr reg.count 0)) [
  | inl none_found ↦ absurd (
      subst (Finding reg.devices addr reg.count 0) none_found (find-Finding reg addr) i
        (omega arith) (omega arith) e)
  | inr (k, found) ↦
      let (a, b, c) = subst (Finding reg.devices addr reg.count 0) found (find-Finding reg addr) in
      let same : k ≡ i = v.distinct k i (omega arith) h (c ∙ sym e) in rw (found, same) refl
]

-- The array with one entry replaced, and maybe one entry longer.
put : Registry → ℕ → ℕ → Device → Registry
put reg count i dev = record { count = count; devices = set reg.devices i dev }

put-entry :
    (reg : Registry) (count i : ℕ) (dev : Device)
    → IsValid reg
    → i < registry_max
    → (entry (put reg count i dev) i ≡ dev)
      × ((j : ℕ) → j ≢ i → entry (put reg count i dev) j ≡ entry reg j)
unfolding put
put-entry reg count i dev v h = (
  get_or-set_self reg.devices i dev zeroed (omega (arith, v.sized)),
  λ j ne. get_or-set_ne reg.devices i j dev zeroed (λ e. ne (sym e)),
)

put-IsValid :
    (reg : Registry) (count i : ℕ) (dev : Device)
    → IsValid reg
    → count ≤ registry_max
    → i < count
    → reg.count ≤ count
    → count ≤ suc reg.count
    → ((j : ℕ) → j < count → j ≢ i → j < reg.count)
    → ((j : ℕ) → j < reg.count → j ≢ i → (entry reg j).addr ≢ dev.addr)
    → IsValid (put reg count i dev)
unfolding put
put-IsValid reg count i dev v a b c d others fresh =
    let (here, there) = put-entry reg count i dev v (omega arith) in
    record {
      sized = length-set reg.devices i dev ∙ v.sized;
      counted = a;
      distinct = λ j k hj hk e. elim (ℕ-cases j i) [
        | inl x ↦ elim (ℕ-cases k i) [
          | inl y ↦ x ∙ sym y
          | inr y ↦ absurd (
              fresh k (others k hk y) y (
                ap (λ z. z.addr) (sym (there k y))
                ∙ sym e
                ∙ ap (λ z. (entry (put reg count i dev) z).addr) x
                ∙ ap (λ z. z.addr) here))
        ]
        | inr x ↦ elim (ℕ-cases k i) [
          | inl y ↦ absurd (
              fresh j (others j hj x) x (
                ap (λ z. z.addr) (sym (there j x))
                ∙ e
                ∙ ap (λ z. (entry (put reg count i dev) z).addr) y
                ∙ ap (λ z. z.addr) here))
          | inr y ↦
              v.distinct j k (others j hj x) (others k hk y)
                (ap (λ z. z.addr) (sym (there j x)) ∙ e ∙ ap (λ z. z.addr) (there k y))
        ]
      ];
    }

module _ (change : Device → Device) (addr : List ℕ) (reg : Registry) (v : IsValid reg)
    (keeps : (dev : Device) → (change dev).addr ≡ dev.addr) where
  -- The entry `i` has the address already.
  changed-Noted :
      (i : ℕ)
      → i < reg.count
      → (entry reg i).addr ≡ addr
      → IsValid (update change (some i, reg)).1
        × Noted change addr reg (update change (some i, reg))
  unfolding put
  changed-Noted i h e =
      let dev = change (entry reg i) in
      let (here, there) = put-entry reg reg.count i dev v (omega (arith, v.counted)) in
      let valid =
        put-IsValid reg reg.count i dev v (v.counted) h (omega arith) (omega arith) (λ j a b. a)
          (λ j a b same. b (v.distinct j i a h (same ∙ keeps (entry reg i)))) in
      (
        valid,
        inl (
          i,
          refl,
          h,
          find_unique reg addr i v h e,
          find_unique (put reg reg.count i dev) addr i valid h
                (ap (λ z. z.addr) here ∙ keeps (entry reg i) ∙ e)
              ∙ ap some here,
          refl,
          there,
        ),
      )

  module _ (none_found : find_from reg.devices addr reg.count 0 ≡ none) where
    absent : registry_find reg addr ≡ none
    unfolding registry_find
    absent = rw none_found refl

    unlike : (j : ℕ) → j < reg.count → (entry reg j).addr ≢ addr
    unlike j h =
        subst (Finding reg.devices addr reg.count 0) none_found (find-Finding reg addr) j
          (omega arith) (omega arith)

    full-Noted :
        registry_max ≤ reg.count
        → IsValid (update change (none, reg)).1 × Noted change addr reg (update change (none, reg))
    full-Noted h = (v, inr (inr (refl, absent, refl, omega (arith, v.counted))))

    -- A new entry is made and changed.
    created-Noted :
        reg.count < registry_max
        → let made = put reg (suc reg.count) reg.count (record zeroed { addr = addr }) in
          IsValid (update change (some reg.count, made)).1
          × Noted change addr reg (update change (some reg.count, made))
    unfolding put
    created-Noted h =
        let blank = record zeroed { addr = addr } in
        let made = put reg (suc reg.count) reg.count blank in
        let (here, there) = put-entry reg (suc reg.count) reg.count blank v h in
        let valid =
          put-IsValid reg (suc reg.count) reg.count blank v h (omega arith) (omega arith)
            (omega arith) (λ j a b. omega arith) (λ j a b. unlike j a) in
        let dev = change (entry made reg.count) in
        let (here2, there2) = put-entry made (suc reg.count) reg.count dev valid h in
        let valid2 =
          put-IsValid made (suc reg.count) reg.count dev valid h (omega arith) (omega arith)
            (omega arith) (λ j a b. a)
            (λ j a b same.
              b (
                valid.distinct j reg.count a (omega arith)
                  (same ∙ keeps (entry made reg.count)))) in
        (
          valid2,
          inr (
              inl (
                refl,
                absent,
                find_unique (put made (suc reg.count) reg.count dev) addr reg.count valid2
                      (omega arith)
                      (ap (λ z. z.addr) here2
                        ∙ keeps (entry made reg.count)
                        ∙ ap (λ z. z.addr) here)
                    ∙ ap some (here2 ∙ ap change here),
                refl,
                λ j ne. there2 j ne ∙ there j ne,
              )),
        )

  found_or_created :
      IsValid (update change (find_or_create reg addr)).1
      × Noted change addr reg (update change (find_or_create reg addr))
  unfolding find_or_create put
  found_or_created = elim (Option-cases (find_from reg.devices addr reg.count 0)) [
    | inl e ↦ elim (Bool-cases (leb registry_max reg.count)) [
      | inl f ↦ rw (e, f) (full-Noted e (leb→le _ _ f))
      | inr f ↦ rw (e, f) (created-Noted e (ground arith))
    ]
    | inr (k, e) ↦
        let (a, b, c) = subst (Finding reg.devices addr reg.count 0) e (find-Finding reg addr) in
        rw e (changed-Noted k (omega arith) c)
  ]

set_name_addr :
    (name : Option (List ℕ)) (length state : ℕ) (dev : Device)
    → (set_name name length state dev).addr ≡ dev.addr
unfolding set_name
set_name_addr none length state dev = refl
set_name_addr (some name) length state dev = ground arith

set_label_addr : (label : Option (List ℕ)) (dev : Device) → (set_label label dev).addr ≡ dev.addr
set_label_addr none dev = refl
set_label_addr (some label) dev = set_name_addr (some label) 25 1 dev

classic_addr : (cod : ℕ) (dev : Device) → (classic_sighting cod dev).addr ≡ dev.addr
classic_addr cod dev = elim (Bool-cases (cod_is_hid cod)) [
  | inl e ↦ rw e (set_label_addr (label_from_cod cod) _)
  | inr e ↦ rw e (set_label_addr (label_from_cod cod) _)
]

-- A sighting of either kind keeps the table valid, and it is recorded under its address: an entry
-- that is there is changed as the sighting says, else a new one is made and changed, else the table
-- is full, nothing changes and no entry is returned; the other entries stay as they are.
pub sightings-Noted :
    (addr : List ℕ) (class_of_device le_address_type rssi : ℕ) (reg : Registry)
    → IsValid reg
    → IsValid (note_classic addr class_of_device reg).1
      × Noted (classic_sighting class_of_device) addr reg (note_classic addr class_of_device reg)
      × IsValid (note_le addr le_address_type rssi reg).1
      × Noted (le_sighting le_address_type rssi) addr reg (note_le addr le_address_type rssi reg)
unfolding note_classic note_le
sightings-Noted addr cod le_address_type rssi reg v =
    let (a, b) = found_or_created (classic_sighting cod) addr reg v (classic_addr cod) in
    let (c, d) = found_or_created (le_sighting le_address_type rssi) addr reg v (λ dev. refl) in
    (a, b, c, d)
