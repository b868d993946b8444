-- ===== src/Tests/Devices.antt =====
-- core/device at concrete sightings, names and payloads.
use aros_bluzing.Prelude.{
  ℕ, ◌<◌, ◌≤◌, ◌≡◌, refl, List, [], ◌∷◌, ◌++◌, replicate, length-replicate, ap, arith, some, inl,
  ◌⊎◌, suc,
}
use aros_bluzing.Device.Names.{set_name, name_len}
use aros_bluzing.Device.{Registry, zeroed, note_classic, note_le, classic_sighting, le_sighting}
use aros_bluzing.Device.Advertised.{adv_parse, no_info}
use aros_bluzing.Device.Search.{IsValid}
use aros_bluzing.Device.Sightings.{Noted, sightings-Noted}
use aros_bluzing.Device.Copying.{IsName, set_name-IsName}
use aros_bluzing.Device.Fields.{AdField, fields_bytes, effects, adv_parse_fields}

abbrev address : List ℕ
address = 1 ∷ 2 ∷ 3 ∷ 4 ∷ 5 ∷ 6 ∷ []

abbrev one_device : Registry
one_device = record { count = 1; devices = record zeroed { addr = address } ∷ replicate 31 zeroed }

one_device-IsValid : IsValid one_device
one_device-IsValid = record {
  sized = ap suc (length-replicate 31 zeroed);
  counted = omega arith;
  distinct = λ i j a b e. omega arith;
}

-- A keyboard and mouse, seen again.
sightings-Noted_example :
    IsValid (note_classic address 0x25c0 one_device).1
    × Noted (classic_sighting 0x25c0) address one_device (note_classic address 0x25c0 one_device)
    × IsValid (note_le address 1 0xc8 one_device).1
    × Noted (le_sighting 1 0xc8) address one_device (note_le address 1 0xc8 one_device)
sightings-Noted_example = sightings-Noted address 0x25c0 1 0xc8 one_device one_device-IsValid

-- The name "Hi " with a byte that is not printable.
abbrev padded : List ℕ
padded = 72 ∷ 105 ∷ 7 ∷ 32 ∷ 0 ∷ 0 ∷ []

set_name-IsName_example :
    (((◌≡◌ {A = ℕ} 2 0) ⊎ (2 ≤ 0)) × (set_name (some padded) 6 2 zeroed ≡ zeroed))
    ⊎ ((0 < 2)
        × ((end : ℕ) × (name : List ℕ) × IsName padded 6 name end
            × (set_name (some padded) 6 2 zeroed ≡ record zeroed { name = name; name_state = 2 })))
set_name-IsName_example = set_name-IsName padded 6 2 zeroed (length-replicate {A = ℕ} name_len 0)

-- Flags, a UUID list with HID, and a name, before padding.
abbrev keyboard_fields : List AdField
keyboard_fields =
    record { type = 1; payload = 6 ∷ [] }
    ∷ record { type = 3; payload = 0x0f ∷ 0x18 ∷ 0x12 ∷ 0x18 ∷ [] }
    ∷ record { type = 9; payload = 75 ∷ 98 ∷ [] }
    ∷ []

adv_parse_fields_example :
    adv_parse (some (fields_bytes keyboard_fields ++ (0 ∷ 0 ∷ []))) 15
    ≡ effects keyboard_fields no_info
adv_parse_fields_example =
    adv_parse_fields keyboard_fields (0 ∷ 0 ∷ []) (omega arith) (omega arith) (inl refl)
      (omega arith)
