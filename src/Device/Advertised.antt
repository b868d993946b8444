-- ===== src/Device/Advertised.antt =====
-- core/device/device_registry.c: what an advertising payload says about a device.
use aros_bluzing.Prelude.{
  ℕ, zero, suc, ◌%◌, ◌^◌, List, drop, take, ltb, leb, ◌==◌, not, ◌&&◌, ◌||◌, if◌then◌else◌, Bool,
  true, false, Option, none, some, bit_or,
}
use aros_bluzing.Endian.{at, shl, shr}
use aros_bluzing.Buffer.{add_size, sub_size}

-- `name` is the `name_len` bytes that the pointer points to.
pub record AdvInfo : Type 0 where
  pub hid : Bool
  pub appearance : ℕ
  pub name : Option (List ℕ)
  pub name_len : ℕ
  pub name_complete : Bool

abbrev pub no_info : AdvInfo
no_info = record { hid = false; appearance = 0; name = none; name_len = 0; name_complete = false }

-- `(uint16_t)p[0] | ((uint16_t)p[1] << 8)`, the shift in an `int`.
abbrev pub pair : List ℕ → ℕ
pair p = bit_or (at p 0) (shl 32 (at p 1) 8) % 2 ^ 16

-- The loop over a list of service UUIDs from the index `u` on.
unfoldable pub scan_uuids : ℕ → List ℕ → ℕ → ℕ → AdvInfo → AdvInfo
scan_uuids zero payload len u out = out
scan_uuids (suc fuel) payload len u out =
    let found = if pair (drop u payload) == 0x1812 then record out { hid = true } else out in
    let rest = scan_uuids fuel payload len (add_size u 2) found in
    if ltb (add_size u 1) len then rest else out

abbrev pub is_none : Option (List ℕ) → Bool
is_none none = true
is_none (some name) = false

unfoldable pub take_name : ℕ → List ℕ → ℕ → AdvInfo → AdvInfo
take_name type payload len out =
    if is_none out.name || ((type == 0x09) && not out.name_complete)
    then record out { name = some (take len payload); name_len = len; name_complete = type == 0x09 }
    else out

unfoldable pub take_appearance : List ℕ → ℕ → AdvInfo → AdvInfo
take_appearance payload len out =
    let seen = record out { appearance = pair payload } in
    if leb 2 len
    then if shr (pair payload) 6 == 15 then record seen { hid = true } else seen
    else out

-- The switch on the type of a field.
unfoldable pub adv_field : ℕ → List ℕ → ℕ → AdvInfo → AdvInfo
adv_field type payload len out =
    if (type == 0x02) || (type == 0x03)
    then scan_uuids len payload len 0 out
    else if (type == 0x08) || (type == 0x09)
    then take_name type payload len out
    else if type == 0x19
    then take_appearance payload len out
    else out

-- The loop over the fields, on fuel: a round goes on by one byte at least.
unfoldable pub adv_loop : ℕ → List ℕ → ℕ → ℕ → AdvInfo → AdvInfo
adv_loop zero bytes length i out = out
adv_loop (suc fuel) bytes length i out =
    let field_len = at bytes i in
    let seen =
      adv_field (at bytes (add_size i 1)) (drop (add_size i 2) bytes) (sub_size field_len 1) out in
    let rest = adv_loop fuel bytes length (add_size i (add_size 1 field_len)) seen in
    if ltb i length
    then if field_len == 0
      then out
      else if ltb length (add_size (add_size i 1) field_len)
      then out
      else rest
    else out

-- A null pointer is `none`.
unfoldable pub adv_parse : Option (List ℕ) → ℕ → AdvInfo
adv_parse none length = no_info
adv_parse (some bytes) length = adv_loop length bytes length 0 no_info

-- The flag, and the appearance.
unfoldable pub adv_is_hid : Option (List ℕ) → ℕ → Bool × ℕ
adv_is_hid bytes length = let info = adv_parse bytes length in (info.hid, info.appearance)
