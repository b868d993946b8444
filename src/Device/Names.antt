-- ===== src/Device/Names.antt =====
-- core/device/device_registry.c: the entry of a device, its name and its labels. Text is a list of
-- bytes; a string literal ends in its NUL.
use aros_bluzing.Prelude.{
  ℕ, zero, suc, ◌+◌, List, [], ◌∷◌, set, ltb, leb, ◌==◌, not, ◌&&◌, if◌then◌else◌, Bool, true,
  false, Option, none, some, bit_and,
}
use aros_bluzing.Endian.{at, shr}

abbrev pub name_len : ℕ
name_len = 25

-- `name` is the array of `name_len` bytes; `last_rssi` is the byte of an `int8_t`.
pub record Device : Type 0 where
  pub addr : List ℕ
  pub flags : ℕ
  pub class_of_device : ℕ
  pub le_address_type : ℕ
  pub appearance : ℕ
  pub name : List ℕ
  pub name_state : ℕ
  pub last_rssi : ℕ
  pub sightings : ℕ

-- `c >= 0x20 && c <= 0x7e` is false of a byte from 0x80 on whether `char` is signed or not.
abbrev pub printable : ℕ → ℕ
printable c = if leb 0x20 c && leb c 0x7e then c else 0x3f

-- The copy from the byte `i` on: the bytes of the name from there, and the array that is written.
unfoldable pub copy_name : List ℕ → ℕ → ℕ → List ℕ → ℕ × List ℕ
copy_name [] i length name = (i, name)
copy_name (c ∷ cs) i length name =
    let rest = copy_name cs (suc i) length (set name i (printable c)) in
    if (ltb i length && ltb (i + 1) name_len) && not (c == 0) then rest else (i, name)

unfoldable pub trim : List ℕ → ℕ → ℕ
trim name zero = 0
trim name (suc i) = let rest = trim name i in if at name i == 0x20 then rest else suc i

abbrev pub store_name : ℕ × List ℕ → ℕ → Device → Device
store_name (i, name) state dev = record dev { name = set name (trim name i) 0; name_state = state }

unfoldable pub set_name : Option (List ℕ) → ℕ → ℕ → Device → Device
set_name none length state dev = dev
set_name (some name) length state dev =
    if state == 0
    then dev
    else if leb state dev.name_state
    then dev
    else store_name (copy_name name 0 length dev.name) state dev

abbrev keyboard_label : List ℕ
keyboard_label = 60 ∷ 107 ∷ 101 ∷ 121 ∷ 98 ∷ 111 ∷ 97 ∷ 114 ∷ 100 ∷ 62 ∷ 0 ∷ []

abbrev mouse_label : List ℕ
mouse_label = 60 ∷ 109 ∷ 111 ∷ 117 ∷ 115 ∷ 101 ∷ 62 ∷ 0 ∷ []

abbrev joystick_label : List ℕ
joystick_label = 60 ∷ 106 ∷ 111 ∷ 121 ∷ 115 ∷ 116 ∷ 105 ∷ 99 ∷ 107 ∷ 62 ∷ 0 ∷ []

abbrev gamepad_label : List ℕ
gamepad_label = 60 ∷ 103 ∷ 97 ∷ 109 ∷ 101 ∷ 112 ∷ 97 ∷ 100 ∷ 62 ∷ 0 ∷ []

abbrev hid_device_label : List ℕ
hid_device_label = 60 ∷ 72 ∷ 73 ∷ 68 ∷ 32 ∷ 100 ∷ 101 ∷ 118 ∷ 105 ∷ 99 ∷ 101 ∷ 62 ∷ 0 ∷ []

abbrev keyboard_mouse_label : List ℕ
keyboard_mouse_label =
    60 ∷ 107 ∷ 101 ∷ 121 ∷ 98 ∷ 111 ∷ 97 ∷ 114 ∷ 100 ∷ 43 ∷ 109 ∷ 111 ∷ 117 ∷ 115 ∷ 101 ∷ 62 ∷ 0
    ∷ []

unfoldable pub label_from_appearance : ℕ → Option (List ℕ)
label_from_appearance appearance =
    if appearance == 961
    then some keyboard_label
    else if appearance == 962
    then some mouse_label
    else if appearance == 963
    then some joystick_label
    else if appearance == 964
    then some gamepad_label
    else if shr appearance 6 == 15
    then some hid_device_label
    else none

abbrev peripheral_label : ℕ → List ℕ
peripheral_label minor =
    if minor == 1
    then keyboard_label
    else if minor == 2
    then mouse_label
    else if minor == 3
    then keyboard_mouse_label
    else hid_device_label

unfoldable pub label_from_cod : ℕ → Option (List ℕ)
label_from_cod class_of_device =
    if not (bit_and (shr class_of_device 8) 0x1f == 0x05)
    then none
    else if bit_and (shr class_of_device 2) 0x0f == 1
    then some joystick_label
    else if bit_and (shr class_of_device 2) 0x0f == 2
    then some gamepad_label
    else some (peripheral_label (bit_and (shr class_of_device 6) 0x03))

unfoldable pub cod_is_hid : ℕ → Bool
cod_is_hid class_of_device =
    let major = bit_and (shr class_of_device 8) 0x1f in
    let minor = bit_and (shr class_of_device 2) 0x3f in
    if not (major == 0x05) then false else not (bit_and minor 0x30 == 0)

unfoldable pub le_addr_is_stable : List ℕ → ℕ → Bool
le_addr_is_stable addr address_type =
    if address_type == 0 then true else bit_and (at addr 5) 0xc0 == 0xc0
