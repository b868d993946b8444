-- ===== src/Device.antt =====
-- core/device/device_registry.c: the table of the devices that were seen.
pub mod Names
pub mod Advertised
pub mod Copying
pub mod Fields
pub mod Search
pub mod Sightings
use aros_bluzing.Prelude.{
  ℕ, zero, suc, ◌+◌, ◌-◌, ◌%◌, ◌^◌, ◌<◌, List, [], ◌∷◌, length, get_or, set, replicate, ltb, leb,
  ◌==◌, not, ◌&&◌, if◌then◌else◌, Bool, true, false, Option, none, some, bit_and, bit_or,
}
use aros_bluzing.Endian.{shr}
use aros_bluzing.Device.Names.{Device, set_name, name_len, label_from_cod, cod_is_hid}

abbrev pub flag_classic : ℕ
flag_classic = 1

abbrev pub flag_le : ℕ
flag_le = 2

abbrev pub flag_hid : ℕ
flag_hid = 4

abbrev pub registry_max : ℕ
registry_max = 32

-- `devices` is the array of `registry_max` entries.
pub record Registry : Type 0 where
  pub count : ℕ
  pub devices : List Device

-- An entry with every byte 0.
abbrev pub zeroed : Device
zeroed = record {
  addr = replicate 6 0;
  flags = 0;
  class_of_device = 0;
  le_address_type = 0;
  appearance = 0;
  name = replicate name_len 0;
  name_state = 0;
  last_rssi = 0;
  sightings = 0;
}

-- `bt_addr_equal`: a comparison byte by byte.
abbrev pub addr_equal : List ℕ → List ℕ → Bool
addr_equal [] [] = true
addr_equal [] (y ∷ b) = false
addr_equal (x ∷ a) [] = false
addr_equal (x ∷ a) (y ∷ b) = if x == y then addr_equal a b else false

unfoldable pub registry_init : Registry → Registry
registry_init reg = record reg { count = 0 }

unfoldable pub registry_get : Registry → ℕ → Option Device
registry_get reg index =
    if leb reg.count index then none else some (get_or reg.devices index zeroed)

-- The loop of the searches from entry `i` on, with `n` entries to go.
unfoldable pub find_from : List Device → List ℕ → ℕ → ℕ → Option ℕ
find_from devices addr zero i = none
find_from devices addr (suc n) i =
    let rest = find_from devices addr n (suc i) in
    if addr_equal (get_or devices i zeroed).addr addr then some i else rest

abbrev pub entry_of : List Device → Option ℕ → Option Device
entry_of devices none = none
entry_of devices (some i) = some (get_or devices i zeroed)

unfoldable pub registry_find : Registry → List ℕ → Option Device
registry_find reg addr = entry_of reg.devices (find_from reg.devices addr reg.count 0)

abbrev pub create : Registry → List ℕ → Option ℕ → Option ℕ × Registry
create reg addr (some i) = (some i, reg)
create reg addr none = if leb registry_max reg.count then (none, reg) else (
  some reg.count,
  record {
    count = suc reg.count;
    devices = set reg.devices reg.count (record zeroed { addr = addr });
  },
)

-- The entry is named by its index.
unfoldable pub find_or_create : Registry → List ℕ → Option ℕ × Registry
find_or_create reg addr = create reg addr (find_from reg.devices addr reg.count 0)

-- A caller's changes to the entry that it was given.
abbrev pub update : (Device → Device) → Option ℕ × Registry → Option ℕ × Registry
update change (none, reg) = (none, reg)
update change (some i, reg) =
    (some i, record reg { devices = set reg.devices i (change (get_or reg.devices i zeroed)) })

abbrev pub set_label : Option (List ℕ) → Device → Device
set_label none dev = dev
set_label (some label) dev = set_name (some label) name_len 1 dev

abbrev pub classic_sighting : ℕ → Device → Device
classic_sighting class_of_device dev =
    let flagged = record dev { flags = bit_or dev.flags flag_classic } in
    let hid =
      if cod_is_hid class_of_device
      then record flagged { flags = bit_or flagged.flags flag_hid }
      else flagged in
    let labelled = set_label (label_from_cod class_of_device) hid in
    record labelled {
      class_of_device = class_of_device;
      sightings = (labelled.sightings + 1) % 2 ^ 32;
    }

unfoldable pub note_classic : List ℕ → ℕ → Registry → Option ℕ × Registry
note_classic addr class_of_device reg =
    update (classic_sighting class_of_device) (find_or_create reg addr)

abbrev pub le_sighting : ℕ → ℕ → Device → Device
le_sighting le_address_type rssi dev = record dev {
  flags = bit_or dev.flags flag_le;
  le_address_type = le_address_type;
  last_rssi = rssi;
  sightings = (dev.sightings + 1) % 2 ^ 32;
}

unfoldable pub note_le : List ℕ → ℕ → ℕ → Registry → Option ℕ × Registry
note_le addr le_address_type rssi reg =
    update (le_sighting le_address_type rssi) (find_or_create reg addr)
