-- ===== src/Tests/Attributes.antt =====
-- protocols/att/att.c at a list of services.
use aros_bluzing.Prelude.{◌≡◌, refl, List, [], ◌∷◌, ◌++◌, map, arith}
use aros_bluzing.Status.{ok}
use aros_bluzing.Endian
use aros_bluzing.Att.{Iter, read_by_group_type_iter_init}
use aros_bluzing.Att.Entries.{Group, all_groups, entry_of, groups, groups-all_groups}

-- Generic Access, and HID over GATT.
abbrev services : List Group
services =
    record { handle = 1; end_group_handle = 9; value = 0x00 ∷ 0x18 ∷ [] }
    ∷ record { handle = 10; end_group_handle = 0xffff; value = 0x12 ∷ 0x18 ∷ [] }
    ∷ []

-- One byte of another entry follows.
groups-all_groups_example :
    (it : Iter) × (read_by_group_type_iter_init (6 ∷ all_groups services ++ 11 ∷ []) 14 ≡ ok it)
    × (groups 3 it ≡ map entry_of services)
groups-all_groups_example =
    groups-all_groups 2 services (11 ∷ []) 14 (omega arith) (omega arith)
      ((refl, omega arith, omega arith), ((refl, omega arith, omega arith), tt))
      (unfold Endian.write_le16 in refl) (omega arith)
