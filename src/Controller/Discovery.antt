-- ===== src/Controller/Discovery.antt =====
-- core/controller/controller.c: the devices that discovery events report.
use aros_bluzing.Prelude.{
  ℕ, zero, suc, ◌+◌, ◌-◌, ◌%◌, ◌^◌, List, [], ◌∷◌, drop, ltb, ◌==◌, not, ◌&&◌, if◌then◌else◌, Bool,
  true, false, Option, none, some, bit_or,
}
use aros_bluzing.Status.{ok, err, Result}
use aros_bluzing.Endian.{at, shl}
use aros_bluzing.Buffer.Reader.{Reader, reader_init, peek}
use aros_bluzing.Hci.{EventHeader, parse_event_header}
use aros_bluzing.Hci.Inquiry.{InquiryEntry, InquiryIter, inquiry_iter_init, inquiry_iter_next}
use aros_bluzing.Hci.Advertising.{AdvReport, AdvIter, adv_iter_init, adv_iter_next}
use aros_bluzing.Device.{Registry, note_classic, note_le, registry_find, update, flag_hid}
use aros_bluzing.Device.Names.{Device, name_len, set_name, label_from_appearance, le_addr_is_stable}
use aros_bluzing.Device.Advertised.{AdvInfo, adv_parse, is_none}
use aros_bluzing.Controller.State.{Host}

abbrev pub event_inquiry_result : ℕ
event_inquiry_result = 0x02

abbrev pub event_extended_inquiry_result : ℕ
event_extended_inquiry_result = 0x2f

abbrev pub event_le_meta : ℕ
event_le_meta = 0x3e

-- A count is a byte, so 256 rounds are enough for either loop.
abbrev pub rounds : ℕ
rounds = 256

abbrev pub on_entry :
    (InquiryIter → Registry → Registry) → Result InquiryEntry × InquiryIter → Registry → Registry
on_entry rest (err e, it) reg = reg
on_entry rest (ok entry, it) reg = rest it (note_classic entry.bd_addr entry.class_of_device reg).1

unfoldable pub note_entries : ℕ → InquiryIter → Registry → Registry
note_entries zero it reg = reg
note_entries (suc n) it reg = on_entry (note_entries n) (inquiry_iter_next it) reg

abbrev pub note_inquiry : Result InquiryIter → Registry → Registry
note_inquiry (err e) reg = reg
note_inquiry (ok it) reg = note_entries rounds it reg

-- The trace of the first two events.
abbrev pub trace : List ℕ → Host → Host
trace params host =
    if ltb host.inquiry_traced 2 && host.hooked
    then record host { inquiry_traced = suc host.inquiry_traced; printed = params ∷ host.printed }
    else host

abbrev pub mark_hid : AdvInfo → Device → Device
mark_hid info dev = if info.hid then record dev { flags = bit_or dev.flags flag_hid } else dev

-- What an extended inquiry response says of a device whose entry was noted. The length of the EIR
-- is computed in an `unsigned int`. Of an event of 15 bytes the code reads what follows the event in
-- memory; zeros here.
abbrev pub extended_sighting : List ℕ → ℕ → Device → Device
extended_sighting params param_len dev =
    let info = adv_parse (some (drop 16 params)) ((2 ^ 32 + param_len - 16) % 2 ^ 32) in
    set_name info.name info.name_len 2 (mark_hid info (record dev { last_rssi = at params 15 }))

abbrev pub extended_address : List ℕ → List ℕ
extended_address params =
    at params 1 ∷ at params 2 ∷ at params 3 ∷ at params 4 ∷ at params 5 ∷ at params 6 ∷ []

abbrev pub extended_class : List ℕ → ℕ
extended_class params =
    bit_or (bit_or (at params 10) (shl 32 (at params 11) 8)) (shl 32 (at params 12) 16)

abbrev pub note_extended : List ℕ → ℕ → Registry → Registry
note_extended params param_len reg =
    if ltb param_len 15
    then reg
    else (update (extended_sighting params param_len)
        (note_classic (extended_address params) (extended_class params) reg)).1

abbrev pub is_unknown : Option Device → Bool
is_unknown none = true
is_unknown (some dev) = false

-- A device that has no entry and whose advertisement does not earn one.
abbrev pub is_anonymous : AdvReport → AdvInfo → Registry → Bool
is_anonymous report info reg =
    is_unknown (registry_find reg report.address)
    && (not (le_addr_is_stable report.address report.address_type)
        && (is_none info.name && (not info.hid && (info.appearance == 0))))

abbrev pub label_appearance : AdvInfo → Device → Device
label_appearance info dev =
    if not (info.appearance == 0)
    then set_name (label_from_appearance info.appearance) name_len 1
        (record dev { appearance = info.appearance })
    else dev

abbrev pub advertised : AdvInfo → Device → Device
advertised info dev = set_name info.name info.name_len 2 (label_appearance info (mark_hid info dev))

unfoldable pub note_report : AdvReport → Registry → Registry
note_report report reg =
    let info = adv_parse (some report.payload) report.data_len in
    if is_anonymous report info reg
    then reg
    else (update (advertised info) (note_le report.address report.address_type report.rssi reg)).1

abbrev pub on_report :
    (AdvIter → Registry → Registry) → Result AdvReport × AdvIter → Registry → Registry
on_report rest (err e, it) reg = reg
on_report rest (ok report, it) reg = rest it (note_report report reg)

unfoldable pub note_reports : ℕ → AdvIter → Registry → Registry
note_reports zero it reg = reg
note_reports (suc n) it reg = on_report (note_reports n) (adv_iter_next it) reg

abbrev pub note_advertising : Result AdvIter → Registry → Registry
note_advertising (err e) reg = reg
note_advertising (ok it) reg = note_reports rounds it reg

abbrev pub with_devices : (Registry → Registry) → Host → Host
with_devices change host = record host { devices = change host.devices }

abbrev pub on_params : ℕ → ℕ → Option (List ℕ) → Host → Host
on_params event_code param_len none host = host
on_params event_code param_len (some params) host = elim (event_code == event_inquiry_result) [
  | true ↦ with_devices (note_inquiry (inquiry_iter_init params param_len)) (trace params host)
  | false ↦ elim (event_code == event_extended_inquiry_result) [
    | true ↦ with_devices (note_extended params param_len) host
    | false ↦ elim (event_code == event_le_meta) [
      | true ↦ with_devices (note_advertising (adv_iter_init params param_len)) host
      | false ↦ host
    ]
  ]
]

abbrev pub on_event_header : Result EventHeader × Reader → Host → Host
on_event_header (err e, r) host = host
on_event_header (ok hdr, r) host =
    on_params hdr.event_code hdr.param_len (peek r hdr.param_len) host

-- What `bt_controller_on_event` does after it gave the event to the command queue.
unfoldable pub discover : List ℕ → ℕ → Host → Host
discover bytes length host = on_event_header (parse_event_header (reader_init bytes length)) host
