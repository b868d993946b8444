-- ===== src/Tests/HciPackets.antt =====
-- protocols/hci/hci.c at concrete inputs.
use aros_bluzing.Prelude.{◌+◌, ◌*◌, ◌≡◌, refl, [], ◌∷◌, ◌++◌, arith}
use aros_bluzing.Status.{ok}
use aros_bluzing.Endian
use aros_bluzing.Buffer.Reader.{Reader}
use aros_bluzing.Buffer.Reader.Refine.{Views, unread}
use aros_bluzing.Buffer.Reader.Parse.{Yields}
use aros_bluzing.Buffer.Writer.{Writer}
use aros_bluzing.Buffer.Writer.Emits.{Appends}
use aros_bluzing.Hci.{encode_command, encode_acl_header, parse_acl_header}
use aros_bluzing.Hci.Headers.{encode_command-Appends, acl_header_back}
use aros_bluzing.Hci.Inquiry.{InquiryIter, inquiry_iter_init}
use aros_bluzing.Hci.Columns.{Response, columns, entry_of, inquiry_entries, inquiry_entries-columns}
use aros_bluzing.Hci.Advertising.{AdvIter, adv_iter_init}
use aros_bluzing.Hci.Reports.{Advert, all_bytes, report_of, adv_reports, adv_reports-all_bytes}

abbrev writer : Writer
writer = record { bytes = 0 ∷ 0 ∷ 0 ∷ 0 ∷ 0 ∷ 0 ∷ []; cap = 6; pos = 0 }

encode_command-Appends_example :
    Appends
      (Endian.write_le16 0x0c03 ++ 2 ∷ 7 ∷ 8 ∷ [])
      writer
      (encode_command 0x0c03 (7 ∷ 8 ∷ 9 ∷ []) 2 writer)
encode_command-Appends_example =
    encode_command-Appends 0x0c03 2 (7 ∷ 8 ∷ 9 ∷ []) writer (omega arith) (omega arith)
      (omega arith)

-- Handle 5, flags 1 and 2, three bytes of data.
abbrev acl : Reader
acl = record { bytes = 5 ∷ 144 ∷ 3 ∷ 0 ∷ 9 ∷ []; len = 5; pos = 0 }

acl-Views :
    Views acl (Endian.write_le16 (5 + 4096 * 1 + 16384 * 2) ++ Endian.write_le16 3 ++ 9 ∷ [])
unfolding unread Endian.write_le16
acl-Views = record { valid = omega arith; rest = refl }

acl_header_back_example :
    Appends
      (Endian.write_le16 (5 + 4096 * 1 + 16384 * 2) ++ Endian.write_le16 3)
      writer
      (encode_acl_header 5 1 2 3 writer)
    × Yields
        (parse_acl_header acl)
        (record { handle = 5; pb_flag = 1; bc_flag = 2; data_len = 3 })
        (9 ∷ [])
acl_header_back_example =
    acl_header_back 5 1 2 3 (9 ∷ []) writer acl (omega arith) (omega arith) (omega arith)
      (omega arith) (omega arith) acl-Views

abbrev keyboard : Response
keyboard = record {
  a0 = 1;
  a1 = 2;
  a2 = 3;
  a3 = 4;
  a4 = 5;
  a5 = 6;
  mode = 1;
  r0 = 0;
  r1 = 0;
  c0 = 0x40;
  c1 = 0x25;
  c2 = 0;
  k0 = 9;
  k1 = 8;
}

abbrev mouse : Response
mouse = record keyboard { a0 = 7; c0 = 0x80 }

inquiry_entries-columns_example :
    (it : InquiryIter) × (inquiry_iter_init (2 ∷ columns (keyboard ∷ mouse ∷ []) ++ 99 ∷ []) 30
      ≡ ok it)
    × (inquiry_entries 3 it ≡ entry_of keyboard ∷ entry_of mouse ∷ [])
inquiry_entries-columns_example =
    inquiry_entries-columns (keyboard ∷ mouse ∷ []) (99 ∷ []) 30 (omega arith) (omega arith)
      (omega arith)

abbrev advert : Advert
advert = record {
  event_type = 0;
  address_type = 1;
  a0 = 1;
  a1 = 2;
  a2 = 3;
  a3 = 4;
  a4 = 5;
  a5 = 0xc6;
  payload = 2 ∷ 1 ∷ 6 ∷ [];
  rssi = 0xc8;
}

adv_reports-all_bytes_example :
    (it : AdvIter) × (adv_iter_init
        (2 ∷ 2 ∷ all_bytes (advert ∷ record advert { payload = [] } ∷ []) ++ [])
        25
      ≡ ok it)
    × (adv_reports 3 it ≡ report_of advert ∷ report_of (record advert { payload = [] }) ∷ [])
adv_reports-all_bytes_example =
    adv_reports-all_bytes (advert ∷ record advert { payload = [] } ∷ []) [] 25 (omega arith)
      (omega arith)
