-- ===== src/Tests/Reports.antt =====
-- core/hid/report_parser.c at the report descriptor of a mouse.
use aros_bluzing.Prelude.{
  ℕ, ◌≡◌, refl, ◌/◌, ◌%◌, ◌^◌, List, [], ◌∷◌, length, map, Bool, true, false, Option, none, some,
  arith,
}
use aros_bluzing.Status.{Result, ok, err}
use aros_bluzing.HidReport.{
  Descriptor, report_parse, parse_loop, parse_round, short_item, global_item, local_item, main_item,
  add_input, extend, get_report, claim_report, find_report, emit_fields, make_field,
  usage_for_index, read_unsigned, read_signed, read_bytes_from,
}
use aros_bluzing.HidReport.Items.{Parses, report_parse-Parses}
use aros_bluzing.HidReport.Decode.{
  Value, decode_input, decode_fields, decode_elements, extract_bits, extract_from, sign_value,
}
use aros_bluzing.HidReport.Within.{decode_within_report}
use aros_bluzing.HidReport.Slices.{number, extract_bits-number}

-- Three buttons, five bits of padding, and the movement along two axes.
abbrev mouse : List ℕ
mouse =
    0x05 ∷ 0x01 ∷ 0x09 ∷ 0x02 ∷ 0xa1 ∷ 0x01 ∷ 0x09 ∷ 0x01 ∷ 0xa1 ∷ 0x00 ∷ 0x05 ∷ 0x09 ∷ 0x19 ∷ 0x01
    ∷ 0x29 ∷ 0x03 ∷ 0x15 ∷ 0x00 ∷ 0x25 ∷ 0x01 ∷ 0x95 ∷ 0x03 ∷ 0x75 ∷ 0x01 ∷ 0x81 ∷ 0x02 ∷ 0x95
    ∷ 0x01 ∷ 0x75 ∷ 0x05 ∷ 0x81 ∷ 0x03 ∷ 0x05 ∷ 0x01 ∷ 0x09 ∷ 0x30 ∷ 0x09 ∷ 0x31 ∷ 0x15 ∷ 0x81
    ∷ 0x25 ∷ 0x7f ∷ 0x75 ∷ 0x08 ∷ 0x95 ∷ 0x02 ∷ 0x81 ∷ 0x06 ∷ 0xc0 ∷ 0xc0 ∷ []

abbrev offsets : Option (Result Descriptor) → List ℕ
offsets (some (ok d)) = map (λ f. f.bit_offset) d.fields
offsets (some (err e)) = []
offsets none = []

mouse_test : offsets (report_parse mouse (length mouse)) ≡ 0 ∷ 1 ∷ 2 ∷ 3 ∷ 8 ∷ 16 ∷ []
unfolding report_parse parse_loop parse_round short_item global_item local_item main_item add_input
    extend get_report claim_report find_report emit_fields make_field usage_for_index read_unsigned
    read_signed read_bytes_from
mouse_test = refl

report_parse-Parses_example : Parses (report_parse mouse (length mouse))
report_parse-Parses_example = report_parse-Parses mouse (omega arith)

-- One number of a byte.
abbrev dial : List ℕ
dial = 0x75 ∷ 0x08 ∷ 0x95 ∷ 0x01 ∷ 0x81 ∷ 0x02 ∷ []

abbrev dial_descriptor : Descriptor
dial_descriptor = record {
  fields =
      record {
        report_id = 0;
        bit_offset = 0;
        bit_size = 8;
        count = 1;
        flags = 2;
        usage_page = 0;
        usage_min = 0;
        usage_max = 0;
        logical_min = 0;
        logical_max = 0;
      }
      ∷ [];
  reports = record { report_id = 0; input_bits = 8 } ∷ [];
  uses_report_ids = false;
}

dial_test : report_parse dial 6 ≡ some (ok dial_descriptor)
unfolding report_parse parse_loop parse_round short_item global_item local_item main_item add_input
    extend get_report claim_report find_report emit_fields make_field usage_for_index read_unsigned
    read_signed read_bytes_from
dial_test = refl

abbrev keep : Value → List ℕ → Bool × List ℕ
keep v seen = (true, v.value ∷ seen)

decode_test : decode_input keep dial_descriptor (5 ∷ 9 ∷ []) 1 [] ≡ (ok tt, 5 ∷ [])
unfolding decode_input decode_fields decode_elements extract_bits extract_from sign_value
decode_test = refl

decode_within_report_example :
    decode_input keep dial_descriptor (5 ∷ 9 ∷ []) 1 []
    ≡ decode_input keep dial_descriptor (5 ∷ 7 ∷ []) 1 []
decode_within_report_example =
    decode_within_report keep dial dial_descriptor 1 (5 ∷ 9 ∷ []) (5 ∷ 7 ∷ []) [] (omega arith)
      dial_test (omega arith) (λ i h. let first : i ≡ 0 = omega arith in rw first refl)

extract_bits-number_example :
    extract_bits (0xa5 ∷ 0x3c ∷ []) 6 5 ≡ number (0xa5 ∷ 0x3c ∷ []) / 2 ^ 6 % 2 ^ 5
extract_bits-number_example =
    extract_bits-number (0xa5 ∷ 0x3c ∷ []) 6 5 (omega arith, (omega arith, tt))
