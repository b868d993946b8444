-- ===== src/HidReport/Decode.antt =====
-- core/hid/report_parser.c: the decoding of an input report.
use aros_bluzing.Prelude.{
  ℕ, zero, suc, ◌+◌, ◌-◌, ◌*◌, ◌/◌, ◌%◌, ◌^◌, List, [], ◌∷◌, drop, ltb, ◌==◌, not, ◌&&◌,
  if◌then◌else◌, Bool, true, false, bit_and, bit_or,
}
use aros_bluzing.Status.{Status, ok, err, invalid_argument}
use aros_bluzing.Endian.{at, shl}
use aros_bluzing.HidReport.{Field, Descriptor, is_constant, is_variable, is_negative}

pub record Value : Type 0 where
  pub report_id : ℕ
  pub usage_page : ℕ
  pub usage : ℕ
  pub value : ℕ
  pub flags : ℕ
  pub is_array : Bool

-- The bit `k` of the bytes.
abbrev pub bit_at : List ℕ → ℕ → Bool
bit_at bytes k = not (bit_and (at bytes (k / 8)) (2 ^ (k % 8)) == 0)

-- The value of a field of at most 32 bits, as those of a parsed descriptor are: `1u << i` is not cut off.
unfoldable pub extract_from : ℕ → ℕ → List ℕ → ℕ → ℕ → ℕ
extract_from zero i bytes bit_offset value = value
extract_from (suc n) i bytes bit_offset value =
    extract_from n (suc i) bytes bit_offset
      (if bit_at bytes (bit_offset + i) then bit_or value (2 ^ i) else value)

unfoldable pub extract_bits : List ℕ → ℕ → ℕ → ℕ
extract_bits bytes bit_offset bit_size = extract_from bit_size 0 bytes bit_offset 0

unfoldable pub sign_value : ℕ → ℕ → ℕ
sign_value value bit_size =
    if not (bit_size == 0) && (ltb bit_size 32 && not (bit_and value (2 ^ (bit_size - 1)) == 0))
    then bit_or value (shl 32 (2 ^ 32 - 1) bit_size)
    else value

-- The value that is given to the callback.
abbrev pub value_of : Field → ℕ → Value
value_of f raw = record {
  report_id = f.report_id;
  usage_page = f.usage_page;
  usage = if is_variable f.flags then f.usage_min else raw % 2 ^ 16;
  value =
      if is_variable f.flags
      then if is_negative f.logical_min then sign_value raw f.bit_size else raw
      else 1;
  flags = f.flags;
  is_array = not (is_variable f.flags);
}

module _ {U : Type 0} (callback : Value → U → Bool × U) where
  -- `if (!callback(...)) return`, else the rest.
  abbrev pub unless_stopped : (U → Bool × U) → Bool × U → Bool × U
  unless_stopped rest (true, u) = rest u
  unless_stopped rest (false, u) = (false, u)

  abbrev pub report_element : Field → ℕ → U → Bool × U
  report_element f raw u =
      if not (is_variable f.flags) && (raw == 0) then (true, u) else callback (value_of f raw) u

  -- The loop over the elements of a field; it gives `false` when the callback stopped it.
  unfoldable pub decode_elements : ℕ → ℕ → List ℕ → Field → U → Bool × U
  decode_elements zero element payload f u = (true, u)
  decode_elements (suc n) element payload f u =
      unless_stopped (decode_elements n (suc element) payload f) (
        report_element f
          (extract_bits payload ((f.bit_offset + element * f.bit_size) % 2 ^ 16) f.bit_size) u)

  abbrev pub unless_done : (U → Status × U) → Bool × U → Status × U
  unless_done rest (true, u) = rest u
  unless_done rest (false, u) = (ok tt, u)

  -- The loop over the fields.
  unfoldable pub decode_fields : List Field → ℕ → List ℕ → ℕ → U → Status × U
  decode_fields [] report_id payload payload_len u = (ok tt, u)
  decode_fields (f ∷ fs) report_id payload payload_len u =
      if not (f.report_id == report_id)
      then decode_fields fs report_id payload payload_len u
      else if ltb (payload_len * 8 % 2 ^ 64)
          ((f.bit_offset + f.bit_size * f.count % 2 ^ 32) % 2 ^ 32)
      then (err invalid_argument, u)
      else if is_constant f.flags
      then decode_fields fs report_id payload payload_len u
      else unless_done (decode_fields fs report_id payload payload_len)
          (decode_elements f.count 0 payload f u)

  unfoldable pub decode_input : Descriptor → List ℕ → ℕ → U → Status × U
  decode_input d report report_len u =
      if d.uses_report_ids
      then if report_len == 0
        then (err invalid_argument, u)
        else decode_fields d.fields (at report 0) (drop 1 report) (report_len - 1) u
      else decode_fields d.fields 0 report report_len u
