-- ===== src/HidReport.antt =====
-- core/hid/report_parser.c: the parse of a report descriptor.
-- An array and the count of its entries in use are the list of these entries. A signed number of 32
-- bits is its word.
pub mod Decode
pub mod Bounds
pub mod Parsing
pub mod Items
pub mod Within
pub mod Slices
use aros_bluzing.Prelude.{
  ℕ, zero, suc, ◌+◌, ◌-◌, ◌*◌, ◌%◌, ◌^◌, List, [], ◌∷◌, ◌++◌, length, drop, get_or, set, ltb, leb,
  ◌==◌, not, ◌&&◌, ◌||◌, if◌then◌else◌, Bool, true, false, Option, none, some, bit_and, bit_or,
}
use aros_bluzing.Status.{Result, ok, err, invalid_argument, no_resources}
use aros_bluzing.Endian.{at, shl, shr}
use aros_bluzing.Buffer.{add_size, sub_size}

abbrev pub max_fields : ℕ
max_fields = 128

abbrev pub max_reports : ℕ
max_reports = 16

abbrev pub max_local_usages : ℕ
max_local_usages = 32

abbrev pub global_stack_max : ℕ
global_stack_max = 4

-- `flags & BT_HID_INPUT_CONSTANT` and `flags & BT_HID_INPUT_VARIABLE`
abbrev pub is_constant : ℕ → Bool
is_constant flags = not (bit_and flags 0x0001 == 0)

abbrev pub is_variable : ℕ → Bool
is_variable flags = not (bit_and flags 0x0002 == 0)

pub record Field : Type 0 where
  pub report_id : ℕ
  pub bit_offset : ℕ
  pub bit_size : ℕ
  pub count : ℕ
  pub flags : ℕ
  pub usage_page : ℕ
  pub usage_min : ℕ
  pub usage_max : ℕ
  pub logical_min : ℕ
  pub logical_max : ℕ

pub record ReportInfo : Type 0 where
  pub report_id : ℕ
  pub input_bits : ℕ

pub record Descriptor : Type 0 where
  pub fields : List Field
  pub reports : List ReportInfo
  pub uses_report_ids : Bool

pub record Globals : Type 0 where
  pub usage_page : ℕ
  pub logical_min : ℕ
  pub logical_max : ℕ
  pub report_size : ℕ
  pub report_count : ℕ
  pub report_id : ℕ

pub record Locals : Type 0 where
  pub usages : List ℕ
  pub usage_min : ℕ
  pub usage_max : ℕ
  pub has_usage_min : Bool
  pub has_usage_max : Bool

-- The local variables of `bt_hid_report_parse`, and what it writes through `out`.
pub record Parser : Type 0 where
  pub out : Descriptor
  pub globals : Globals
  pub stack : List Globals
  pub locals : Locals

abbrev pub no_locals : Locals
no_locals = record {
  usages = [];
  usage_min = 0;
  usage_max = 0;
  has_usage_min = false;
  has_usage_max = false;
}

abbrev pub parser_init : Parser
parser_init = record {
  out = record { fields = []; reports = []; uses_report_ids = false };
  globals = record {
    usage_page = 0;
    logical_min = 0;
    logical_max = 0;
    report_size = 0;
    report_count = 0;
    report_id = 0;
  };
  stack = [];
  locals = no_locals;
}

-- `value < 0` of an `int32_t`
abbrev pub is_negative : ℕ → Bool
is_negative value = leb (2 ^ 31) value

unfoldable pub read_bytes_from : ℕ → ℕ → List ℕ → ℕ → ℕ
read_bytes_from zero i bytes value = value
read_bytes_from (suc n) i bytes value =
    read_bytes_from n (suc i) bytes (bit_or value (shl 32 (at bytes i) (8 * i)))

unfoldable pub read_unsigned : List ℕ → ℕ → ℕ
read_unsigned bytes len = read_bytes_from len 0 bytes 0

unfoldable pub read_signed : List ℕ → ℕ → ℕ
read_signed bytes len =
    let value = read_unsigned bytes len in
    if not (len == 0) && (ltb len 4 && not (bit_and value (2 ^ (len * 8 - 1)) == 0))
    then bit_or value (shl 32 (2 ^ 32 - 1) (len * 8))
    else value

unfoldable pub find_report : List ReportInfo → ℕ → ℕ → Option ℕ
find_report [] report_id i = none
find_report (r ∷ rs) report_id i =
    if r.report_id == report_id then some i else find_report rs report_id (suc i)

-- A pointer to a report is its index. The report that is claimed is all zeros but for its identifier.
unfoldable pub claim_report : Descriptor → ℕ → Option ℕ → Option ℕ × Descriptor
claim_report out report_id (some i) = (some i, out)
claim_report out report_id none = if length out.reports == max_reports then (none, out) else (
  some (length out.reports),
  record out { reports = out.reports ++ record { report_id = report_id; input_bits = 0 } ∷ [] },
)

unfoldable pub get_report : Descriptor → ℕ → Option ℕ × Descriptor
get_report out report_id = claim_report out report_id (find_report out.reports report_id 0)

unfoldable pub usage_for_index : Locals → ℕ → ℕ
usage_for_index locals index =
    if ltb index (length locals.usages)
    then get_or locals.usages index 0
    else if locals.has_usage_min
        && (locals.has_usage_max && leb ((locals.usage_min + index) % 2 ^ 32) locals.usage_max)
    then (locals.usage_min + index) % 2 ^ 16
    else if not (length locals.usages == 0)
    then get_or locals.usages (length locals.usages - 1) 0
    else 0

-- The field with the index `i` of an input item, behind `input_bits` bits of its report.
unfoldable pub make_field : Globals → Locals → ℕ → ℕ → ℕ → Field
make_field globals locals flags input_bits i = record {
  report_id = globals.report_id;
  bit_offset = (input_bits + i * globals.report_size) % 2 ^ 16;
  bit_size = globals.report_size % 2 ^ 8;
  count = if is_variable flags then 1 else globals.report_count;
  flags = flags;
  usage_page = globals.usage_page;
  usage_min =
      if is_variable flags
      then usage_for_index locals i
      else if locals.has_usage_min
      then locals.usage_min
      else 0;
  usage_max =
      if is_variable flags
      then usage_for_index locals i
      else if locals.has_usage_max
      then locals.usage_max
      else 2 ^ 16 - 1;
  logical_min = globals.logical_min;
  logical_max = globals.logical_max;
}

unfoldable pub emit_fields : ℕ → ℕ → (ℕ → Field) → List Field → List Field
emit_fields zero i field fields = fields
emit_fields (suc n) i field fields = emit_fields n (suc i) field (fields ++ field i ∷ [])

abbrev pub no_report : ReportInfo
no_report = record { report_id = 0; input_bits = 0 }

-- `added_bits` and `emitted`
abbrev pub added_bits : Globals → ℕ
added_bits globals = globals.report_size * globals.report_count % 2 ^ 32

abbrev pub emitted : Globals → ℕ → ℕ
emitted globals flags = if is_variable flags then globals.report_count else 1

-- The tests of `add_input` behind the one for a report.
abbrev pub exceeds : Globals → ℕ → ℕ → List Field → Bool
exceeds globals flags input_bits fields =
    ltb 32 globals.report_size
    || ((globals.report_count == 0)
        || (ltb (2 ^ 16 - 1) (added_bits globals)
            || (ltb (2 ^ 16 - 1 - added_bits globals) input_bits
                || ltb max_fields (add_size (length fields) (emitted globals flags)))))

unfoldable pub extend : Globals → Locals → ℕ → Option ℕ × Descriptor → Result Descriptor
extend globals locals flags (none, out) = err no_resources
extend globals locals flags (some k, out) =
    let report = get_or out.reports k no_report in
    if exceeds globals flags report.input_bits out.fields
    then err no_resources
    else ok (record out {
      fields =
          emit_fields (emitted globals flags) 0 (make_field globals locals flags report.input_bits)
            out.fields;
      reports =
          set out.reports k
            (record report { input_bits = (report.input_bits + added_bits globals) % 2 ^ 16 });
    })

unfoldable pub add_input : Descriptor → Globals → Locals → ℕ → Result Descriptor
add_input out globals locals flags = extend globals locals flags (get_report out globals.report_id)

abbrev pub set_globals : Parser → Globals → Result Parser
set_globals p globals = ok (record p { globals = globals })

abbrev pub pop_globals : Parser → List Globals → Result Parser
pop_globals p [] = err invalid_argument
pop_globals p (g ∷ stack) = ok (record p { globals = g; stack = stack })

-- The switch on the tag of a global item. The stack has its top first.
unfoldable pub global_item : ℕ → ℕ → List ℕ → ℕ → Parser → Result Parser
global_item tag value item item_size p =
    let g = p.globals in
    if tag == 0
    then set_globals p (record g { usage_page = value % 2 ^ 16 })
    else if tag == 1
    then set_globals p (record g { logical_min = read_signed item item_size })
    else if tag == 2
    then set_globals p (record g {
      logical_max = if is_negative g.logical_min then read_signed item item_size else value;
    })
    else if tag == 7
    then set_globals p (record g { report_size = value % 2 ^ 16 })
    else if tag == 8
    then if (value == 0) || ltb (2 ^ 8 - 1) value
      then err invalid_argument
      else ok (record p {
        globals = record g { report_id = value % 2 ^ 8 };
        out = record p.out { uses_report_ids = true };
      })
    else if tag == 9
    then set_globals p (record g { report_count = value % 2 ^ 16 })
    else if tag == 10
    then if length p.stack == global_stack_max
      then err no_resources
      else ok (record p { stack = g ∷ p.stack })
    else if tag == 11
    then pop_globals p p.stack
    else ok p

unfoldable pub local_item : ℕ → ℕ → Parser → Result Parser
local_item tag value p =
    let l = p.locals in
    if tag == 0
    then if length l.usages == max_local_usages
      then err no_resources
      else ok (record p { locals = record l { usages = l.usages ++ value % 2 ^ 16 ∷ [] } })
    else if tag == 1
    then ok (record p { locals = record l { usage_min = value % 2 ^ 16; has_usage_min = true } })
    else if tag == 2
    then ok (record p { locals = record l { usage_max = value % 2 ^ 16; has_usage_max = true } })
    else ok p

-- What follows a main item that has the outcome `r`.
abbrev pub after_main : Parser → Result Descriptor → Result Parser
after_main p (err e) = err e
after_main p (ok out) = ok (record p { out = out; locals = no_locals })

unfoldable pub main_item : ℕ → ℕ → ℕ → Parser → Result Parser
main_item tag value item_size p = after_main p (
    if tag == 8
    then add_input p.out p.globals p.locals (value % 2 ^ 16)
    else if (tag == 12) && not (item_size == 0)
    then err invalid_argument
    else if (tag == 10) && not (item_size == 1)
    then err invalid_argument
    else ok p.out)

abbrev pub item_len : ℕ → ℕ
item_len prefix = let code = bit_and prefix 0x03 in if code == 3 then 4 else code

-- The switch on the type of an item.
unfoldable pub short_item : ℕ → List ℕ → Parser → Result Parser
short_item prefix item p =
    let type = bit_and (shr prefix 2) 0x03 in
    let tag = shr prefix 4 in
    let value = read_unsigned item (item_len prefix) in
    if type == 1
    then global_item tag value item (item_len prefix) p
    else if type == 2
    then local_item tag value p
    else if type == 0
    then main_item tag value (item_len prefix) p
    else ok p

abbrev pub at_offset : ℕ → Result Parser → Result (ℕ × Parser)
at_offset offset (ok p) = ok (offset, p)
at_offset offset (err e) = err e

-- A round of the loop at an offset, which gives the next offset.
unfoldable pub parse_round : List ℕ → ℕ → ℕ → Parser → Result (ℕ × Parser)
parse_round bytes data_len offset p =
    let prefix = at bytes offset in
    let next = add_size offset 1 in
    if prefix == 0xfe
    then if ltb (sub_size data_len next) 2
      then err invalid_argument
      else if ltb (sub_size data_len (add_size next 2)) (at bytes next)
      then err invalid_argument
      else ok (add_size (add_size next 2) (at bytes next), p)
    else if ltb (sub_size data_len next) (item_len prefix)
    then err invalid_argument
    else at_offset (add_size next (item_len prefix)) (short_item prefix (drop next bytes) p)

abbrev pub finish : Descriptor → Result Descriptor
finish out = if length out.reports == 0 then err invalid_argument else ok out

-- The outcome of a round, and the rest of the loop.
abbrev pub go_on :
    (ℕ → Parser → Option (Result Descriptor)) → Result (ℕ × Parser) → Option (Result Descriptor)
go_on rest (err e) = some (err e)
go_on rest (ok (offset, p)) = rest offset p

-- The loop on fuel, `none` when it runs out.
unfoldable pub parse_loop : ℕ → List ℕ → ℕ → ℕ → Parser → Option (Result Descriptor)
parse_loop zero bytes data_len offset p = if ltb offset data_len then none else some (finish p.out)
parse_loop (suc fuel) bytes data_len offset p =
    if ltb offset data_len
    then go_on (λ next q. parse_loop fuel bytes data_len next q)
        (parse_round bytes data_len offset p)
    else some (finish p.out)

unfoldable pub report_parse : List ℕ → ℕ → Option (Result Descriptor)
report_parse bytes data_len = parse_loop data_len bytes data_len 0 parser_init
