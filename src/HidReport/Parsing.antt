-- ===== src/HidReport/Parsing.antt =====
-- core/hid/report_parser.c: the input items and the places of their fields.
use aros_bluzing.Prelude.{
  ℕ, zero, suc, ◌+◌, ◌-◌, ◌*◌, ◌%◌, ◌^◌, ◌≤◌, ◌<◌, ◌≡◌, refl, ◌∙◌, List, [], ◌∷◌, ◌++◌, length,
  length-append, length-set, get_or, set, All, All-append, All-weaken, ◌==◌, if◌then◌else◌, true,
  false, Bool-cases, Option, none, some, ◌⊎◌, inl, inr, arith,
}
use mathlib.Core.Path.{subst}
use native.Mathlib.Nat.{mul-le-mul_right}
use aros_bluzing.Status.{Result, ok, err, invalid_argument, no_resources}
use aros_bluzing.HidReport.{
  Field, ReportInfo, Descriptor, Globals, Locals, max_fields, no_report, is_variable, make_field,
  emit_fields, added_bits, emitted, exceeds, extend, add_input, get_report,
}
use aros_bluzing.HidReport.Bounds.{
  bits_of, IsPlaced, IsShort, IsDescriptor, Finds, Claimed, get_report-Claimed,
}

-- The descriptor that comes out, if one does.
abbrev pub Yields : Result Descriptor → Type 0
Yields (err e) = (e ≡ invalid_argument) ⊎ (e ≡ no_resources)
Yields (ok d) = IsDescriptor d

emit_fields-All :
    (P : Field → Type 0) (n i : ℕ) (field : ℕ → Field) (fields : List Field)
    → All P fields
    → ((j : ℕ) → j < i + n → P (field j))
    → All P (emit_fields n i field fields)
unfolding emit_fields
emit_fields-All P zero i field fields h new = h
emit_fields-All P (suc n) i field fields h new =
    emit_fields-All P n (suc i) field (fields ++ field i ∷ [])
      (All-append P fields (field i ∷ []) h (new i (omega arith), tt)) (λ j l. new j (omega arith))

length-emit_fields :
    (n i : ℕ) (field : ℕ → Field) (fields : List Field)
    → length (emit_fields n i field fields) ≡ length fields + n
unfolding emit_fields
length-emit_fields zero i field fields = omega arith
length-emit_fields (suc n) i field fields = omega (
  arith,
  length-emit_fields n (suc i) field (fields ++ field i ∷ []),
  length-append fields (field i ∷ []),
)

All-set :
    (rs : List ReportInfo) (k : ℕ) (r : ReportInfo)
    → IsShort r
    → All IsShort rs
    → All IsShort (set rs k r)
All-set [] k r s h = tt
All-set (x ∷ rs) zero r s (h, hs) = (s, hs)
All-set (x ∷ rs) (suc k) r s (h, hs) = (h, All-set rs k r s hs)

-- The conditions under which an item is taken.
record IsRoom (g : Globals) (flags bits used : ℕ) : Type 0 where
  size : g.report_size ≤ 32
  count : 1 ≤ g.report_count
  added : added_bits g ≡ g.report_size * g.report_count
  total : bits + g.report_size * g.report_count < 2 ^ 16
  number : used + emitted g flags ≤ max_fields

IsRoom-of :
    (g : Globals) (flags bits : ℕ) (fields : List Field)
    → g.report_count < 2 ^ 16
    → length fields ≤ max_fields
    → exceeds g flags bits fields ≡ false
    → IsRoom g flags bits (length fields)
IsRoom-of g flags bits fields small few h =
    let size : g.report_size ≤ 32 = ground arith in
    let product : g.report_size * g.report_count ≤ 32 * g.report_count =
      mul-le-mul_right g.report_count size in
    let added : added_bits g ≡ g.report_size * g.report_count = omega arith in
    let count : 1 ≤ g.report_count = ground arith in
    let low : added_bits g ≤ 2 ^ 16 - 1 = ground arith in
    let high : bits ≤ 2 ^ 16 - 1 - added_bits g = ground arith in
    record { size = size; count = count; added = added; total = omega arith; number = ground arith }

-- A field that is made lies in the bits that the item adds.
made-lies :
    (g : Globals) (l : Locals) (flags bits used j : ℕ)
    → IsRoom g flags bits used
    → j < emitted g flags
    → let f = make_field g l flags bits j in
      (f.bit_size ≤ 32)
      × (1 ≤ f.count)
      × (f.bit_offset + f.bit_size * f.count ≤ bits + g.report_size * g.report_count)
unfolding make_field
made-lies g l flags bits used j r h = elim (Bool-cases (is_variable flags)) [
  | inl v ↦
      let below : suc j ≤ g.report_count = subst (λ b. j < (if b then g.report_count else 1)) v h in
      let product : suc j * g.report_size ≤ g.report_count * g.report_size =
        mul-le-mul_right g.report_size below in
      let size : g.report_size % 2 ^ 8 ≡ g.report_size = omega (arith, r.size) in
      rw (v, size) (r.size, omega arith, omega (arith, product, r.total))
  | inr v ↦
      let first : j ≡ 0 = omega (arith, subst (λ b. j < (if b then g.report_count else 1)) v h) in
      let size : g.report_size % 2 ^ 8 ≡ g.report_size = omega (arith, r.size) in
      rw (v, size, first) (r.size, r.count, omega (arith, r.total))
]

-- The bits of the reports behind the fields, when the bits of one have grown to `total`.
grown :
    (rs : List ReportInfo) (id k total other : ℕ)
    → Finds rs id k
    → (get_or rs k no_report).input_bits ≤ total
    → bits_of rs other ≤ bits_of (set rs k (record { report_id = id; input_bits = total })) other
grown rs id k total other f h = elim (Bool-cases (id == other)) [
  | inl e ↦
      let same : id ≡ other = ground arith in
      rw (f.after_set total other, e)
        (subst (λ x. bits_of rs x ≤ total) same (omega (arith, f.bits, h)))
  | inr e ↦ rw (f.after_set total other, e) (omega arith)
]

extended-IsDescriptor :
    (d : Descriptor) (g : Globals) (l : Locals) (flags k bits : ℕ)
    → IsDescriptor d
    → Finds d.reports g.report_id k
    → bits ≡ (get_or d.reports k no_report).input_bits
    → IsRoom g flags bits (length d.fields)
    → IsDescriptor (record d {
      fields = emit_fields (emitted g flags) 0 (make_field g l flags bits) d.fields;
      reports =
          set d.reports k (record {
            report_id = g.report_id;
            input_bits = bits + g.report_size * g.report_count;
          });
    })
unfolding make_field
extended-IsDescriptor d g l flags k bits v f e r =
    let total = bits + g.report_size * g.report_count in
    let entry : ReportInfo = record { report_id = g.report_id; input_bits = total } in
    let more = set d.reports k entry in
    let same : (g.report_id == g.report_id) ≡ true = ground arith in
    let whole : bits_of more g.report_id ≡ total = f.after_set total g.report_id ∙ rw same refl in
    record {
      fields = omega (
        arith,
        r.number,
        length-emit_fields (emitted g flags) 0 (make_field g l flags bits) d.fields,
      );
      reports = omega (arith, v.reports, length-set d.reports k entry);
      bits = All-set d.reports k entry r.total v.bits;
      placed =
          emit_fields-All (IsPlaced more) (emitted g flags) 0 (make_field g l flags bits) d.fields
            (All-weaken (IsPlaced d.reports) (IsPlaced more) d.fields
              (λ x p. (
                p.0,
                p.1,
                omega (
                  arith,
                  p.2,
                  grown d.reports g.report_id k total x.report_id f (omega (arith, e)),
                ),
              ))
              v.placed)
            (λ j h.
              let p = made-lies g l flags bits (length d.fields) j r (omega (arith, h)) in
              (p.0, p.1, omega (arith, p.2, whole)));
    }

extend-Yields :
    (g : Globals) (l : Locals) (flags : ℕ) (c : Option ℕ × Descriptor)
    → g.report_count < 2 ^ 16
    → Claimed g.report_id c
    → Yields (extend g l flags c)
unfolding extend
extend-Yields g l flags (none, d) small c = inr refl
extend-Yields g l flags (some k, d) small (v, f) =
    let report = get_or d.reports k no_report in
    elim (Bool-cases (exceeds g flags report.input_bits d.fields)) [
      | inl e ↦ rw e (inr refl)
      | inr e ↦
          let r = IsRoom-of g flags report.input_bits d.fields small v.fields e in
          let total : (report.input_bits + added_bits g) % 2 ^ 16
              ≡ report.input_bits + g.report_size * g.report_count =
            omega (arith, r.total, r.added) in
          rw (e, total, f.named) (extended-IsDescriptor d g l flags k report.input_bits v f refl r)
    ]

pub add_input-Yields :
    (d : Descriptor) (g : Globals) (l : Locals) (flags : ℕ)
    → IsDescriptor d
    → g.report_count < 2 ^ 16
    → Yields (add_input d g l flags)
unfolding add_input
add_input-Yields d g l flags v small =
    extend-Yields g l flags (get_report d g.report_id) small (get_report-Claimed d g.report_id v)
