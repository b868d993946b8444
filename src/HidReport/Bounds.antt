-- ===== src/HidReport/Bounds.antt =====
-- core/hid/report_parser.c: where the fields of a descriptor lie in their reports.
use aros_bluzing.Prelude.{
  ℕ, suc, ◌+◌, ◌*◌, ◌^◌, ◌≤◌, ◌<◌, ◌≡◌, ◌≢◌, refl, List, [], ◌∷◌, ◌++◌, length, length-append,
  get_or, set, All, All-append, All-weaken, ◌==◌, if◌then◌else◌, true, false, Bool-cases, Option,
  none, some, inl, inr, arith,
}
use mathlib.Core.Path.{subst}
use aros_bluzing.HidReport.{
  Field, ReportInfo, Descriptor, max_fields, max_reports, no_report, find_report, claim_report,
  get_report,
}

-- The bits that the fields of a report take so far.
abbrev pub bits_of : List ReportInfo → ℕ → ℕ
bits_of [] report_id = 0
bits_of (r ∷ rs) report_id = if r.report_id == report_id then r.input_bits else bits_of rs report_id

abbrev pub IsPlaced : List ReportInfo → Field → Type 0
IsPlaced reports f =
    (f.bit_size ≤ 32)
    × (1 ≤ f.count)
    × (f.bit_offset + f.bit_size * f.count ≤ bits_of reports f.report_id)

abbrev pub IsShort : ReportInfo → Type 0
IsShort r = r.input_bits < 2 ^ 16

-- The arrays do not overflow, a report has less than 2^16 bits, and each field is a number of at most
-- 32 bits, or an array of such numbers, within the bits of its report.
pub record IsDescriptor (d : Descriptor) : Type 0 where
  pub fields : length d.fields ≤ max_fields
  pub reports : length d.reports ≤ max_reports
  pub bits : All IsShort d.reports
  pub placed : All (IsPlaced d.reports) d.fields

pub bits_of-small : (rs : List ReportInfo) (id : ℕ) → All IsShort rs → bits_of rs id < 2 ^ 16
bits_of-small [] id h = omega arith
bits_of-small (r ∷ rs) id (h, hs) = elim (Bool-cases (r.report_id == id)) [
  | inl e ↦ rw e h
  | inr e ↦ rw e (bits_of-small rs id hs)
]

-- The entry `k` is the first with the identifier.
pub record Finds (rs : List ReportInfo) (id k : ℕ) : Type 0 where
  pub inside : k < length rs
  pub named : (get_or rs k no_report).report_id ≡ id
  pub bits : bits_of rs id ≡ (get_or rs k no_report).input_bits
  pub after_set :
      (b other : ℕ)
      → bits_of (set rs k (record { report_id = id; input_bits = b })) other
        ≡ (if id == other then b else bits_of rs other)

first-Finds : (r : ReportInfo) (rs : List ReportInfo) → Finds (r ∷ rs) r.report_id 0
first-Finds r rs =
    let same : (r.report_id == r.report_id) ≡ true = ground arith in
    record {
      inside = omega arith;
      named = refl;
      bits = rw same refl;
      after_set = λ b other. elim (Bool-cases (r.report_id == other)) [
        | inl e ↦ rw e refl
        | inr e ↦ rw e refl
      ];
    }

later-Finds :
    (r : ReportInfo) (rs : List ReportInfo) (id k : ℕ)
    → (r.report_id == id) ≡ false
    → Finds rs id k
    → Finds (r ∷ rs) id (suc k)
later-Finds r rs id k ne f = record {
  inside = omega (arith, f.inside);
  named = f.named;
  bits = rw ne f.bits;
  after_set = λ b other. elim (Bool-cases (r.report_id == other)) [
    | inl e ↦ let apart : (id == other) ≡ false = ground arith in rw (e, apart) refl
    | inr e ↦ rw e (f.after_set b other)
  ];
}

abbrev pub FoundAt : List ReportInfo → ℕ → ℕ → Option ℕ → Type 0
FoundAt rs id i (some k) = (j : ℕ) × (k ≡ i + j) × Finds rs id j
FoundAt rs id i none =
    Finds (rs ++ record { report_id = id; input_bits = 0 } ∷ []) id (length rs)
    × ((other : ℕ)
        → bits_of (rs ++ record { report_id = id; input_bits = 0 } ∷ []) other ≡ bits_of rs other)

later-FoundAt :
    (r : ReportInfo) (rs : List ReportInfo) (id i : ℕ) (o : Option ℕ)
    → (r.report_id == id) ≡ false
    → FoundAt rs id (suc i) o
    → FoundAt (r ∷ rs) id i o
later-FoundAt r rs id i (some k) ne (j, e, f) =
    (suc j, omega (arith, e), later-Finds r rs id j ne f)
later-FoundAt r rs id i none ne (f, same) = (
  later-Finds r (rs ++ record { report_id = id; input_bits = 0 } ∷ []) id (length rs) ne f,
  λ other. elim (Bool-cases (r.report_id == other)) [
    | inl e ↦ rw e refl
    | inr e ↦ rw e (same other)
  ],
)

pub find_report-FoundAt : (rs : List ReportInfo) (id i : ℕ) → FoundAt rs id i (find_report rs id i)
unfolding find_report
find_report-FoundAt [] id i = (
  first-Finds (record { report_id = id; input_bits = 0 }) [],
  λ other. elim (Bool-cases (id == other)) [ inl e ↦ rw e refl | inr e ↦ rw e refl ],
)
find_report-FoundAt (r ∷ rs) id i = elim (Bool-cases (r.report_id == id)) [
  | inl e ↦
      let same : r.report_id ≡ id = ground arith in
      rw e (0, omega arith, subst (λ x. Finds (r ∷ rs) x 0) same (first-Finds r rs))
  | inr e ↦
      rw e
        (later-FoundAt r rs id i (find_report rs id (suc i)) e (find_report-FoundAt rs id (suc i)))
]

-- What `get_report` gives: none, or a descriptor in which the report is.
abbrev pub Claimed : ℕ → Option ℕ × Descriptor → Type 0
Claimed id (none, d) = Unit {0}
Claimed id (some k, d) = IsDescriptor d × Finds d.reports id k

appended-IsDescriptor :
    (d : Descriptor) (id : ℕ)
    → IsDescriptor d
    → length d.reports ≢ max_reports
    → ((other : ℕ)
        → bits_of (d.reports ++ record { report_id = id; input_bits = 0 } ∷ []) other
          ≡ bits_of d.reports other)
    → IsDescriptor
        (record d { reports = d.reports ++ record { report_id = id; input_bits = 0 } ∷ [] })
appended-IsDescriptor d id v free same =
    let more = d.reports ++ record { report_id = id; input_bits = 0 } ∷ [] in
    record {
      fields = v.fields;
      reports = omega (
        arith,
        v.reports,
        free,
        length-append d.reports (record { report_id = id; input_bits = 0 } ∷ []),
      );
      bits =
          All-append IsShort d.reports (record { report_id = id; input_bits = 0 } ∷ []) v.bits
            (omega arith, tt);
      placed =
          All-weaken (IsPlaced d.reports) (IsPlaced more) d.fields
            (λ f p. (p.0, p.1, omega (arith, p.2, same f.report_id))) v.placed;
    }

claim_report-Claimed :
    (d : Descriptor) (id : ℕ) (o : Option ℕ)
    → IsDescriptor d
    → FoundAt d.reports id 0 o
    → Claimed id (claim_report d id o)
unfolding claim_report
claim_report-Claimed d id (some k) v (j, e, f) =
    (v, subst (Finds d.reports id) (omega (arith, e)) f)
claim_report-Claimed d id none v (f, same) = elim (Bool-cases (length d.reports == max_reports)) [
  | inl e ↦ rw e tt
  | inr e ↦ rw e (appended-IsDescriptor d id v (ground arith) same, f)
]

pub get_report-Claimed : (d : Descriptor) (id : ℕ) → IsDescriptor d → Claimed id (get_report d id)
unfolding get_report
get_report-Claimed d id v =
    claim_report-Claimed d id (find_report d.reports id 0) v (find_report-FoundAt d.reports id 0)
