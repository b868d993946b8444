-- ===== src/L2cap/Rebuild.antt =====
-- protocols/l2cap/l2cap.c: the reassembler and a PDU that arrives in fragments.
use aros_bluzing.Prelude.{
  ℕ, ◌+◌, ◌≤◌, ◌<◌, ◌≡◌, ◌≢◌, refl, sym, ◌∙◌, List, [], ◌∷◌, ◌++◌, length, append_assoc, append-nil,
  length-append, All, All-append_inv, ltb, ◌==◌, if◌then◌else◌, arith, Bool-cases, ltb→le, ltb→lt,
  le→ltb, inl, inr, true, false,
}
use mathlib.Core.Path.{subst}
use aros_bluzing.Endian.{IsByte}
use aros_bluzing.L2cap.{Reassembler, Progress, more, complete, reassembly_max, reassembler_feed}
use aros_bluzing.L2cap.Assembly.{Holds, Steps, judge, assemble, expected}
use aros_bluzing.L2cap.Reassembly.{reassembler_feed-Steps, expected-append}

-- A whole PDU: its header declares the length that it has.
pub record IsPdu (pdu : List ℕ) : Type 0 where
  pub declared : expected pdu ≡ length pdu
  pub header : 4 ≤ length pdu
  pub small : length pdu ≤ reassembly_max
  pub bytes : All IsByte pdu

-- The outcome when `t` is still to come.
abbrev pub progress : List ℕ → Progress
progress [] = complete
progress (x ∷ t) = more

abbrev pub concat : List (List ℕ) → List ℕ
concat [] = []
concat (c ∷ cs) = c ++ concat cs

-- The fragments after the first are fed with the flag of a continuation.
abbrev pub feed_rest : List (List ℕ) → Progress × Reassembler → Progress × Reassembler
feed_rest [] p = p
feed_rest (c ∷ cs) p = feed_rest cs (reassembler_feed 1 c (length c) p.1)

prefix_short : (s t : List ℕ) → 0 < length t → ◌≡◌ {A = Progress × List ℕ} (more, s) (progress t, s)
prefix_short s [] h = absurd (omega arith)
prefix_short s (x ∷ t) h = refl

prefix_long :
    (s t : List ℕ)
    → expected s ≡ length s + length t
    → ◌≡◌ {A = Progress × List ℕ}
        (if length s == expected s then (complete, s) else (more, s))
        (progress t, s)
prefix_long s [] e = let test : (length s == expected s) ≡ true = ground arith in rw test refl
prefix_long s (x ∷ t) e = let test : (length s == expected s) ≡ false = ground arith in rw test refl

judge_prefix : (s t : List ℕ) → IsPdu (s ++ t) → judge s ≡ (progress t, s)
unfolding judge
judge_prefix s t v = elim (Bool-cases (ltb (length s) 4)) [
  | inl h ↦ rw h (prefix_short s t (omega (arith, ltb→lt _ _ h, length-append s t, v.header)))
  | inr h ↦
      let same : expected s ≡ length s + length t =
        sym (expected-append s t (ltb→le _ _ h)) ∙ v.declared ∙ length-append s t in
      let fits : ltb reassembly_max (expected s) ≡ false =
        le→ltb _ _ (omega (arith, length-append s t, v.small)) in
      let within : ltb (expected s) (length s) ≡ false = le→ltb _ _ (omega arith) in
      rw (h, fits, within) (prefix_long s t same)
]

start_prefix :
    (pb : ℕ) (s t old : List ℕ) → pb ≢ 1 → IsPdu (s ++ t) → assemble pb s old ≡ (progress t, s)
unfolding assemble
start_prefix pb s t old h v =
    let start : (pb == 1) ≡ false = ground arith in
    let fits : ltb reassembly_max (length s) ≡ false =
      le→ltb _ _ (omega (arith, length-append s t, v.small)) in
    rw (start, fits) (judge_prefix s t v)

continue_prefix :
    (s c t : List ℕ) → 0 < length s → IsPdu ((s ++ c) ++ t) → assemble 1 c s ≡ (progress t, s ++ c)
unfolding assemble
continue_prefix s c t h v =
    let begun : (length s == 0) ≡ false = ground arith in
    let fits : ltb reassembly_max (length s + length c) ≡ false =
      le→ltb _ _ (omega (arith, length-append (s ++ c) t, length-append s c, v.small)) in
    rw (begun, fits) (judge_prefix (s ++ c) t v)

pub feed_rest_lem :
    (cs : List (List ℕ)) (s t : List ℕ) (p : Progress × Reassembler)
    → 0 < length s
    → IsPdu (s ++ (concat cs ++ t))
    → Steps p (progress (concat cs ++ t), s)
    → Steps (feed_rest cs p) (progress t, s ++ concat cs)
feed_rest_lem [] s t p h v e = rw (append-nil s) e
feed_rest_lem (c ∷ cs) s t p h v e =
    let ungrouped : (s ++ ((c ++ concat cs) ++ t)) ≡ ((s ++ c) ++ (concat cs ++ t)) =
      simp append_assoc in
    let w : IsPdu ((s ++ c) ++ (concat cs ++ t)) = subst IsPdu ungrouped v in
    let bytes = All-append_inv IsByte (s ++ c) (concat cs ++ t) (w.bytes) in
    let chunk = All-append_inv IsByte s c (bytes.0) in
    let fed =
      reassembler_feed-Steps 1 c s (p.1) (chunk.1)
        (omega (arith, length-append (s ++ c) (concat cs ++ t), length-append s c, w.small))
        (e.1) in
    let next =
      subst (Steps (reassembler_feed 1 c (length c) (p.1)))
        (continue_prefix s c (concat cs ++ t) h w) fed in
    subst (λ l. Steps (feed_rest (c ∷ cs) p) (progress t, l)) (append_assoc s c (concat cs))
      (feed_rest_lem cs (s ++ c) t (reassembler_feed 1 c (length c) (p.1))
        (omega (arith, length-append s c)) w next)

-- A PDU cut into fragments in any way, the first of them not empty: after any number of fragments
-- the reassembler asks for more if bytes are missing and reports completion if none are, and then it
-- holds exactly the bytes fed so far, whatever it held before.
pub fragments_rebuild :
    (pb : ℕ) (first t : List ℕ) (cs : List (List ℕ)) (ra : Reassembler) (s : List ℕ)
    → pb ≢ 1
    → 0 < length first
    → IsPdu (first ++ (concat cs ++ t))
    → Holds ra s
    → Steps
        (feed_rest cs (reassembler_feed pb first (length first) ra))
        (progress t, first ++ concat cs)
fragments_rebuild pb first t cs ra s h nonempty v held =
    let bytes = All-append_inv IsByte first (concat cs ++ t) (v.bytes) in
    let fed =
      reassembler_feed-Steps pb first s ra (bytes.0)
        (omega (arith, length-append first (concat cs ++ t), v.small)) held in
    feed_rest_lem cs first t (reassembler_feed pb first (length first) ra) nonempty v (
      subst (Steps (reassembler_feed pb first (length first) ra))
        (start_prefix pb first (concat cs ++ t) s h v) fed)
