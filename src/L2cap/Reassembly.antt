-- ===== src/L2cap/Reassembly.antt =====
-- protocols/l2cap/l2cap.c: the reassembler and the list of the bytes received so far.
use aros_bluzing.Prelude.{
  ℕ, ◌+◌, ◌≤◌, ◌<◌, ◌^◌, ◌≡◌, refl, sym, ap, ◌∙◌, List, [], ◌∷◌, ◌++◌, length, take, take-take,
  length-append, take_all, All, All-append, ltb, leb, ◌==◌, true, false, not, ◌⊎◌, inl, inr, arith,
  Bool-cases, ltb→le, ltb→lt, le→ltb, lt→ltb,
}
use aros_bluzing.Endian.{IsByte}
use aros_bluzing.Buffer.{add_size}
use aros_bluzing.Buffer.Writer.{store}
use aros_bluzing.Buffer.Writer.Emits.{length-store, take-store}
use aros_bluzing.L2cap.{
  Reassembler, reassembly_max, reassembler_init, check_have, finalize_header_and_check,
  reassembler_feed, header_len, wanted,
}
use aros_bluzing.L2cap.Assembly.{
  expected, judge, assemble, known, Holds, wanted_lem, Copied, Steps, reset-Holds,
}

check_have-Steps :
    (ra : Reassembler) (s : List ℕ)
    → Copied ra s
    → 4 ≤ length s
    → ra.want ≡ expected s
    → expected s ≤ reassembly_max
    → Steps (check_have ra) (judge s)
unfolding check_have judge
check_have-Steps ra s c h e f =
    let there : known s ≡ expected s = rw (le→ltb (length s) 4 h) refl in
    let nonzero : (ra.want == 0) ≡ false = ground arith in
    let kept : Holds ra s = record {
      sized = c.sized;
      front = c.front;
      held = c.held;
      small = c.small;
      want = e ∙ sym there;
      fits = omega arith;
      bytes = c.bytes;
    } in
    let over : ltb ra.want ra.have ≡ ltb (expected s) (length s) = rw (e, c.held) refl in
    let whole : (ra.have == ra.want) ≡ (length s == expected s) = rw (e, c.held) refl in
    rw (nonzero, le→ltb (length s) 4 h, le→ltb reassembly_max (expected s) f, over, whole)
      (elim (Bool-cases (ltb (expected s) (length s))) [
        | inl g ↦ rw g (refl, reset-Holds ra (c.sized))
        | inr g ↦ rw g (elim (Bool-cases (length s == expected s)) [
          | inl k ↦ rw k (refl, kept)
          | inr k ↦ rw k (refl, kept)
        ])
      ])

short-Steps :
    (ra : Reassembler) (s : List ℕ)
    → Copied ra s
    → length s < 4
    → Steps (finalize_header_and_check ra) (judge s)
unfolding check_have finalize_header_and_check judge
short-Steps ra s c h =
    let none_yet : ra.want ≡ 0 = elim (c.want) [ inl e ↦ e | inr e ↦ absurd (omega arith) ] in
    let less : leb header_len ra.have ≡ false = ground arith in
    let zero : (ra.want == 0) ≡ true = ground arith in
    rw (zero, less, lt→ltb (length s) 4 h)
      (
        refl,
        record {
          sized = c.sized;
          front = c.front;
          held = c.held;
          small = c.small;
          want = rw (lt→ltb (length s) 4 h) none_yet;
          fits = omega arith;
          bytes = c.bytes;
        },
      )

wanted-expected :
    (ra : Reassembler) (s : List ℕ) → Copied ra s → 4 ≤ length s → wanted ra.buf ≡ expected s
wanted-expected ra [] c h = absurd (omega arith)
wanted-expected ra (x ∷ []) c h = absurd (omega arith)
wanted-expected ra (x ∷ y ∷ []) c h = absurd (omega arith)
wanted-expected ra (x ∷ y ∷ z ∷ []) c h = absurd (omega arith)
wanted-expected ra (x ∷ y ∷ z ∷ t ∷ s) c h =
    let (hx, (hy, (hz, (ht, _)))) = c.bytes in
    wanted_lem x y z t ra.buf (omega (arith, c.sized))
      (sym (take-take 4 ra.have ra.buf (omega arith)) ∙ ap (take 4) (c.front))
      (hx, (hy, (hz, (ht, tt))))

finalize_long :
    (ra : Reassembler) (s : List ℕ)
    → Copied ra s
    → 4 ≤ length s
    → (ra.want ≡ 0) ⊎ ((4 ≤ length s) × (ra.want ≡ expected s) × (ra.want ≤ reassembly_max))
    → Steps (finalize_header_and_check ra) (judge s)
unfolding finalize_header_and_check
finalize_long ra s c h (inr (_, e, f)) =
    let nonzero : (ra.want == 0) ≡ false = ground arith in
    rw nonzero (check_have-Steps ra s c h e (omega arith))
finalize_long ra s c h (inl e) =
    let enough : leb header_len ra.have ≡ true = ground arith in
    let zero : (ra.want == 0) ≡ true = ground arith in
    rw (zero, enough, wanted-expected ra s c h)
      (elim (Bool-cases (ltb reassembly_max (expected s))) [
        | inl g ↦
            rw g (unfold judge in rw (g, le→ltb (length s) 4 h) (refl, reset-Holds _ (c.sized)))
        | inr g ↦ rw g (
            check_have-Steps (record ra { want = expected s }) s
              (record {
                sized = c.sized;
                front = c.front;
                held = c.held;
                small = c.small;
                want = inr (h, refl, ltb→le _ _ g);
                bytes = c.bytes;
              })
              h refl (ltb→le _ _ g))
      ])

finalize-Steps :
    (ra : Reassembler) (s : List ℕ) → Copied ra s → Steps (finalize_header_and_check ra) (judge s)
finalize-Steps ra s c = elim (Bool-cases (ltb (length s) 4)) [
  | inl h ↦ short-Steps ra s c (ltb→lt _ _ h)
  | inr h ↦ finalize_long ra s c (ltb→le _ _ h) (c.want)
]

start-Steps :
    (ra : Reassembler) (bytes : List ℕ)
    → length ra.buf ≡ reassembly_max
    → All IsByte bytes
    → length bytes ≤ reassembly_max
    → Steps
        (finalize_header_and_check
          (record ra { buf = store ra.buf 0 bytes; have = length bytes; want = 0 }))
        (judge bytes)
start-Steps ra bytes h b e = finalize-Steps _ bytes (record {
  sized = length-store ra.buf 0 bytes ∙ h;
  front =
      ap (λ k. take k (store ra.buf 0 bytes)) {y = 0 + length bytes} (omega arith)
      ∙ take-store ra.buf 0 bytes (omega arith);
  held = refl;
  small = e;
  want = inl refl;
  bytes = b;
})

pub expected-append : (s t : List ℕ) → 4 ≤ length s → expected (s ++ t) ≡ expected s
expected-append [] t h = absurd (omega arith)
expected-append (x ∷ []) t h = absurd (omega arith)
expected-append (x ∷ y ∷ s) t h = refl

known-append :
    (want : ℕ) (s t : List ℕ)
    → want ≡ known s
    → want ≤ reassembly_max
    → (want ≡ 0) ⊎ ((4 ≤ length (s ++ t)) × (want ≡ expected (s ++ t)) × (want ≤ reassembly_max))
known-append want s t e f = elim (Bool-cases (ltb (length s) 4)) [
  | inl h ↦ inl (e ∙ rw h refl)
  | inr h ↦ inr (
    omega (arith, length-append s t, ltb→le _ _ h),
    e ∙ rw h (sym (expected-append s t (ltb→le _ _ h))),
    f,
  )
]

continue-Steps :
    (ra : Reassembler) (s bytes : List ℕ)
    → Holds ra s
    → All IsByte bytes
    → length s + length bytes ≤ reassembly_max
    → Steps
        (finalize_header_and_check
          (record ra { buf = store ra.buf ra.have bytes; have = length s + length bytes }))
        (judge (s ++ bytes))
continue-Steps ra s bytes v b e = finalize-Steps _ (s ++ bytes) (record {
  sized = length-store ra.buf ra.have bytes ∙ v.sized;
  front =
      ap (λ k. take (k + length bytes) (store ra.buf ra.have bytes)) (sym (v.held))
      ∙ take-store ra.buf ra.have bytes (omega (arith, v.held, v.sized))
      ∙ ap (λ t. t ++ bytes) (v.front);
  held = sym (length-append s bytes);
  small = e;
  want = known-append ra.want s bytes (v.want) (v.fits);
  bytes = All-append IsByte s bytes (v.bytes) b;
})

-- A reassembler that holds the bytes `s` answers a fragment with any flag and any contents as the
-- description does, and afterwards holds what the description keeps.
pub reassembler_feed-Steps :
    (pb : ℕ) (bytes s : List ℕ) (ra : Reassembler)
    → All IsByte bytes
    → length bytes < 2 ^ 16
    → Holds ra s
    → Steps (reassembler_feed pb bytes (length bytes) ra) (assemble pb bytes s)
unfolding reassembler_feed assemble
reassembler_feed-Steps pb bytes s ra b small v = elim (Bool-cases (not (pb == 1))) [
  | inl p ↦ elim (Bool-cases (ltb reassembly_max (length bytes))) [
    | inl g ↦ rw (p, g) (refl, reset-Holds ra (v.sized))
    | inr g ↦
        rw (p, g, take_all (length bytes) bytes (omega arith))
          (unfold reassembler_init in start-Steps ra bytes (v.sized) b (ltb→le _ _ g))
  ]
  | inr p ↦
      let empty : (ra.have == 0) ≡ (length s == 0) = rw (v.held) refl in
      elim (Bool-cases (length s == 0)) [
        | inl g ↦ rw (p, empty, g) (refl, v)
        | inr g ↦
            let total : add_size (length s) (length bytes) ≡ length s + length bytes =
              omega arith in
            let sum : add_size ra.have (length bytes) ≡ length s + length bytes =
              rw (v.held) total in
            rw (p, empty, g, sum)
              (elim (Bool-cases (ltb reassembly_max (length s + length bytes))) [
                | inl k ↦ rw k (refl, reset-Holds ra (v.sized))
                | inr k ↦
                    rw (k, take_all (length bytes) bytes (omega arith))
                      (continue-Steps ra s bytes v b (ltb→le _ _ k))
              ])
      ]
]
