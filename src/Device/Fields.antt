-- ===== src/Device/Fields.antt =====
-- core/device/device_registry.c: the parse of an advertising payload against the fields it is made
-- of.
use aros_bluzing.Prelude.{
  ℕ, zero, suc, ◌+◌, ◌*◌, ◌^◌, ◌≤◌, ◌<◌, ◌≡◌, refl, sym, ap, ◌∙◌, List, [], ◌∷◌, ◌++◌, length, drop,
  take-append, drop-append, drop-drop, get_or-drop, length-append, append_assoc, All, ltb, leb,
  ◌==◌, not, ◌&&◌, ◌||◌, if◌then◌else◌, Bool, true, false, Bool-cases, some, ◌⊎◌, inl, inr, arith,
  le→ltb, lt→ltb,
}
use aros_bluzing.Endian.{IsByte, at, shr, read_le16}
use aros_bluzing.Endian.Values.{read_le16_value}
use aros_bluzing.Buffer.{add_size, sub_size}
use aros_bluzing.Device.Advertised.{
  AdvInfo, no_info, pair, scan_uuids, is_none, take_name, take_appearance, adv_field, adv_loop,
  adv_parse,
}

-- A field of an advertising payload.
pub record AdField : Type 0 where
  pub type : ℕ
  pub payload : List ℕ

abbrev pub IsField : AdField → Type 0
IsField f = (length f.payload < 255) × All IsByte f.payload

abbrev pub fields_bytes : List AdField → List ℕ
fields_bytes [] = []
fields_bytes (f ∷ fs) = suc (length f.payload) ∷ f.type ∷ (f.payload ++ fields_bytes fs)

-- What may follow the fields: nothing, a length of 0, or a field that is cut off.
abbrev pub Ends : List ℕ → Type 0
Ends [] = Unit
Ends (n ∷ t) = (n ≡ 0) ⊎ (length t < n)

-- The UUID of HID over GATT is in the list.
abbrev pub lists_hid : List ℕ → Bool
lists_hid [] = false
lists_hid (a ∷ []) = false
lists_hid (a ∷ b ∷ t) = if a + 256 * b == 0x1812 then true else lists_hid t

abbrev pub note_uuids : List ℕ → AdvInfo → AdvInfo
note_uuids payload info = if lists_hid payload then record info { hid = true } else info

abbrev pub note_name : Bool → List ℕ → AdvInfo → AdvInfo
note_name whole payload info =
    if is_none info.name || (whole && not info.name_complete)
    then record info { name = some payload; name_len = length payload; name_complete = whole }
    else info

abbrev pub note_appearance : List ℕ → AdvInfo → AdvInfo
note_appearance [] info = info
note_appearance (a ∷ []) info = info
note_appearance (a ∷ b ∷ t) info =
    if shr (a + 256 * b) 6 == 15
    then record info { appearance = a + 256 * b; hid = true }
    else record info { appearance = a + 256 * b }

-- What one field says.
abbrev pub effect : AdField → AdvInfo → AdvInfo
effect f info =
    if (f.type == 2) || (f.type == 3)
    then note_uuids f.payload info
    else if (f.type == 8) || (f.type == 9)
    then note_name (f.type == 9) f.payload info
    else if f.type == 0x19
    then note_appearance f.payload info
    else info

abbrev pub effects : List AdField → AdvInfo → AdvInfo
effects [] info = info
effects (f ∷ fs) info = effects fs (effect f info)

pair_value : (a b : ℕ) (t : List ℕ) → IsByte a → IsByte b → pair (a ∷ b ∷ t) ≡ a + 256 * b
unfolding read_le16
pair_value a b t ha hb = read_le16_value a b t ha hb

found_again :
    (b : Bool) (out : AdvInfo)
    → ◌≡◌ {A = AdvInfo}
        (if b then record out { hid = true } else record out { hid = true })
        (record out { hid = true })
found_again true out = refl
found_again false out = refl

scan_uuids_lem :
    (us rest p : List ℕ) (fuel len u : ℕ) (out : AdvInfo)
    → drop u p ≡ us ++ rest
    → len ≡ u + length us
    → len < 2 ^ 32
    → length us ≤ fuel
    → All IsByte us
    → scan_uuids fuel p len u out ≡ note_uuids us out
unfolding scan_uuids
scan_uuids_lem [] rest p zero len u out d e s f h = refl
scan_uuids_lem [] rest p (suc fuel) len u out d e s f h =
    rw (le→ltb (add_size u 1) len (omega arith)) refl
scan_uuids_lem (a ∷ []) rest p zero len u out d e s f h = refl
scan_uuids_lem (a ∷ []) rest p (suc fuel) len u out d e s f h =
    rw (le→ltb (add_size u 1) len (omega arith)) refl
scan_uuids_lem (a ∷ b ∷ us) rest p zero len u out d e s f h = absurd (omega arith)
scan_uuids_lem (a ∷ b ∷ us) rest p (suc fuel) len u out d e s f (ha, hs) =
    let value : pair (drop u p) ≡ a + 256 * b = ap pair d ∙ pair_value a b (us ++ rest) ha (hs.0) in
    let next : add_size u 2 ≡ u + 2 = omega arith in
    let after : drop (u + 2) p ≡ us ++ rest = sym (drop-drop 2 u p) ∙ ap (drop 2) d in
    rw (value, next, lt→ltb (add_size u 1) len (omega arith))
      (elim (Bool-cases (a + 256 * b == 0x1812)) [
        | inl k ↦ rw k (
            scan_uuids_lem us rest p fuel len (u + 2) (record out { hid = true }) after
              (omega arith) s (omega arith) (hs.1)
            ∙ found_again (lists_hid us) out)
        | inr k ↦ rw k (
            scan_uuids_lem us rest p fuel len (u + 2) out after (omega arith) s (omega arith)
              (hs.1))
      ])

take_appearance_lem :
    (payload rest : List ℕ) (info : AdvInfo)
    → All IsByte payload
    → take_appearance (payload ++ rest) (length payload) info ≡ note_appearance payload info
unfolding take_appearance
take_appearance_lem [] rest info h = refl
take_appearance_lem (a ∷ []) rest info h = refl
take_appearance_lem (a ∷ b ∷ t) rest info (ha, hs) =
    let enough : leb 2 (length (a ∷ b ∷ t)) ≡ true = ground arith in
    rw (enough, pair_value a b (t ++ rest) ha (hs.0)) refl

take_name_lem :
    (type : ℕ) (payload rest : List ℕ) (info : AdvInfo)
    → take_name type (payload ++ rest) (length payload) info ≡ note_name (type == 9) payload info
unfolding take_name
take_name_lem type payload rest info = rw (take-append payload rest) refl

adv_field_lem :
    (f : AdField) (rest : List ℕ) (info : AdvInfo)
    → IsField f
    → adv_field f.type (f.payload ++ rest) (length f.payload) info ≡ effect f info
unfolding adv_field
adv_field_lem f rest info (small, bytes) =
    rw
      (
        scan_uuids_lem f.payload rest (f.payload ++ rest) (length f.payload) (length f.payload) 0
            info refl (omega arith) (omega arith) (omega arith) bytes,
        take_name_lem f.type f.payload rest info,
        take_appearance_lem f.payload rest info bytes,
      )
      refl

adv_loop_end :
    (tail bytes : List ℕ) (fuel i : ℕ) (info : AdvInfo)
    → drop i bytes ≡ tail
    → All IsByte tail
    → Ends tail
    → length bytes ≡ i + length tail
    → length bytes < 2 ^ 32
    → adv_loop fuel bytes (length bytes) i info ≡ info
unfolding adv_loop
adv_loop_end tail bytes zero i info d b e l s = refl
adv_loop_end [] bytes (suc fuel) i info d b e l s = rw (le→ltb i (length bytes) (omega arith)) refl
adv_loop_end (n ∷ tail) bytes (suc fuel) i info d b e l s =
    let head : at bytes i ≡ n =
      ap (at bytes) {y = i + 0} (omega arith)
      ∙ sym (get_or-drop i 0 bytes 0)
      ∙ ap (λ z. at z 0) d in
    elim (Bool-cases (at bytes i == 0)) [
      | inl z ↦ rw (lt→ltb i (length bytes) (omega arith), z) refl
      | inr z ↦
          let cut : length tail < n = elim e [
            | inl q ↦ absurd (ground (arith, head))
            | inr q ↦ q
          ] in
          let short : ltb (length bytes) (add_size (add_size i 1) (at bytes i)) ≡ true =
            lt→ltb _ _ (omega (arith, b.0)) in
          rw (lt→ltb i (length bytes) (omega arith), z, short) refl
    ]

adv_loop_lem :
    (fs : List AdField) (tail bytes : List ℕ) (fuel i : ℕ) (info : AdvInfo)
    → drop i bytes ≡ fields_bytes fs ++ tail
    → All IsField fs
    → All IsByte tail
    → Ends tail
    → length bytes ≡ i + length (fields_bytes fs ++ tail)
    → length bytes < 2 ^ 32
    → length (fields_bytes fs) ≤ fuel
    → adv_loop fuel bytes (length bytes) i info ≡ effects fs info
unfolding adv_loop
adv_loop_lem [] tail bytes fuel i info d h b e l s enough =
    adv_loop_end tail bytes fuel i info d b e l s
adv_loop_lem (f ∷ fs) tail bytes zero i info d h b e l s enough = absurd (omega arith)
adv_loop_lem (f ∷ fs) tail bytes (suc fuel) i info d h b e l s enough =
    let p = f.payload in
    let rest = fields_bytes fs ++ tail in
    let head : at bytes i ≡ suc (length p) =
      ap (at bytes) (omega arith) ∙ sym (get_or-drop i 0 bytes 0) ∙ ap (λ z. at z 0) d in
    let type : at bytes (add_size i 1) ≡ f.type =
      ap (at bytes) (omega arith) ∙ sym (get_or-drop i 1 bytes 0) ∙ ap (λ z. at z 1) d in
    let body : drop (add_size i 2) bytes ≡ p ++ rest =
      ap (λ k. drop k bytes) {y = i + 2} (omega arith)
      ∙ sym (drop-drop 2 i bytes)
      ∙ ap (drop 2) d
      ∙ append_assoc p (fields_bytes fs) tail in
    let size : sub_size (suc (length p)) 1 ≡ length p = omega (arith, h.0.0) in
    let total : length (fields_bytes (f ∷ fs) ++ tail) ≡ 2 + length p + length rest =
      omega (arith, ap length (append_assoc p (fields_bytes fs) tail), length-append p rest) in
    let nonzero : (at bytes i == 0) ≡ false = ground (arith, head) in
    let fits : ltb (length bytes) (add_size (add_size i 1) (at bytes i)) ≡ false =
      le→ltb _ _ (omega (arith, h.0.0)) in
    let next : add_size i (add_size 1 (at bytes i)) ≡ i + 2 + length p = omega (arith, h.0.0) in
    let after : drop (i + 2 + length p) bytes ≡ rest =
      sym (drop-drop (length p) (i + 2) bytes)
      ∙ ap (λ k. drop (length p) (drop k bytes)) {y = add_size i 2} (omega arith)
      ∙ ap (drop (length p)) body
      ∙ drop-append p rest in
    let minus : sub_size (at bytes i) 1 ≡ length p = ap (λ z. sub_size z 1) head ∙ size in
    rw
      (
        lt→ltb i (length bytes) (omega arith),
        nonzero,
        fits,
        next,
        type,
        body,
        minus,
        adv_field_lem f rest info (h.0),
      )
      (adv_loop_lem fs tail bytes fuel (i + 2 + length p) (effect f info) after (h.1) b e
        (omega arith) s (omega (arith, length-append p (fields_bytes fs))))

-- An advertising payload that is a sequence of well-formed fields, followed by nothing, by padding
-- or by a field that is cut off, is parsed to what its fields say one after the other: HID from a
-- UUID list or an appearance, the last appearance, and the first name unless a complete one comes
-- later. What follows the fields adds nothing.
pub adv_parse_fields :
    (fs : List AdField) (tail : List ℕ)
    → All IsField fs
    → All IsByte tail
    → Ends tail
    → length (fields_bytes fs ++ tail) < 2 ^ 32
    → adv_parse (some (fields_bytes fs ++ tail)) (length (fields_bytes fs ++ tail))
      ≡ effects fs no_info
unfolding adv_parse
adv_parse_fields fs tail h b e s =
    let bytes = fields_bytes fs ++ tail in
    adv_loop_lem fs tail bytes (length bytes) 0 no_info refl h b e (omega arith) s
      (omega (arith, length-append (fields_bytes fs) tail))
