-- ===== src/L2cap/Signaling/Scan.antt =====
-- protocols/l2cap/signaling.c: the scan of an option list against the options that it is made of.
use aros_bluzing.Prelude.{
  ℕ, zero, suc, ◌≤◌, ◌<◌, ◌^◌, ◌≡◌, ◌≢◌, refl, ap, ◌∙◌, List, [], ◌∷◌, ◌++◌, length, length-append,
  arith, ltb, ◌==◌, not, if◌then◌else◌, true, false, Bool-cases, inl, inr, All, lt→ltb,
}
use aros_bluzing.Status.{ok, invalid_argument, Action, ◌>>=◌, ◌>>◌, return, fail}
use aros_bluzing.Endian
use aros_bluzing.Endian.{at}
use aros_bluzing.Buffer.Reader.{remaining}
use aros_bluzing.Buffer.Reader.Refine.{
  need, remaining-unread, read_u8-Views, read_le16-Views, skip-Views,
}
use aros_bluzing.Buffer.Reader.Parse.{
  Parses, bind-Parses, return-Parses, le16_needed, payload_needed,
}
use aros_bluzing.L2cap.Signaling.{
  FoundMtu, scan_mtu_value, scan_option, scan_loop, scan_for_mtu_option, config_option_mtu,
}

-- An option of the list: the MTU, or any other type with its value.
pub data ConfigOption : Type 0 where
  mtu_option : ℕ → ConfigOption
  other_option : ℕ → List ℕ → ConfigOption

abbrev pub option_bytes : ConfigOption → List ℕ
option_bytes (mtu_option v) = 1 ∷ 2 ∷ Endian.write_le16 v
option_bytes (other_option type value) = type ∷ length value ∷ value

abbrev pub IsOption : ConfigOption → Type 0
IsOption (mtu_option v) = v < 2 ^ 16
IsOption (other_option type value) = type ≢ 1

abbrev pub options_bytes : List ConfigOption → List ℕ
options_bytes [] = []
options_bytes (o ∷ os) = option_bytes o ++ options_bytes os

-- The MTU that a list of options asks for: the last one counts.
abbrev pub found_in : FoundMtu → List ConfigOption → FoundMtu
found_in found [] = found
found_in found (mtu_option v ∷ os) = found_in (record { has_mtu = true; mtu = v }) os
found_in found (other_option type value ∷ os) = found_in found os

abbrev pub nothing : FoundMtu
nothing = record { has_mtu = false; mtu = 0 }

list_mtu_value : ℕ → Action (List ℕ) FoundMtu
list_mtu_value len =
    if not (len == 2)
    then fail invalid_argument
    else do mtu ← need 2 Endian.read_le16; return (record { has_mtu = true; mtu = mtu })

mtu_value-Parses : (len : ℕ) → Parses (scan_mtu_value len) (list_mtu_value len)
unfolding scan_mtu_value list_mtu_value
mtu_value-Parses len = elim (Bool-cases (len == 2)) [
  | inl e ↦
      rw e (
        bind-Parses _ _ read_le16-Views λ mtu. return-Parses (record { has_mtu = true; mtu = mtu }))
  | inr e ↦ rw e (λ r l v. (refl, v))
]

list_option : FoundMtu → Action (List ℕ) FoundMtu
list_option found = do
  type ← need 1 (λ p. at p 0)
  len ← need 1 (λ p. at p 0)
  if type == config_option_mtu then list_mtu_value len else do need len (λ _. tt); return found

option-Parses : (found : FoundMtu) → Parses (scan_option found) (list_option found)
unfolding scan_option list_option
option-Parses found = bind-Parses _ _ read_u8-Views λ type. bind-Parses _ _ read_u8-Views λ len.
    elim (Bool-cases (type == config_option_mtu)) [
      | inl e ↦ rw e (mtu_value-Parses len)
      | inr e ↦ rw e (bind-Parses _ _ (skip-Views len) λ _. return-Parses found)
    ]

list_loop : ℕ → FoundMtu → Action (List ℕ) FoundMtu
list_loop zero found = return found
list_loop (suc fuel) found = λ l.
    if ltb 0 (length l)
    then (list_option found >>= λ next. list_loop fuel next) l
    else (ok found, l)

loop-Parses : (fuel : ℕ) (found : FoundMtu) → Parses (scan_loop fuel found) (list_loop fuel found)
unfolding scan_loop list_loop
loop-Parses zero found r l v = (refl, v)
loop-Parses (suc fuel) found r l v =
    let same : remaining r ≡ length l = remaining-unread (v.valid) ∙ ap length (v.rest) in
    elim (Bool-cases (ltb 0 (length l))) [
      | inl e ↦
          rw (same, e) (bind-Parses _ _ (option-Parses found) (λ next. loop-Parses fuel next) r l v)
      | inr e ↦ rw (same, e) (refl, v)
    ]

pub list_scan : Action (List ℕ) FoundMtu
list_scan = λ l. list_loop (length l) nothing l

pub scan-Parses : Parses scan_for_mtu_option list_scan
unfolding scan_for_mtu_option list_scan
scan-Parses r l v =
    let same : remaining r ≡ length l = remaining-unread (v.valid) ∙ ap length (v.rest) in
    rw same (loop-Parses (length l) nothing r l v)

option_step :
    (o : ConfigOption) (found : FoundMtu) (rest : List ℕ)
    → IsOption o
    → list_option found (option_bytes o ++ rest) ≡ (ok (found_in found (o ∷ [])), rest)
unfolding list_option list_mtu_value
option_step (mtu_option v) found rest h = rw (le16_needed v rest h) refl
option_step (other_option type value) found rest h =
    let unlike : (type == config_option_mtu) ≡ false = ground arith in
    rw (unlike, payload_needed (λ _. tt) value rest) refl

option_len : (o : ConfigOption) → 0 < length (option_bytes o)
option_len (mtu_option v) = omega arith
option_len (other_option type value) = omega arith

found_step :
    (o : ConfigOption) (os : List ConfigOption) (found : FoundMtu)
    → found_in found (o ∷ os) ≡ found_in (found_in found (o ∷ [])) os
found_step (mtu_option v) os found = refl
found_step (other_option type value) os found = refl

-- Any fuel of at least the number of bytes is enough.
list_loop_lem :
    (os : List ConfigOption) (fuel : ℕ) (found : FoundMtu)
    → All IsOption os
    → length (options_bytes os) ≤ fuel
    → list_loop fuel found (options_bytes os) ≡ (ok (found_in found os), [])
unfolding list_loop
list_loop_lem [] zero found h e = refl
list_loop_lem [] (suc fuel) found h e = refl
list_loop_lem (o ∷ os) zero found h e =
    absurd (omega (arith, option_len o, length-append (option_bytes o) (options_bytes os)))
list_loop_lem (o ∷ os) (suc fuel) found h e =
    let total = length-append (option_bytes o) (options_bytes os) in
    let some_left : ltb 0 (length (option_bytes o ++ options_bytes os)) ≡ true =
      lt→ltb _ _ (omega (arith, option_len o, total)) in
    rw (some_left, option_step o found (options_bytes os) (h.0), found_step o os found)
      (list_loop_lem os fuel (found_in found (o ∷ [])) (h.1) (omega (arith, option_len o, total)))

pub list_scan_lem :
    (os : List ConfigOption)
    → All IsOption os
    → list_scan (options_bytes os) ≡ (ok (found_in nothing os), [])
unfolding list_scan
list_scan_lem os h = list_loop_lem os (length (options_bytes os)) nothing h (omega arith)
