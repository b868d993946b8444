-- ===== src/L2cap/Assembly.antt =====
-- protocols/l2cap/l2cap.c: the description of a reassembler by the bytes received so far, and how the
-- length of a PDU is read from them.
use aros_bluzing.Prelude.{
  ℕ, ◌+◌, ◌*◌, ◌≤◌, ◌≡◌, refl, ap, ◌∙◌, List, [], ◌∷◌, ◌++◌, length, take, All, ltb, ◌==◌, not,
  if◌then◌else◌, ◌⊎◌, arith,
}
use aros_bluzing.Status.{Action, ◌>>=◌, return}
use aros_bluzing.Endian
use aros_bluzing.Endian.{IsByte}
use aros_bluzing.Endian.Values.{read_le16_value}
use aros_bluzing.Buffer.{add_size}
use aros_bluzing.Buffer.Reader.{reader_init}
use aros_bluzing.Buffer.Reader.Refine.{need, read_le16-Views, reader_init-Views}
use aros_bluzing.Buffer.Reader.Parse.{Parses, bind-Parses, return-Parses, Reads, Reads-of}
use aros_bluzing.L2cap.{
  Header, Reassembler, Progress, more, complete, error, reassembly_max, reassembler_init,
  header_len, wanted, declared, parse_header,
}

-- The length of a PDU, header included, that its first bytes declare.
abbrev pub expected : List ℕ → ℕ
expected [] = 4
expected (a ∷ []) = 4
expected (a ∷ b ∷ s) = 4 + (a + 256 * b)

-- What to make of the bytes received so far.
unfoldable pub judge : List ℕ → Progress × List ℕ
judge s =
    if ltb (length s) 4
    then (more, s)
    else if ltb reassembly_max (expected s)
    then (error, [])
    else if ltb (expected s) (length s)
    then (error, [])
    else if length s == expected s
    then (complete, s)
    else (more, s)

-- One fragment: the progress, and the bytes that are kept.
unfoldable pub assemble : ℕ → List ℕ → List ℕ → Progress × List ℕ
assemble pb chunk s =
    if not (pb == 1)
    then if ltb reassembly_max (length chunk) then (error, []) else judge chunk
    else if length s == 0
    then (error, s)
    else if ltb reassembly_max (length s + length chunk)
    then (error, [])
    else judge (s ++ chunk)

-- The length that a reassembler has taken from the bytes `s`.
abbrev pub known : List ℕ → ℕ
known s = if ltb (length s) 4 then 0 else expected s

-- The reassembler holds the bytes `s`: they fit its buffer, and it knows the length as soon as the
-- header is there.
pub record Holds (ra : Reassembler) (s : List ℕ) : Type 0 where
  pub sized : length ra.buf ≡ reassembly_max
  pub front : take ra.have ra.buf ≡ s
  pub held : ra.have ≡ length s
  pub small : ra.have ≤ reassembly_max
  pub want : ra.want ≡ known s
  pub fits : ra.want ≤ reassembly_max
  pub bytes : All IsByte s

list_header : Action (List ℕ) Header
list_header = do
  length ← need 2 Endian.read_le16
  cid ← need 2 Endian.read_le16
  return (record { length = length; cid = cid })

parse_header-Parses : Parses parse_header list_header
unfolding parse_header list_header
parse_header-Parses = bind-Parses _ _ read_le16-Views λ length.
    bind-Parses _ _ read_le16-Views λ cid. return-Parses (record { length = length; cid = cid })

parse_header-Reads :
    (a b c d : ℕ) (t : List ℕ)
    → All IsByte (a ∷ b ∷ c ∷ d ∷ t)
    → Reads parse_header (a ∷ b ∷ c ∷ d ∷ t) (record { length = a + 256 * b; cid = c + 256 * d }) t
unfolding list_header
parse_header-Reads a b c d t (ha, (hb, (hc, (hd, _)))) =
    Reads-of parse_header-Parses
      (rw (read_le16_value a b (c ∷ d ∷ t) ha hb, read_le16_value c d t hc hd) refl)

pub wanted_lem :
    (a b c d : ℕ) (buf : List ℕ)
    → 4 ≤ length buf
    → take 4 buf ≡ a ∷ b ∷ c ∷ d ∷ []
    → All IsByte (a ∷ b ∷ c ∷ d ∷ [])
    → wanted buf ≡ 4 + (a + 256 * b)
wanted_lem a b c d buf h e v =
    let views = reader_init-Views buf 4 h (omega arith) in
    let reads =
      parse_header-Reads a b c d [] v (reader_init buf 4)
        (record { valid = views.valid; rest = views.rest ∙ e }) in
    ap (λ p. add_size header_len (declared p)) (reads.0) ∙ omega arith

-- What the reassembler is between the copy of a fragment and the check of the length.
pub record Copied (ra : Reassembler) (s : List ℕ) : Type 0 where
  pub sized : length ra.buf ≡ reassembly_max
  pub front : take ra.have ra.buf ≡ s
  pub held : ra.have ≡ length s
  pub small : ra.have ≤ reassembly_max
  pub want : (ra.want ≡ 0) ⊎ ((4 ≤ length s) × (ra.want ≡ expected s) × (ra.want ≤ reassembly_max))
  pub bytes : All IsByte s

-- The detailed step and its description agree, on the outcome and on what is kept.
abbrev pub Steps : Progress × Reassembler → Progress × List ℕ → Type 0
Steps p q = (p.0 ≡ q.0) × Holds p.1 q.1

pub reset-Holds :
    (ra : Reassembler) → length ra.buf ≡ reassembly_max → Holds (reassembler_init ra) []
unfolding reassembler_init
reset-Holds ra h = record {
  sized = h;
  front = refl;
  held = refl;
  small = omega arith;
  want = refl;
  fits = omega arith;
  bytes = tt;
}
