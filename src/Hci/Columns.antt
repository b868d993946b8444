-- ===== src/Hci/Columns.antt =====
-- protocols/hci/hci.c: the responses of an Inquiry Result event and the columns that hold them.
use aros_bluzing.Prelude.{
  ℕ, zero, suc, ◌+◌, ◌*◌, ◌≤◌, ◌<◌, ◌≡◌, refl, sym, ap, ◌∙◌, List, [], ◌∷◌, ◌++◌, length, map, drop,
  get_elem?, some, length-append, append_assoc, arith, drop-drop, drop-suc, length-drop,
}
use aros_bluzing.Prelude.{column, drop-column, length-column, column_cell}
use aros_bluzing.Status.{ok, err, buffer_underflow}
use aros_bluzing.Buffer.{size_mod}
use aros_bluzing.Endian.{read_le16, read_le24}
use aros_bluzing.Hci.Inquiry.{
  InquiryEntry, InquiryIter, inquiry_iter_init, entry_at, inquiry_iter_next,
}

-- One response, byte by byte: address, page scan repetition mode, reserved, class, clock offset.
pub record Response : Type 0 where
  pub a0 : ℕ
  pub a1 : ℕ
  pub a2 : ℕ
  pub a3 : ℕ
  pub a4 : ℕ
  pub a5 : ℕ
  pub mode : ℕ
  pub r0 : ℕ
  pub r1 : ℕ
  pub c0 : ℕ
  pub c1 : ℕ
  pub c2 : ℕ
  pub k0 : ℕ
  pub k1 : ℕ

abbrev addr_of : Response → List ℕ
addr_of x = x.a0 ∷ x.a1 ∷ x.a2 ∷ x.a3 ∷ x.a4 ∷ x.a5 ∷ []

abbrev mode_of : Response → List ℕ
mode_of x = x.mode ∷ []

abbrev reserved_of : Response → List ℕ
reserved_of x = x.r0 ∷ x.r1 ∷ []

abbrev class_of : Response → List ℕ
class_of x = x.c0 ∷ x.c1 ∷ x.c2 ∷ []

abbrev clock_of : Response → List ℕ
clock_of x = x.k0 ∷ x.k1 ∷ []

-- The entry that a response stands for.
abbrev pub entry_of : Response → InquiryEntry
entry_of x = record {
  bd_addr = addr_of x;
  page_scan_repetition_mode = x.mode;
  class_of_device = read_le24 (class_of x);
  clock_offset = read_le16 (clock_of x);
}

-- The columns of an event, one behind the other.
abbrev pub columns : List Response → List ℕ
columns xs =
    column addr_of xs
    ++ (column mode_of xs ++ (column reserved_of xs ++ (column class_of xs ++ column clock_of xs)))

module _ (xs : List Response) (t : List ℕ) where
  length-columns : length xs * 14 ≤ length (columns xs ++ t)
  length-columns =
      let clocks = column clock_of xs in
      let classes = column class_of xs ++ clocks in
      let reserved = column reserved_of xs ++ classes in
      let rest = column mode_of xs ++ reserved in
      omega (
        arith,
        length-append (columns xs) t,
        length-append (column addr_of xs) rest,
        length-append (column mode_of xs) reserved,
        length-append (column reserved_of xs) classes,
        length-append (column class_of xs) clocks,
        length-column addr_of 6 (λ x. refl) xs,
        length-column mode_of 1 (λ x. refl) xs,
        length-column reserved_of 2 (λ x. refl) xs,
        length-column class_of 3 (λ x. refl) xs,
        length-column clock_of 2 (λ x. refl) xs,
      )

  abbrev addrs : List ℕ
  addrs = columns xs ++ t

  abbrev modes : List ℕ
  modes =
      column mode_of xs
      ++ (column reserved_of xs ++ (column class_of xs ++ (column clock_of xs ++ t)))

  split : addrs ≡ column addr_of xs ++ modes
  split = simp append_assoc

  to_modes : drop (length xs * 6) addrs ≡ modes
  to_modes = ap (drop (length xs * 6)) split ∙ drop-column addr_of 6 (λ x. refl) xs modes

  to_classes :
      drop (length xs * 1 + length xs * 2) modes ≡ column class_of xs ++ (column clock_of xs ++ t)
  to_classes =
      let n = length xs in
      let classes = column class_of xs ++ (column clock_of xs ++ t) in
      sym (drop-drop (n * 2) (n * 1) modes)
      ∙ ap (drop (n * 2)) (drop-column mode_of 1 (λ x. refl) xs (column reserved_of xs ++ classes))
      ∙ drop-column reserved_of 2 (λ x. refl) xs classes

  to_clocks :
      drop (length xs * 3) (column class_of xs ++ (column clock_of xs ++ t))
      ≡ column clock_of xs ++ t
  to_clocks = drop-column class_of 3 (λ x. refl) xs (column clock_of xs ++ t)

  entry_at-columns :
      (i : ℕ) (x : Response) → get_elem? xs i ≡ some x → entry_at addrs (length xs) i ≡ entry_of x
  unfolding read_le24 read_le16
  entry_at-columns i x e =
      let addr = λ (n k : ℕ) (p : n ≡ i * 6 + k) (h : k < 6).
        column_cell addr_of 6 (λ x. refl) xs modes n i k p e h in
      let classes = column clock_of xs ++ t in
      let class = λ (n k : ℕ) (p : n ≡ i * 3 + k) (h : k < 3).
        column_cell class_of 3 (λ x. refl) xs classes n i k p e h in
      let clock = λ (n k : ℕ) (p : n ≡ i * 2 + k) (h : k < 2).
        column_cell clock_of 2 (λ x. refl) xs t n i k p e h in
      rw (to_modes, to_classes, to_clocks, split)
        (rw (
          addr (i * 6) 0 (omega arith) (omega arith),
          addr (i * 6 + 1) 1 (omega arith) (omega arith),
          addr (i * 6 + 2) 2 (omega arith) (omega arith),
          addr (i * 6 + 3) 3 (omega arith) (omega arith),
          addr (i * 6 + 4) 4 (omega arith) (omega arith),
          addr (i * 6 + 5) 5 (omega arith) (omega arith),
          column_cell mode_of 1 (λ x. refl) xs
              (column reserved_of xs ++ (column class_of xs ++ classes)) i i 0 (omega arith) e
              (omega arith),
          class (i * 3) 0 (omega arith) (omega arith),
          class (i * 3 + 1) 1 (omega arith) (omega arith),
          class (i * 3 + 2) 2 (omega arith) (omega arith),
          clock (i * 2) 0 (omega arith) (omega arith),
          clock (i * 2 + 1) 1 (omega arith) (omega arith),
        ))

-- `while (bt_hci_inquiry_result_iter_next(&it, &entry) == BT_OK)`: the entries in turn.
unfoldable pub inquiry_entries : ℕ → InquiryIter → List InquiryEntry
unfolding inquiry_iter_next
inquiry_entries zero it = []
inquiry_entries (suc fuel) it =
    let (entry, it') = inquiry_iter_next it in
    elim entry [ ok e ↦ e ∷ inquiry_entries fuel it' | err _ ↦ [] ]

module _ (xs : List Response) (t : List ℕ) (few : length xs < 256) where
  abbrev iter_at : ℕ → InquiryIter
  iter_at i = record {
    base = columns xs ++ t;
    available = length (columns xs ++ t);
    count = length xs;
    index = i;
  }

  entries_from :
      (todo : List Response) (fuel i : ℕ)
      → drop i xs ≡ todo
      → i ≤ length xs
      → length todo < fuel
      → inquiry_entries fuel (iter_at i) ≡ map entry_of todo
  unfolding inquiry_entries
  entries_from todo zero i e l h = absurd (omega arith)
  entries_from [] (suc fuel) i e l h = ground (arith, length-drop i xs, ap length e)
  entries_from (x ∷ todo) (suc fuel) i e l h =
      let (here, rest, inside) = drop-suc i xs e in
      ground (
        arith,
        inside,
        entry_at-columns xs t i x here,
        entries_from todo fuel (suc i) rest (omega arith) (omega arith),
      )

-- Iterating over an Inquiry Result event returns exactly the responses that its columns hold, in
-- order, whatever bytes follow; the fuel is one more than their number.
pub inquiry_entries-columns :
    (xs : List Response) (t : List ℕ) (len : ℕ)
    → length xs < 256
    → len ≡ suc (length (columns xs ++ t))
    → len < size_mod
    → (it : InquiryIter) × (inquiry_iter_init (length xs ∷ columns xs ++ t) len ≡ ok it)
      × (inquiry_entries (suc (length xs)) it ≡ map entry_of xs)
unfolding inquiry_iter_init
inquiry_entries-columns xs t len few e small = (
  iter_at xs t few 0,
  ground (arith, length-columns xs t),
  entries_from xs t few xs (suc (length xs)) 0 refl (omega arith) (omega arith),
)

-- An event too short for the number of responses that it announces is refused.
pub inquiry_iter_init_refuses :
    (n len : ℕ) (t : List ℕ)
    → len ≤ n * 14
    → len < size_mod
    → inquiry_iter_init (n ∷ t) len ≡ err buffer_underflow
unfolding inquiry_iter_init
inquiry_iter_init_refuses n len t h small = ground arith
