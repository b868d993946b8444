-- ===== src/Buffer/Reader/Refine.antt =====
-- core/buffer/buffer.c: a reader as the list of the bytes that it has not read, and its operations as
-- parsers of that list.
use aros_bluzing.Prelude.{
  ℕ, zero, suc, ◌+◌, ◌-◌, ◌≤◌, ◌<◌, ◌≡◌, refl, sym, ap, ap₂, ◌∙◌, List, [], ◌∷◌, ◌++◌, length, take,
  drop, length-take, take_all, length-drop, drop-drop, take-drop, get_or-take, take-take, ltb,
  if◌then◌else◌, Bool, not, true, false, Bool-cases, ltb→le, inl, inr, none, some, arith,
}
use aros_bluzing.Status.{ok, err, buffer_underflow, Action, ◌>>◌}
use aros_bluzing.Status.Sim.{Agree, Simulates}
use aros_bluzing.Buffer.{size_mod, add_size}
use aros_bluzing.Buffer.Reader
use aros_bluzing.Buffer.Reader.{Reader, reader_init, remaining, reader_check, consume, peek}
use aros_bluzing.Endian
use aros_bluzing.Endian.{at}

-- The caller's buffer really holds `len` bytes, and the cursor is not past them.
pub record IsValid (r : Reader) : Type 0 where
  pub held : r.len ≤ length r.bytes
  pub sized : r.len < size_mod
  pub within : r.pos ≤ r.len

unfoldable pub unread : Reader → List ℕ
unread r = take (r.len - r.pos) (drop r.pos r.bytes)

-- `l` is what is left to read.
pub record Views (r : Reader) (l : List ℕ) : Type 0 where
  pub valid : IsValid r
  pub rest : unread r ≡ l

pub remaining_lem : {r : Reader} → IsValid r → remaining r ≡ r.len - r.pos
unfolding remaining
remaining_lem v = omega arith

length-unread : {r : Reader} → IsValid r → length (unread r) ≡ r.len - r.pos
unfolding unread
length-unread {r} v =
    omega (arith, length-take (r.len - r.pos) (drop r.pos r.bytes), length-drop r.pos r.bytes)

pub remaining-unread : {r : Reader} → IsValid r → remaining r ≡ length (unread r)
remaining-unread v = omega (arith, remaining_lem v, length-unread v)

pub reader_init-Views :
    (bytes : List ℕ) (len : ℕ)
    → len ≤ length bytes
    → len < size_mod
    → Views (reader_init bytes len) (take len bytes)
unfolding reader_init unread
reader_init-Views bytes len h small = record {
  valid = omega arith;
  rest = ap (λ k. take k bytes) (omega arith);
}

-- A reader over the whole of a buffer.
pub reader_init-Views_all :
    (bytes : List ℕ) {len : ℕ}
    → len ≡ length bytes
    → len < size_mod
    → Views (reader_init bytes len) bytes
reader_init-Views_all bytes {len} e small =
    let v = reader_init-Views bytes len (omega arith) small in
    record { valid = v.valid; rest = v.rest ∙ take_all len bytes (omega arith) }

-- Whether a list has `n` elements.
abbrev pub has : ℕ → List ℕ → Bool
has zero l = true
has (suc n) [] = false
has (suc n) (x ∷ l) = has n l

pub has-length : (n : ℕ) (l : List ℕ) → has n l ≡ not (ltb (length l) n)
has-length zero l = ground arith
has-length (suc n) [] = ground arith
has-length (suc n) (x ∷ l) = ground (arith, has-length n l)

pub has_append : (l rest : List ℕ) → has (length l) (l ++ rest) ≡ true
has_append [] rest = refl
has_append (x ∷ l) rest = has_append l rest

-- What a list parser does: it takes `n` bytes if they are there.
abbrev pub need : {A : Type 0} → ℕ → (List ℕ → A) → Action (List ℕ) A
need n value l = if has n l then (ok (value l), drop n l) else (err buffer_underflow, l)

-- `value` looks at no more than `n` bytes.
abbrev Local : {A : Type 0} → ℕ → (List ℕ → A) → Type 0
Local n value = (m : ℕ) (l : List ℕ) → n ≤ m → value (take m l) ≡ value l

unread-step :
    {r : Reader} (n : ℕ)
    → IsValid r
    → n ≤ r.len - r.pos
    → IsValid (record r { pos = add_size r.pos n })
      × (unread (record r { pos = add_size r.pos n }) ≡ drop n (unread r))
unfolding unread
unread-step {r} n v h =
    let p : add_size r.pos n ≡ r.pos + n = omega arith in
    let m = r.len - r.pos - n in
    (
      omega arith,
      ap (λ k. take (r.len - k) (drop k r.bytes)) p
          ∙ ap₂ take {y = m} (omega arith) (sym (drop-drop n r.pos r.bytes))
          ∙ take-drop m n (drop r.pos r.bytes)
          ∙ ap (λ k. drop n (take k (drop r.pos r.bytes))) (omega arith),
    )

checked-Simulates :
    {A : Type 0} (n : ℕ) (value : List ℕ → A)
    → Local n value
    → Simulates Views (reader_check n >> consume n value) (need n value)
unfolding reader_check unread
checked-Simulates n value loc r l v =
    let e : remaining r ≡ length l = remaining-unread v.valid ∙ ap length v.rest in
    elim (Bool-cases (ltb (length l) n)) [
      | inl short ↦ rw (e, has-length n l, short) (refl, v)
      | inr enough ↦
          let m = r.len - r.pos in
          let fits : n ≤ m = omega (arith, ltb→le _ _ enough, remaining_lem v.valid, e) in
          let (valid, rest) = unread-step n v.valid fits in
          rw (e, has-length n l, enough)
            (
              ap ok (sym (loc m (drop r.pos r.bytes) fits) ∙ ap value v.rest),
              record { valid = valid; rest = rest ∙ ap (drop n) v.rest },
            )
    ]

Local-u8 : Local 1 (λ p. at p 0)
Local-u8 m l h = get_or-take m 0 l 0 h

Local-le16 : Local 2 Endian.read_le16
unfolding Endian.read_le16
Local-le16 m l h = rw (get_or-take m 0 l 0 (omega arith), get_or-take m 1 l 0 (omega arith))

Local-be16 : Local 2 Endian.read_be16
unfolding Endian.read_be16
Local-be16 m l h = rw (get_or-take m 0 l 0 (omega arith), get_or-take m 1 l 0 (omega arith))

Local-le24 : Local 3 Endian.read_le24
unfolding Endian.read_le24
Local-le24 m l h = rw (
  get_or-take m 0 l 0 (omega arith),
  get_or-take m 1 l 0 (omega arith),
  get_or-take m 2 l 0 (omega arith),
)

Local-be24 : Local 3 Endian.read_be24
unfolding Endian.read_be24
Local-be24 m l h = rw (
  get_or-take m 0 l 0 (omega arith),
  get_or-take m 1 l 0 (omega arith),
  get_or-take m 2 l 0 (omega arith),
)

Local-le32 : Local 4 Endian.read_le32
unfolding Endian.read_le32
Local-le32 m l h = rw (
  get_or-take m 0 l 0 (omega arith),
  get_or-take m 1 l 0 (omega arith),
  get_or-take m 2 l 0 (omega arith),
  get_or-take m 3 l 0 (omega arith),
)

Local-be32 : Local 4 Endian.read_be32
unfolding Endian.read_be32
Local-be32 m l h = rw (
  get_or-take m 0 l 0 (omega arith),
  get_or-take m 1 l 0 (omega arith),
  get_or-take m 2 l 0 (omega arith),
  get_or-take m 3 l 0 (omega arith),
)

drop_four : (m : ℕ) (l : List ℕ) → 8 ≤ m → drop 4 (take m l) ≡ take (m - 4) (drop 4 l)
drop_four m l h =
    ap (λ k. drop 4 (take k l)) {y = 4 + (m - 4)} (omega arith) ∙ sym (take-drop (m - 4) 4 l)

Local-le64 : Local 8 Endian.read_le64
unfolding Endian.read_le64
Local-le64 m l h =
    rw (drop_four m l h, Local-le32 m l (omega arith), Local-le32 (m - 4) (drop 4 l) (omega arith))

Local-be64 : Local 8 Endian.read_be64
unfolding Endian.read_be64
Local-be64 m l h =
    rw (drop_four m l h, Local-be32 m l (omega arith), Local-be32 (m - 4) (drop 4 l) (omega arith))

pub read_u8-Views : Simulates Views Reader.read_u8 (need 1 (λ p. at p 0))
unfolding Reader.read_u8
read_u8-Views = checked-Simulates 1 (λ p. at p 0) Local-u8

pub read_le16-Views : Simulates Views Reader.read_le16 (need 2 Endian.read_le16)
unfolding Reader.read_le16
read_le16-Views = checked-Simulates 2 Endian.read_le16 Local-le16

pub read_le24-Views : Simulates Views Reader.read_le24 (need 3 Endian.read_le24)
unfolding Reader.read_le24
read_le24-Views = checked-Simulates 3 Endian.read_le24 Local-le24

pub read_le32-Views : Simulates Views Reader.read_le32 (need 4 Endian.read_le32)
unfolding Reader.read_le32
read_le32-Views = checked-Simulates 4 Endian.read_le32 Local-le32

pub read_le64-Views : Simulates Views Reader.read_le64 (need 8 Endian.read_le64)
unfolding Reader.read_le64
read_le64-Views = checked-Simulates 8 Endian.read_le64 Local-le64

pub read_be16-Views : Simulates Views Reader.read_be16 (need 2 Endian.read_be16)
unfolding Reader.read_be16
read_be16-Views = checked-Simulates 2 Endian.read_be16 Local-be16

pub read_be24-Views : Simulates Views Reader.read_be24 (need 3 Endian.read_be24)
unfolding Reader.read_be24
read_be24-Views = checked-Simulates 3 Endian.read_be24 Local-be24

pub read_be32-Views : Simulates Views Reader.read_be32 (need 4 Endian.read_be32)
unfolding Reader.read_be32
read_be32-Views = checked-Simulates 4 Endian.read_be32 Local-be32

pub read_be64-Views : Simulates Views Reader.read_be64 (need 8 Endian.read_be64)
unfolding Reader.read_be64
read_be64-Views = checked-Simulates 8 Endian.read_be64 Local-be64

pub read_bytes-Views : (n : ℕ) → Simulates Views (Reader.read_bytes n) (need n (take n))
unfolding Reader.read_bytes
read_bytes-Views n = checked-Simulates n (take n) (λ m l h. take-take n m l h)

pub skip-Views : (n : ℕ) → Simulates Views (Reader.skip n) (need n (λ _. tt))
unfolding Reader.skip
skip-Views n = checked-Simulates n (λ _. tt) (λ m l h. refl)

-- A peek sees the next `n` bytes, or nothing if there are fewer.
pub peek-Views :
    (n : ℕ) (r : Reader) (l : List ℕ)
    → Views r l
    → peek r n ≡ (if has n l then some (take n l) else none)
unfolding peek reader_check unread
peek-Views n r l v =
    let e : remaining r ≡ length l = remaining-unread v.valid ∙ ap length v.rest in
    elim (Bool-cases (ltb (length l) n)) [
      | inl short ↦ rw (e, has-length n l, short)
      | inr enough ↦
          let m = r.len - r.pos in
          let fits : n ≤ m = omega (arith, ltb→le _ _ enough, remaining_lem v.valid, e) in
          rw (e, has-length n l, enough)
            (ap some (sym (take-take n m (drop r.pos r.bytes) fits) ∙ ap (take n) v.rest))
    ]

-- Every read operation, a peek and a skip included, does to a valid reader what its list parser
-- does to the unread bytes: the same value or the same underflow, and the reader stays valid and
-- has the same bytes left.
pub reads_refine :
    (n : ℕ) (r : Reader) (l : List ℕ)
    → Views r l
    → Agree Views (Reader.read_u8 r) (need 1 (λ p. at p 0) l)
      × Agree Views (Reader.read_le16 r) (need 2 Endian.read_le16 l)
      × Agree Views (Reader.read_le24 r) (need 3 Endian.read_le24 l)
      × Agree Views (Reader.read_le32 r) (need 4 Endian.read_le32 l)
      × Agree Views (Reader.read_le64 r) (need 8 Endian.read_le64 l)
      × Agree Views (Reader.read_be16 r) (need 2 Endian.read_be16 l)
      × Agree Views (Reader.read_be24 r) (need 3 Endian.read_be24 l)
      × Agree Views (Reader.read_be32 r) (need 4 Endian.read_be32 l)
      × Agree Views (Reader.read_be64 r) (need 8 Endian.read_be64 l)
      × Agree Views (Reader.read_bytes n r) (need n (take n) l)
      × Agree Views (Reader.skip n r) (need n (λ _. tt) l)
      × (peek r n ≡ (if has n l then some (take n l) else none))
reads_refine n r l v = (
  read_u8-Views r l v,
  read_le16-Views r l v,
  read_le24-Views r l v,
  read_le32-Views r l v,
  read_le64-Views r l v,
  read_be16-Views r l v,
  read_be24-Views r l v,
  read_be32-Views r l v,
  read_be64-Views r l v,
  read_bytes-Views n r l v,
  skip-Views n r l v,
  peek-Views n r l v,
)
