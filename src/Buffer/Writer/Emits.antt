-- ===== src/Buffer/Writer/Emits.antt =====
-- core/buffer/buffer.c: a sequence of writes by the bytes that it appends to the buffer.
use aros_bluzing.Prelude.{
  ℕ, ◌⊎◌, inl, inr, zero, suc, ◌+◌, ◌-◌, ◌≤◌, ◌<◌, ◌≡◌, refl, sym, ap, ◌∙◌, List, [], ◌∷◌, ◌++◌,
  length, take, drop, set, take-append_left, take-append_more, take_all, drop-set, length-append,
  length-take, length-set, append_assoc, append-nil, ltb, Bool-cases, ltb→le, ltb→lt, arith,
}
use aros_bluzing.Status.{ok, err, buffer_overflow, Result, Action, ◌>>◌, bind, return}
use aros_bluzing.Buffer.{size_mod, add_size, sub_size}
use aros_bluzing.Buffer.Writer.{Writer, writer_init, writer_remaining, writer_check, store, produce}
use aros_bluzing.Buffer.Writer
use aros_bluzing.Endian
use native.Mathlib.Decide.{dec_lt}

-- The caller's buffer really has `cap` bytes, and the cursor is not past them.
pub record IsValid (w : Writer) : Type 0 where
  pub held : w.cap ≤ length w.bytes
  pub sized : w.cap < size_mod
  pub within : w.pos ≤ w.cap

unfoldable pub written : Writer → List ℕ
written w = take w.pos w.bytes

abbrev pub room : Writer → ℕ
room w = w.cap - w.pos

pub length-store : (mem : List ℕ) (i : ℕ) (vs : List ℕ) → length (store mem i vs) ≡ length mem
unfolding store
length-store mem i [] = refl
length-store mem i (v ∷ vs) = length-store (set mem i v) (suc i) vs ∙ length-set mem i v

take-set :
    (mem : List ℕ) (i v : ℕ) → i < length mem → take (suc i) (set mem i v) ≡ take i mem ++ (v ∷ [])
take-set [] i v h = absurd (omega arith)
take-set (x ∷ mem) zero v h = refl
take-set (x ∷ mem) (suc i) v h = ap (◌∷◌ x) (take-set mem i v (omega arith))

pub take-store :
    (mem : List ℕ) (i : ℕ) (vs : List ℕ)
    → i + length vs ≤ length mem
    → take (i + length vs) (store mem i vs) ≡ take i mem ++ vs
unfolding store
take-store mem i [] h = ap (λ k. take k mem) (omega arith) ∙ sym (append-nil (take i mem))
take-store mem i (v ∷ vs) h =
    ap (λ k. take k (store (set mem i v) (suc i) vs)) {y = suc i + length vs} (omega arith)
    ∙ take-store (set mem i v) (suc i) vs (omega (arith, length-set mem i v))
    ∙ ap (λ t. t ++ vs) (take-set mem i v (omega arith))
    ∙ append_assoc (take i mem) (v ∷ []) vs

pub drop-store :
    (n : ℕ) (mem : List ℕ) (i : ℕ) (vs : List ℕ)
    → i + length vs ≤ n
    → drop n (store mem i vs) ≡ drop n mem
unfolding store
drop-store n mem i [] h = refl
drop-store n mem i (v ∷ vs) h =
    drop-store n (set mem i v) (suc i) vs (omega arith) ∙ drop-set n i v mem (omega arith)

-- What one call `m` does to `w`, where `vs` is what it has to write.
pub record Wrote (vs : List ℕ) (w : Writer) (result : Result (Unit {0})) (w' : Writer)
    : Type 0 where
  pub valid : IsValid w'
  pub cap : w'.cap ≡ w.cap
  pub fits :
      length vs ≤ room w
      → (result ≡ ok tt) × (written w' ≡ written w ++ vs) × (w'.pos ≡ w.pos + length vs)
  pub full : room w < length vs → result ≡ err buffer_overflow
  pub size : length w'.bytes ≡ length w.bytes
  pub behind : drop w.cap w'.bytes ≡ drop w.cap w.bytes
  pub part : (k : ℕ) × (k ≤ length vs) × (written w' ≡ written w ++ take k vs)

abbrev pub Emits : Action Writer (Unit {0}) → List ℕ → Type 0
Emits m vs = (w : Writer) → IsValid w → Wrote vs w (m w).0 (m w).1

pub writer_init-IsValid :
    (bytes : List ℕ) (cap : ℕ)
    → cap ≤ length bytes
    → cap < size_mod
    → IsValid (writer_init bytes cap) × (written (writer_init bytes cap) ≡ [])
unfolding writer_init written
writer_init-IsValid bytes cap h small = (omega arith, refl)

checked-Emits : (n : ℕ) (vs : List ℕ) → length vs ≡ n → Emits (writer_check n >> produce n vs) vs
unfolding writer_check writer_remaining written
checked-Emits n vs e w v = elim (Bool-cases (ltb (sub_size w.cap w.pos) n)) [
  | inl short ↦
      let few = ltb→lt _ _ short in
      rw short (record {
        valid = v;
        cap = refl;
        fits = λ h. absurd (omega arith);
        full = λ h. refl;
        size = refl;
        behind = refl;
        part = (0, omega arith, sym (append-nil (written w)));
      })
  | inr enough ↦
      let many = ltb→le _ _ enough in
      let p : add_size w.pos n ≡ w.pos + length vs = omega arith in
      rw (enough, p)
        (record {
          valid = omega (arith, length-store w.bytes w.pos vs);
          cap = refl;
          fits = λ h. (refl, take-store w.bytes w.pos vs (omega arith), refl);
          full = λ h. absurd (omega arith);
          size = length-store w.bytes w.pos vs;
          behind = drop-store w.cap w.bytes w.pos vs (omega arith);
          part = (
            length vs,
            omega arith,
            take-store w.bytes w.pos vs (omega arith)
                ∙ ap (λ t. take w.pos w.bytes ++ t) (sym (take_all (length vs) vs (omega arith))),
          );
        })
]

then_Wrote :
    {vs us : List ℕ} {w : Writer} (p : Result (Unit {0}) × Writer) {k : Action Writer (Unit {0})}
    → Wrote vs w p.0 p.1
    → Emits k us
    → Wrote (vs ++ us) w (bind p (λ _. k)).0 (bind p (λ _. k)).1
then_Wrote {vs} {us} {w} (err e, w') x b = record {
  valid = x.valid;
  cap = x.cap;
  fits = λ h. absurd (cc (x.fits (omega (arith, length-append vs us))).0);
  full = λ h. elim (dec_lt (room w) (length vs)) [
    | yes l ↦ x.full l
    | no g ↦ absurd (cc (x.fits (omega arith)).0)
  ];
  size = x.size;
  behind = x.behind;
  part =
      let (k, few, bytes) = x.part in
      (
        k,
        omega (arith, few, length-append vs us),
        bytes ∙ ap (λ t. written w ++ t) (sym (take-append_left k vs us few)),
      );
}
then_Wrote {vs} {us} {w} (ok a, w') {k} x b = elim (dec_lt (room w) (length vs)) [
  | yes l ↦ absurd (cc (x.full l))
  | no g ↦
      let (_, bytes, pos) = x.fits (omega arith) in
      let y = b w' x.valid in
      let both = length-append vs us in
      record {
        valid = y.valid;
        cap = y.cap ∙ x.cap;
        fits = λ h.
            let (done, more, end) = y.fits (omega (arith, x.cap, both)) in
            (
              done,
              more ∙ ap (λ t. t ++ us) bytes ∙ append_assoc (written w) vs us,
              omega (arith, both),
            );
        full = λ h. y.full (omega (arith, x.cap, both));
        size = y.size ∙ x.size;
        behind =
            ap (λ c. drop c (k w').1.bytes) (sym x.cap)
            ∙ y.behind
            ∙ ap (λ c. drop c w'.bytes) x.cap
            ∙ x.behind;
        part =
            let (j, few, more) = y.part in
            (
              length vs + j,
              omega (arith, few, both),
              more
                  ∙ ap (λ t. t ++ take j us) bytes
                  ∙ append_assoc (written w) vs (take j us)
                  ∙ ap (λ t. written w ++ t) (sym (take-append_more j vs us)),
            );
      }
]

-- Nothing to write.
pub done-Emits : Emits (return tt) []
done-Emits w v = record {
  valid = v;
  cap = refl;
  fits = λ h. (refl, sym (append-nil (written w)), omega arith);
  full = λ h. absurd (omega arith);
  size = refl;
  behind = refl;
  part = (0, omega arith, sym (append-nil (written w)));
}

-- Two sequences of writes, one after the other.
pub then-Emits :
    {m k : Action Writer (Unit {0})} {vs us : List ℕ}
    → Emits m vs
    → Emits k us
    → Emits (m >> k) (vs ++ us)
then-Emits {m} a b w v = then_Wrote (m w) (a w v) b

pub write_u8-Emits : (v : ℕ) → Emits (Writer.write_u8 v) (v ∷ [])
unfolding Writer.write_u8
write_u8-Emits v = checked-Emits 1 (v ∷ []) refl

pub write_le16-Emits : (v : ℕ) → Emits (Writer.write_le16 v) (Endian.write_le16 v)
unfolding Writer.write_le16 Endian.write_le16
write_le16-Emits v = checked-Emits 2 (Endian.write_le16 v) refl

pub write_le24-Emits : (v : ℕ) → Emits (Writer.write_le24 v) (Endian.write_le24 v)
unfolding Writer.write_le24 Endian.write_le24
write_le24-Emits v = checked-Emits 3 (Endian.write_le24 v) refl

pub write_le32-Emits : (v : ℕ) → Emits (Writer.write_le32 v) (Endian.write_le32 v)
unfolding Writer.write_le32 Endian.write_le32
write_le32-Emits v = checked-Emits 4 (Endian.write_le32 v) refl

pub write_le64-Emits : (v : ℕ) → Emits (Writer.write_le64 v) (Endian.write_le64 v)
unfolding Writer.write_le64 Endian.write_le64 Endian.write_le32
write_le64-Emits v = checked-Emits 8 (Endian.write_le64 v) refl

pub write_be16-Emits : (v : ℕ) → Emits (Writer.write_be16 v) (Endian.write_be16 v)
unfolding Writer.write_be16 Endian.write_be16
write_be16-Emits v = checked-Emits 2 (Endian.write_be16 v) refl

pub write_be24-Emits : (v : ℕ) → Emits (Writer.write_be24 v) (Endian.write_be24 v)
unfolding Writer.write_be24 Endian.write_be24
write_be24-Emits v = checked-Emits 3 (Endian.write_be24 v) refl

pub write_be32-Emits : (v : ℕ) → Emits (Writer.write_be32 v) (Endian.write_be32 v)
unfolding Writer.write_be32 Endian.write_be32
write_be32-Emits v = checked-Emits 4 (Endian.write_be32 v) refl

pub write_be64-Emits : (v : ℕ) → Emits (Writer.write_be64 v) (Endian.write_be64 v)
unfolding Writer.write_be64 Endian.write_be64 Endian.write_be32
write_be64-Emits v = checked-Emits 8 (Endian.write_be64 v) refl

pub write_bytes-Emits :
    (src : List ℕ) (n : ℕ) → n ≤ length src → Emits (Writer.write_bytes src n) (take n src)
unfolding Writer.write_bytes
write_bytes-Emits src n h = checked-Emits n (take n src) (omega (arith, length-take n src))

-- The outcome of writing `vs`: all of it appended, or an overflow for want of room, after which a
-- beginning of it may have been appended. What was written before stays, and so does the memory behind
-- the capacity.
abbrev pub Appends : List ℕ → Writer → Result (Unit {0}) × Writer → Type 0
Appends vs w p =
    IsValid p.1
    × (p.1.cap ≡ w.cap)
    × (length p.1.bytes ≡ length w.bytes)
    × (drop w.cap p.1.bytes ≡ drop w.cap w.bytes)
    × ((length vs ≤ room w) × (p.0 ≡ ok tt) × (written p.1 ≡ written w ++ vs)
        ⊎ (room w < length vs)
          × (p.0 ≡ err buffer_overflow)
          × ((k : ℕ) × (k ≤ length vs) × (written p.1 ≡ written w ++ take k vs)))

pub Appends-of :
    {m : Action Writer (Unit {0})} {vs : List ℕ}
    → Emits m vs
    → (w : Writer) → IsValid w
    → Appends vs w (m w)
Appends-of {m} {vs} e w v =
    let x = e w v in
    (
      x.valid,
      x.cap,
      x.size,
      x.behind,
      elim (dec_lt (room w) (length vs)) [
        | yes l ↦ inr (l, x.full l, x.part)
        | no g ↦ let (done, bytes, _) = x.fits (omega arith) in inl (omega arith, done, bytes)
      ],
    )

-- Every write operation appends the bytes of its value to a valid writer that has room for them, and
-- reports an overflow to one that has not. It keeps the writer valid, its capacity, what was written
-- before, and every byte behind the capacity, in both cases.
pub writes_append :
    (v n : ℕ) (src : List ℕ) (w : Writer)
    → n ≤ length src
    → IsValid w
    → Appends (v ∷ []) w (Writer.write_u8 v w)
      × Appends (Endian.write_le16 v) w (Writer.write_le16 v w)
      × Appends (Endian.write_le24 v) w (Writer.write_le24 v w)
      × Appends (Endian.write_le32 v) w (Writer.write_le32 v w)
      × Appends (Endian.write_le64 v) w (Writer.write_le64 v w)
      × Appends (Endian.write_be16 v) w (Writer.write_be16 v w)
      × Appends (Endian.write_be24 v) w (Writer.write_be24 v w)
      × Appends (Endian.write_be32 v) w (Writer.write_be32 v w)
      × Appends (Endian.write_be64 v) w (Writer.write_be64 v w)
      × Appends (take n src) w (Writer.write_bytes src n w)
writes_append v n src w h valid = (
  Appends-of (write_u8-Emits v) w valid,
  Appends-of (write_le16-Emits v) w valid,
  Appends-of (write_le24-Emits v) w valid,
  Appends-of (write_le32-Emits v) w valid,
  Appends-of (write_le64-Emits v) w valid,
  Appends-of (write_be16-Emits v) w valid,
  Appends-of (write_be24-Emits v) w valid,
  Appends-of (write_be32-Emits v) w valid,
  Appends-of (write_be64-Emits v) w valid,
  Appends-of (write_bytes-Emits src n h) w valid,
)
