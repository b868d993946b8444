-- ===== src/Endian/Values.antt =====
-- core/buffer/endian.c as positional arithmetic: the number of a run of bytes, and the bytes of a
-- number.
use aros_bluzing.Prelude.{
  ℕ, drop, append_assoc, ◌+◌, ◌*◌, ◌/◌, ◌%◌, ◌^◌, ◌<◌, ◌≡◌, List, [], ◌∷◌, ◌++◌, bit_and,
  bit_and_mask, bit_or_at, bit_or_at_left, arith,
}
use aros_bluzing.Endian.{
  IsByte, shl, shl, shr, byte_at, read_le16, read_le24, read_le32, read_le64, read_be16, read_be24,
  read_be32, read_be64, write_le16, write_le24, write_le32, write_le64, write_be16, write_be24,
  write_be32, write_be64,
}

low_byte : (v : ℕ) → bit_and v 0xff % 256 ≡ v % 256
low_byte v = omega (arith, bit_and_mask 8 v)

byte_at_lem : (v k : ℕ) → byte_at v k ≡ v / 2 ^ k % 256
byte_at_lem v k = low_byte (shr v k)

module _ (a b : ℕ) (t : List ℕ) (ha : IsByte a) (hb : IsByte b) where
  pub read_le16_value : read_le16 (a ∷ b ∷ t) ≡ a + 256 * b
  unfolding read_le16
  read_le16_value = omega (arith, bit_or_at 8 a b (b * 256 % 2 ^ 32) (omega arith) (omega arith))

  pub read_be16_value : read_be16 (a ∷ b ∷ t) ≡ 256 * a + b
  unfolding read_be16
  read_be16_value =
      omega (arith, bit_or_at_left 8 b a (a * 256 % 2 ^ 32) (omega arith) (omega arith))

module _ (a b c : ℕ) (t : List ℕ) (ha : IsByte a) (hb : IsByte b) (hc : IsByte c) where
  pub read_le24_value : read_le24 (a ∷ b ∷ c ∷ t) ≡ a + 256 * b + 65536 * c
  unfolding read_le24
  read_le24_value =
      let x = b * 256 % 2 ^ 32 in
      let y = c * 65536 % 2 ^ 32 in
      rw
        (
          bit_or_at 8 a b x (omega arith) (omega arith),
          bit_or_at 16 (a + x) c y (omega arith) (omega arith),
        )
        (omega arith)

  pub read_be24_value : read_be24 (a ∷ b ∷ c ∷ t) ≡ 65536 * a + 256 * b + c
  unfolding read_be24
  read_be24_value =
      let x = a * 65536 % 2 ^ 32 in
      let y = b * 256 % 2 ^ 32 in
      rw
        (
          bit_or_at_left 16 y a x (omega arith) (omega arith),
          bit_or_at_left 8 c (256 * a + b) (x + y) (omega arith) (omega arith),
        )
        (omega arith)

module _ (a b c d : ℕ) (t : List ℕ) (ha : IsByte a) (hb : IsByte b) (hc : IsByte c)
    (hd : IsByte d) where
  pub read_le32_value : read_le32 (a ∷ b ∷ c ∷ d ∷ t) ≡ a + 256 * b + 65536 * c + 16777216 * d
  unfolding read_le32
  read_le32_value =
      let x = b * 256 % 2 ^ 32 in
      let y = c * 65536 % 2 ^ 32 in
      let z = d * 16777216 % 2 ^ 32 in
      rw
        (
          bit_or_at 8 a b x (omega arith) (omega arith),
          bit_or_at 16 (a + x) c y (omega arith) (omega arith),
          bit_or_at 24 (a + x + y) d z (omega arith) (omega arith),
        )
        (omega arith)

  pub read_be32_value : read_be32 (a ∷ b ∷ c ∷ d ∷ t) ≡ 16777216 * a + 65536 * b + 256 * c + d
  unfolding read_be32
  read_be32_value =
      let x = a * 16777216 % 2 ^ 32 in
      let y = b * 65536 % 2 ^ 32 in
      let z = c * 256 % 2 ^ 32 in
      rw
        (
          bit_or_at_left 24 y a x (omega arith) (omega arith),
          bit_or_at_left 16 z (256 * a + b) (x + y) (omega arith) (omega arith),
          bit_or_at_left 8 d (65536 * a + 256 * b + c) (x + y + z) (omega arith) (omega arith),
        )
        (omega arith)

-- Writing and reading back. The bytes are those of the value to base 256.
module _ (v : ℕ) where
  pub write_le16_bytes : write_le16 v ≡ v % 256 ∷ v / 256 % 256 ∷ []
  unfolding write_le16
  write_le16_bytes = rw (low_byte v, byte_at_lem v 8)

  pub write_le24_bytes : write_le24 v ≡ v % 256 ∷ v / 256 % 256 ∷ v / 65536 % 256 ∷ []
  unfolding write_le24
  write_le24_bytes = rw (low_byte v, byte_at_lem v 8, byte_at_lem v 16)

  pub write_le32_bytes :
      write_le32 v ≡ v % 256 ∷ v / 256 % 256 ∷ v / 65536 % 256 ∷ v / 16777216 % 256 ∷ []
  unfolding write_le32
  write_le32_bytes = rw (low_byte v, byte_at_lem v 8, byte_at_lem v 16, byte_at_lem v 24)

  pub write_be16_bytes : write_be16 v ≡ v / 256 % 256 ∷ v % 256 ∷ []
  unfolding write_be16
  write_be16_bytes = rw (low_byte v, byte_at_lem v 8)

  pub write_be24_bytes : write_be24 v ≡ v / 65536 % 256 ∷ v / 256 % 256 ∷ v % 256 ∷ []
  unfolding write_be24
  write_be24_bytes = rw (low_byte v, byte_at_lem v 8, byte_at_lem v 16)

  pub write_be32_bytes :
      write_be32 v ≡ v / 16777216 % 256 ∷ v / 65536 % 256 ∷ v / 256 % 256 ∷ v % 256 ∷ []
  unfolding write_be32
  write_be32_bytes = rw (low_byte v, byte_at_lem v 8, byte_at_lem v 16, byte_at_lem v 24)

-- What a read takes back of a written value: its lowest bits, all of them for a value in range.
module _ (v : ℕ) (t : List ℕ) where
  pub le16_back : read_le16 (write_le16 v ++ t) ≡ v % 2 ^ 16
  le16_back =
      let b = v / 256 % 256 in
      rw (write_le16_bytes v)
        (omega (arith, read_le16_value (v % 256) b t (omega arith) (omega arith)))

  pub be16_back : read_be16 (write_be16 v ++ t) ≡ v % 2 ^ 16
  be16_back =
      let b = v / 256 % 256 in
      rw (write_be16_bytes v)
        (omega (arith, read_be16_value b (v % 256) t (omega arith) (omega arith)))

  pub le24_back : read_le24 (write_le24 v ++ t) ≡ v % 2 ^ 24
  le24_back =
      let value = read_le24_value (v % 256) (v / 256 % 256) (v / 65536 % 256) t in
      rw (write_le24_bytes v) (omega (arith, value (omega arith) (omega arith) (omega arith)))

  pub be24_back : read_be24 (write_be24 v ++ t) ≡ v % 2 ^ 24
  be24_back =
      let value = read_be24_value (v / 65536 % 256) (v / 256 % 256) (v % 256) t in
      rw (write_be24_bytes v) (omega (arith, value (omega arith) (omega arith) (omega arith)))

  pub le32_back : read_le32 (write_le32 v ++ t) ≡ v % 2 ^ 32
  le32_back =
      let value =
        read_le32_value (v % 256) (v / 256 % 256) (v / 65536 % 256) (v / 16777216 % 256) t in
      rw (write_le32_bytes v)
        (omega (arith, value (omega arith) (omega arith) (omega arith) (omega arith)))

  pub be32_back : read_be32 (write_be32 v ++ t) ≡ v % 2 ^ 32
  be32_back =
      let value =
        read_be32_value (v / 16777216 % 256) (v / 65536 % 256) (v / 256 % 256) (v % 256) t in
      rw (write_be32_bytes v)
        (omega (arith, value (omega arith) (omega arith) (omega arith) (omega arith)))

  -- The second half starts four bytes on.
  skip_le32 : drop 4 (write_le32 v ++ t) ≡ t
  skip_le32 = rw (write_le32_bytes v)

  skip_be32 : drop 4 (write_be32 v ++ t) ≡ t
  skip_be32 = rw (write_be32_bytes v)

module _ (v : ℕ) (t : List ℕ) where
  lo : ℕ
  lo = bit_and v 0xffff_ffff % 2 ^ 32

  hi : ℕ
  hi = shr v 32 % 2 ^ 32

  halves : (lo + hi * 2 ^ 32 ≡ v % 2 ^ 64) × (lo < 2 ^ 32)
  unfolding lo hi
  halves = omega (arith, bit_and_mask 32 v)

  pub le64_back : read_le64 (write_le64 v ++ t) ≡ v % 2 ^ 64
  unfolding read_le64 write_le64 lo hi
  le64_back =
      rw
        (
          append_assoc (write_le32 lo) (write_le32 hi) t,
          le32_back lo (write_le32 hi ++ t),
          skip_le32 lo (write_le32 hi ++ t),
          le32_back hi t,
        )
        (omega (
          arith,
          halves,
          bit_or_at 32 (lo % 2 ^ 32) (hi % 2 ^ 32) (shl 64 (hi % 2 ^ 32) 32) (omega arith)
              (omega arith),
        ))

  pub be64_back : read_be64 (write_be64 v ++ t) ≡ v % 2 ^ 64
  unfolding read_be64 write_be64 lo hi
  be64_back =
      rw
        (
          append_assoc (write_be32 hi) (write_be32 lo) t,
          be32_back hi (write_be32 lo ++ t),
          skip_be32 hi (write_be32 lo ++ t),
          be32_back lo t,
        )
        (omega (
          arith,
          halves,
          bit_or_at_left 32 (lo % 2 ^ 32) (hi % 2 ^ 32) (shl 64 (hi % 2 ^ 32) 32) (omega arith)
              (omega arith),
        ))

-- Reading back a written value gives its lowest 16, 24, 32 or 64 bits (all of the value, where it
-- fits the width), in both byte orders and whatever bytes follow.
pub read-write_all :
    (v : ℕ) (t : List ℕ)
    → (read_le16 (write_le16 v ++ t) ≡ v % 2 ^ 16)
      × (read_le24 (write_le24 v ++ t) ≡ v % 2 ^ 24)
      × (read_le32 (write_le32 v ++ t) ≡ v % 2 ^ 32)
      × (read_le64 (write_le64 v ++ t) ≡ v % 2 ^ 64)
      × (read_be16 (write_be16 v ++ t) ≡ v % 2 ^ 16)
      × (read_be24 (write_be24 v ++ t) ≡ v % 2 ^ 24)
      × (read_be32 (write_be32 v ++ t) ≡ v % 2 ^ 32)
      × (read_be64 (write_be64 v ++ t) ≡ v % 2 ^ 64)
read-write_all v t = (
  le16_back v t,
  le24_back v t,
  le32_back v t,
  le64_back v t,
  be16_back v t,
  be24_back v t,
  be32_back v t,
  be64_back v t,
)
