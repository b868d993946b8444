-- ===== src/Endian.antt =====
-- core/buffer/endian.c: multi-byte values read from and written to a byte pointer.
-- A pointer that is read is the list of the bytes from it on; a write is the list of bytes that it
-- stores from the pointer on, first byte first.
pub mod Values
use aros_bluzing.Prelude.{
  ℕ, ◌+◌, ◌*◌, ◌/◌, ◌%◌, ◌^◌, ◌<◌, List, [], ◌∷◌, ◌++◌, get_or, drop, bit_and, bit_or,
}

abbrev pub IsByte : ℕ → Type 0
IsByte x = x < 256

-- `p[i]`
abbrev pub at : List ℕ → ℕ → ℕ
at p i = get_or p i 0

-- `(uintw_t)x << k` in a type of `w` bits, and `x >> k`.
abbrev pub shl : ℕ → ℕ → ℕ → ℕ
shl w x k = x * 2 ^ k % 2 ^ w

abbrev pub shr : ℕ → ℕ → ℕ
shr x k = x / 2 ^ k

-- `(uint8_t)((value >> k) & 0xff)`
abbrev pub byte_at : ℕ → ℕ → ℕ
byte_at value k = bit_and (shr value k) 0xff % 256

unfoldable pub read_le16 : List ℕ → ℕ
read_le16 p = bit_or (at p 0) (shl 32 (at p 1) 8) % 2 ^ 16

unfoldable pub read_le24 : List ℕ → ℕ
read_le24 p = bit_or (bit_or (at p 0) (shl 32 (at p 1) 8)) (shl 32 (at p 2) 16)

unfoldable pub read_le32 : List ℕ → ℕ
read_le32 p =
    bit_or (bit_or (bit_or (at p 0) (shl 32 (at p 1) 8)) (shl 32 (at p 2) 16)) (shl 32 (at p 3) 24)

unfoldable pub read_le64 : List ℕ → ℕ
read_le64 p = bit_or (read_le32 p) (shl 64 (read_le32 (drop 4 p)) 32)

unfoldable pub read_be16 : List ℕ → ℕ
read_be16 p = bit_or (shl 32 (at p 0) 8) (at p 1) % 2 ^ 16

unfoldable pub read_be24 : List ℕ → ℕ
read_be24 p = bit_or (bit_or (shl 32 (at p 0) 16) (shl 32 (at p 1) 8)) (at p 2)

unfoldable pub read_be32 : List ℕ → ℕ
read_be32 p =
    bit_or (bit_or (bit_or (shl 32 (at p 0) 24) (shl 32 (at p 1) 16)) (shl 32 (at p 2) 8)) (at p 3)

unfoldable pub read_be64 : List ℕ → ℕ
read_be64 p = bit_or (shl 64 (read_be32 p) 32) (read_be32 (drop 4 p))

unfoldable pub write_le16 : ℕ → List ℕ
write_le16 value = bit_and value 0xff % 256 ∷ byte_at value 8 ∷ []

unfoldable pub write_le24 : ℕ → List ℕ
write_le24 value = bit_and value 0xff % 256 ∷ byte_at value 8 ∷ byte_at value 16 ∷ []

unfoldable pub write_le32 : ℕ → List ℕ
write_le32 value =
    bit_and value 0xff % 256 ∷ byte_at value 8 ∷ byte_at value 16 ∷ byte_at value 24 ∷ []

-- The two halves are written one after the other, at `p` and at `p + 4`.
unfoldable pub write_le64 : ℕ → List ℕ
write_le64 value =
    write_le32 (bit_and value 0xffff_ffff % 2 ^ 32) ++ write_le32 (shr value 32 % 2 ^ 32)

unfoldable pub write_be16 : ℕ → List ℕ
write_be16 value = byte_at value 8 ∷ bit_and value 0xff % 256 ∷ []

unfoldable pub write_be24 : ℕ → List ℕ
write_be24 value = byte_at value 16 ∷ byte_at value 8 ∷ bit_and value 0xff % 256 ∷ []

unfoldable pub write_be32 : ℕ → List ℕ
write_be32 value =
    byte_at value 24 ∷ byte_at value 16 ∷ byte_at value 8 ∷ bit_and value 0xff % 256 ∷ []

unfoldable pub write_be64 : ℕ → List ℕ
write_be64 value =
    write_be32 (shr value 32 % 2 ^ 32) ++ write_be32 (bit_and value 0xffff_ffff % 2 ^ 32)
