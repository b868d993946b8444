-- ===== src/Tests/Buffers.antt =====
-- core/buffer at concrete inputs.
use aros_bluzing.Prelude.{ℕ, ◌≡◌, refl, List, [], ◌∷◌, ◌++◌, take, some, arith}
use aros_bluzing.Status.Sim.{Agree}
use aros_bluzing.Endian
use aros_bluzing.Endian.{at}
use aros_bluzing.Endian.Values.{read-write_all}
use aros_bluzing.Buffer.Reader
use aros_bluzing.Buffer.Reader.{Reader, peek, reader_init}
use aros_bluzing.Buffer.Reader.Refine.{Views, need, reads_refine, unread}
use aros_bluzing.Buffer.Writer
use aros_bluzing.Buffer.Writer.{Writer}
use aros_bluzing.Buffer.Writer.Emits.{Appends, writes_append}

abbrev five : List ℕ
five = 1 ∷ 2 ∷ 3 ∷ 4 ∷ 5 ∷ []

-- A reader over five bytes that has read one.
abbrev reader : Reader
reader = record { bytes = five; len = 5; pos = 1 }

reader-Views : Views reader (2 ∷ 3 ∷ 4 ∷ 5 ∷ [])
unfolding unread
reader-Views = record { valid = omega arith; rest = refl }

-- Writers with room for four bytes, and for one.
abbrev writer : Writer
writer = record { bytes = five; cap = 5; pos = 1 }

le32_be16_test : (Endian.read_le32 five ≡ 0x04030201) × (Endian.read_be16 five ≡ 0x0102)
unfolding Endian.read_le32 Endian.read_be16
le32_be16_test = (refl, refl)

reads_refine_example :
    Agree Views (Reader.read_u8 reader) (need 1 (λ p. at p 0) (2 ∷ 3 ∷ 4 ∷ 5 ∷ []))
    × Agree Views (Reader.read_le16 reader) (need 2 Endian.read_le16 (2 ∷ 3 ∷ 4 ∷ 5 ∷ []))
    × Agree Views (Reader.read_le24 reader) (need 3 Endian.read_le24 (2 ∷ 3 ∷ 4 ∷ 5 ∷ []))
    × Agree Views (Reader.read_le32 reader) (need 4 Endian.read_le32 (2 ∷ 3 ∷ 4 ∷ 5 ∷ []))
    × Agree Views (Reader.read_le64 reader) (need 8 Endian.read_le64 (2 ∷ 3 ∷ 4 ∷ 5 ∷ []))
    × Agree Views (Reader.read_be16 reader) (need 2 Endian.read_be16 (2 ∷ 3 ∷ 4 ∷ 5 ∷ []))
    × Agree Views (Reader.read_be24 reader) (need 3 Endian.read_be24 (2 ∷ 3 ∷ 4 ∷ 5 ∷ []))
    × Agree Views (Reader.read_be32 reader) (need 4 Endian.read_be32 (2 ∷ 3 ∷ 4 ∷ 5 ∷ []))
    × Agree Views (Reader.read_be64 reader) (need 8 Endian.read_be64 (2 ∷ 3 ∷ 4 ∷ 5 ∷ []))
    × Agree Views (Reader.read_bytes 2 reader) (need 2 (take 2) (2 ∷ 3 ∷ 4 ∷ 5 ∷ []))
    × Agree Views (Reader.skip 2 reader) (need 2 (λ _. tt) (2 ∷ 3 ∷ 4 ∷ 5 ∷ []))
    × (peek reader 2 ≡ some (2 ∷ 3 ∷ []))
reads_refine_example = reads_refine 2 reader (2 ∷ 3 ∷ 4 ∷ 5 ∷ []) reader-Views

writes_append_example :
    Appends (7 ∷ []) writer (Writer.write_u8 7 writer)
    × Appends (Endian.write_le16 7) writer (Writer.write_le16 7 writer)
    × Appends (Endian.write_le24 7) writer (Writer.write_le24 7 writer)
    × Appends (Endian.write_le32 7) writer (Writer.write_le32 7 writer)
    × Appends (Endian.write_le64 7) writer (Writer.write_le64 7 writer)
    × Appends (Endian.write_be16 7) writer (Writer.write_be16 7 writer)
    × Appends (Endian.write_be24 7) writer (Writer.write_be24 7 writer)
    × Appends (Endian.write_be32 7) writer (Writer.write_be32 7 writer)
    × Appends (Endian.write_be64 7) writer (Writer.write_be64 7 writer)
    × Appends (1 ∷ 2 ∷ []) writer (Writer.write_bytes five 2 writer)
writes_append_example = writes_append 7 2 five writer (omega arith) (omega arith)

read-write_all_example :
    (Endian.read_le16 (Endian.write_le16 0x12345 ++ five) ≡ 0x2345)
    × (Endian.read_le24 (Endian.write_le24 0x12345 ++ five) ≡ 0x12345)
    × (Endian.read_le32 (Endian.write_le32 0x12345 ++ five) ≡ 0x12345)
    × (Endian.read_le64 (Endian.write_le64 0x12345 ++ five) ≡ 0x12345)
    × (Endian.read_be16 (Endian.write_be16 0x12345 ++ five) ≡ 0x2345)
    × (Endian.read_be24 (Endian.write_be24 0x12345 ++ five) ≡ 0x12345)
    × (Endian.read_be32 (Endian.write_be32 0x12345 ++ five) ≡ 0x12345)
    × (Endian.read_be64 (Endian.write_be64 0x12345 ++ five) ≡ 0x12345)
read-write_all_example = read-write_all 0x12345 five
