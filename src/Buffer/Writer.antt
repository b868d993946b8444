-- ===== src/Buffer/Writer.antt =====
-- `struct bt_buf_writer` of core/buffer/buffer.c. `bytes` is the memory from `w->data` on.
pub mod Emits
use aros_bluzing.Prelude.{ℕ, suc, List, [], ◌∷◌, take, set, ltb, if◌then◌else◌}
use aros_bluzing.Status.{ok, err, buffer_overflow, Action, bind, ◌>>◌}
use aros_bluzing.Buffer.{add_size, sub_size}
use aros_bluzing.Endian

pub record Writer : Type 0 where
  pub bytes : List ℕ
  pub cap : ℕ
  pub pos : ℕ

unfoldable pub writer_init : List ℕ → ℕ → Writer
writer_init bytes cap = record { bytes = bytes; cap = cap; pos = 0 }

abbrev pub writer_len : Writer → ℕ
writer_len w = w.pos

unfoldable pub writer_remaining : Writer → ℕ
writer_remaining w = sub_size w.cap w.pos

unfoldable pub writer_check : ℕ → Action Writer (Unit {0})
writer_check n w = (if ltb (writer_remaining w) n then err buffer_overflow else ok tt, w)

-- Consecutive stores from index `i` on. `mem` may be more memory than the buffer; a store behind its end
-- changes nothing.
unfoldable pub store : List ℕ → ℕ → List ℕ → List ℕ
store mem i [] = mem
store mem i (v ∷ vs) = store (set mem i v) (suc i) vs

-- The stores of `vs` at `w->data + w->pos`, then `w->pos += n`.
abbrev pub produce : ℕ → List ℕ → Action Writer (Unit {0})
produce n vs w = (ok tt, record w { bytes = store w.bytes w.pos vs; pos = add_size w.pos n })

unfoldable pub write_u8 : ℕ → Action Writer (Unit {0})
write_u8 value = do writer_check 1; produce 1 (value ∷ [])

unfoldable pub write_le16 : ℕ → Action Writer (Unit {0})
write_le16 value = do writer_check 2; produce 2 (Endian.write_le16 value)

unfoldable pub write_le24 : ℕ → Action Writer (Unit {0})
write_le24 value = do writer_check 3; produce 3 (Endian.write_le24 value)

unfoldable pub write_le32 : ℕ → Action Writer (Unit {0})
write_le32 value = do writer_check 4; produce 4 (Endian.write_le32 value)

unfoldable pub write_le64 : ℕ → Action Writer (Unit {0})
write_le64 value = do writer_check 8; produce 8 (Endian.write_le64 value)

unfoldable pub write_be16 : ℕ → Action Writer (Unit {0})
write_be16 value = do writer_check 2; produce 2 (Endian.write_be16 value)

unfoldable pub write_be24 : ℕ → Action Writer (Unit {0})
write_be24 value = do writer_check 3; produce 3 (Endian.write_be24 value)

unfoldable pub write_be32 : ℕ → Action Writer (Unit {0})
write_be32 value = do writer_check 4; produce 4 (Endian.write_be32 value)

unfoldable pub write_be64 : ℕ → Action Writer (Unit {0})
write_be64 value = do writer_check 8; produce 8 (Endian.write_be64 value)

-- The `n` bytes from `src` on.
unfoldable pub write_bytes : List ℕ → ℕ → Action Writer (Unit {0})
write_bytes src n = do writer_check n; produce n (take n src)
