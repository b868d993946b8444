-- ===== src/Buffer/Reader.antt =====
-- `struct bt_buf_reader` of core/buffer/buffer.c.
-- `bytes` is the memory from `r->data` on. A pointer into it that is handed out with a length is
-- the list of the bytes that it points at.
pub mod Refine
pub mod Parse
use aros_bluzing.Prelude.{ℕ, ◌-◌, List, take, drop, ltb, if◌then◌else◌, Option, none, some}
use aros_bluzing.Status.{is_ok, ok, err, buffer_underflow, Action, ◌>>=◌, ◌>>◌}
use aros_bluzing.Buffer.{add_size, sub_size}
use aros_bluzing.Endian
use aros_bluzing.Endian.{at}

pub record Reader : Type 0 where
  pub bytes : List ℕ
  pub len : ℕ
  pub pos : ℕ

unfoldable pub reader_init : List ℕ → ℕ → Reader
reader_init bytes len = record { bytes = bytes; len = len; pos = 0 }

unfoldable pub remaining : Reader → ℕ
remaining r = sub_size r.len r.pos

unfoldable pub reader_check : ℕ → Action Reader (Unit {0})
reader_check n r = (if ltb (remaining r) n then err buffer_underflow else ok tt, r)

-- `r->pos += n`, and the value that `value` finds at `r->data + r->pos` before that.
abbrev pub consume : {A : Type 0} → ℕ → (List ℕ → A) → Action Reader A
consume n value r = (ok (value (drop r.pos r.bytes)), record r { pos = add_size r.pos n })

unfoldable pub read_u8 : Action Reader ℕ
read_u8 = do reader_check 1; consume 1 (λ p. at p 0)

unfoldable pub read_le16 : Action Reader ℕ
read_le16 = do reader_check 2; consume 2 Endian.read_le16

unfoldable pub read_le24 : Action Reader ℕ
read_le24 = do reader_check 3; consume 3 Endian.read_le24

unfoldable pub read_le32 : Action Reader ℕ
read_le32 = do reader_check 4; consume 4 Endian.read_le32

unfoldable pub read_le64 : Action Reader ℕ
read_le64 = do reader_check 8; consume 8 Endian.read_le64

unfoldable pub read_be16 : Action Reader ℕ
read_be16 = do reader_check 2; consume 2 Endian.read_be16

unfoldable pub read_be24 : Action Reader ℕ
read_be24 = do reader_check 3; consume 3 Endian.read_be24

unfoldable pub read_be32 : Action Reader ℕ
read_be32 = do reader_check 4; consume 4 Endian.read_be32

unfoldable pub read_be64 : Action Reader ℕ
read_be64 = do reader_check 8; consume 8 Endian.read_be64

unfoldable pub read_bytes : ℕ → Action Reader (List ℕ)
read_bytes n = do reader_check n; consume n (take n)

-- The bytes at `r->data + r->pos`, or NULL; nothing is consumed.
unfoldable pub peek : Reader → ℕ → Option (List ℕ)
peek r n = if is_ok (reader_check n r).0 then some (take n (drop r.pos r.bytes)) else none

unfoldable pub skip : ℕ → Action Reader (Unit {0})
skip n = do reader_check n; consume n (λ _. tt)

abbrev pub some_or_fail : {A : Type 0} → Option A → Action Reader A
some_or_fail none r = (err buffer_underflow, r)
some_or_fail (some a) r = (ok a, r)

-- `p = bt_buf_reader_peek(r, n); if (p == NULL) return BT_ERR_BUFFER_UNDERFLOW;`
abbrev pub peek_or_fail : ℕ → Action Reader (List ℕ)
peek_or_fail n r = some_or_fail (peek r n) r
