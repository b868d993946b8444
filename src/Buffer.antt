-- ===== src/Buffer.antt =====
-- core/buffer/buffer.c: bounds-checked cursors over a byte buffer that the caller owns.
pub mod Reader
pub mod Writer
use aros_bluzing.Prelude.{ℕ, ◌+◌, ◌-◌, ◌%◌, ◌^◌}

-- `size_t` has 64 bits, and its arithmetic wraps.
abbrev pub size_mod : ℕ
size_mod = 2 ^ 64

abbrev pub add_size : ℕ → ℕ → ℕ
add_size a b = (a + b) % size_mod

abbrev pub sub_size : ℕ → ℕ → ℕ
sub_size a b = (size_mod + a - b) % size_mod
