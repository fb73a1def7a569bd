-- ===== src/Prelude/Words.antt =====
-- Unsigned machine arithmetic on native numbers: the wrap-around of `uint64_t` written out.
use Prim.Native.Nat.{ℕ, ◌+◌, ◌-◌, ◌*◌, ◌%◌, ◌^◌}

abbrev pub u64_mod : ℕ
u64_mod = 2 ^ 64

abbrev pub add64 : ℕ → ℕ → ℕ
add64 a b = (a + b) % 2 ^ 64

abbrev pub sub64 : ℕ → ℕ → ℕ
sub64 a b = (a + 2 ^ 64 - b) % 2 ^ 64

abbrev pub mul64 : ℕ → ℕ → ℕ
mul64 a b = a * b % 2 ^ 64

-- `value & ~(alignment - 1)` at an alignment that is a power of two.
abbrev pub align_down : ℕ → ℕ → ℕ
align_down value alignment = value - value % alignment

-- `(value + alignment - 1) & ~(alignment - 1)`
abbrev pub align_up : ℕ → ℕ → ℕ
align_up value alignment = align_down (add64 value (alignment - 1)) alignment

abbrev pub page_size : ℕ
page_size = 4096

abbrev pub u64_max : ℕ
u64_max = 2 ^ 64 - 1
