-- ===== src/Memory.antt =====
-- src/lib/memory.c: memory is a list of bytes and a pointer is an index into it.
pub mod Copies
pub mod Comparisons
mod Tests
use cone_os.Prelude.{
  ℕ, zero, suc, ◌+◌, ◌-◌, ◌%◌, Bool, true, false, List, get_or, set, ltb, leb, ◌==◌, if◌then◌else◌,
}

-- The `int` that memcmp returns.
pub data ℤ : Type 0 where
  pos : ℕ → ℤ
  negsuc : ℕ → ℤ

-- The difference of two bytes.
abbrev pub byte_difference : ℕ → ℕ → ℤ
byte_difference l r = if leb r l then pos (l - r) else negsuc (r - l - 1)

unfoldable pub memset : List ℕ → ℕ → ℕ → ℕ → List ℕ
memset memory dest value zero = memory
memset memory dest value (suc count) = memset (set memory dest (value % 256)) (dest + 1) value count

unfoldable pub memcpy : List ℕ → ℕ → ℕ → ℕ → List ℕ
memcpy memory d s zero = memory
memcpy memory d s (suc count) = memcpy (set memory d (get_or memory s 0)) (d + 1) (s + 1) count

-- The second loop of memmove: the pointers start behind the last byte and go down.
unfoldable pub copy_down : List ℕ → ℕ → ℕ → ℕ → List ℕ
copy_down memory d s zero = memory
copy_down memory d s (suc count) =
    copy_down (set memory (d + count) (get_or memory (s + count) 0)) d s count

-- The first loop of memmove is that of memcpy.
unfoldable pub memmove : List ℕ → ℕ → ℕ → ℕ → List ℕ
memmove memory d s count =
    if d == s
    then memory
    else if ltb d s
    then memcpy memory d s count
    else copy_down memory d s count

unfoldable pub memcmp : List ℕ → ℕ → ℕ → ℕ → ℤ
memcmp memory l r zero = pos 0
memcmp memory l r (suc count) =
    if get_or memory l 0 == get_or memory r 0
    then memcmp memory (l + 1) (r + 1) count
    else byte_difference (get_or memory l 0) (get_or memory r 0)
