-- ===== src/Memory/Tests.antt =====
-- Overlapping copies in a small memory.
use cone_os.Prelude.{ℕ, ◌≡◌, refl, List, [], ◌∷◌, arith}
use cone_os.Memory.{memcpy, memmove, copy_down}
use cone_os.Memory.Copies.{Copied, memmove_lem}

abbrev memory : List ℕ
memory = 1 ∷ 2 ∷ 3 ∷ 4 ∷ 5 ∷ 6 ∷ []

memmove-up : memmove memory 0 2 4 ≡ 3 ∷ 4 ∷ 5 ∷ 6 ∷ 5 ∷ 6 ∷ []
unfolding memmove memcpy
memmove-up = refl

memmove-down : memmove memory 2 0 4 ≡ 1 ∷ 2 ∷ 1 ∷ 2 ∷ 3 ∷ 4 ∷ []
unfolding memmove copy_down
memmove-down = refl

memmove_lem_example : Copied memory 2 0 4 (memmove memory 2 0 4)
memmove_lem_example = memmove_lem memory 2 0 4 (omega arith)
