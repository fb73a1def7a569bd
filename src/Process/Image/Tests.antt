-- ===== src/Process/Image/Tests.antt =====
-- Two arguments, "a" and "bc".
use cone_os.Process.Image.{push_arguments}
use cone_os.Process.Image.Stack.{HasArguments, strings_size, push_arguments_lem}
use cone_os.Prelude.{
  ℕ, ◌+◌, ◌*◌, ◌≤◌, ◌≡◌, some, List, [], ◌∷◌, length, replicate, length-replicate, page_size,
}

abbrev arguments : List (List ℕ)
arguments = (b'a' ∷ []) ∷ (b'b' ∷ b'c' ∷ []) ∷ []

abbrev blank : List ℕ
blank = replicate 4096 0

push_arguments_lem_example :
    (strings_size arguments + (length arguments + 1) * 8 + 7 ≤ page_size
      → (r : ℕ × List ℕ) × (push_arguments arguments blank ≡ some r))
    × ((r : ℕ × List ℕ) → push_arguments arguments blank ≡ some r → HasArguments arguments r)
push_arguments_lem_example = push_arguments_lem arguments blank (length-replicate {A = ℕ} 4096 0)
