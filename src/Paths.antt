-- ===== src/Paths.antt =====
-- Path names as src/fs/vfs.c reads them: resolve_path and the tests on absolute paths. A path is the
-- list of its bytes without the final 0. `output` is kept with its last byte first.
pub mod Spec
mod Reversed
mod Components
pub mod Resolve
pub mod Prefix
mod Trailing
mod Tests
use cone_os.Prelude.{
  ℕ, zero, suc, ◌+◌, ◌-◌, Bool, true, false, not, ◌&&◌, ◌||◌, Option, none, some, List, [], ◌∷◌,
  length, take, ltb, leb, ◌==◌, if◌then◌else◌,
}
use cone_os.Ramfs.Names.{name_equal}

abbrev pub slash : ℕ
slash = b'/'

-- while (input[in] == '/') in++;
unfoldable pub skip_slashes : List ℕ → List ℕ
skip_slashes [] = []
skip_slashes (c ∷ cs) = let rest = skip_slashes cs in if c == slash then rest else c ∷ cs

-- The bytes up to the next '/', and those from it on.
unfoldable pub component : List ℕ → List ℕ
component [] = []
component (c ∷ cs) = let rest = component cs in if c == slash then [] else c ∷ rest

unfoldable pub behind : List ℕ → List ℕ
behind [] = []
behind (c ∷ cs) = let rest = behind cs in if c == slash then c ∷ cs else rest

abbrev pub is_dot : List ℕ → Bool
is_dot name = name_equal name (b'.' ∷ [])

abbrev pub is_dot_dot : List ℕ → Bool
is_dot_dot name = name_equal name (b'.' ∷ b'.' ∷ [])

-- for (i = 0; i < length; i++) output[out++] = …;
unfoldable pub onto : List ℕ → List ℕ → List ℕ
onto [] output = output
onto (c ∷ cs) output = onto cs (c ∷ output)

-- while (out > 1 && output[out - 1] != '/') out--;
unfoldable pub strip : List ℕ → List ℕ
strip [] = []
strip (c ∷ []) = c ∷ []
strip (c ∷ d ∷ rest) =
    let shorter = strip (d ∷ rest) in if c == slash then c ∷ d ∷ rest else shorter

-- What ".." does to the output.
unfoldable pub go_up : List ℕ → List ℕ
go_up [] = []
go_up (c ∷ []) = c ∷ []
go_up (c ∷ d ∷ rest) = strip (if c == slash then d ∷ rest else c ∷ d ∷ rest)

-- if (out > 1 && output[out - 1] != '/') { … output[out++] = '/'; }
unfoldable pub with_separator : ℕ → List ℕ → Option (List ℕ)
with_separator capacity [] = some []
with_separator capacity (c ∷ []) = some (c ∷ [])
with_separator capacity (c ∷ d ∷ rest) =
    if c == slash
    then some (c ∷ d ∷ rest)
    else if leb (capacity - 1) (length (c ∷ d ∷ rest))
    then none
    else some (slash ∷ c ∷ d ∷ rest)

unfoldable pub append_component : ℕ → List ℕ → List ℕ → Option (List ℕ)
append_component capacity name output = elim (with_separator capacity output) [
  | none ↦ none
  | some o ↦ if leb capacity (length o + length name) then none else some (onto name o)
]

-- The body of the loop, on one component.
unfoldable pub take_step : ℕ → List ℕ → List ℕ → Option (List ℕ)
take_step capacity name output =
    if length name == 0 || is_dot name
    then some output
    else if is_dot_dot name
    then some (go_up output)
    else append_component capacity name output

-- `refused` is the return of 0.
pub data Resolved : Type 0 where
  out_of_fuel : Resolved
  refused : Resolved
  resolved : List ℕ → Resolved

-- while (input[in]). Each round takes at least one byte.
unfoldable pub resolve_from : ℕ → ℕ → List ℕ → List ℕ → Resolved
resolve_from zero capacity input output = out_of_fuel
resolve_from (suc fuel) capacity [] output = resolved output
resolve_from (suc fuel) capacity (c ∷ cs) output =
    elim (take_step capacity (component (c ∷ cs)) output) [
      | none ↦ refused
      | some o ↦ resolve_from fuel capacity (skip_slashes (behind (c ∷ cs))) o
    ]

-- if (out == 0) output[out++] = '/'; then the bytes in their order.
unfoldable pub terminate : Resolved → Resolved
terminate out_of_fuel = out_of_fuel
terminate refused = refused
terminate (resolved []) = resolved (slash ∷ [])
terminate (resolved (c ∷ cs)) = resolved (onto (c ∷ cs) [])

unfoldable pub is_absolute : List ℕ → Bool
is_absolute [] = false
is_absolute (c ∷ cs) = c == slash

-- `cwd` is what process_getcwd copies; the pointers are not null.
unfoldable pub resolve_path : ℕ → Option (List ℕ) → List ℕ → Resolved
resolve_path capacity cwd input =
    if ltb capacity 2
    then refused
    else if is_absolute input
    then terminate (resolve_from (suc (length input)) capacity (skip_slashes input) (slash ∷ []))
    else elim cwd [
      | none ↦ refused
      | some d ↦
          terminate
            (resolve_from (suc (length input)) capacity input (onto (take (capacity - 1) d) []))
    ]

-- path_has_prefix
unfoldable pub path_has_prefix : List ℕ → List ℕ → Bool
path_has_prefix [] [] = true
path_has_prefix (c ∷ cs) [] = c == slash
path_has_prefix [] (p ∷ ps) = false
path_has_prefix (c ∷ cs) (p ∷ ps) =
    let rest = path_has_prefix cs ps in if c == p then rest else false
