-- ===== src/Paths/Spec.antt =====
-- What a path means, without positions or buffers: the names between its slashes, walked one by one
-- on a stack of directories. The loop of src/fs/vfs.c is compared with it.
use cone_os.Prelude.{
  ℕ, ◌≢◌, Bool, true, false, List, [], ◌∷◌, ◌++◌, length, ◌==◌, leb, ltb, Option, none, some,
  if◌then◌else◌, All,
}
use cone_os.Paths.{slash, is_dot, is_dot_dot, is_absolute, Resolved, resolved, refused}

abbrev prepend : ℕ → List (List ℕ) → List (List ℕ)
prepend c [] = (c ∷ []) ∷ []
prepend c (p ∷ ps) = (c ∷ p) ∷ ps

-- The pieces between slashes, empty ones included.
unfoldable pub cut : List ℕ → List (List ℕ)
cut [] = [] ∷ []
cut (c ∷ cs) = let rest = cut cs in if c == slash then [] ∷ rest else prepend c rest

unfoldable pub nonempty : List (List ℕ) → List (List ℕ)
nonempty [] = []
nonempty ([] ∷ ps) = nonempty ps
nonempty ((c ∷ cs) ∷ ps) = (c ∷ cs) ∷ nonempty ps

unfoldable pub parts : List ℕ → List (List ℕ)
parts path = nonempty (cut path)

-- The directories from the innermost to the root, and whether the path is written with a slash
-- behind the last one.
pub record Place : Type 0 where
  pub directories : List (List ℕ)
  pub trailing : Bool

unfoldable pub parent : List (List ℕ) → List (List ℕ)
parent [] = []
parent (d ∷ ds) = ds

-- "." stays, ".." goes up and leaves a slash behind the directory it comes to, a name goes down.
unfoldable pub visit : List ℕ → Place → Place
visit name p =
    if is_dot name
    then p
    else if is_dot_dot name
    then (record { directories = parent p.directories; trailing = true })
    else (record { directories = name ∷ p.directories; trailing = false })

unfoldable pub walk : List (List ℕ) → Place → Place
walk [] p = p
walk (name ∷ names) p = walk names (visit name p)

unfoldable pub render : List (List ℕ) → List ℕ
render [] = []
render (d ∷ ds) = render ds ++ (slash ∷ d)

unfoldable pub text : Place → List ℕ
text p = elim p.directories [
  | [] ↦ slash ∷ []
  | d ∷ ds ↦ render (d ∷ ds) ++ (if p.trailing then slash ∷ [] else [])
]

abbrev pub root : Place
root = record { directories = []; trailing = false }

-- The walk with room for `capacity` bytes and the final 0: refused where a name does not fit.
unfoldable pub walk_within : ℕ → List (List ℕ) → Place → Resolved
walk_within capacity [] p = resolved (text p)
walk_within capacity (name ∷ names) p =
    let rest = walk_within capacity names (visit name p) in
    if leb capacity (length (text (visit name p))) then refused else rest

-- A name: not empty, and without a slash.
abbrev pub IsName : List ℕ → Type 0
IsName name = (name ≢ []) × All (λ c. c ≢ slash) name

abbrev pub IsPlace : Place → Type 0
IsPlace p = All IsName p.directories

-- The path from the root or, unless it starts with a slash, from the current directory.
unfoldable pub path_of : ℕ → Option Place → List ℕ → Resolved
path_of capacity cwd input =
    if ltb capacity 2 then refused else elim (if is_absolute input then some root else cwd) [
      | none ↦ refused
      | some p ↦ walk_within capacity (parts input) p
    ]
