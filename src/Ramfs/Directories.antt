-- ===== src/Ramfs/Directories.antt =====
-- The directories of src/fs/ramfs.c.
use cone_os.Prelude.{
  ℕ, zero, suc, ◌≤◌, ◌≡◌, refl, ◌⊎◌, inl, inr, Bool, true, false, ◌&&◌, ◌||◌, Option, none, some,
  List, [], ◌∷◌, ◌++◌, length, leb, ◌==◌, if◌then◌else◌, arith, Bool-cases, length-append,
}
use cone_os.Ramfs.{File, Ramfs}
use cone_os.Ramfs.Names.{name_equal, name_equal_refl}
use cone_os.Ramfs.Prefixes.{starts_with, with_slash}

-- RAMFS_MAX_DIRECTORIES
abbrev pub max_directories : ℕ
max_directories = 16

unfoldable pub has_directory : List (List ℕ) → List ℕ → Bool
has_directory [] path = false
has_directory (d ∷ ds) path = name_equal d path || has_directory ds path

-- The index of a directory, and the list without it.
unfoldable pub directory_index : List (List ℕ) → List ℕ → Option ℕ
directory_index [] path = none
directory_index (d ∷ ds) path =
    let rest = directory_index ds path in
    if name_equal d path then some 0 else (elim rest [ none ↦ none | some i ↦ some (suc i) ])

unfoldable pub remove_at : ℕ → List (List ℕ) → List (List ℕ)
remove_at i [] = []
remove_at zero (d ∷ ds) = ds
remove_at (suc i) (d ∷ ds) = d ∷ remove_at i ds

unfoldable pub any_file_under : List ℕ → List File → Bool
any_file_under prefix [] = false
any_file_under prefix (f ∷ fs) = (f.used && starts_with prefix f.name) || any_file_under prefix fs

unfoldable pub any_under : List ℕ → List (List ℕ) → Bool
any_under prefix [] = false
any_under prefix (d ∷ ds) = starts_with prefix d || any_under prefix ds

module _ {W : Type 0} where
  -- ramfs_mkdir; `path` is not null.
  unfoldable pub mkdir : List ℕ → Ramfs W → Bool × Ramfs W
  mkdir path s =
      if length path == 0 || leb max_directories (length s.directories)
      then (false, s)
      else if has_directory s.directories path
      then (false, s)
      else if leb 256 (length path)
      then (false, s)
      else (true, record s { directories = s.directories ++ (path ∷ []) })

  -- ramfs_rmdir
  unfoldable pub rmdir : List ℕ → Ramfs W → Bool × Ramfs W
  rmdir path s =
      if name_equal path (b'/' ∷ []) || name_equal path (b'/' ∷ b'b' ∷ b'i' ∷ b'n' ∷ [])
      then (false, s)
      else elim (directory_index s.directories path) [
        | none ↦ (false, s)
        | some i ↦
            if length path == 0
              || leb 255 (length path)
              || any_file_under (with_slash path) s.files
              || any_under (with_slash path) (remove_at i s.directories)
            then (false, s)
            else (true, record s { directories = remove_at i s.directories })
      ]

has_directory-append :
    (ds : List (List ℕ)) (path q : List ℕ)
    → has_directory (ds ++ (path ∷ [])) q ≡ (has_directory ds q || name_equal path q)
unfolding has_directory
has_directory-append [] path q = ground arith
has_directory-append (d ∷ ds) path q = ground (arith, has_directory-append ds path q)

-- ramfs_mkdir fails and changes nothing, or adds the path to the directories: it is one afterwards, and
-- any other path is a directory exactly if it was one. At most RAMFS_MAX_DIRECTORIES are kept.
pub mkdir_lem :
    {W : Type 0} (path : List ℕ) (s : Ramfs W)
    → let (ok, s') = mkdir path s in
      ((ok ≡ true)
        × (has_directory s'.directories path ≡ true)
        × (has_directory s.directories path ≡ false)
        × ((q : List ℕ)
            → has_directory s'.directories q ≡ (has_directory s.directories q || name_equal path q))
        × (length s'.directories ≤ max_directories)
        × (s'.files ≡ s.files))
      ⊎ ((ok ≡ false) × (s' ≡ s))
unfolding mkdir
mkdir_lem path s =
    elim (Bool-cases (length path == 0 || leb max_directories (length s.directories))) [
      | inl e ↦ rw e (inr (refl, refl))
      | inr e ↦ rw e (elim (Bool-cases (has_directory s.directories path)) [
        | inl e' ↦ rw e' (inr (refl, refl))
        | inr e' ↦ rw e' (elim (Bool-cases (leb 256 (length path))) [
          | inl e'' ↦ rw e'' (inr (refl, refl))
          | inr e'' ↦ rw e'' (
              inl (
                refl,
                ground (arith, has_directory-append s.directories path path, name_equal_refl path),
                refl,
                λ q. has_directory-append s.directories path q,
                ground (arith, length-append s.directories (path ∷ [])),
                refl,
              ))
        ])
      ])
    ]
