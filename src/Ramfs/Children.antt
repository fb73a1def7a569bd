-- ===== src/Ramfs/Children.antt =====
-- ramfs_readdir of src/fs/ramfs.c against the entries that are directly below a directory.
use cone_os.Prelude.{
  ℕ, true, false, subst, take, arith, ◌⊎◌, ◌≡◌, refl, sym, ◌∙◌, ap, List, [], ◌∷◌, ◌++◌,
  Option-cases, Bool-cases, inl, inr,
}
use cone_os.Ramfs.{File, Ramfs}
use cone_os.Ramfs.Names.{name_equal, name_equal_refl, name_equal-eq}
use cone_os.Ramfs.Directories.{has_directory}
use cone_os.Ramfs.Below.{IsChild, direct_child-IsChild, direct_child-none}
use cone_os.Ramfs.Listing.{
  Entry, file_entry, directory_entry, Listed, not_directory, direct_child, find_directory, readdir,
}
use cone_os.Ramfs.Entries.{child_directories, child_files, nth_entry, find_directory_lem, later}

-- The entries that a list of directories gives: one for each that is directly below the path.
abbrev pub ListsDirectories : List ℕ → List (List ℕ) → List Entry → Type 0
ListsDirectories path [] es = es ≡ []
ListsDirectories path (d ∷ ds) es =
    ((name : List ℕ) × (IsChild path d name
        × ((rest : List Entry) × ((es
                ≡ record { name = take 767 name; size = 0; kind = directory_entry } ∷ rest)
              × ListsDirectories path ds rest))))
    ⊎ (((name : List ℕ) → ¬ IsChild path d name) × ListsDirectories path ds es)

-- The entries that the files give: one for each in use that is directly below the path.
abbrev pub ListsFiles : List ℕ → List File → List Entry → Type 0
ListsFiles path [] es = es ≡ []
ListsFiles path (f ∷ fs) es =
    ((f.used ≡ true)
      × ((name : List ℕ) × (IsChild path f.name name
            × ((rest : List Entry) × ((es
                    ≡ record { name = take 767 name; size = f.size; kind = file_entry } ∷ rest)
                  × ListsFiles path fs rest)))))
    ⊎ (((f.used ≡ true) → (name : List ℕ) → ¬ IsChild path f.name name) × ListsFiles path fs es)

child_directories-Lists :
    (path : List ℕ) (ds : List (List ℕ)) → ListsDirectories path ds (child_directories path ds)
unfolding child_directories
child_directories-Lists path [] = refl
child_directories-Lists path (d ∷ ds) = elim (Option-cases (direct_child path d)) [
  | inl e ↦
      let same : child_directories path (d ∷ ds) ≡ child_directories path ds =
        rw (e, child_directories) refl in
      inr (
        λ name. direct_child-none path d name e,
        subst (ListsDirectories path ds) (sym same) (child_directories-Lists path ds),
      )
  | inr (name, e) ↦ inl (
    name,
    (
      direct_child-IsChild path d name e,
      (
        child_directories path ds,
        (rw (e, child_directories) refl, child_directories-Lists path ds),
      ),
    ),
  )
]

child_files-Lists : (path : List ℕ) (fs : List File) → ListsFiles path fs (child_files path fs)
unfolding child_files
child_files-Lists path [] = refl
child_files-Lists path (f ∷ fs) =
    let rest = child_files-Lists path fs in
    elim (Bool-cases f.used) [
      | inr u ↦ skipped (rw (u, child_files) refl) (λ k. absurd (cc (u, k))) rest
      | inl u ↦ elim (Option-cases (direct_child path f.name)) [
        | inl e ↦
            skipped (rw (u, e, child_files) refl) (λ k name. direct_child-none path f.name name e)
              rest
        | inr (name, e) ↦ inl (
          u,
          (
            name,
            (
              direct_child-IsChild path f.name name e,
              (child_files path fs, (rw (u, e, child_files) refl, rest)),
            ),
          ),
        )
      ]
    ]
  where
    skipped :
        child_files path (f ∷ fs) ≡ child_files path fs
        → ((f.used ≡ true) → (name : List ℕ) → ¬ IsChild path f.name name)
        → ListsFiles path fs (child_files path fs)
        → ListsFiles path (f ∷ fs) (child_files path (f ∷ fs))
    skipped same why rest = inr (why, subst (ListsFiles path fs) (sym same) rest)

-- The path is one of the directories.
abbrev pub IsDirectory : {W : Type 0} → List ℕ → Ramfs W → Type 0
IsDirectory path s =
    (before : List (List ℕ)) × ((after : List (List ℕ)) × (s.directories
        ≡ before ++ (path ∷ after)))

has_directory-true :
    (ds : List (List ℕ)) (path : List ℕ)
    → has_directory ds path ≡ true
    → (before : List (List ℕ)) × ((after : List (List ℕ)) × (ds ≡ before ++ (path ∷ after)))
unfolding has_directory
has_directory-true [] path e = absurd (cc)
has_directory-true (d ∷ ds) path e = elim (Bool-cases (name_equal d path)) [
  | inl k ↦ ([], (ds, ap (λ x. x ∷ ds) (name_equal-eq d path k)))
  | inr k ↦
      let (before, (after, whole)) = has_directory-true ds path (ground (arith, k, e)) in
      (d ∷ before, (after, ap (◌∷◌ d) whole))
]

has_directory-between :
    (before after : List (List ℕ)) (path : List ℕ)
    → has_directory (before ++ (path ∷ after)) path ≡ true
unfolding has_directory
has_directory-between [] after path = rw (name_equal_refl path) refl
has_directory-between (d ∷ ds) after path = ground (arith, has_directory-between ds after path)

-- What the calls of ramfs_readdir for all indices give.
abbrev pub Lists : {W : Type 0} → List ℕ → Ramfs W → (ℕ → Listed) → Type 0
Lists path s answer =
    (IsDirectory path s
      × ((directories : List Entry) × ((files : List Entry) × (ListsDirectories path s.directories
                directories
              × (ListsFiles path s.files files
                  × ((index : ℕ) → answer index ≡ nth_entry (directories ++ files) index))))))
    ⊎ ((¬ IsDirectory path s) × ((index : ℕ) → answer index ≡ not_directory))

module _ {W : Type 0} where
  readdir_listed :
      (path : List ℕ) (index : ℕ) (s : Ramfs W)
      → has_directory s.directories path ≡ true
      → readdir path index s
        ≡ nth_entry (child_directories path s.directories ++ child_files path s.files) index
  unfolding readdir
  readdir_listed path index s e = rw e (
      later path s (find_directory path index s.directories)
      ∙ sym (find_directory_lem path s.directories index (child_files path s.files)))

  readdir_none :
      (path : List ℕ) (index : ℕ) (s : Ramfs W)
      → has_directory s.directories path ≡ false
      → readdir path index s ≡ not_directory
  unfolding readdir
  readdir_none path index s e = rw e refl

  -- ramfs_readdir gives the entries of a directory one by one: first the directories and then the files
  -- in use that are directly below it, each in the order of its table and under its name behind the
  -- path, which has no slash; an index past them is the end. A path that is no directory is refused.
  pub readdir_lem : (path : List ℕ) (s : Ramfs W) → Lists path s (λ index. readdir path index s)
  readdir_lem path s = elim (Bool-cases (has_directory s.directories path)) [
    | inl e ↦ inl (
      has_directory-true s.directories path e,
      (
        child_directories path s.directories,
        (
          child_files path s.files,
          (
            child_directories-Lists path s.directories,
            (child_files-Lists path s.files, λ index. readdir_listed path index s e),
          ),
        ),
      ),
    )
    | inr e ↦ inr (
      λ (before, (after, whole)).
          let there : has_directory s.directories path ≡ true =
            ap (λ ds. has_directory ds path) whole ∙ has_directory-between before after path in
          absurd (cc (e, there)),
      λ index. readdir_none path index s e,
    )
  ]
