-- ===== src/Ramfs/Entries.antt =====
-- The two loops of ramfs_readdir of src/fs/ramfs.c as lists of entries.
use cone_os.Prelude.{
  ℕ, zero, suc, ◌≡◌, refl, sym, ◌∙◌, ap, Option, none, some, List, [], ◌∷◌, ◌++◌, if◌then◌else◌,
  Option-cases, inl, inr,
}
use cone_os.Ramfs.{File, Ramfs}
use cone_os.Ramfs.Listing.{
  Entry, file_entry, directory_entry, Listed, past_end, listed, direct_child, entry_name,
  find_directory, find_entry,
}

-- The children in the order of the two loops of ramfs_readdir.
unfoldable pub child_directories : List ℕ → List (List ℕ) → List Entry
child_directories path [] = []
child_directories path (d ∷ ds) =
    let rest = child_directories path ds in
    elim (direct_child path d) [
      | none ↦ rest
      | some name ↦ (record { name = entry_name name; size = 0; kind = directory_entry }) ∷ rest
    ]

unfoldable pub child_files : List ℕ → List File → List Entry
child_files path [] = []
child_files path (f ∷ fs) =
    let rest = child_files path fs in
    elim (if f.used then direct_child path f.name else none) [
      | none ↦ rest
      | some name ↦ (record { name = entry_name name; size = f.size; kind = file_entry }) ∷ rest
    ]

abbrev pub nth_entry : List Entry → ℕ → Listed
nth_entry [] index = past_end
nth_entry (e ∷ es) zero = listed e
nth_entry (e ∷ es) (suc index) = nth_entry es index

abbrev pub or_later : Option Entry × ℕ → List Entry → Listed
or_later (some e, left) es = listed e
or_later (none, left) es = nth_entry es left

abbrev directory_at : List ℕ → Entry
directory_at name = record { name = entry_name name; size = 0; kind = directory_entry }

pub find_directory_lem :
    (path : List ℕ) (ds : List (List ℕ)) (index : ℕ) (es : List Entry)
    → nth_entry (child_directories path ds ++ es) index ≡ or_later (find_directory path index ds) es
unfolding child_directories find_directory
find_directory_lem path [] index es = refl
find_directory_lem path (d ∷ ds) index es =
    go (direct_child path d) refl index (find_directory_lem path ds)
  where
    skipped :
        direct_child path d ≡ none
        → (index : ℕ)
        → (child_directories path (d ∷ ds) ≡ child_directories path ds)
          × (find_directory path index (d ∷ ds) ≡ find_directory path index ds)
    skipped e index = (rw (e, child_directories) refl, rw (e, find_directory) refl)

    listed_first :
        (name : List ℕ)
        → direct_child path d ≡ some name
        → (child_directories path (d ∷ ds) ≡ directory_at name ∷ child_directories path ds)
          × (find_directory path 0 (d ∷ ds) ≡ (some (directory_at name), 0))
          × ((i : ℕ) → find_directory path (suc i) (d ∷ ds) ≡ find_directory path i ds)
    listed_first name e = (
      rw (e, child_directories) refl,
      rw (e, find_directory) refl,
      λ i. rw (e, find_directory) refl,
    )

    go :
        (o : Option (List ℕ))
        → direct_child path d ≡ o
        → (index : ℕ)
        → ((i : ℕ) (es : List Entry)
            → nth_entry (child_directories path ds ++ es) i
              ≡ or_later (find_directory path i ds) es)
        → nth_entry (child_directories path (d ∷ ds) ++ es) index
          ≡ or_later (find_directory path index (d ∷ ds)) es
    go none e index ih = let (a, b) = skipped e index in rw (a, b) (ih index es)
    go (some name) e zero ih = let (a, b, c) = listed_first name e in rw (a, b) refl
    go (some name) e (suc i) ih = let (a, b, c) = listed_first name e in rw (a, c i) (ih i es)

abbrev or_end : Option Entry → Listed
or_end none = past_end
or_end (some e) = listed e

abbrev child_name : List ℕ → File → Option (List ℕ)
child_name path f = if f.used then direct_child path f.name else none

abbrev file_at : List ℕ → ℕ → Entry
file_at name size = record { name = entry_name name; size = size; kind = file_entry }

find_entry_lem :
    (path : List ℕ) (fs : List File) (index : ℕ)
    → nth_entry (child_files path fs) index ≡ or_end (find_entry path index fs)
unfolding child_files find_entry
find_entry_lem path [] index = refl
find_entry_lem path (f ∷ fs) index = go (child_name path f) refl index (find_entry_lem path fs)
  where
    skipped :
        child_name path f ≡ none
        → (index : ℕ)
        → (child_files path (f ∷ fs) ≡ child_files path fs)
          × (find_entry path index (f ∷ fs) ≡ find_entry path index fs)
    skipped e index = (rw (e, child_files) refl, rw (e, find_entry) refl)

    listed_first :
        (name : List ℕ)
        → child_name path f ≡ some name
        → (child_files path (f ∷ fs) ≡ file_at name f.size ∷ child_files path fs)
          × (find_entry path 0 (f ∷ fs) ≡ some (file_at name f.size))
          × ((i : ℕ) → find_entry path (suc i) (f ∷ fs) ≡ find_entry path i fs)
    listed_first name e =
        (rw (e, child_files) refl, rw (e, find_entry) refl, λ i. rw (e, find_entry) refl)

    go :
        (o : Option (List ℕ))
        → child_name path f ≡ o
        → (index : ℕ)
        → ((i : ℕ) → nth_entry (child_files path fs) i ≡ or_end (find_entry path i fs))
        → nth_entry (child_files path (f ∷ fs)) index ≡ or_end (find_entry path index (f ∷ fs))
    go none e index ih = let (a, b) = skipped e index in rw (a, b) (ih index)
    go (some name) e zero ih = let (a, b, c) = listed_first name e in rw (a, b) refl
    go (some name) e (suc i) ih = let (a, b, c) = listed_first name e in rw (a, c i) (ih i)

module _ {W : Type 0} where
  pub later :
      (path : List ℕ) (s : Ramfs W) (r : Option Entry × ℕ)
      → (elim r.0 [
        | some e ↦ listed e
        | none ↦ elim (find_entry path r.1 s.files) [ none ↦ past_end | some e ↦ listed e ]
      ])
        ≡ or_later r (child_files path s.files)
  later path s (some e, left) = refl
  later path s (none, left) = elim (Option-cases (find_entry path left s.files)) [
    | inl e ↦ rw e (sym (find_entry_lem path s.files left ∙ ap or_end e))
    | inr (x, e) ↦ rw e (sym (find_entry_lem path s.files left ∙ ap or_end e))
  ]
