-- ===== src/Ramfs/Removal.antt =====
-- What ramfs_rmdir of src/fs/ramfs.c removes.
use cone_os.Prelude.{
  subst, sym, ℕ, suc, ◌≤◌, ◌≡◌, refl, ◌⊎◌, inl, inr, Bool, true, false, ◌||◌, none, some, List, [],
  ◌∷◌, ◌++◌, ◌∙◌, length, leb, ◌==◌, arith, Bool-cases, All, ap, Option-cases,
}
use cone_os.Ramfs.{File, Ramfs}
use cone_os.Ramfs.Names.{name_equal, name_equal-eq}
use cone_os.Ramfs.Prefixes.{with_slash, Under, starts_with-Under, starts_with-false}
use cone_os.Ramfs.Directories.{
  has_directory, directory_index, remove_at, any_file_under, any_under, rmdir,
}

-- The files in use that are not under the path, and the directories.
abbrev pub NoFileUnder : List ℕ → List File → Type 0
NoFileUnder path fs = All (λ f. f.used ≡ true → ¬ Under path f.name) fs

abbrev pub NoneUnder : List ℕ → List (List ℕ) → Type 0
NoneUnder path ds = All (λ d. ¬ Under path d) ds

any_file_under-none :
    (path : List ℕ) (fs : List File)
    → any_file_under (with_slash path) fs ≡ false
    → NoFileUnder path fs
unfolding any_file_under
any_file_under-none path [] h = tt
any_file_under-none path (f ∷ fs) h =
    (λ u. starts_with-false path f.name (ground arith), any_file_under-none path fs (ground arith))

any_file_under-some :
    (path : List ℕ) (fs : List File)
    → any_file_under (with_slash path) fs ≡ true
    → ¬ NoFileUnder path fs
unfolding any_file_under
any_file_under-some path [] h m = absurd (cc)
any_file_under-some path (f ∷ fs) h m = elim (Bool-cases (any_file_under (with_slash path) fs)) [
  | inl e ↦ any_file_under-some path fs e m.1
  | inr e ↦ m.0 (ground (arith, e, h)) (starts_with-Under path f.name (ground (arith, e, h)))
]

any_under-none :
    (path : List ℕ) (ds : List (List ℕ))
    → any_under (with_slash path) ds ≡ false
    → NoneUnder path ds
unfolding any_under
any_under-none path [] h = tt
any_under-none path (d ∷ ds) h =
    (starts_with-false path d (ground arith), any_under-none path ds (ground arith))

any_under-some :
    (path : List ℕ) (ds : List (List ℕ))
    → any_under (with_slash path) ds ≡ true
    → ¬ NoneUnder path ds
unfolding any_under
any_under-some path [] h m = absurd (cc)
any_under-some path (d ∷ ds) h m = elim (Bool-cases (any_under (with_slash path) ds)) [
  | inl e ↦ any_under-some path ds e m.1
  | inr e ↦ m.0 (starts_with-Under path d (ground (arith, e, h)))
]

-- The index is that of the path, and `remove_at` takes just this entry out.
directory_index_lem :
    (ds : List (List ℕ)) (path : List ℕ) (i : ℕ)
    → directory_index ds path ≡ some i
    → (before : List (List ℕ)) × ((after : List (List ℕ)) × ((ds ≡ before ++ (path ∷ after))
          × (remove_at i ds ≡ before ++ after)))
unfolding directory_index remove_at
directory_index_lem [] path i e = absurd (cc)
directory_index_lem (d ∷ ds) path i e = elim (Bool-cases (name_equal d path)) [
  | inl same ↦
      let first : i ≡ 0 = ground (arith, same, e) in
      ([], (ds, (ap (λ p. p ∷ ds) (name_equal-eq d path same), rw first refl)))
  | inr other ↦ elim (Option-cases (directory_index ds path)) [
    | inl e' ↦ absurd (ground (arith, other, e', e))
    | inr (j, e') ↦
        let next : i ≡ suc j = ground (arith, other, e', e) in
        let (before, (after, (whole, rest))) = directory_index_lem ds path j e' in
        (d ∷ before, (after, (ap (◌∷◌ d) whole, rw next (ap (◌∷◌ d) rest))))
  ]
]

directory_index-none :
    (ds : List (List ℕ)) (path : List ℕ)
    → directory_index ds path ≡ none
    → has_directory ds path ≡ false
unfolding directory_index has_directory
directory_index-none [] path e = refl
directory_index-none (d ∷ ds) path e = elim (Option-cases (directory_index ds path)) [
  | inl k ↦ ground (arith, k, e, directory_index-none ds path k)
  | inr (i, k) ↦ absurd (ground (arith, k, e))
]

-- The path is an entry of the directories, between these.
abbrev pub Between : {W : Type 0} → List ℕ → Ramfs W → List (List ℕ) → List (List ℕ) → Type 0
Between path s before after = s.directories ≡ before ++ (path ∷ after)

-- Why ramfs_rmdir refuses a path.
abbrev pub Kept : {W : Type 0} → List ℕ → Ramfs W → Type 0
Kept path s =
    (path ≡ b'/' ∷ [])
    ⊎ ((path ≡ b'/' ∷ b'b' ∷ b'i' ∷ b'n' ∷ [])
        ⊎ ((path ≡ [])
            ⊎ ((255 ≤ length path)
                ⊎ ((has_directory s.directories path ≡ false)
                    ⊎ ((¬ NoFileUnder path s.files)
                        ⊎ ((before : List (List ℕ)) × ((after : List (List ℕ)) × (Between path s
                                  before after
                                × (¬ NoneUnder path (before ++ after))))))))))

-- What ramfs_rmdir does.
abbrev pub Removed : {W : Type 0} → List ℕ → Ramfs W → Bool × Ramfs W → Type 0
Removed path s r =
    ((r.0 ≡ true)
      × ((before : List (List ℕ)) × ((after : List (List ℕ)) × (Between path s before after
              × ((r.1 ≡ record s { directories = before ++ after })
                  × (NoFileUnder path s.files × NoneUnder path (before ++ after)))))))
    ⊎ ((r.0 ≡ false) × ((r.1 ≡ s) × Kept path s))

module _ {W : Type 0} (path : List ℕ) (s : Ramfs W) where
  refused : rmdir path s ≡ (false, s) → Kept path s → Removed path s (rmdir path s)
  refused step why = subst (Removed path s) (sym step) (inr (refl, (refl, why)))

  rmdir-found :
      (i : ℕ)
      → (name_equal path (b'/' ∷ []) || name_equal path (b'/' ∷ b'b' ∷ b'i' ∷ b'n' ∷ [])) ≡ false
      → directory_index s.directories path ≡ some i
      → Removed path s (rmdir path s)
  unfolding rmdir
  rmdir-found i e k = elim (Bool-cases (length path == 0)) [
    | inl a ↦
        refused (rw (e, k, a, rmdir) refl) (inr (inr (inl (no_path path (ground (arith, a))))))
    | inr a ↦ elim (Bool-cases (leb 255 (length path))) [
      | inl b ↦ refused (rw (e, k, a, b, rmdir) refl) (inr (inr (inr (inl (ground (arith, b))))))
      | inr b ↦ elim (Bool-cases (any_file_under (with_slash path) s.files)) [
        | inl c ↦
            refused (rw (e, k, a, b, c, rmdir) refl)
              (inr (inr (inr (inr (inr (inl (any_file_under-some path s.files c)))))))
        | inr c ↦
            let (before, (after, (whole, rest))) = directory_index_lem s.directories path i k in
            elim (Bool-cases (any_under (with_slash path) (remove_at i s.directories))) [
              | inl d ↦ refused (rw (e, k, a, b, c, d, rmdir) refl) (
                  inr (
                    inr (
                      inr (
                        inr (
                          inr (
                            inr (
                              before,
                              (
                                after,
                                (
                                  whole,
                                  any_under-some path (before ++ after)
                                      (sym (ap (any_under (with_slash path)) rest) ∙ d),
                                ),
                              ),
                            )))))))
              | inr d ↦
                  let step : rmdir path s ≡ (true, record s { directories = before ++ after }) =
                    rw (e, k, a, b, c, d, rmdir)
                      (ap (λ (l : List (List ℕ)). (true, record s { directories = l })) rest) in
                  subst (Removed path s) (sym step) (
                    inl (
                      refl,
                      (
                        before,
                        (
                          after,
                          (
                            whole,
                            (
                              refl,
                              (
                                any_file_under-none path s.files c,
                                any_under-none path (before ++ after)
                                    (sym (ap (any_under (with_slash path)) rest) ∙ d),
                              ),
                            ),
                          ),
                        ),
                      ),
                    ))
            ]
      ]
    ]
  ]
    where
      no_path : (p : List ℕ) → length p ≡ 0 → p ≡ []
      no_path [] z = refl
      no_path (x ∷ xs) z = absurd (omega (arith, z))

  -- ramfs_rmdir takes just one entry of the path out of the directories, where no file in use and no
  -- other directory is under the path; nothing else changes. Or it fails and changes nothing: for "/",
  -- "/bin", a path that is empty, too long or no directory, and where something is under the path.
  pub rmdir_lem : Removed path s (rmdir path s)
  unfolding rmdir
  rmdir_lem = elim (Bool-cases (name_equal path (b'/' ∷ []))) [
    | inl a ↦ refused (rw (a, rmdir) refl) (inl (name_equal-eq path (b'/' ∷ []) a))
    | inr a ↦ elim (Bool-cases (name_equal path (b'/' ∷ b'b' ∷ b'i' ∷ b'n' ∷ []))) [
      | inl b ↦ refused (rw (a, b, rmdir) refl) (inr (inl (name_equal-eq path _ b)))
      | inr b ↦ elim (Option-cases (directory_index s.directories path)) [
        | inl k ↦
            refused (rw (a, b, k, rmdir) refl)
              (inr (inr (inr (inr (inl (directory_index-none s.directories path k))))))
        | inr (i, k) ↦ rmdir-found i (ground (arith, a, b)) k
      ]
    ]
  ]
