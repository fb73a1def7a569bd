-- ===== src/Ramfs/Below.antt =====
-- What ramfs_direct_child of src/fs/ramfs.c takes for directly below a directory.
use cone_os.Prelude.{
  ℕ, ◌≡◌, ◌≢◌, refl, ap, ap₂, ◌∙◌, subst, ◌⊎◌, inl, inr, true, false, not, ◌||◌, ◌==◌, ==_refl,
  none, some, List, [], ◌∷◌, ◌++◌, All, arith, Bool-cases, Option-cases,
}
use cone_os.Ramfs.Listing.{behind_prefix, has_slash, child_of, is_root, direct_child}

abbrev pub NoSlash : List ℕ → Type 0
NoSlash name = All (λ c. c ≢ b'/') name

-- The full name is the directory, a slash, and a name that is not empty and has no slash; the root is
-- its own slash.
abbrev pub IsChild : List ℕ → List ℕ → List ℕ → Type 0
IsChild directory full name =
    (name ≢ [])
    × (NoSlash name
        × (((directory ≡ b'/' ∷ []) × (full ≡ b'/' ∷ name))
            ⊎ ((directory ≢ b'/' ∷ []) × (full ≡ directory ++ (b'/' ∷ name)))))

has_slash-NoSlash : (name : List ℕ) → has_slash name ≡ false → NoSlash name
unfolding has_slash
has_slash-NoSlash [] e = tt
has_slash-NoSlash (c ∷ cs) e = (λ k. ground (arith, k, e), has_slash-NoSlash cs (ground (arith, e)))

NoSlash-has_slash : (name : List ℕ) → NoSlash name → has_slash name ≡ false
unfolding has_slash
NoSlash-has_slash [] m = refl
NoSlash-has_slash (c ∷ cs) m = ground (arith, m.0, NoSlash-has_slash cs m.1)

child_of-some :
    (rest name : List ℕ)
    → child_of rest ≡ some name
    → (name ≢ []) × (NoSlash name × (rest ≡ b'/' ∷ name))
unfolding child_of
child_of-some [] name e = absurd (cc)
child_of-some (c ∷ []) name e = absurd (cc)
child_of-some (c ∷ d ∷ cs) name e = elim (Bool-cases (not (c == b'/') || has_slash (d ∷ cs))) [
  | inl bad ↦ absurd (ground (arith, bad, e))
  | inr good ↦
      let slash : c ≡ b'/' = ground (arith, good) in
      let plain : has_slash (d ∷ cs) ≡ false = ground (arith, good) in
      let same : d ∷ cs ≡ name = ground (arith, good, e) in
      subst (λ n. (n ≢ []) × (NoSlash n × ((c ∷ d ∷ cs) ≡ b'/' ∷ n))) same
        (λ k. absurd (cc), (has_slash-NoSlash (d ∷ cs) plain, ap (λ x. x ∷ d ∷ cs) slash))
]

child_of_lem : (name : List ℕ) → name ≢ [] → NoSlash name → child_of (b'/' ∷ name) ≡ some name
unfolding child_of
child_of_lem [] some_name m = absurd (some_name refl)
child_of_lem (c ∷ cs) some_name m = rw (NoSlash-has_slash (c ∷ cs) m) refl

behind_prefix-some :
    (directory path rest : List ℕ)
    → behind_prefix directory path ≡ some rest
    → path ≡ directory ++ rest
unfolding behind_prefix
behind_prefix-some [] path rest e = ground (arith, e)
behind_prefix-some (d ∷ ds) [] rest e = absurd (cc)
behind_prefix-some (d ∷ ds) (c ∷ cs) rest e = elim (Bool-cases (c == d)) [
  | inl k ↦
      let same : c ≡ d = ground (arith, k) in
      ap (λ x. x ∷ cs) same ∙ ap (◌∷◌ d) (behind_prefix-some ds cs rest (ground (arith, k, e)))
  | inr k ↦ absurd (ground (arith, k, e))
]

behind_prefix_lem :
    (directory rest : List ℕ) → behind_prefix directory (directory ++ rest) ≡ some rest
unfolding behind_prefix
behind_prefix_lem [] rest = refl
behind_prefix_lem (d ∷ ds) rest = rw (==_refl d) (behind_prefix_lem ds rest)

is_root-eq : (directory : List ℕ) → is_root directory ≡ true → directory ≡ b'/' ∷ []
is_root-eq [] e = absurd (cc)
is_root-eq (c ∷ []) e = let slash : c ≡ b'/' = ground (arith, e) in ap (λ x. x ∷ []) slash
is_root-eq (c ∷ d ∷ cs) e = absurd (cc)

is_root-other : (directory : List ℕ) → is_root directory ≡ false → directory ≢ b'/' ∷ []
is_root-other directory e k =
    let here : is_root directory ≡ true = ap is_root k in absurd (cc (e, here))

other-is_root : (directory : List ℕ) → directory ≢ b'/' ∷ [] → is_root directory ≡ false
other-is_root directory other = elim (Bool-cases (is_root directory)) [
  | inl e ↦ absurd (other (is_root-eq directory e))
  | inr e ↦ e
]

pub direct_child-IsChild :
    (directory full name : List ℕ)
    → direct_child directory full ≡ some name
    → IsChild directory full name
unfolding direct_child
direct_child-IsChild directory full name e = elim (Bool-cases (is_root directory)) [
  | inl k ↦
      let (some_name, (plain, whole)) = child_of-some full name (ground (arith, k, e)) in
      (some_name, (plain, inl (is_root-eq directory k, whole)))
  | inr k ↦ elim (Option-cases (behind_prefix directory full)) [
    | inl b ↦ absurd (ground (arith, k, b, e))
    | inr (rest, b) ↦
        let (some_name, (plain, whole)) = child_of-some rest name (ground (arith, k, b, e)) in
        let all = behind_prefix-some directory full rest b in
        (some_name, (plain, inr (is_root-other directory k, all ∙ ap (◌++◌ directory) whole)))
  ]
]

pub IsChild-direct_child :
    (directory full name : List ℕ)
    → IsChild directory full name
    → direct_child directory full ≡ some name
unfolding direct_child
IsChild-direct_child directory full name (some_name, (plain, inl (root, whole))) =
    ap₂ direct_child root whole ∙ child_of_lem name some_name plain
IsChild-direct_child directory full name (some_name, (plain, inr (other, whole))) =
    ap (direct_child directory) whole
    ∙ (rw (other-is_root directory other, behind_prefix_lem directory (b'/' ∷ name))
        (child_of_lem name some_name plain))

pub direct_child-none :
    (directory full name : List ℕ)
    → direct_child directory full ≡ none
    → ¬ IsChild directory full name
direct_child-none directory full name e c =
    let found = IsChild-direct_child directory full name c in absurd (cc (e, found))
