-- ===== src/Paths/Prefix.antt =====
-- path_has_prefix of src/fs/vfs.c: the path is the prefix or lies below it.
use cone_os.Prelude.{ℕ, ◌≡◌, refl, ap₂, true, List, [], ◌∷◌, ◌++◌, ==→eq, ==_refl, arith}
use cone_os.Paths.{slash, path_has_prefix}

-- Nothing, or a slash and more.
abbrev pub Below : List ℕ → Type 0
Below [] = Unit
Below (c ∷ cs) = c ≡ slash

pub path_has_prefix-split :
    (path prefix : List ℕ)
    → path_has_prefix path prefix ≡ true
    → (rest : List ℕ) × (path ≡ prefix ++ rest) × Below rest
unfolding path_has_prefix
path_has_prefix-split [] [] h = ([], refl, tt)
path_has_prefix-split (c ∷ cs) [] h = (c ∷ cs, refl, ==→eq c slash h)
path_has_prefix-split [] (p ∷ ps) h = absurd (cc)
path_has_prefix-split (c ∷ cs) (p ∷ ps) h =
    let (rest, e, b) = path_has_prefix-split cs ps (ground arith) in
    let same : c ≡ p = ==→eq c p (ground arith) in (rest, ap₂ ◌∷◌ same e, b)

pub path_has_prefix-append :
    (prefix rest : List ℕ) → Below rest → path_has_prefix (prefix ++ rest) prefix ≡ true
unfolding path_has_prefix
path_has_prefix-append [] [] b = refl
path_has_prefix-append [] (c ∷ cs) b = rw b refl
path_has_prefix-append (p ∷ ps) rest b = rw (==_refl p) (path_has_prefix-append ps rest b)
