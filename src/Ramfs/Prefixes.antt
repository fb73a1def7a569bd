-- ===== src/Ramfs/Prefixes.antt =====
-- The prefix with which ramfs_rmdir of src/fs/ramfs.c finds what is under a directory.
use cone_os.Prelude.{
  ℕ, ◌≡◌, refl, sym, ap, ◌∙◌, subst, ◌⊎◌, inl, inr, Bool, true, false, ◌&&◌, ◌==◌, ==_refl, List,
  [], ◌∷◌, ◌++◌, if◌then◌else◌, arith, Bool-cases,
}

-- while (prefix[j] && name[j] == prefix[j]); prefix[j] == '\0'
unfoldable pub starts_with : List ℕ → List ℕ → Bool
starts_with [] name = true
starts_with (p ∷ ps) [] = false
starts_with (p ∷ ps) (c ∷ cs) = c == p && starts_with ps cs

unfoldable pub with_slash : List ℕ → List ℕ
with_slash [] = b'/' ∷ []
with_slash (c ∷ []) = if c == b'/' then c ∷ [] else (c ∷ b'/' ∷ [])
with_slash (c ∷ d ∷ rest) = c ∷ with_slash (d ∷ rest)

-- The path ends with a slash.
abbrev pub EndsInSlash : List ℕ → Type 0
EndsInSlash path = (p : List ℕ) × (path ≡ p ++ (b'/' ∷ []))

-- The name is the path, a slash if the path does not end with one, and more.
abbrev pub Under : List ℕ → List ℕ → Type 0
Under path name =
    (rest : List ℕ) × ((name ≡ path ++ (b'/' ∷ rest)) ⊎ (EndsInSlash path × (name ≡ path ++ rest)))

starts_with-append : (ps rest : List ℕ) → starts_with ps (ps ++ rest) ≡ true
unfolding starts_with
starts_with-append [] rest = refl
starts_with-append (p ∷ ps) rest = rw (==_refl p) (starts_with-append ps rest)

starts_with-rest :
    (ps name : List ℕ) → starts_with ps name ≡ true → (rest : List ℕ) × (name ≡ ps ++ rest)
unfolding starts_with
starts_with-rest [] name e = (name, refl)
starts_with-rest (p ∷ ps) [] e = absurd (cc)
starts_with-rest (p ∷ ps) (c ∷ cs) e =
    let (rest, whole) = starts_with-rest ps cs (ground arith) in
    let first : c ≡ p = ground arith in (rest, ap (λ x. x ∷ cs) first ∙ ap (◌∷◌ p) whole)

with_slash_cases :
    (path : List ℕ)
    → (with_slash path ≡ path ++ (b'/' ∷ [])) ⊎ (EndsInSlash path × (with_slash path ≡ path))
unfolding with_slash
with_slash_cases [] = inl refl
with_slash_cases (c ∷ []) = elim (Bool-cases (c == b'/')) [
  | inl e ↦
      let slash : c ≡ b'/' = ground (arith, e) in inr (([], ap (λ x. x ∷ []) slash), rw e refl)
  | inr e ↦ inl (rw e refl)
]
with_slash_cases (c ∷ d ∷ rest) = elim (with_slash_cases (d ∷ rest)) [
  | inl e ↦ inl (ap (◌∷◌ c) e)
  | inr ((p, e), k) ↦ inr ((c ∷ p, ap (◌∷◌ c) e), ap (◌∷◌ c) k)
]

with_slash-slash : (p : List ℕ) → with_slash (p ++ (b'/' ∷ [])) ≡ p ++ (b'/' ∷ [])
unfolding with_slash
with_slash-slash [] = refl
with_slash-slash (c ∷ []) = refl
with_slash-slash (c ∷ d ∷ rest) = ap (◌∷◌ c) (with_slash-slash (d ∷ rest))

append_slash : (path rest : List ℕ) → (path ++ (b'/' ∷ [])) ++ rest ≡ path ++ (b'/' ∷ rest)
append_slash [] rest = refl
append_slash (c ∷ cs) rest = ap (◌∷◌ c) (append_slash cs rest)

-- A name starts with a prefix that has the slash exactly if it is under the path.
pub starts_with-Under :
    (path name : List ℕ) → starts_with (with_slash path) name ≡ true → Under path name
starts_with-Under path name e =
    let (rest, whole) = starts_with-rest (with_slash path) name e in
    elim (with_slash_cases path) [
      | inl k ↦ (rest, inl (whole ∙ ap (λ ps. ps ++ rest) k ∙ append_slash path rest))
      | inr (ends, k) ↦ (rest, inr (ends, whole ∙ ap (λ ps. ps ++ rest) k))
    ]

starts_with-ends :
    (path rest : List ℕ) → EndsInSlash path → starts_with (with_slash path) (path ++ rest) ≡ true
starts_with-ends path rest (p, e) =
    let same : with_slash path ≡ path = ap with_slash e ∙ with_slash-slash p ∙ sym e in
    rw same (starts_with-append path rest)

pub Under-starts_with :
    (path name : List ℕ) → Under path name → starts_with (with_slash path) name ≡ true
Under-starts_with path name (rest, inr (ends, e)) = rw e (starts_with-ends path rest ends)
Under-starts_with path name (rest, inl e) = elim (with_slash_cases path) [
  | inl k ↦
      let whole : name ≡ with_slash path ++ rest =
        e ∙ sym (append_slash path rest) ∙ ap (λ ps. ps ++ rest) (sym k) in
      subst (λ n. starts_with (with_slash path) n ≡ true) (sym whole)
        (starts_with-append (with_slash path) rest)
  | inr (ends, k) ↦ rw e (starts_with-ends path (b'/' ∷ rest) ends)
]

pub starts_with-false :
    (path name : List ℕ) → starts_with (with_slash path) name ≡ false → ¬ Under path name
starts_with-false path name e u = absurd (cc (e, Under-starts_with path name u))
