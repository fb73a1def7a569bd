-- ===== src/Paths/Trailing.antt =====
-- What ".." at the end of a path leaves in resolve_path of src/fs/vfs.c.
use mathlib.Core.Option
use cone_os.Prelude.{
  ℕ, ◌<◌, ◌≡◌, refl, sym, ◌∙◌, ap, subst, true, Option, some, List, [], ◌∷◌, ◌++◌, length, inl, inr,
  arith, ltb, Bool-cases,
}
use cone_os.Paths.{slash, is_absolute, resolved, resolve_path}
use cone_os.Paths.Spec.{
  Place, parts, parent, visit, walk, walk_within, path_of, render, text, root, IsPlace,
}
use cone_os.Paths.Resolve.{resolve_path_lem}

walk-append : (xs ys : List (List ℕ)) (p : Place) → walk (xs ++ ys) p ≡ walk ys (walk xs p)
unfolding walk
walk-append [] ys p = refl
walk-append (x ∷ xs) ys p = walk-append xs ys (visit x p)

-- Where the walk fits it ends at the text of the place that it comes to.
pub walk_within-resolved :
    (capacity : ℕ) (names : List (List ℕ)) (p : Place) (out : List ℕ)
    → walk_within capacity names p ≡ resolved out
    → out ≡ text (walk names p)
unfolding walk_within walk
walk_within-resolved capacity [] p out h = cc
walk_within-resolved capacity (x ∷ xs) p out h =
    walk_within-resolved capacity xs (visit x p) out (ground arith)

abbrev pub dot_dot : List ℕ
dot_dot = b'.' ∷ b'.' ∷ []

text-visit :
    (p : Place) (d e : List ℕ) (ds : List (List ℕ))
    → p.directories ≡ d ∷ e ∷ ds
    → text (visit dot_dot p) ≡ render (e ∷ ds) ++ (slash ∷ [])
unfolding visit text parent cone_os.Ramfs.Names.name_equal
text-visit p d e ds h = rw h refl

path_of-resolved :
    (capacity : ℕ) (cwd : Option Place) (input out : List ℕ)
    → is_absolute input ≡ true
    → path_of capacity cwd input ≡ resolved out
    → walk_within capacity (parts input) root ≡ resolved out
unfolding path_of
path_of-resolved capacity cwd input out a h = elim (Bool-cases (ltb capacity 2)) [
  | inl e ↦ absurd (cc)
  | inr e ↦ ground arith
]

-- A path that ends in ".." below at least two directories resolves to the directory above with a
-- slash behind its name. Conditions: the path is absolute and resolves,
-- and the current directory, where there is one, is the text of a place, and fits.
pub resolve_path-parent :
    (capacity : ℕ) (cwd : Option Place) (input out : List ℕ) (names : List (List ℕ)) (d e : List ℕ)
    (ds : List (List ℕ))
    → ((p : Place) → cwd ≡ some p → IsPlace p × (length (text p) < capacity))
    → is_absolute input ≡ true
    → parts input ≡ names ++ (dot_dot ∷ [])
    → (walk names root).directories ≡ d ∷ e ∷ ds
    → resolve_path capacity (Option.map text cwd) input ≡ resolved out
    → out ≡ render (e ∷ ds) ++ (slash ∷ [])
unfolding walk
resolve_path-parent capacity cwd input out names d e ds ok a ends at h =
    walk_within-resolved capacity (names ++ (dot_dot ∷ [])) root out (
      subst (λ (ps : List (List ℕ)). walk_within capacity ps root ≡ resolved out) ends
        (path_of-resolved capacity cwd input out a
          (sym (resolve_path_lem capacity cwd input ok) ∙ h)))
    ∙ ap text (walk-append names (dot_dot ∷ []) root)
    ∙ text-visit (walk names root) d e ds at
