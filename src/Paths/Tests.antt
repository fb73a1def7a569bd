-- ===== src/Paths/Tests.antt =====
-- Paths below "/" and "/home".
use mathlib.Core.Option
use cone_os.Prelude.{
  ℕ, ◌<◌, ◌≡◌, refl, subst, true, false, some, List, [], ◌∷◌, ◌++◌, length, arith,
}
use cone_os.Paths.{slash, resolve_path, resolve_from, resolved, refused, is_absolute}
use cone_os.Paths.Spec.{Place, root, walk, text, render, parts, path_of, IsPlace}
use cone_os.Paths.Resolve.{resolve_path_lem}
use cone_os.Paths.Trailing.{dot_dot, resolve_path-parent}

abbrev a_name : List ℕ
a_name = b'a' ∷ []

abbrev b_name : List ℕ
b_name = b'b' ∷ []

abbrev below_a : Place
below_a = record { directories = a_name ∷ []; trailing = false }

abbrev up_one : List ℕ
up_one = slash ∷ b'a' ∷ slash ∷ b'b' ∷ slash ∷ b'.' ∷ b'.' ∷ []

below_a-IsPlace : IsPlace below_a
below_a-IsPlace = (((λ e. absurd (cc)), ((λ e. absurd (omega (arith, e))), tt)), tt)

short : length (text below_a) < 8
unfolding text render
short = omega arith

fits : (p : Place) → some below_a ≡ some p → IsPlace p × (length (text p) < 8)
fits p e = subst (λ (q : Place). IsPlace q × (length (text q) < 8)) same (below_a-IsPlace, short)
  where
    same : below_a ≡ p
    same = cc

-- "b" below "/a", with eight bytes of room.
resolve_path_lem_example :
    resolve_path 8 (Option.map text (some below_a)) b_name ≡ path_of 8 (some below_a) b_name
resolve_path_lem_example = resolve_path_lem 8 (some below_a) b_name fits

up_one-resolved :
    resolve_path 8 (Option.map text (some below_a)) up_one ≡ resolved (slash ∷ b'a' ∷ slash ∷ [])
unfolding resolve_path is_absolute resolve_from cone_os.Paths.skip_slashes cone_os.Paths.terminate
    cone_os.Paths.take_step cone_os.Paths.component cone_os.Paths.behind
    cone_os.Paths.append_component cone_os.Paths.with_separator cone_os.Paths.onto
    cone_os.Paths.go_up cone_os.Paths.strip cone_os.Ramfs.Names.name_equal
up_one-resolved = refl

up_one-parts : parts up_one ≡ (a_name ∷ b_name ∷ []) ++ (dot_dot ∷ [])
unfolding parts cone_os.Paths.Spec.cut cone_os.Paths.Spec.nonempty
up_one-parts = refl

up_one-at : (walk (a_name ∷ b_name ∷ []) root).directories ≡ b_name ∷ a_name ∷ []
unfolding walk cone_os.Paths.Spec.visit cone_os.Ramfs.Names.name_equal
up_one-at = refl

up_one-is_absolute : is_absolute up_one ≡ true
unfolding is_absolute
up_one-is_absolute = refl

-- "/a/b/.." becomes "/a/".
resolve_path-parent_example :
    ◌≡◌ {A = List ℕ} (slash ∷ b'a' ∷ slash ∷ []) (render (a_name ∷ []) ++ (slash ∷ []))
resolve_path-parent_example =
    resolve_path-parent 8 (some below_a) up_one (slash ∷ b'a' ∷ slash ∷ []) (a_name ∷ b_name ∷ [])
      b_name a_name [] fits up_one-is_absolute up_one-parts up_one-at up_one-resolved

-- "b" does not fit behind "/a" in three bytes.
too_long : resolve_path 4 (some (slash ∷ b'a' ∷ [])) b_name ≡ refused
unfolding resolve_path is_absolute resolve_from cone_os.Paths.skip_slashes cone_os.Paths.terminate
    cone_os.Paths.take_step cone_os.Paths.component cone_os.Paths.behind
    cone_os.Paths.append_component cone_os.Paths.with_separator cone_os.Paths.onto
    cone_os.Ramfs.Names.name_equal
too_long = refl
