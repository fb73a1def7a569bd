-- ===== src/Paths/Components.antt =====
-- How resolve_path of src/fs/vfs.c cuts its input, against the names between the slashes.
use cone_os.Prelude.{
  ℕ, ◌<◌, ◌≤◌, ◌≡◌, ◌≢◌, refl, sym, ◌∙◌, ap, true, false, List, [], ◌∷◌, arith, length, ◌==◌, All,
  Bool-cases, inl, inr,
}
use cone_os.Paths.{slash, skip_slashes, component, behind, is_absolute}
use cone_os.Paths.Spec.{cut, nonempty, parts, IsName}

-- The pieces behind the slash that a rest starts with.
after : List ℕ → List (List ℕ)
after [] = []
after (c ∷ cs) = cut cs

cut_lem : (xs : List ℕ) → cut xs ≡ component xs ∷ after (behind xs)
unfolding cut component behind after
cut_lem [] = refl
cut_lem (c ∷ cs) = elim (Bool-cases (c == slash)) [
  | inl e ↦ rw e refl
  | inr e ↦ rw (e, cut_lem cs) refl
]

cut-slash : (c : ℕ) (cs : List ℕ) → (c == slash) ≡ true → cut (c ∷ cs) ≡ [] ∷ cut cs
unfolding cut
cut-slash c cs e = rw e refl

pub parts-skip_slashes : (xs : List ℕ) → parts (skip_slashes xs) ≡ parts xs
unfolding parts skip_slashes cut nonempty
parts-skip_slashes [] = refl
parts-skip_slashes (c ∷ cs) = elim (Bool-cases (c == slash)) [
  | inl e ↦ rw e (parts-skip_slashes cs)
  | inr e ↦ rw (if_not c cs e) refl
]
  where
    if_not : (c : ℕ) (cs : List ℕ) → (c == slash) ≡ false → skip_slashes (c ∷ cs) ≡ c ∷ cs
    if_not c cs e = unfold skip_slashes in rw e refl

nonempty-after : (xs : List ℕ) → nonempty (after (behind xs)) ≡ parts (behind xs)
unfolding parts behind after cut nonempty
nonempty-after [] = refl
nonempty-after (c ∷ cs) = elim (Bool-cases (c == slash)) [
  | inl e ↦ rw (if_so c cs e) (ap nonempty (sym (cut-slash c cs e)))
  | inr e ↦ rw e (nonempty-after cs)
]
  where
    if_so : (c : ℕ) (cs : List ℕ) → (c == slash) ≡ true → behind (c ∷ cs) ≡ c ∷ cs
    if_so c cs e = unfold behind in rw e refl

-- The first name, and those of the rest of the input.
pub parts_lem :
    (c : ℕ) (cs : List ℕ)
    → (c == slash) ≡ false
    → parts (c ∷ cs) ≡ component (c ∷ cs) ∷ parts (skip_slashes (behind (c ∷ cs)))
unfolding parts nonempty component
parts_lem c cs e =
    ap nonempty (cut_lem (c ∷ cs))
    ∙ rw e (
        ap (◌∷◌ (c ∷ component cs))
          (nonempty-after (c ∷ cs) ∙ sym (parts-skip_slashes (behind (c ∷ cs)))))

component-All : (xs : List ℕ) → All (λ c. c ≢ slash) (component xs)
unfolding component
component-All [] = tt
component-All (c ∷ cs) = elim (Bool-cases (c == slash)) [
  | inl e ↦ rw e tt
  | inr e ↦ rw e ((ground arith), component-All cs)
]

pub component-IsName : (c : ℕ) (cs : List ℕ) → (c == slash) ≡ false → IsName (component (c ∷ cs))
component-IsName c cs e = (some_byte, component-All (c ∷ cs))
  where
    some_byte : component (c ∷ cs) ≢ []
    some_byte = unfold component in rw e (λ k. absurd (cc))

pub is_absolute-skip_slashes : (xs : List ℕ) → is_absolute (skip_slashes xs) ≡ false
unfolding is_absolute skip_slashes
is_absolute-skip_slashes [] = refl
is_absolute-skip_slashes (c ∷ cs) = elim (Bool-cases (c == slash)) [
  | inl e ↦ rw e (is_absolute-skip_slashes cs)
  | inr e ↦ rw e e
]

length-behind : (xs : List ℕ) → length (behind xs) ≤ length xs
unfolding behind
length-behind [] = omega arith
length-behind (c ∷ cs) = ground (arith, length-behind cs)

pub length-skip_slashes : (xs : List ℕ) → length (skip_slashes xs) ≤ length xs
unfolding skip_slashes
length-skip_slashes [] = omega arith
length-skip_slashes (c ∷ cs) = ground (arith, length-skip_slashes cs)

-- Each round of the loop takes a byte.
pub length-rest :
    (c : ℕ) (cs : List ℕ)
    → (c == slash) ≡ false
    → length (skip_slashes (behind (c ∷ cs))) < length (c ∷ cs)
unfolding behind
length-rest c cs e = ground (arith, length-behind cs, length-skip_slashes (behind cs))
