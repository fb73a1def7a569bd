-- ===== src/Ramfs/Names.antt =====
-- The names of src/fs/ramfs.c.
use cone_os.Prelude.{
  ℕ, zero, suc, ◌≤◌, ◌≡◌, refl, ap, ◌∙◌, Bool, true, false, ◌&&◌, List, [], ◌∷◌, length, take, ◌==◌,
  ==_refl, arith,
}

unfoldable pub name_equal : List ℕ → List ℕ → Bool
name_equal [] [] = true
name_equal [] (y ∷ ys) = false
name_equal (x ∷ xs) [] = false
name_equal (x ∷ xs) (y ∷ ys) = x == y && name_equal xs ys

-- RAMFS_NAME_SIZE
abbrev pub name_size : ℕ
name_size = 256

-- while (name[j] && j < RAMFS_NAME_SIZE - 1): longer names are cut.
abbrev pub stored_name : List ℕ → List ℕ
stored_name name = take 255 name

pub name_equal_refl : (xs : List ℕ) → name_equal xs xs ≡ true
unfolding name_equal
name_equal_refl [] = refl
name_equal_refl (x ∷ xs) = rw (==_refl x) (name_equal_refl xs)

pub take-all : (n : ℕ) (xs : List ℕ) → length xs ≤ n → take n xs ≡ xs
take-all zero [] h = refl
take-all zero (x ∷ xs) h = absurd (omega arith)
take-all (suc n) [] h = refl
take-all (suc n) (x ∷ xs) h = ap (◌∷◌ x) (take-all n xs (omega arith))

pub take_at_most : (n : ℕ) (xs : List ℕ) → length (take n xs) ≤ n
take_at_most zero xs = omega arith
take_at_most (suc n) [] = omega arith
take_at_most (suc n) (x ∷ xs) = omega (arith, take_at_most n xs)

pub name_equal-length : (xs ys : List ℕ) → name_equal xs ys ≡ true → length xs ≡ length ys
unfolding name_equal
name_equal-length [] [] h = refl
name_equal-length [] (y ∷ ys) h = absurd (cc)
name_equal-length (x ∷ xs) [] h = absurd (cc)
name_equal-length (x ∷ xs) (y ∷ ys) h = ap suc (name_equal-length xs ys (ground arith))

pub name_equal-eq : (xs ys : List ℕ) → name_equal xs ys ≡ true → xs ≡ ys
unfolding name_equal
name_equal-eq [] [] h = refl
name_equal-eq [] (y ∷ ys) h = absurd (cc)
name_equal-eq (x ∷ xs) [] h = absurd (cc)
name_equal-eq (x ∷ xs) (y ∷ ys) h =
    let first : x ≡ y = ground arith in
    ap (λ z. z ∷ xs) first ∙ ap (◌∷◌ y) (name_equal-eq xs ys (ground arith))
