-- ===== src/Ramfs/Search.antt =====
-- The searches of src/fs/ramfs.c after a change of a file.
use cone_os.Prelude.{
  ℕ, zero, suc, ◌<◌, ◌≡◌, refl, true, false, not, ◌⊎◌, inl, inr, Option, none, some, List, [], ◌∷◌,
  arith, length, get_or, set, Bool-cases,
}
use cone_os.Ramfs.{File, no_file, matches, find_file, free_slot}

find_file-suc :
    (name : List ℕ) (f : File) (fs : List File) (i : ℕ)
    → find_file name (f ∷ fs) ≡ some i
    → ((matches name f ≡ true) × (i ≡ 0))
      ⊎ ((matches name f ≡ false) × ((j : ℕ) × (i ≡ suc j) × (find_file name fs ≡ some j)))
unfolding find_file
find_file-suc name f fs i h = elim (Bool-cases (matches name f)) [
  | inl e ↦ let zero_here : i ≡ 0 = cc (rw e at h) in inl (e, zero_here)
  | inr e ↦ inr (e, later (find_file name fs) refl (rw e at h))
]
  where
    later :
        (o : Option ℕ)
        → find_file name fs ≡ o
        → (elim (find_file name fs) [ none ↦ none | some k ↦ some (suc k) ]) ≡ some i
        → (j : ℕ) × (i ≡ suc j) × (find_file name fs ≡ some j)
    later none e k = absurd (cc (rw e at k))
    later (some j) e k = let same : i ≡ suc j = cc (rw e at k) in (j, same, e)

-- Where a name was found, a file of that name is found again.
pub find_file-set :
    (name : List ℕ) (fs : List File) (i : ℕ) (g : File)
    → find_file name fs ≡ some i
    → matches name g ≡ true
    → (find_file name (set fs i g) ≡ some i) × (i < length fs)
unfolding find_file
find_file-set name [] i g h m = absurd (cc)
find_file-set name (f ∷ fs) i g h m = elim (find_file-suc name f fs i h) [
  | inl (e, at_zero) ↦ rw at_zero (rw m refl, omega arith)
  | inr (e, (j, at_suc, found)) ↦
      let (again, bound) = find_file-set name fs j g found m in
      rw at_suc (rw (e, again) refl, omega arith)
]

find_file-none :
    (name : List ℕ) (f : File) (fs : List File)
    → find_file name (f ∷ fs) ≡ none
    → (matches name f ≡ false) × (find_file name fs ≡ none)
unfolding find_file
find_file-none name f fs h = elim (Bool-cases (matches name f)) [
  | inl e ↦ absurd (cc (rw e at h))
  | inr e ↦ (e, later (find_file name fs) refl (rw e at h))
]
  where
    later :
        (o : Option ℕ)
        → find_file name fs ≡ o
        → (elim (find_file name fs) [ none ↦ none | some k ↦ some (suc k) ]) ≡ none
        → find_file name fs ≡ none
    later none e k = e
    later (some j) e k = absurd (cc (rw e at k))

-- A file put where no file has its name is found.
pub find_file-put :
    (name : List ℕ) (fs : List File) (i : ℕ) (g : File)
    → find_file name fs ≡ none
    → i < length fs
    → matches name g ≡ true
    → find_file name (set fs i g) ≡ some i
unfolding find_file
find_file-put name [] i g h bound m = absurd (omega arith)
find_file-put name (f ∷ fs) zero g h bound m = rw m refl
find_file-put name (f ∷ fs) (suc i) g h bound m =
    let (e, later) = find_file-none name f fs h in
    let again : find_file name (set fs i g) ≡ some i =
      find_file-put name fs i g later (omega arith) m in
    rw (e, again) refl

pub free_slot-bound : (fs : List File) (i : ℕ) → free_slot fs ≡ some i → i < length fs
unfolding free_slot
free_slot-bound [] i h = absurd (cc)
free_slot-bound (f ∷ fs) i h = elim (Bool-cases (not f.used)) [
  | inl e ↦ let at_zero : i ≡ 0 = cc (rw e at h) in omega arith
  | inr e ↦ later (free_slot fs) refl (free_slot-bound fs) (rw e at h)
]
  where
    later :
        (o : Option ℕ)
        → free_slot fs ≡ o
        → ((j : ℕ) → free_slot fs ≡ some j → j < length fs)
        → (elim (free_slot fs) [ none ↦ none | some k ↦ some (suc k) ]) ≡ some i
        → i < suc (length fs)
    later none e bound k = absurd (cc (rw e at k))
    later (some j) e bound k = let same : i ≡ suc j = cc (rw e at k) in omega (arith, bound j e)

pub find_file-matches :
    (name : List ℕ) (fs : List File) (i : ℕ)
    → find_file name fs ≡ some i
    → matches name (get_or fs i no_file) ≡ true
unfolding find_file
find_file-matches name [] i h = absurd (cc)
find_file-matches name (f ∷ fs) i h = elim (find_file-suc name f fs i h) [
  | inl (e, at_zero) ↦ rw at_zero e
  | inr (e, (j, at_suc, found)) ↦ rw at_suc (find_file-matches name fs j found)
]
