-- ===== src/Vfs/Routing.antt =====
-- find_mount of src/fs/vfs.c finds the mount with the longest path.
use cone_os.Prelude.{
  ℕ, suc, ◌<◌, ◌≤◌, ◌≡◌, ◌⊎◌, inl, inr, refl, sym, ◌∙◌, ap, subst, Bool, true, false, ◌&&◌, Option,
  none, some, List, [], ◌∷◌, ◌++◌, length, drop, get_elem?, arith, leb, All, All-map, Bool-cases,
}
use cone_os.Paths.{path_has_prefix}
use cone_os.Paths.Prefix.{Below, path_has_prefix-split}
use cone_os.Vfs.{Mount}
use cone_os.Vfs.Mounts.{best_mount, find_mount, behind_slash}

-- A mount that the path is at or below.
abbrev pub covers : List ℕ → Mount → Bool
covers path m = m.used && path_has_prefix path m.path

abbrev AtMost : List ℕ → ℕ → Mount → Type 0
AtMost path n m = covers path m ≡ true → length m.path ≤ n

abbrev Under : List ℕ → ℕ → Mount → Type 0
Under path n m = covers path m ≡ true → length m.path < n

record Better (path : List ℕ) (ms : List Mount) (n : ℕ) (b : Option Mount) (k : ℕ) : Type 0 where
  index : ℕ
  mount : Mount
  there : get_elem? ms index ≡ some mount
  covering : covers path mount ≡ true
  best : b ≡ some mount
  size : k ≡ length mount.path
  more : n ≤ k
  longest : All (AtMost path k) ms

abbrev Searched : List ℕ → List Mount → Option Mount → ℕ → Option Mount × ℕ → Type 0
Searched path ms best n s = ((s ≡ (best, n)) × All (Under path n) ms) ⊎ Better path ms n s.0 s.1

taken :
    (path : List ℕ) (m : Mount) (ms : List Mount) (n : ℕ) (s : Option Mount × ℕ)
    (best : Option Mount)
    → covers path m ≡ true
    → n ≤ length m.path
    → Searched path ms (some m) (length m.path) s
    → Searched path (m ∷ ms) best n s
taken path m ms n s best c l (inl (e, under)) =
    let size : s.1 ≡ length m.path = ap (λ (t : Option Mount × ℕ). t.1) e in
    inr (record {
      index = 0;
      mount = m;
      there = refl;
      covering = c;
      best = ap (λ (t : Option Mount × ℕ). t.0) e;
      size = size;
      more = omega (arith, size);
      longest = (
        (λ d. omega (arith, size)),
        All-map (Under path (length m.path)) (AtMost path s.1) (λ x u d. omega (arith, u d, size))
            ms under,
      );
    })
taken path m ms n s best c l (inr b) = inr (record {
  index = suc b.index;
  mount = b.mount;
  there = b.there;
  covering = b.covering;
  best = b.best;
  size = b.size;
  more = omega (arith, b.more);
  longest = ((λ d. b.more), b.longest);
})

passed :
    (path : List ℕ) (m : Mount) (ms : List Mount) (n : ℕ) (s : Option Mount × ℕ)
    (best : Option Mount)
    → Under path n m
    → Searched path ms best n s
    → Searched path (m ∷ ms) best n s
passed path m ms n s best u (inl (e, under)) = inl (e, (u, under))
passed path m ms n s best u (inr b) = inr (record {
  index = suc b.index;
  mount = b.mount;
  there = b.there;
  covering = b.covering;
  best = b.best;
  size = b.size;
  more = b.more;
  longest = ((λ d. omega (arith, u d, b.more)), b.longest);
})

better_step :
    (path : List ℕ) (m : Mount) (ms : List Mount) (best : Option Mount) (n : ℕ)
    → (covers path m && leb n (length m.path)) ≡ true
    → best_mount path (m ∷ ms) best n ≡ best_mount path ms (some m) (length m.path)
unfolding best_mount
better_step path m ms best n e = rw e refl

other_step :
    (path : List ℕ) (m : Mount) (ms : List Mount) (best : Option Mount) (n : ℕ)
    → (covers path m && leb n (length m.path)) ≡ false
    → best_mount path (m ∷ ms) best n ≡ best_mount path ms best n
unfolding best_mount
other_step path m ms best n e = rw e refl

best_mount_lem :
    (path : List ℕ) (ms : List Mount) (best : Option Mount) (n : ℕ)
    → Searched path ms best n (best_mount path ms best n)
unfolding best_mount
best_mount_lem path [] best n = inl (refl, tt)
best_mount_lem path (m ∷ ms) best n = elim (Bool-cases (covers path m && leb n (length m.path))) [
  | inl e ↦ subst (Searched path (m ∷ ms) best n) (sym (better_step path m ms best n e)) (
      taken path m ms n (best_mount path ms (some m) (length m.path)) best (ground arith)
        (ground arith) (best_mount_lem path ms (some m) (length m.path)))
  | inr e ↦ subst (Searched path (m ∷ ms) best n) (sym (other_step path m ms best n e)) (
      passed path m ms n (best_mount path ms best n) best (λ c. ground arith)
        (best_mount_lem path ms best n))
]

-- What find_mount gives.
abbrev pub Found : List ℕ → List Mount → Option (Mount × List ℕ) → Type 0
Found path ms none = All (λ m. covers path m ≡ false) ms
Found path ms (some (m, relative)) =
    ((i : ℕ) × (get_elem? ms i ≡ some m))
    × (m.used ≡ true)
    × ((rest : List ℕ) × (path ≡ m.path ++ rest) × Below rest × (relative ≡ behind_slash rest))
    × All (AtMost path (length m.path)) ms

drop-append : (xs ys : List ℕ) → drop (length xs) (xs ++ ys) ≡ ys
drop-append [] ys = refl
drop-append (x ∷ xs) ys = drop-append xs ys

found :
    (path : List ℕ) (ms : List Mount) (s : Option Mount × ℕ)
    → Searched path ms none 0 s
    → Found path ms (elim s.0 [ none ↦ none | some m ↦ some (m, behind_slash (drop s.1 path)) ])
found path ms s (inl (e, under)) =
    rw e (All-map (Under path 0) (λ m. covers path m ≡ false) (λ m u. uncovered m u) ms under)
  where
    uncovered : (m : Mount) → Under path 0 m → covers path m ≡ false
    uncovered m u = elim (Bool-cases (covers path m)) [
      | inl c ↦ absurd (omega (arith, u c))
      | inr c ↦ c
    ]
found path ms s (inr b) =
    let (rest, split, below) =
      path_has_prefix-split path b.mount.path (ground (arith, b.covering)) in
    let tail : drop (length b.mount.path) path ≡ rest =
      ap (drop (length b.mount.path)) split ∙ drop-append b.mount.path rest in
    rw (b.best, b.size)
      (
        (b.index, b.there),
        (ground (arith, b.covering)),
        (rest, split, below, ap behind_slash tail),
        subst (λ (k : ℕ). All (AtMost path k) ms) b.size b.longest,
      )

-- find_mount finds nothing if no mount covers the path. Otherwise it finds a used mount that covers it,
-- whose path is the longest of all those, and the rest of the path behind it, less one slash.
pub find_mount_lem : (path : List ℕ) (ms : List Mount) → Found path ms (find_mount path ms)
unfolding find_mount
find_mount_lem path ms = found path ms (best_mount path ms none 0) (best_mount_lem path ms none 0)
