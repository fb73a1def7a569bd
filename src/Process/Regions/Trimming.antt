-- ===== src/Process/Regions/Trimming.antt =====
-- The regions of src/kernel/process.c that process_munmap trims, as a map from addresses.
use cone_os.Process.Regions.{Region, covers, splits, trim, upper_part}
use cone_os.Process.Regions.Coverage.{view, view-Apart, Apart}
use cone_os.Prelude.{
  ℕ, ◌<◌, ◌≤◌, ◌≡◌, refl, true, false, not, ◌&&◌, ltb, leb, Bool-cases, Option-cases, inl, inr,
  none, some, List, [], ◌∷◌, map, All, Pairwise, if◌then◌else◌, arith,
}

module _ (low high : ℕ) (order : low < high) where
  pub trim-covers_low :
      (r : Region) (x : ℕ) → x < high → covers x (trim low high r) ≡ (covers x r && ltb x low)
  trim-covers_low r x h = ground arith

  pub trim-covers_high :
      (r : Region) (x : ℕ)
      → high ≤ x
      → covers x (trim low high r) ≡ (covers x r && not (splits low high r))
  trim-covers_high r x h = ground arith

  pub trim-protection : (r : Region) → (trim low high r).protection ≡ r.protection
  trim-protection r = ground arith

  pub view-trim_low :
      (rs : List Region) (x : ℕ)
      → x < high
      → view (map (trim low high) rs) x ≡ (if leb low x then none else view rs x)
  view-trim_low [] x h = ground arith
  view-trim_low (r ∷ rs) x h =
      rw (trim-covers_low r x h, trim-protection r) (ground (arith, view-trim_low rs x h))

  pub view-trim_high :
      (rs : List Region) (x : ℕ)
      → high ≤ x
      → upper_part low high rs ≡ none
      → view (map (trim low high) rs) x ≡ view rs x
  unfolding upper_part
  view-trim_high [] x h e = refl
  view-trim_high (r ∷ rs) x h e = elim (Option-cases (upper_part low high rs)) [
    | inl k ↦
        let s : splits low high r ≡ false = ground (arith, k, e) in
        rw (trim-covers_high r x h, trim-protection r, s) (ground (arith, view-trim_high rs x h k))
    | inr (u, k) ↦ ground (arith, k, e)
  ]

  -- Beside a region that is split no other one is.
  pub upper_part-Apart-none :
      (r : Region) (rs : List Region)
      → All (Apart r) rs
      → splits low high r ≡ true
      → upper_part low high rs ≡ none
  unfolding upper_part
  upper_part-Apart-none r [] a e = refl
  upper_part-Apart-none r (s ∷ rs) a e = rw (upper_part-Apart-none r rs a.1 e) (ground (arith, a.0))

  -- The upper part covers what its region covered.
  pub view-upper :
      (rs : List Region) (u : Region) (x : ℕ)
      → high ≤ x
      → Pairwise Apart rs
      → upper_part low high rs ≡ some u
      → view rs x ≡ (if covers x u then some u.protection else view (map (trim low high) rs) x)
  unfolding upper_part
  view-upper [] u x h p e = ground arith
  view-upper (r ∷ rs) u x h p e = elim (Option-cases (upper_part low high rs)) [
    | inl k ↦
        let s : splits low high r ≡ true = ground (arith, k, e) in
        let same : u ≡ record r { start = high } = ground (arith, k, e) in
        rw (trim-covers_high r x h, trim-protection r, s, same)
          (ground (arith, view-trim_high rs x h k))
    | inr (v, k) ↦
        let same : u ≡ v = ground (arith, k, e) in
        let s : splits low high r ≡ false = elim (Bool-cases (splits low high r)) [
          | inl t ↦ ground (arith, k, upper_part-Apart-none r rs p.0 t)
          | inr t ↦ t
        ] in
        rw (trim-covers_high r x h, trim-protection r, s, same)
          (elim (Bool-cases (covers x r)) [
            | inl t ↦ ground (arith, t, view-Apart r rs x p.0 t, view-upper rs v x h p.1 k)
            | inr t ↦ ground (arith, t, view-upper rs v x h p.1 k)
          ])
  ]
