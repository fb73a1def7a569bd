-- ===== src/Process/Regions/Cutting.antt =====
-- What the last loop of process_munmap leaves of the table of regions.
use cone_os.Process.Regions.{Region, covers, splits, trim, upper_part, cut_regions}
use cone_os.Process.Regions.Coverage.{
  view, view-set, IsRegion, Apart, Apart-sym, IsTable, Pairwise-set,
}
use cone_os.Prelude.{
  ℕ, zero, suc, ◌%◌, ◌<◌, ◌≤◌, ◌≡◌, refl, true, false, ◌&&◌, ltb, leb, Bool-cases, Option-cases,
  inl, inr, none, some, List, [], ◌∷◌, map, set, get_or, length, All, All-set, if◌then◌else◌, arith,
  ap, sym, subst,
}
use cone_os.Process.Regions.Trimming.{view-trim_low, view-trim_high, view-upper}

module _ (low high : ℕ) (order : low < high) where
  module _ (aligned : (low % 4096 ≡ 0) × (high % 4096 ≡ 0)) where
    trim-IsRegion : (r : Region) → IsRegion r → IsRegion (trim low high r)
    trim-IsRegion r h = ground (arith, aligned)

    trim-Apart : (r s : Region) → Apart r s → Apart (trim low high r) (trim low high s)
    trim-Apart r s h = ground arith

    All-trim-Apart :
        (r : Region) (rs : List Region)
        → All (Apart r) rs
        → All (Apart (trim low high r)) (map (trim low high) rs)
    All-trim-Apart r [] h = tt
    All-trim-Apart r (s ∷ rs) h = (trim-Apart r s h.0, All-trim-Apart r rs h.1)

    trim-IsTable : (rs : List Region) → IsTable rs → IsTable (map (trim low high) rs)
    trim-IsTable [] h = h
    trim-IsTable (r ∷ rs) ((a, bs), (p, ps)) =
        let (cs, qs) = trim-IsTable rs (bs, ps) in
        ((trim-IsRegion r a, cs), (All-trim-Apart r rs p, qs))

    abbrev pub upper : Region → Region
    upper r = record r { start = high }

    upper-Apart :
        (r s : Region) → Apart r s → splits low high r ≡ true → Apart (upper r) (trim low high s)
    upper-Apart r s h e = ground arith

    All-upper-Apart :
        (r : Region) (rs : List Region)
        → All (Apart r) rs
        → splits low high r ≡ true
        → All (Apart (upper r)) (map (trim low high) rs)
    All-upper-Apart r [] h e = tt
    All-upper-Apart r (s ∷ rs) h e = (upper-Apart r s h.0 e, All-upper-Apart r rs h.1 e)

    upper_part-Apart-trim :
        (r : Region) (rs : List Region) (u : Region)
        → All (Apart r) rs
        → upper_part low high rs ≡ some u
        → Apart u (trim low high r)
    unfolding upper_part
    upper_part-Apart-trim r [] u a e = ground arith
    upper_part-Apart-trim r (s ∷ rs) u a e = elim (Option-cases (upper_part low high rs)) [
      | inl k ↦
          let t : splits low high s ≡ true = ground (arith, k, e) in
          let same : u ≡ upper s = ground (arith, k, e) in
          rw (same) (upper-Apart s r (Apart-sym r s a.0) t)
      | inr (v, k) ↦
          let same : u ≡ v = ground (arith, k, e) in rw (same) (upper_part-Apart-trim r rs v a.1 k)
    ]

    -- The upper part is in order, and apart from what the cut leaves.
    pub upper_part-Apart :
        (rs : List Region) (u : Region)
        → IsTable rs
        → upper_part low high rs ≡ some u
        → IsRegion u × All (Apart u) (map (trim low high) rs)
    unfolding upper_part
    upper_part-Apart [] u h e = ground arith
    upper_part-Apart (r ∷ rs) u ((a, bs), (p, ps)) e =
        elim (Option-cases (upper_part low high rs)) [
          | inl k ↦
              let s : splits low high r ≡ true = ground (arith, k, e) in
              let same : u ≡ upper r = ground (arith, k, e) in
              subst
                (λ v.
                  IsRegion v × (Apart v (trim low high r) × All (Apart v) (map (trim low high) rs)))
                (sym same)
                (ground (arith, aligned, a, s), (ground (arith, s), All-upper-Apart r rs p s))
          | inr (v, k) ↦
              let same : u ≡ v = ground (arith, k, e) in
              let (b, q) = upper_part-Apart rs v (bs, ps) k in
              subst
                (λ v.
                  IsRegion v × (Apart v (trim low high r) × All (Apart v) (map (trim low high) rs)))
                (sym same) (b, (upper_part-Apart-trim r rs v p k, q))
        ]

    pub trim-free :
        (rs : List Region) (i : ℕ) (d : Region)
        → (get_or rs i d).used ≡ false
        → (get_or (map (trim low high) rs) i d).used ≡ false
    trim-free [] i d h = h
    trim-free (r ∷ rs) zero d h = ground (arith, h)
    trim-free (r ∷ rs) (suc i) d h = trim-free rs i d h

    pub length-trim : (rs : List Region) → length (map (trim low high) rs) ≡ length rs
    length-trim [] = refl
    length-trim (r ∷ rs) = ap suc (length-trim rs)

    upper_part-covers :
        (rs : List Region) (u : Region) (x : ℕ)
        → upper_part low high rs ≡ some u
        → covers x u ≡ true
        → high ≤ x
    unfolding upper_part
    upper_part-covers [] u x e h = ground arith
    upper_part-covers (r ∷ rs) u x e h = elim (Option-cases (upper_part low high rs)) [
      | inl k ↦
          let t : splits low high r ≡ true = ground (arith, k, e) in
          let same : u ≡ upper r = ground (arith, k, e) in ground (arith, same, h)
      | inr (v, k) ↦
          let same : u ≡ v = ground (arith, k, e) in
          upper_part-covers rs v x k (subst (λ w. covers x w ≡ true) same h)
    ]

    pub cut_regions-whole :
        (slot : ℕ) (rs : List Region)
        → upper_part low high rs ≡ none
        → cut_regions slot low high rs ≡ map (trim low high) rs
    unfolding cut_regions
    cut_regions-whole slot rs k = rw (k, cut_regions) refl

    pub cut_regions-split :
        (slot : ℕ) (rs : List Region) (u : Region)
        → upper_part low high rs ≡ some u
        → cut_regions slot low high rs ≡ set (map (trim low high) rs) slot u
    unfolding cut_regions
    cut_regions-split slot rs u k = rw (k, cut_regions) refl

    -- The slot for the upper part, if there is one, is a free one.
    abbrev pub HasSlot : ℕ → List Region → Type 0
    HasSlot slot rs =
        (u : Region)
        → upper_part low high rs ≡ some u
        → (slot < length rs) × ((get_or rs slot u).used ≡ false)

    -- The cut leaves a table in order, which covers what it covered before, outside the cut.
    pub cut_regions_lem :
        (slot : ℕ) (rs : List Region)
        → IsTable rs
        → HasSlot slot rs
        → IsTable (cut_regions slot low high rs)
          × ((x : ℕ)
              → view (cut_regions slot low high rs) x
                ≡ (if leb low x && ltb x high then none else view rs x))
    cut_regions_lem slot rs h free = elim (Option-cases (upper_part low high rs)) [
      | inl k ↦ rw (cut_regions-whole slot rs k) (
        trim-IsTable rs h,
        λ x. elim (Bool-cases (ltb x high)) [
          | inl b ↦ ground (arith, view-trim_low low high order rs x, b)
          | inr b ↦ ground (arith, view-trim_high low high order rs x, k, b)
        ],
      )
      | inr (u, k) ↦
          let ts = map (trim low high) rs in
          let (room, unused) = free u k in
          let (good, apart) = upper_part-Apart rs u h k in
          let (regions, pairs) = trim-IsTable rs h in
          rw (cut_regions-split slot rs u k) (
            (All-set IsRegion ts slot u regions good, Pairwise-set ts slot u pairs apart),
            λ x.
                let e =
                  view-set ts slot u x (omega (arith, length-trim rs, room))
                    (trim-free rs slot u unused) apart in
                elim (Bool-cases (ltb x high)) [
                  | inl b ↦
                      ground
                        (arith, e, view-trim_low low high order rs x, b, upper_part-covers rs u x k)
                  | inr b ↦ ground (arith, e, view-upper low high order rs u x, b, k, h.1)
                ],
          )
    ]
