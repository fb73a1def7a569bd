-- ===== src/Process/Regions/Walk.antt =====
-- The walk of process_munmap in src/kernel/process.c along the regions.
use cone_os.Process.Regions.{Region, covers, mapping_covering, covered_from}
use cone_os.Process.Regions.Coverage.{view, view-none, view-some, IsRegion, Apart, IsTable}
use cone_os.Prelude.{
  ℕ, zero, suc, ◌-◌, ◌<◌, ◌≤◌, ◌≡◌, ◌≢◌, ◌⊎◌, refl, true, false, ltb, leb, Bool-cases, Option-cases,
  inl, inr, none, some, List, [], ◌∷◌, All, if◌then◌else◌, arith, sym, subst,
}
use cone_os.Process.Regions.Account.{overlaps, overlaps_add, overlaps-Apart}

mapping_covering-All :
    (P : Region → Type 0) (rs : List Region) (x : ℕ) (r : Region)
    → All P rs
    → mapping_covering rs x ≡ some r
    → P r × (covers x r ≡ true)
unfolding mapping_covering
mapping_covering-All P [] x r a e = ground arith
mapping_covering-All P (s ∷ rs) x r a e = elim (Bool-cases (covers x s)) [
  | inl c ↦
      let same : s ≡ r = ground (arith, c, e) in
      subst (λ t. P t × (covers x t ≡ true)) same (a.0, c)
  | inr c ↦ mapping_covering-All P rs x r a.1 (ground (arith, c, e))
]

-- A piece that lies in one region.
overlaps_covered :
    (low high : ℕ) (rs : List Region) (r : Region)
    → IsTable rs
    → mapping_covering rs low ≡ some r
    → low ≤ high
    → high ≤ r.end
    → overlaps low high rs ≡ high - low
unfolding overlaps mapping_covering
overlaps_covered low high [] r h e k l = ground arith
overlaps_covered low high (s ∷ rs) r ((a, bs), (p, ps)) e k l = elim (Bool-cases (covers low s)) [
  | inl c ↦
      let same : s ≡ r = ground (arith, c, e) in
      let fits : high ≤ s.end = subst (λ t. high ≤ t.end) (sym same) l in
      ground (arith, c, overlaps-Apart low high s rs p bs, fits)
  | inr c ↦
      let f : mapping_covering rs low ≡ some r = ground (arith, c, e) in
      let (q, d) = mapping_covering-All (Apart s) rs low r p f in
      ground (arith, overlaps_covered low high rs r (bs, ps) f k l, q, d, a)
]

overlaps_none : (low high : ℕ) (rs : List Region) → high ≤ low → overlaps low high rs ≡ 0
unfolding overlaps
overlaps_none low high [] h = refl
overlaps_none low high (r ∷ rs) h = ground (arith, overlaps_none low high rs h)

-- The region at the cursor, and the step to its end.
region_at :
    (rs : List Region) (low high : ℕ) (r : Region)
    → IsTable rs
    → low < high
    → mapping_covering rs low ≡ some r
    → let middle = if ltb high r.end then high else r.end in
      (low < middle) × ((middle ≤ high) × (overlaps low middle rs ≡ middle - low))
region_at rs low high r h k f =
    let (a, c) = mapping_covering-All IsRegion rs low r h.0 f in
    let middle = if ltb high r.end then high else r.end in
    let here : low < middle = ground (arith, c) in
    (
      here,
      (ground arith, overlaps_covered low middle rs r h f (omega (arith, here)) (ground arith)),
    )

-- What the walk has passed over, the regions hold.
pub covered_from-overlaps :
    (fuel : ℕ) (rs : List Region) (low high : ℕ)
    → IsTable rs
    → low ≤ high
    → covered_from fuel rs low high ≡ some true
    → overlaps low high rs ≡ high - low
unfolding covered_from
covered_from-overlaps zero rs low high h k e = ground arith
covered_from-overlaps (suc fuel) rs low high h k e = elim (Bool-cases (leb high low)) [
  | inl c ↦
      let b : high ≤ low = ground (arith, c) in omega (arith, overlaps_none low high rs b, k, b)
  | inr c ↦ elim (Option-cases (mapping_covering rs low)) [
    | inl f ↦ ground (arith, c, f, e)
    | inr (r, f) ↦
        let (here, (fits, part)) = region_at rs low high r h (ground (arith, c)) f in
        let middle = if ltb high r.end then high else r.end in
        let rest : covered_from fuel rs middle high ≡ some true = ground (arith, c, f, e) in
        let ih = covered_from-overlaps fuel rs middle high h fits rest in
        let both = overlaps_add low middle high rs (omega (arith, here)) fits h.0 in
        omega (arith, here, fits, part, ih, both)
  ]
]

-- The walk ends, and says whether every address is covered.
pub covered_from_lem :
    (fuel : ℕ) (rs : List Region) (low high : ℕ)
    → IsTable rs
    → high - low < fuel
    → ((covered_from fuel rs low high ≡ some true)
        × ((x : ℕ) → low ≤ x → x < high → view rs x ≢ none))
      ⊎ ((covered_from fuel rs low high ≡ some false)
          × ((x : ℕ) × ((low ≤ x) × ((x < high) × (view rs x ≡ none)))))
unfolding covered_from
covered_from_lem zero rs low high h k = absurd (omega arith)
covered_from_lem (suc fuel) rs low high h k = elim (Bool-cases (leb high low)) [
  | inl c ↦ inl (ground (arith, c), λ x a b. absurd (ground (arith, c, a, b)))
  | inr c ↦ elim (Option-cases (mapping_covering rs low)) [
    | inl f ↦
        inr (ground (arith, c, f), (low, (omega arith, (ground (arith, c), view-none rs low f))))
    | inr (r, f) ↦
        let middle = if ltb high r.end then high else r.end in
        let (here, (fits, part)) = region_at rs low high r h (ground (arith, c)) f in
        elim (covered_from_lem fuel rs middle high h (omega (arith, here, k))) [
          | inl (e, all) ↦ inl (
            ground (arith, c, f, e),
            λ x a b. elim (Bool-cases (ltb x middle)) [
              | inl i ↦ view-some rs low x r f a (ground (arith, i))
              | inr i ↦ all x (ground (arith, i)) b
            ],
          )
          | inr (e, (x, (a, (b, miss)))) ↦
              inr (ground (arith, c, f, e), (x, (omega (arith, a, here), (b, miss))))
        ]
  ]
]
