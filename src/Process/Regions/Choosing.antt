-- ===== src/Process/Regions/Choosing.antt =====
-- select_mapping_address of src/kernel/process.c ends, and finds an address if there is one.
use cone_os.Process.Regions.{
  Region, meets, next_region, any_mapped, Search, out_of_fuel, nowhere, found, search_from,
  search_fuel, select_mapping_address, mmap_start, mmap_limit,
}
use cone_os.Process.Regions.Coverage.{IsRegion}
use cone_os.Prelude.{
  ℕ, zero, suc, ◌+◌, ◌-◌, ◌*◌, ◌/◌, ◌%◌, ◌<◌, ◌≤◌, ◌≡◌, ◌⊎◌, refl, Bool, true, false, ◌||◌, ◌==◌,
  ltb, Bool-cases, inl, inr, List, [], ◌∷◌, All, if◌then◌else◌, arith, page_size, align_up, subst,
}

next_region_lem :
    (low high : ℕ) (rs : List Region)
    → All IsRegion rs
    → (next_region low high rs ≡ 0)
      ⊎ ((low < next_region low high rs)
          × ((next_region low high rs ≤ mmap_limit) × (next_region low high rs % 4096 ≡ 0)))
unfolding next_region
next_region_lem low high [] h = inl refl
next_region_lem low high (r ∷ rs) h = ground (arith, next_region_lem low high rs h.1, h.0)

abbrev pub Misses : ℕ → ℕ → Region → Type 0
Misses low high r = meets low high r ≡ false

next_region-Misses :
    (low high : ℕ) (rs : List Region)
    → All IsRegion rs
    → next_region low high rs ≡ 0
    → All (Misses low high) rs
unfolding next_region
next_region-Misses low high [] h e = tt
next_region-Misses low high (r ∷ rs) h e =
    (ground (arith, h.0, e), next_region-Misses low high rs h.1 (ground (arith, h.0, e)))

-- No place before the end of a region that is in the way.
next_region_skips :
    (low length a : ℕ) (rs : List Region)
    → low ≤ a
    → a < next_region low (low + length) rs
    → ¬ All (Misses a (a + length)) rs
unfolding next_region
next_region_skips low length a [] h k m = omega arith
next_region_skips low length a (r ∷ rs) h k m =
    elim (Bool-cases (ltb a (next_region low (low + length) rs))) [
      | inl e ↦ next_region_skips low length a rs h (ground (arith, e)) m.1
      | inr e ↦ ground (arith, e, m.0)
    ]

module _ (mapped : ℕ → Bool) (rs : List Region) (length : ℕ) where
  -- A place for the region.
  abbrev pub IsFree : ℕ → Type 0
  IsFree a =
      (a + length ≤ mmap_limit)
      × ((a % 4096 ≡ 0)
          × (All (Misses a (a + length)) rs × (any_mapped mapped (length / page_size) a ≡ false)))

  -- The answer of a search among the addresses from `low` on.
  abbrev pub Chosen : ℕ → Search → Type 0
  Chosen low out_of_fuel = ⊥
  Chosen low nowhere = (a : ℕ) → low ≤ a → ¬ IsFree a
  Chosen low (found a) = (low ≤ a) × IsFree a

  Chosen-weaken :
      (low middle : ℕ) (s : Search)
      → low ≤ middle
      → ((a : ℕ) → low ≤ a → a < middle → ¬ IsFree a)
      → Chosen middle s
      → Chosen low s
  Chosen-weaken low middle out_of_fuel h none c = c
  Chosen-weaken low middle nowhere h none c = λ a b f. elim (Bool-cases (ltb a middle)) [
    | inl e ↦ none a b (ground (arith, e)) f
    | inr e ↦ c a (ground (arith, e)) f
  ]
  Chosen-weaken low middle (found a) h none c = (omega (arith, h, c.0), c.1)

  -- Between two pages there is no place.
  next_page :
      (low : ℕ)
      → any_mapped mapped (length / page_size) low ≡ true
      → low % 4096 ≡ 0
      → (a : ℕ) → low ≤ a
      → a < low + 4096
      → ¬ IsFree a
  next_page low t e a h k f =
      let same : a ≡ low = omega (arith, f.1.0) in
      let free = subst (λ b. any_mapped mapped (length / page_size) b ≡ false) same f.1.1.1 in
      ground (arith, t, free)

  -- A second attempt, from the first address on, unless the first attempt began there.
  Chosen-again :
      (s second : Search) (first : ℕ) (again : Bool)
      → mmap_start ≤ first
      → Chosen first s
      → Chosen mmap_start second
      → (again ≡ true → first ≡ mmap_start)
      → Chosen mmap_start (elim s [
        | out_of_fuel ↦ out_of_fuel
        | found a ↦ found a
        | nowhere ↦ if again then nowhere else second
      ])
  Chosen-again out_of_fuel second first again h c d e = c
  Chosen-again (found a) second first again h c d e = (omega (arith, h, c.0), c.1)
  Chosen-again nowhere second first true h c d e = λ a b. c a (omega (arith, e refl, b))
  Chosen-again nowhere second first false h c d e = d

  abbrev next_of : ℕ → ℕ
  next_of low = next_region low (low + length) rs

  search_from-Chosen :
      (fuel low : ℕ)
      → All IsRegion rs
      → low % 4096 ≡ 0
      → low ≤ mmap_limit + 4096
      → mmap_limit + 4096 < low + fuel * 4096
      → length ≤ mmap_limit
      → Chosen low (search_from fuel mapped rs length low)
  unfolding search_from
  search_from-Chosen zero low h e b k l = absurd (omega arith)
  search_from-Chosen (suc fuel) low h e b k l = elim (Bool-cases (ltb (mmap_limit - length) low)) [
    | inl c ↦ rw (c, search_from) (λ a d f. ground (arith, c, d, f.0))
    | inr c ↦ elim (Bool-cases (next_of low == 0)) [
      | inl n ↦ elim (Bool-cases (any_mapped mapped (length / page_size) low)) [
        | inl t ↦
            rw (c, n, t, search_from)
              (Chosen-weaken low (low + 4096) _ (omega arith) (next_page low t e) (
                search_from-Chosen fuel (low + 4096) h (omega arith) (ground (arith, c))
                  (omega arith) l))
        | inr t ↦
            rw (c, n, t, search_from)
              (
                omega arith,
                (
                  ground (arith, c),
                  (e, (next_region-Misses low (low + length) rs h (ground (arith, n)), t)),
                ),
              )
      ]
      | inr n ↦ elim (next_region_lem low (low + length) rs h) [
        | inl z ↦ ground (arith, z, n)
        | inr (above, (bound, whole)) ↦
            let same : align_up (next_of low) page_size ≡ next_of low = omega arith in
            rw (c, n, same, search_from)
              (Chosen-weaken low (next_of low) _ (omega arith)
                (λ a d u f. next_region_skips low length a rs d u f.1.1.0)
                (search_from-Chosen fuel (next_of low) h whole (omega arith) (omega arith) l))
      ]
    ]
  ]

search_fuel_lem : (low : ℕ) → 0 < low → mmap_limit + 4096 < low + search_fuel * 4096
unfolding search_fuel
search_fuel_lem low h = omega arith

-- The search ends, with the address of a free place, or there is none.
pub select_mapping_address_lem :
    (mapped : ℕ → Bool) (rs : List Region) (hint length : ℕ)
    → All IsRegion rs
    → hint % 4096 ≡ 0
    → (hint ≡ 0) ⊎ ((mmap_start ≤ hint) × (hint < mmap_limit))
    → Chosen mapped rs length mmap_start (select_mapping_address mapped rs hint length)
unfolding select_mapping_address
select_mapping_address_lem mapped rs hint length h e b =
    elim (Bool-cases (ltb (mmap_limit - mmap_start) length)) [
      | inl c ↦ rw (c, select_mapping_address) (λ a d f. ground (arith, c, d, f.0))
      | inr c ↦
          let first = if hint == 0 then mmap_start else hint in
          let low : mmap_start ≤ first = ground (arith, b) in
          let short : length ≤ mmap_limit = ground (arith, c) in
          rw (c, select_mapping_address)
            (Chosen-again mapped rs length (search_from search_fuel mapped rs length first)
              (search_from search_fuel mapped rs length mmap_start) first
              (hint == 0 || hint == mmap_start) low
              (search_from-Chosen mapped rs length search_fuel first h (ground (arith, b, e))
                (ground (arith, b)) (search_fuel_lem first (omega (arith, low))) short)
              (search_from-Chosen mapped rs length search_fuel mmap_start h (omega arith)
                (omega arith) (search_fuel_lem mmap_start (omega arith)) short)
              (λ t. ground (arith, t)))
    ]
