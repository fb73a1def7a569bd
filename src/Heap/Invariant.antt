-- ===== src/Heap/Invariant.antt =====
-- What holds of the chain of blocks of src/mm/kmalloc.c, and how the chain operations keep it.
use cone_os.Prelude.{
  ℕ, ◌+◌, ◌%◌, ◌≤◌, ◌≡◌, refl, Bool, true, false, ◌&&◌, inl, inr, Option, none, some, List, [], ◌∷◌,
  ◌++◌, ltb, if◌then◌else◌, arith, Bool-cases, Option-cases, All,
}
use cone_os.Heap.Blocks.{
  Block, block_magic, header_size, payload, is_free, is_used, split_used, fits, keep, find_fit,
}

-- A header as grow_heap, split_block and merge_with_next leave it: its size is a positive multiple
-- of the alignment.
abbrev pub IsSound : Block → Type 0
IsSound b = (b.magic ≡ block_magic) × (16 ≤ b.size) × (b.size % 16 ≡ 0)

-- The blocks lie one behind the other from `low` to `high`.
abbrev pub Tiles : ℕ → List Block → ℕ → Type 0
Tiles low [] high = low ≡ high
Tiles low (b ∷ rest) high =
    (b.address ≡ low) × IsSound b × Tiles (low + header_size + b.size) rest high

-- No free block follows another; `after_free` says whether the block before the list is free.
abbrev pub Coalesced : Bool → List Block → Type 0
Coalesced after_free [] = Unit {0}
Coalesced after_free (b ∷ rest) = ((after_free && is_free b) ≡ false) × Coalesced (is_free b) rest

-- The allocations that are live: each pointer with the size of its block.
unfoldable pub allocations : List Block → List (ℕ × ℕ)
allocations [] = []
allocations (b ∷ rest) =
    if is_used b then (payload b, b.size) ∷ allocations rest else allocations rest

pub Tiles-at :
    (bs : List Block) (low low' high : ℕ) → low ≡ low' → Tiles low bs high → Tiles low' bs high
Tiles-at [] low low' high e t = omega arith
Tiles-at (b ∷ rest) low low' high e t =
    (omega (arith, t.0), t.1, Tiles-at rest _ _ high (omega arith) t.2)

pub Tiles-le : (bs : List Block) (low high : ℕ) → Tiles low bs high → low ≤ high
Tiles-le [] low high t = omega arith
Tiles-le (b ∷ rest) low high t = omega (arith, Tiles-le rest _ high t.2)

-- A successful search, as a derivation: the first block that fits is split, and the blocks before it
-- stay.
pub data Fit (size : ℕ) : List Block → ℕ → List Block → Type 0 where
  here :
      (b : Block) (rest : List Block) {p : ℕ} {bs : List Block}
      → fits size b ≡ true
      → p ≡ payload b
      → bs ≡ split_used b size rest
      → Fit size (b ∷ rest) p bs
  later :
      (b : Block) {rest : List Block} {p : ℕ} {bs : List Block}
      → Fit size rest p bs
      → Fit size (b ∷ rest) p (b ∷ bs)

Fit-keep :
    (size : ℕ) (b : Block) (rest : List Block) (o : Option (ℕ × List Block)) {p : ℕ}
    {bs : List Block}
    → ((q : ℕ) (qs : List Block) → o ≡ some (q, qs) → Fit size rest q qs)
    → keep b o ≡ some (p, bs)
    → Fit size (b ∷ rest) p bs
Fit-keep size b rest none ih k = absurd (cc)
Fit-keep size b rest (some (q, qs)) {p} {bs} ih k =
    let e : q ≡ p = ground arith in
    let e' : b ∷ qs ≡ bs = ground arith in rw (← e, ← e') (later b (ih q qs refl))

pub find_fit-Fit :
    (size : ℕ) (bs : List Block) {p : ℕ} {bs' : List Block}
    → find_fit size bs ≡ some (p, bs')
    → Fit size bs p bs'
unfolding find_fit
find_fit-Fit size [] h = absurd (cc)
find_fit-Fit size (b ∷ rest) {p} {bs'} h = elim (Bool-cases (fits size b)) [
  | inl yes_here ↦ here b rest yes_here (ground arith) (ground arith)
  | inr not_here ↦
      Fit-keep size b rest (find_fit size rest)
        (λ q qs e. find_fit-Fit size rest {p = q} {bs' = qs} e) (rw (not_here, find_fit) at h)
]

-- Where the search fails, no block fits.
pub find_fit-none :
    (size : ℕ) (bs : List Block) → find_fit size bs ≡ none → All (λ b. fits size b ≡ false) bs
unfolding find_fit
find_fit-none size [] h = tt
find_fit-none size (b ∷ rest) h = elim (Bool-cases (fits size b)) [
  | inl yes_here ↦ absurd (ground arith)
  | inr not_here ↦
      (not_here, find_fit-none size rest (ground (arith, Option-cases (find_fit size rest))))
]

-- The new allocation, of at least `size` bytes, among those there were.
abbrev pub Allocated : ℕ → List Block → ℕ → List Block → Type 0
Allocated size bs p bs' =
    (before : List (ℕ × ℕ)) × (after : List (ℕ × ℕ)) × (n : ℕ) × (size ≤ n)
    × (allocations bs ≡ before ++ after)
    × (allocations bs' ≡ before ++ ((p, n) ∷ after))

module _ (size : ℕ) (pos : 16 ≤ size) (whole : size % 16 ≡ 0) where
  split_used-Tiles :
      (b : Block) (rest : List Block) (low high : ℕ)
      → size ≤ b.size
      → Tiles low (b ∷ rest) high
      → Tiles low (split_used b size rest) high
  unfolding split_used
  split_used-Tiles b rest low high le t = elim (Bool-cases (ltb b.size (size + header_size + 16))) [
    | inl small ↦ rw small t
    | inr large ↦ rw large (
      t.0,
      (t.1.0, pos, whole),
      (
        omega (arith, t.0),
        (refl, ground arith, ground arith),
        Tiles-at rest _ _ high (ground arith) t.2,
      ),
    )
  ]

  pub Fit-Tiles :
      {bs : List Block} {p : ℕ} {bs' : List Block} (low high : ℕ)
      → Fit size bs p bs'
      → Tiles low bs high
      → Tiles low bs' high
  Fit-Tiles low high (here b rest f e e') t =
      rw e' (split_used-Tiles b rest low high (ground arith) t)
  Fit-Tiles low high (later b f) t = (t.0, t.1, Fit-Tiles _ high f t.2)

  split_used-Coalesced :
      (after_free : Bool) (b : Block) (rest : List Block)
      → is_free b ≡ true
      → Coalesced after_free (b ∷ rest)
      → Coalesced after_free (split_used b size rest)
  unfolding split_used
  split_used-Coalesced after_free b [] f c = ground arith
  split_used-Coalesced after_free b (n ∷ rest) f c = ground arith

  pub Fit-Coalesced :
      (after_free : Bool) {bs : List Block} {p : ℕ} {bs' : List Block}
      → Fit size bs p bs'
      → Coalesced after_free bs
      → Coalesced after_free bs'
  Fit-Coalesced after_free (here b rest f e e') c =
      rw e' (split_used-Coalesced after_free b rest (ground arith) c)
  Fit-Coalesced after_free (later b f) c = (c.0, Fit-Coalesced (is_free b) f c.1)

  split_used-allocations :
      (b : Block) (rest : List Block)
      → size ≤ b.size
      → (n : ℕ) × (size ≤ n)
        × (allocations (split_used b size rest) ≡ (payload b, n) ∷ allocations rest)
  unfolding split_used allocations
  split_used-allocations b rest le = elim (Bool-cases (ltb b.size (size + header_size + 16))) [
    | inl small ↦ (b.size, le, rw small)
    | inr large ↦ (size, omega arith, rw large)
  ]

  pub Fit-Allocated :
      {bs : List Block} {p : ℕ} {bs' : List Block} → Fit size bs p bs' → Allocated size bs p bs'
  unfolding allocations
  Fit-Allocated (here b rest f e e') =
      let (n, le, same) = split_used-allocations b rest (ground arith) in
      ([], allocations rest, n, le, ground arith, rw (e', e) same)
  Fit-Allocated (later b f) =
      let (before, after, n, le, was, is) = Fit-Allocated f in
      elim (Bool-cases (is_used b)) [
        | inl live ↦ ((payload b, b.size) ∷ before, after, n, le, rw (live, was), rw (live, is))
        | inr idle ↦ (before, after, n, le, rw (idle, was), rw (idle, is))
      ]
