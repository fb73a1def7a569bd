-- ===== src/Heap/Heaps.antt =====
-- The invariant of the kernel heap of src/mm/kmalloc.c, what it says of the live allocations, and
-- that grow_heap, kmalloc and kfree keep it.
use cone_os.Prelude.{
  ℕ, ◌+◌, ◌-◌, ◌%◌, ◌≤◌, ◌<◌, ◌≡◌, ◌≢◌, refl, ap, Bool, true, false, not, ◌&&◌, ◌||◌, ◌⊎◌, inl, inr,
  Option, none, some, List, [], ◌∷◌, ltb, ◌==◌, arith, Bool-cases, All, length, length-append,
}
use cone_os.Heap.Blocks.{Block, header_size, payload, is_used, find_block, release}
use cone_os.Heap.Invariant.{Tiles, Coalesced, allocations}
use cone_os.Heap.Release.{
  Found, at, past, find_block-Found, release-Tiles, release-Coalesced, release-Removed, Removed,
}
use cone_os.Heap.{Heap, heap_base, heap_max_size, alignment, kfree, pointer_plausible}

pub record IsValid (h : Heap) : Type 0 where
  pub tiles : Tiles heap_base h.blocks (heap_base + h.mapped_size)
  pub coalesced : Coalesced false h.blocks
  pub counted : h.active_allocations ≡ length (allocations h.blocks)
  pub bounded : h.mapped_size ≤ heap_max_size

-- The allocations, in the order of their addresses, are aligned, lie between `low` and `high`, and
-- each begins behind the one before it and its own header.
abbrev pub Apart : ℕ → List (ℕ × ℕ) → ℕ → Type 0
Apart low [] high = low ≤ high
Apart low ((p, n) ∷ rest) high =
    (low + header_size ≤ p) × (p % alignment ≡ 0) × (alignment ≤ n) × Apart (p + n) rest high

Apart-mono :
    (xs : List (ℕ × ℕ)) (low low' high : ℕ) → low' ≤ low → Apart low xs high → Apart low' xs high
Apart-mono [] low low' high le a = omega arith
Apart-mono ((p, n) ∷ rest) low low' high le a = (omega (arith, a.0), a.1, a.2, a.3)

Tiles-Apart :
    (bs : List Block) (low high : ℕ)
    → low % alignment ≡ 0
    → Tiles low bs high
    → Apart low (allocations bs) high
unfolding allocations
Tiles-Apart [] low high whole t = omega arith
Tiles-Apart (b ∷ rest) low high whole t =
    let tail = Tiles-Apart rest (low + header_size + b.size) high (omega (arith, t.1.2)) t.2 in
    elim (Bool-cases (is_used b)) [
      | inl live ↦ rw live (
        omega (arith, t.0),
        omega (arith, t.0),
        t.1.1,
        Apart-mono (allocations rest) _ _ high (omega (arith, t.0)) tail,
      )
      | inr idle ↦ rw idle (Apart-mono (allocations rest) _ low high (omega arith) tail)
    ]

-- The live allocations of a valid heap do not overlap one another or any header, lie within the
-- mapped part of the heap, and are aligned.
pub allocations-Apart :
    {h : Heap} → IsValid h → Apart heap_base (allocations h.blocks) (heap_base + h.mapped_size)
allocations-Apart {h} v = Tiles-Apart h.blocks heap_base _ (omega arith) v.tiles

abbrev pub NotLive : ℕ → List (ℕ × ℕ) → Type 0
NotLive p = All (λ (a : ℕ × ℕ). a.0 ≢ p)

Apart-le : (xs : List (ℕ × ℕ)) (low high : ℕ) → Apart low xs high → low ≤ high
Apart-le [] low high a = a
Apart-le ((q, n) ∷ rest) low high a = omega (arith, a.0, Apart-le rest (q + n) high a.3)

-- Below the first header there is no allocation.
Apart-below :
    (p : ℕ) (xs : List (ℕ × ℕ)) (low high : ℕ)
    → p < low + header_size
    → Apart low xs high
    → NotLive p xs
Apart-below p [] low high lt a = tt
Apart-below p ((q, n) ∷ rest) low high lt a =
    (λ e. omega (arith, a.0), Apart-below p rest (q + n) high (omega (arith, a.0)) a.3)

-- Nor is there one where kfree's checks of the pointer fail.
Apart-implausible :
    (p base : ℕ) (xs : List (ℕ × ℕ)) (low high : ℕ)
    → base ≤ low
    → (not (ltb p (base + header_size)) && ltb p high && p % alignment == 0) ≡ false
    → Apart low xs high
    → NotLive p xs
Apart-implausible p base [] low high le no_pointer a = tt
Apart-implausible p base ((q, n) ∷ rest) low high le no_pointer a = (
  λ e. ground (arith, no_pointer, a.0, a.1, a.2, Apart-le rest (q + n) high a.3),
  Apart-implausible p base rest (q + n) high (omega (arith, a.0)) no_pointer a.3,
)

unfound :
    (p : ℕ) (bs : List Block) (low high : ℕ)
    → Tiles low bs high
    → find_block p bs ≡ none
    → NotLive p (allocations bs)
unfolding find_block allocations
unfound p [] low high t e = tt
unfound p (b ∷ rest) low high t e =
    let there : (payload b ≢ p) × (find_block p rest ≡ none) =
      (ground (arith, t.1.0), ground (arith, t.1.0)) in
    let tail = unfound p rest _ high t.2 there.1 in
    elim (Bool-cases (is_used b)) [ inl live ↦ rw live (there.0, tail) | inr idle ↦ rw idle tail ]

idle_block :
    (p : ℕ) {bs : List Block} {x : Block} (low high : ℕ)
    → low % alignment ≡ 0
    → Found p bs x
    → is_used x ≡ false
    → Tiles low bs high
    → NotLive p (allocations bs)
unfolding allocations
idle_block p low high whole (at {b} {rest} hit) idle t = rw idle (
    Apart-below p (allocations rest) _ high (omega (arith, t.0, t.1.1))
      (Tiles-Apart rest _ high (omega (arith, t.1.2)) t.2))
idle_block p low high whole (past {b} {rest = rest} miss f) idle t =
    let tail = idle_block p _ high (omega (arith, t.1.2)) f idle t.2 in
    elim (Bool-cases (is_used b)) [
      | inl live ↦ rw live (miss, tail)
      | inr free_here ↦ rw free_here tail
    ]

length-Removed : {p n : ℕ} {was is : List (ℕ × ℕ)} → Removed p n was is → length was ≡ length is + 1
length-Removed {p} {n} (before, after, e, e') = omega (
  arith,
  ap length e,
  ap length e',
  length-append before ((p, n) ∷ after),
  length-append before after,
)

-- What kfree did: nothing, for a pointer that is not live, or the release of the one that is.
abbrev pub Freed : Heap → ℕ → Bool × Heap → Type 0
Freed h pointer r =
    ((r.0 ≡ false) × (r.1 ≡ h) × NotLive pointer (allocations h.blocks))
    ⊎ ((n : ℕ) × (r.0 ≡ true)
        × Removed pointer n (allocations h.blocks) (allocations r.1.blocks)
        × IsValid r.1)

module _ {h : Heap} (pointer : ℕ) (v : IsValid h) where
  released :
      {x : Block}
      → Found pointer h.blocks x
      → is_used x ≡ true
      → Freed h pointer (
        true,
        record h {
          blocks = release pointer h.blocks;
          active_allocations = h.active_allocations - 1;
        },
      )
  released {x} f live =
      let gone = release-Removed pointer f live in
      inr (
        x.size,
        refl,
        gone,
        record {
          tiles = release-Tiles pointer heap_base _ f v.tiles;
          coalesced = release-Coalesced pointer f live v.coalesced;
          counted = omega (arith, v.counted, length-Removed gone);
          bounded = v.bounded;
        },
      )

  walked :
      (o : Option Block)
      → find_block pointer h.blocks ≡ o
      → (pointer == 0 || not (pointer_plausible h pointer)) ≡ false
      → Freed h pointer (kfree h pointer)
  unfolding kfree
  walked none e good =
      rw (good, e, kfree) (inl (refl, refl, unfound pointer h.blocks heap_base _ v.tiles e))
  walked (some x) e good = elim (Bool-cases (is_used x)) [
    | inl live ↦ rw (good, e, kfree, live) (released (find_block-Found pointer h.blocks e) live)
    | inr idle ↦
        rw (good, e, kfree, idle)
          (inl (
            refl,
            refl,
            idle_block pointer heap_base _ (omega arith) (find_block-Found pointer h.blocks e) idle
                v.tiles,
          ))
  ]

  -- kfree gives back a pointer exactly if it is that of a live allocation, which is then no longer
  -- live; every other allocation stays, and the heap stays valid. Any other pointer, one that was
  -- given back already or that points into a block included, is refused, and nothing changes.
  pub kfree_lem : Freed h pointer (kfree h pointer)
  unfolding kfree
  kfree_lem = elim (Bool-cases (pointer == 0 || not (pointer_plausible h pointer))) [
    | inl bad ↦
        rw (bad, kfree)
          (inl (
            refl,
            refl,
            Apart-implausible pointer heap_base (allocations h.blocks) heap_base _ (omega arith)
                (ground (arith, bad)) (allocations-Apart v),
          ))
    | inr good ↦ walked (find_block pointer h.blocks) refl good
  ]
