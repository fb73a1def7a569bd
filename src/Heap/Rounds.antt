-- ===== src/Heap/Rounds.antt =====
-- grow_heap and kmalloc of src/mm/kmalloc.c.
use cone_os.Prelude.{
  ℕ, suc, ◌+◌, ◌-◌, ◌/◌, ◌%◌, ◌≤◌, ◌<◌, ◌≡◌, ◌≢◌, refl, sym, ap, ◌∙◌, Bool, true, false, ◌||◌, ◌⊎◌,
  inl, inr, Option, none, some, List, [], ◌∷◌, ltb, ◌==◌, arith, Bool-cases, length, length-append,
  page_size, align_up,
}
use cone_os.Pager.{Pager, map_pages}
use cone_os.Heap.Blocks.{Block, header_size, append_growth, find_fit}
use cone_os.Heap.Invariant.{
  Coalesced, allocations, Fit, find_fit-Fit, Fit-Tiles, Fit-Coalesced, Fit-Allocated, Allocated,
}
use cone_os.Heap.Growth.{
  append_growth-Tiles, append_growth-Coalesced, append_growth-allocations, append_growth-fits,
}
use cone_os.Heap.Heaps.{IsValid}
use cone_os.Heap.{
  Heap, heap_base, heap_max_size, alignment, growth_for, grow_heap, kmalloc_loop, kmalloc,
}

-- The growth for a request is made of whole pages and has room for it and a header.
growth_for_lem :
    (size : ℕ)
    → size ≤ heap_max_size
    → (size + header_size ≤ growth_for size)
      × (48 ≤ growth_for size)
      × (growth_for size % page_size ≡ 0)
growth_for_lem size le = ground arith

append_any-Coalesced :
    (bs : List Block) (growth end : ℕ)
    → 48 ≤ growth
    → growth % 16 ≡ 0
    → Coalesced false bs
    → Coalesced false (append_growth end growth bs)
append_any-Coalesced [] growth end enough whole c = unfold append_growth in (refl, tt)
append_any-Coalesced (b ∷ rest) growth end enough whole c =
    append_growth-Coalesced growth enough whole (b ∷ rest) false end (λ e. cc) c

module _ {S : Type 0} (pager : Pager S) where
  -- What grow_heap did.
  abbrev pub Grown : Heap → ℕ → Bool × Heap × S → Type 0
  Grown h size r =
      ((r.0 ≡ false) × (r.1 ≡ h))
      ⊎ ((r.0 ≡ true)
          × IsValid r.1
          × (allocations r.1.blocks ≡ allocations h.blocks)
          × (find_fit size r.1.blocks ≢ none))

  extended :
      {h : Heap} (size : ℕ)
      → size ≤ heap_max_size
      → IsValid h
      → growth_for size ≤ heap_max_size - h.mapped_size
      → (t : S)
      → Grown h size (
        true,
        record h {
          blocks = append_growth (heap_base + h.mapped_size) (growth_for size) h.blocks;
          mapped_size = h.mapped_size + growth_for size;
        },
        t,
      )
  extended {h} size le v room t =
      let (fits, enough, pages) = growth_for_lem size le in
      let whole : growth_for size % 16 ≡ 0 = omega arith in
      let tiled =
        append_growth-Tiles (growth_for size) enough whole h.blocks heap_base
          (heap_base + h.mapped_size) v.tiles in
      let same =
        append_growth-allocations (growth_for size) enough whole h.blocks
          (heap_base + h.mapped_size) in
      inr (
        refl,
        record {
          tiles =
              let e : heap_base + h.mapped_size + growth_for size
                  ≡ heap_base + (h.mapped_size + growth_for size) =
                omega arith in
              rw e at tiled;
          coalesced = append_any-Coalesced h.blocks _ _ enough whole v.coalesced;
          counted = rw same v.counted;
          bounded = omega (arith, v.bounded);
        },
        same,
        append_growth-fits (growth_for size) enough whole size h.blocks heap_base
            (heap_base + h.mapped_size) fits v.tiles,
      )

  -- grow_heap fails and leaves the heap alone, or leaves a valid heap with the same allocations, in
  -- which a block fits the request that it was called for.
  pub grow_heap_lem :
      {h : Heap} (size : ℕ) (s : S)
      → IsValid h
      → size ≤ heap_max_size
      → Grown h size (grow_heap pager h size s)
  unfolding grow_heap
  grow_heap_lem {h} size s v le =
      elim (Bool-cases (ltb (heap_max_size - h.mapped_size) (growth_for size))) [
        | inl full ↦ rw full (inl (refl, refl))
        | inr room ↦
            elim (Bool-cases
              (map_pages pager (heap_base + h.mapped_size) 0 (growth_for size / page_size) s).0) [
                | inl ok ↦
                    rw (room, ok)
                      (extended size le v (ground arith)
                        (map_pages pager (heap_base + h.mapped_size) 0 (growth_for size / page_size)
                          s).1)
                | inr failed ↦ rw (room, failed) (inl (refl, refl))
              ]
      ]

  -- A new allocation of at least `size` bytes stands beside those there were.
  abbrev pub Placed : ℕ → Heap → Option ℕ × Heap × S → Type 0
  Placed size h r = IsValid r.1 × ((p : ℕ) × (r.0 ≡ some p) × Allocated size h.blocks p r.1.blocks)

  -- No free block fits `size` bytes, the heap cannot grow, and nothing has changed.
  abbrev pub Exhausted : ℕ → Heap → S → Option ℕ × Heap × S → Type 0
  Exhausted size h s r =
      (r.0 ≡ none)
      × (find_fit size h.blocks ≡ none)
      × ((grow_heap pager h size s).0 ≡ false)
      × (r.1 ≡ h)

  length-Allocated :
      (size p : ℕ) (bs bs' : List Block)
      → Allocated size bs p bs'
      → length (allocations bs') ≡ length (allocations bs) + 1
  length-Allocated size p bs bs' (before, after, n, le, e, e') = omega (
    arith,
    ap length e,
    ap length e',
    length-append before after,
    length-append before ((p, n) ∷ after),
  )

  module _ (size : ℕ) (pos : 16 ≤ size) (whole : size % 16 ≡ 0) (small : size ≤ heap_max_size) where
    found :
        {h : Heap} {p : ℕ} {bs : List Block} (s : S)
        → IsValid h
        → Fit size h.blocks p bs
        → Placed size h
            (some p, record h { blocks = bs; active_allocations = h.active_allocations + 1 }, s)
    found {h} {p} {bs} s v f =
        let new = Fit-Allocated size pos whole f in
        (
          record {
            tiles = Fit-Tiles size pos whole heap_base _ f v.tiles;
            coalesced = Fit-Coalesced size pos whole false f v.coalesced;
            counted = omega (arith, v.counted, length-Allocated size p h.blocks bs new);
            bounded = v.bounded;
          },
          (p, refl, new),
        )

    Placed-after :
        (h h' : Heap) (r : Option ℕ × Heap × S)
        → allocations h'.blocks ≡ allocations h.blocks
        → Placed size h' r
        → Placed size h r
    Placed-after h h' r same (v, (p, e, (before, after, n, le, was, is))) =
        (v, (p, e, (before, after, n, le, sym same ∙ was, is)))

    -- A round that finds a block is the last.
    last_round :
        (fuel : ℕ) {h : Heap} (s : S)
        → IsValid h
        → find_fit size h.blocks ≢ none
        → (r : Option ℕ × Heap × S) × (kmalloc_loop pager (suc fuel) h size s ≡ some r)
          × Placed size h r
    unfolding kmalloc_loop
    last_round fuel {h} s v some_fit = go (find_fit size h.blocks) refl
      where
        go :
            (o : Option (ℕ × List Block))
            → find_fit size h.blocks ≡ o
            → (r : Option ℕ × Heap × S) × (kmalloc_loop pager (suc fuel) h size s ≡ some r)
              × Placed size h r
        go none e = absurd (some_fit e)
        go (some (p, bs)) e = (
          (some p, record h { blocks = bs; active_allocations = h.active_allocations + 1 }, s),
          rw (e, kmalloc_loop) refl,
          found s v (find_fit-Fit size h.blocks e),
        )

    abbrev Rounds : Heap → S → Type 0
    Rounds h s =
        (r : Option ℕ × Heap × S) × (kmalloc_loop pager 2 h size s ≡ some r)
        × (Placed size h r ⊎ Exhausted size h s r)

    -- After the first round there is a block, or the heap cannot grow.
    two-Rounds : {h : Heap} (s : S) → IsValid h → Rounds h s
    unfolding kmalloc_loop
    two-Rounds {h} s v = first (find_fit size h.blocks) refl
      where
        grown : find_fit size h.blocks ≡ none → Grown h size (grow_heap pager h size s) → Rounds h s
        grown e (inl (failed, same)) = (
          (none, (grow_heap pager h size s).1, (grow_heap pager h size s).2),
          rw (e, failed, kmalloc_loop) refl,
          inr (refl, e, failed, same),
        )
        grown e (inr (ok, v', same, fits)) =
            let (r, done, placed) = last_round 0 (grow_heap pager h size s).2 v' fits in
            (
              r,
              rw (e, ok, kmalloc_loop) done,
              inl (Placed-after h (grow_heap pager h size s).1 r same placed),
            )

        first : (o : Option (ℕ × List Block)) → find_fit size h.blocks ≡ o → Rounds h s
        first none e = grown e (grow_heap_lem size s v small)
        first (some (p, bs)) e =
            let (r, done, placed) = last_round 1 s v (λ n. cc) in (r, done, inl placed)

  Placed-weaken :
      (m n : ℕ) (h : Heap) (r : Option ℕ × Heap × S) → n ≤ m → Placed m h r → Placed n h r
  Placed-weaken m n h r le (v, (p, e, (before, after, k, ge, was, is))) =
      (v, (p, e, (before, after, k, omega arith, was, is)))

  -- What kmalloc did for a request of `size` bytes.
  abbrev pub Served : ℕ → Heap → S → Option ℕ × Heap × S → Type 0
  Served size h s r =
      (((size ≡ 0) ⊎ (heap_max_size < size + header_size)) × (r ≡ (none, h, s)))
      ⊎ Placed size h r
      ⊎ Exhausted (align_up size alignment) h s r

  -- kmalloc always returns, after at most two rounds. A request of 0 bytes, or of more than the heap
  -- can ever hold, gets no pointer and changes nothing. Any other gets the pointer of a new
  -- allocation of at least as many bytes, while all other allocations stay and the heap stays valid;
  -- or it gets none, but then no free block fits, the heap cannot grow, and nothing has changed.
  pub kmalloc_lem :
      {h : Heap} (size : ℕ) (s : S)
      → IsValid h
      → (r : Option ℕ × Heap × S) × (kmalloc pager h size s ≡ some r) × Served size h s r
  unfolding kmalloc
  kmalloc_lem {h} size s v =
      elim (Bool-cases (size == 0 || ltb (heap_max_size - header_size) size)) [
        | inl refused ↦ ((none, h, s), rw refused, inl (ground (arith, refused), refl))
        | inr ok ↦
            let (r, done, outcome) =
              two-Rounds (align_up size alignment) (ground (arith, ok)) (ground (arith, ok))
                (ground (arith, ok)) s v in
            (
              r,
              rw ok done,
              elim outcome [
                | inl placed ↦ inr (
                    inl (
                      Placed-weaken (align_up size alignment) size h r (ground (arith, ok)) placed))
                | inr exhausted ↦ inr (inr exhausted)
              ],
            )
      ]
