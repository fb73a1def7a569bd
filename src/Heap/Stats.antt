-- ===== src/Heap/Stats.antt =====
-- kmalloc_get_stats of src/mm/kmalloc.c accounts for every byte that is mapped.
use cone_os.Prelude.{ℕ, ◌+◌, ◌*◌, ◌≡◌, refl, List, [], ◌∷◌, arith, length}
use cone_os.Heap.Blocks.{Block, header_size, used_bytes, free_bytes}
use cone_os.Heap.Invariant.{Tiles, allocations}
use cone_os.Heap.Heaps.{IsValid}
use cone_os.Heap.{Heap, heap_base, get_stats}

-- The bytes of the live allocations.
abbrev pub allocated_bytes : List (ℕ × ℕ) → ℕ
allocated_bytes [] = 0
allocated_bytes ((p, n) ∷ rest) = n + allocated_bytes rest

Tiles-bytes :
    (bs : List Block) (low high : ℕ)
    → Tiles low bs high
    → low + used_bytes bs + free_bytes bs + header_size * length bs ≡ high
unfolding used_bytes free_bytes
Tiles-bytes [] low high t = omega arith
Tiles-bytes (b ∷ rest) low high t =
    ground (arith, Tiles-bytes rest (low + header_size + b.size) high t.2)

used-allocated : (bs : List Block) → used_bytes bs ≡ allocated_bytes (allocations bs)
unfolding used_bytes allocations
used-allocated [] = refl
used-allocated (b ∷ rest) = ground (arith, used-allocated rest)

-- In a valid heap the used bytes are those of the live allocations, which are counted, and with the
-- free bytes and a header for each block they make up what is mapped.
pub get_stats_lem :
    {h : Heap}
    → IsValid h
    → let stats = get_stats h in
      (stats.used_bytes + stats.free_bytes + header_size * length h.blocks ≡ stats.mapped_bytes)
      × (stats.used_bytes ≡ allocated_bytes (allocations h.blocks))
      × (stats.active_allocations ≡ length (allocations h.blocks))
unfolding get_stats
get_stats_lem {h} v =
    (omega (arith, Tiles-bytes h.blocks heap_base _ v.tiles), used-allocated h.blocks, v.counted)
