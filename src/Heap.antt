-- ===== src/Heap.antt =====
-- src/mm/kmalloc.c: the kernel heap, a first-fit allocator over a chain of blocks. The chain that
-- the headers' `previous` and `next` pointers form is the list of the headers, first_block first.
mod Blocks
pub mod Invariant
pub mod Release
pub mod Growth
pub mod Heaps
pub mod Rounds
pub mod Stats
mod Tests
use cone_os.Prelude.{
  ℕ, zero, suc, ◌+◌, ◌-◌, ◌*◌, ◌/◌, ◌%◌, Bool, true, false, not, ◌&&◌, ◌||◌, Option, none, some,
  List, [], ◌∷◌, ltb, leb, ◌==◌, if◌then◌else◌, add64, align_up, page_size, ◌++◌,
}
use cone_os.Pager.{Pager, map_pages}
use Blocks.{
  Block, BlockState, free, used, block_magic, header_size, payload, find_fit, append_growth,
  find_block, release, is_used, used_bytes, free_bytes,
}

-- HEAP_BASE
abbrev pub heap_base : ℕ
heap_base = 0xFFFFD00000000000

-- HEAP_MAX_SIZE
abbrev pub heap_max_size : ℕ
heap_max_size = 268435456

-- HEAP_GROW_PAGES
abbrev pub heap_grow_pages : ℕ
heap_grow_pages = 4

-- ALIGNMENT
abbrev pub alignment : ℕ
alignment = 16

pub record Heap : Type 0 where
  pub blocks : List Block
  pub mapped_size : ℕ
  pub active_allocations : ℕ

abbrev pub growth_for : ℕ → ℕ
growth_for minimum_payload =
    let growth : ℕ = align_up (add64 minimum_payload header_size) page_size in
    let minimum_growth : ℕ = heap_grow_pages * page_size in
    if ltb growth minimum_growth then minimum_growth else growth

module _ {S : Type 0} (pager : Pager S) where
  unfoldable pub grow_heap : Heap → ℕ → S → Bool × Heap × S
  grow_heap h minimum_payload s =
      let growth = growth_for minimum_payload in
      if ltb (heap_max_size - h.mapped_size) growth
      then (false, h, s)
      else let (ok, t) = map_pages pager (heap_base + h.mapped_size) 0 (growth / page_size) s in
        if ok
        then (
          true,
          record h {
            blocks = append_growth (heap_base + h.mapped_size) growth h.blocks;
            mapped_size = h.mapped_size + growth;
          },
          t,
        )
        else (false, h, t)

  -- for (;;): a first fit, or more heap and another round. The outer `none` means that the fuel ran
  -- out.
  unfoldable pub kmalloc_loop : ℕ → Heap → ℕ → S → Option (Option ℕ × Heap × S)
  kmalloc_loop zero h size s = none
  kmalloc_loop (suc fuel) h size s = elim (find_fit size h.blocks) [
    | some (address, blocks) ↦ some (
      some address,
      record h { blocks = blocks; active_allocations = h.active_allocations + 1 },
      s,
    )
    | none ↦
        let (ok, h', t) = grow_heap h size s in
        let rest = kmalloc_loop fuel h' size t in
        elim ok [ true ↦ rest | false ↦ some (none, h', t) ]
  ]

  -- Two rounds are enough: Heap.Rounds.
  unfoldable pub kmalloc : Heap → ℕ → S → Option (Option ℕ × Heap × S)
  kmalloc h size s =
      if size == 0 || ltb (heap_max_size - header_size) size
      then some (none, h, s)
      else kmalloc_loop 2 h (align_up size alignment) s

  unfoldable pub kmalloc_init : Heap → S → Bool × Heap × S
  kmalloc_init h s = grow_heap h alignment s

-- The checks of the pointer that kfree makes before it walks the chain.
abbrev pub pointer_plausible : Heap → ℕ → Bool
pointer_plausible h pointer =
    not (ltb pointer (heap_base + header_size))
    && ltb pointer (heap_base + h.mapped_size)
    && pointer % alignment == 0

unfoldable pub kfree : Heap → ℕ → Bool × Heap
kfree h pointer =
    if pointer == 0 || not (pointer_plausible h pointer)
    then (false, h)
    else elim (find_block pointer h.blocks) [
      | none ↦ (false, h)
      | some block ↦
          if is_used block
          then (
            true,
            record h {
              blocks = release pointer h.blocks;
              active_allocations = h.active_allocations - 1;
            },
          )
          else (false, h)
    ]

pub record KmallocStats : Type 0 where
  pub mapped_bytes : ℕ
  pub used_bytes : ℕ
  pub free_bytes : ℕ
  pub active_allocations : ℕ

unfoldable pub get_stats : Heap → KmallocStats
get_stats h = record {
  mapped_bytes = h.mapped_size;
  used_bytes = used_bytes h.blocks;
  free_bytes = free_bytes h.blocks;
  active_allocations = h.active_allocations;
}
