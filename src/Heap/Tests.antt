-- ===== src/Heap/Tests.antt =====
-- Concrete runs of src/mm/kmalloc.c, over pages handed out in order.
use cone_os.Prelude.{ℕ, ◌+◌, ◌≡◌, refl, true, Option, none, some, [], ◌∷◌, arith}
use cone_os.Pager.Sample.{Supply, supply}
use cone_os.Heap.Blocks.{free, used, block_magic, find_block, merge_with_next, release}
use cone_os.Heap.Invariant.{allocations}
use cone_os.Heap.Heaps.{IsValid, Freed, kfree_lem}
use cone_os.Heap.Rounds.{Served, kmalloc_lem}
use cone_os.Heap.{Heap, heap_base, kmalloc, kfree}

abbrev empty : Heap
empty = record { blocks = []; mapped_size = 0; active_allocations = 0 }

empty-IsValid : IsValid empty
unfolding allocations
empty-IsValid = record { tiles = refl; coalesced = tt; counted = refl; bounded = omega arith }

abbrev plenty : Supply
plenty = record { next_page = 5; limit = 100; maps = λ v. none }

-- One page of heap: 100 bytes in use, the rest free.
abbrev one_page : Heap
one_page = record {
  blocks =
      record { address = heap_base; size = 112; magic = block_magic; state = used }
      ∷ record { address = heap_base + 144; size = 3920; magic = block_magic; state = free }
      ∷ [];
  mapped_size = 4096;
  active_allocations = 1;
}

one_page-IsValid : IsValid one_page
unfolding allocations
one_page-IsValid = record {
  tiles = (refl, (refl, omega arith, refl), (refl, (refl, omega arith, refl), refl));
  coalesced = (refl, (refl, tt));
  counted = refl;
  bounded = omega arith;
}

kmalloc_lem_example :
    (r : Option ℕ × Heap × Supply) × (kmalloc supply one_page 100 plenty ≡ some r)
    × Served supply 100 one_page plenty r
kmalloc_lem_example = kmalloc_lem supply 100 plenty one_page-IsValid

kfree_lem_example : Freed one_page (heap_base + 32) (kfree one_page (heap_base + 32))
kfree_lem_example = kfree_lem (heap_base + 32) one_page-IsValid

-- The freed block takes the free one behind it.
kfree_merges : kfree one_page (heap_base + 32) ≡ (
  true,
  record {
    blocks = record { address = heap_base; size = 4064; magic = block_magic; state = free } ∷ [];
    mapped_size = 4096;
    active_allocations = 0;
  },
)
unfolding kfree find_block release merge_with_next
kfree_merges = refl
