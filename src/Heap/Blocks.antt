-- ===== src/Heap/Blocks.antt =====
-- The chain of blocks of src/mm/kmalloc.c: splitting, first fit, growth, lookup and merging.
use cone_os.Prelude.{
  ℕ, ◌+◌, ◌-◌, Bool, true, false, not, ◌&&◌, Option, none, some, List, [], ◌∷◌, ltb, leb, ◌==◌,
  if◌then◌else◌,
}

pub data BlockState : Type 0 where
  free used : BlockState

-- `struct block_header` at its address. BLOCK_FREE and BLOCK_USED are the states.
pub record Block : Type 0 where
  pub address : ℕ
  pub size : ℕ
  pub magic : ℕ
  pub state : BlockState

-- BLOCK_MAGIC
abbrev pub block_magic : ℕ
block_magic = 0xC04ECAFE

-- sizeof(block_header_t)
abbrev pub header_size : ℕ
header_size = 32

-- (void *)(block + 1)
abbrev pub payload : Block → ℕ
payload b = b.address + header_size

abbrev pub is_free : Block → Bool
is_free b = elim b.state [ free ↦ true | used ↦ false ]

abbrev pub is_used : Block → Bool
is_used b = elim b.state [ free ↦ false | used ↦ true ]

abbrev pub remainder : Block → ℕ → Block
remainder b size = record {
  address = b.address + header_size + size;
  size = b.size - size - header_size;
  magic = block_magic;
  state = free;
}

-- The block after the split, marked as used, and what stands behind it.
unfoldable pub split_used : Block → ℕ → List Block → List Block
split_used b size rest =
    if ltb b.size (size + header_size + 16)
    then record b { state = used } ∷ rest
    else (record b { size = size; state = used } ∷ remainder b size ∷ rest)

abbrev pub fits : ℕ → Block → Bool
fits size b = b.magic == block_magic && is_free b && leb size b.size

abbrev pub keep : Block → Option (ℕ × List Block) → Option (ℕ × List Block)
keep b none = none
keep b (some (address, blocks)) = some (address, b ∷ blocks)

-- The search of kmalloc: the pointer that it returns, and the chain after it.
unfoldable pub find_fit : ℕ → List Block → Option (ℕ × List Block)
find_fit size [] = none
find_fit size (b ∷ rest) =
    let later = find_fit size rest in
    if fits size b then some (payload b, split_used b size rest) else keep b later

abbrev pub new_block : ℕ → ℕ → Block
new_block end growth = record {
  address = end;
  size = growth - header_size;
  magic = block_magic;
  state = free;
}

-- The end of grow_heap: the last block grows if it is free, or a block is put behind it.
unfoldable pub append_growth : ℕ → ℕ → List Block → List Block
append_growth end growth [] = new_block end growth ∷ []
append_growth end growth (b ∷ []) =
    if is_free b then record b { size = b.size + growth } ∷ [] else (b ∷ new_block end growth ∷ [])
append_growth end growth (b ∷ c ∷ rest) = b ∷ append_growth end growth (c ∷ rest)

-- find_block_for_pointer
unfoldable pub find_block : ℕ → List Block → Option Block
find_block pointer [] = none
find_block pointer (b ∷ rest) =
    let later = find_block pointer rest in
    if not (b.magic == block_magic) then none else if payload b == pointer then some b else later

unfoldable pub merge_with_next : Block → List Block → List Block
merge_with_next b [] = b ∷ []
merge_with_next b (n ∷ rest) =
    if is_free n then record b { size = b.size + (header_size + n.size) } ∷ rest else (b ∷ n ∷ rest)

-- The end of kfree, at the block `b` whose payload is freed, with `rest` behind it: it is marked and
-- merged with the next block, then the previous block takes both if it is free.
unfoldable pub release_after : ℕ → Block → List Block → List Block
release_after pointer previous [] = previous ∷ []
release_after pointer previous (b ∷ rest) =
    let later = release_after pointer b rest in
    let merged = merge_with_next (record b { state = free }) rest in
    if payload b == pointer
    then (if is_free previous then merge_with_next previous merged else previous ∷ merged)
    else previous ∷ later

unfoldable pub release : ℕ → List Block → List Block
release pointer [] = []
release pointer (b ∷ rest) =
    if payload b == pointer
    then merge_with_next (record b { state = free }) rest
    else release_after pointer b rest

unfoldable pub used_bytes : List Block → ℕ
used_bytes [] = 0
used_bytes (b ∷ rest) = (if is_used b then b.size else 0) + used_bytes rest

unfoldable pub free_bytes : List Block → ℕ
free_bytes [] = 0
free_bytes (b ∷ rest) = (if is_used b then 0 else b.size) + free_bytes rest
