-- ===== src/Process/Regions.antt =====
-- The memory regions of a process in src/kernel/process.c: the table of process_mmap and
-- process_munmap, its searches, and the cut of process_munmap.
pub mod Coverage
pub mod Trimming
pub mod Cutting
pub mod Account
pub mod Walk
pub mod Refund
pub mod Choosing
pub mod Room
use cone_os.Prelude.{
  ℕ, zero, suc, ◌+◌, ◌-◌, ◌*◌, ◌/◌, ◌%◌, ◌^◌, min, max, Bool, true, false, not, ◌&&◌, ◌||◌, ◌==◌,
  ltb, leb, Option, none, some, List, [], ◌∷◌, map, set, if◌then◌else◌, align_up, page_size,
}

-- MMAP_ADDRESS_START and MMAP_ADDRESS_LIMIT
abbrev pub mmap_start : ℕ
mmap_start = 0x100000000

abbrev pub mmap_limit : ℕ
mmap_limit = 0x7F0000000000

-- struct mmap_region
pub record Region : Type 0 where
  pub start : ℕ
  pub end : ℕ
  pub protection : ℕ
  pub used : Bool

abbrev pub no_region : Region
no_region = record { start = 0; end = 0; protection = 0; used = false }

abbrev pub covers : ℕ → Region → Bool
covers address r = r.used && leb r.start address && ltb address r.end

-- mapping_covering: the region in place of its index, none in place of MAX_MMAP_REGIONS.
unfoldable pub mapping_covering : List Region → ℕ → Option Region
mapping_covering [] address = none
mapping_covering (r ∷ rs) address = if covers address r then some r else mapping_covering rs address

-- find_free_mapping_slot
unfoldable pub find_free_mapping_slot : List Region → Option ℕ
find_free_mapping_slot [] = none
find_free_mapping_slot (r ∷ rs) =
    if r.used
    then elim (find_free_mapping_slot rs) [ none ↦ none | some i ↦ some (suc i) ]
    else some 0

-- rounded_mapping_length
unfoldable pub rounded_mapping_length : ℕ → Option ℕ
rounded_mapping_length length =
    if length == 0 || ltb (2 ^ 64 - 1 - 4095) length then none else some (align_up length page_size)

-- `region->used` and an overlap with the bytes from `low` to `high`.
abbrev pub meets : ℕ → ℕ → Region → Bool
meets low high r = r.used && not (leb r.end low) && not (leb high r.start)

-- The end of the last region that a candidate meets, or 0.
unfoldable pub next_region : ℕ → ℕ → List Region → ℕ
next_region low high [] = 0
next_region low high (r ∷ rs) =
    let next = next_region low high rs in if meets low high r then max r.end next else next

-- Is one of the pages from `page` on mapped?
unfoldable pub any_mapped : (ℕ → Bool) → ℕ → ℕ → Bool
any_mapped mapped zero page = false
any_mapped mapped (suc n) page = mapped page || any_mapped mapped n (page + page_size)

pub data Search : Type 0 where
  out_of_fuel : Search
  nowhere : Search
  found : ℕ → Search

-- One attempt of select_mapping_address, from a candidate on.
unfoldable pub search_from : ℕ → (ℕ → Bool) → List Region → ℕ → ℕ → Search
search_from zero mapped rs length candidate = out_of_fuel
search_from (suc fuel) mapped rs length candidate =
    let next = next_region candidate (candidate + length) rs in
    let moved = if next == 0 then candidate + page_size else align_up next page_size in
    let rest = search_from fuel mapped rs length moved in
    if ltb (mmap_limit - length) candidate
    then nowhere
    else if next == 0 && not (any_mapped mapped (length / page_size) candidate)
    then found candidate
    else rest

-- A round for each page below the limit.
unfoldable pub search_fuel : ℕ
search_fuel = mmap_limit / page_size + 1

-- select_mapping_address
unfoldable pub select_mapping_address : (ℕ → Bool) → List Region → ℕ → ℕ → Search
select_mapping_address mapped rs hint length =
    if ltb (mmap_limit - mmap_start) length
    then nowhere
    else elim (search_from search_fuel mapped rs length (if hint == 0 then mmap_start else hint)) [
      | out_of_fuel ↦ out_of_fuel
      | found address ↦ found address
      | nowhere ↦
          if hint == 0 || hint == mmap_start
          then nowhere
          else search_from search_fuel mapped rs length mmap_start
    ]

-- The walk of process_munmap along the regions; none if the fuel runs out.
unfoldable pub covered_from : ℕ → List Region → ℕ → ℕ → Option Bool
covered_from zero rs cursor end = none
covered_from (suc fuel) rs cursor end =
    if leb end cursor then some true else elim (mapping_covering rs cursor) [
      | none ↦ some false
      | some r ↦ covered_from fuel rs (if ltb end r.end then end else r.end) end
    ]

-- A region with bytes on both sides of the cut.
abbrev pub splits : ℕ → ℕ → Region → Bool
splits low high r = meets low high r && ltb r.start low && ltb high r.end

unfoldable pub any_splits : ℕ → ℕ → List Region → Bool
any_splits low high [] = false
any_splits low high (r ∷ rs) = splits low high r || any_splits low high rs

-- What the last loop of process_munmap leaves of a region where it stands.
abbrev pub trim : ℕ → ℕ → Region → Region
trim low high r =
    let cut_start = if ltb r.start low then low else r.start in
    let cut_end = if ltb high r.end then high else r.end in
    if not (meets low high r)
    then r
    else if cut_start == r.start && cut_end == r.end
    then record r { used = false }
    else if cut_start == r.start
    then record r { start = cut_end }
    else record r { end = cut_start }

-- The part above the cut of the last region that it splits.
unfoldable pub upper_part : ℕ → ℕ → List Region → Option Region
upper_part low high [] = none
upper_part low high (r ∷ rs) = elim (upper_part low high rs) [
  | some u ↦ some u
  | none ↦ if splits low high r then some (record r { start = high }) else none
]

-- The last loop of process_munmap. It may pass over the slot it has filled, whose region starts at
-- the end of the cut, and so stays as it is.
unfoldable pub cut_regions : ℕ → ℕ → ℕ → List Region → List Region
cut_regions slot low high rs = elim (upper_part low high rs) [
  | none ↦ map (trim low high) rs
  | some u ↦ set (map (trim low high) rs) slot u
]

-- The memory that the regions reserve, in pages.
unfoldable pub region_pages : List Region → ℕ
region_pages [] = 0
region_pages (r ∷ rs) = (if r.used then (r.end - r.start) / page_size else 0) + region_pages rs
