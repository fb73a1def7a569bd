-- ===== src/Pmm/Init.antt =====
-- pmm_init of src/mm/pmm.c: the tables that the allocator builds from the memory map.
pub mod Sane
pub mod Tables
pub mod Establish
use cone_os.Prelude.{
  ℕ, zero, suc, ◌+◌, ◌-◌, ◌*◌, ◌/◌, ◌%◌, ◌^◌, ◌≤◌, ◌<◌, ◌≡◌, ◌≢◌, refl, Bool, true, false, not,
  ◌&&◌, ◌||◌, ◌⊎◌, inl, inr, Option, none, some, List, [], ◌∷◌, arith, ltb, leb, ◌==◌,
  if◌then◌else◌, replicate, add64, sub64, mul64, align_up, align_down, page_size,
}
use cone_os.Pmm.Bitmap.{bitmap_test, bitmap_set, bitmap_clear}
use cone_os.Pmm.{Pmm, MemmapEntry}

-- The highest end of a usable entry.
unfoldable pub highest_address : List MemmapEntry → ℕ → ℕ
highest_address [] highest = highest
highest_address (e ∷ rest) highest =
    highest_address rest
      (if e.usable && ltb highest (add64 e.base e.size) then add64 e.base e.size else highest)

abbrev pub entry_start : MemmapEntry → ℕ
entry_start e = align_up e.base page_size

abbrev pub entry_end : MemmapEntry → ℕ
entry_end e = align_down (add64 e.base e.size) page_size

-- The start of the first usable entry with room for the tables.
unfoldable pub metadata_region : List MemmapEntry → ℕ → Option ℕ
metadata_region [] pages = none
metadata_region (e ∷ rest) pages =
    if e.usable && leb (mul64 pages page_size) (sub64 (entry_end e) (entry_start e))
    then some (entry_start e)
    else metadata_region rest pages

-- What the loops change: the bitmap and the two counters.
pub record Tally : Type 0 where
  pub bits : List ℕ
  pub total : ℕ
  pub free : ℕ

-- for (address = start; address < end; address += PMM_PAGE_SIZE), from page `page` for `rounds` pages.
unfoldable pub clear_pages : ℕ → ℕ → Tally → Tally
clear_pages page zero t = t
clear_pages page (suc rounds) t =
    clear_pages (page + 1) rounds
      (record t { bits = bitmap_clear t.bits page; total = t.total + 1; free = t.free + 1 })

abbrev pub entry_pages : MemmapEntry → ℕ
entry_pages e = (entry_end e - entry_start e) / page_size

unfoldable pub clear_entries : List MemmapEntry → Tally → Tally
clear_entries [] t = t
clear_entries (e ∷ rest) t =
    clear_entries rest
      (if e.usable then clear_pages (entry_start e / page_size) (entry_pages e) t else t)

-- for (i = 0; i < metadata_page_count; i++), from page `page`.
unfoldable pub claim_pages : ℕ → ℕ → Tally → Tally
claim_pages page zero t = t
claim_pages page (suc rounds) t = claim_pages (page + 1) rounds (
    if bitmap_test t.bits page
    then t
    else (record t { bits = bitmap_set t.bits page; free = t.free - 1 }))

abbrev pub bitmap_bytes : ℕ → ℕ
bitmap_bytes page_count = align_up page_count 8 / 8

-- Each reference count takes two bytes.
abbrev pub bitmap_pages : ℕ → ℕ
bitmap_pages page_count = align_up (bitmap_bytes page_count) page_size / page_size

abbrev pub references_pages : ℕ → ℕ
references_pages page_count = align_up (mul64 page_count 2) page_size / page_size

abbrev pub pages_of : List MemmapEntry → ℕ
pages_of entries = align_up (highest_address entries 0) page_size / page_size

-- The state once the region for the tables is known.
unfoldable pub build : List MemmapEntry → ℕ → ℕ → Pmm
build entries page_count region =
    let bitmap_page_count = bitmap_pages page_count in
    let references_page_count = references_pages page_count in
    let metadata_page_count = bitmap_page_count + references_page_count in
    let first = region / page_size in
    let fresh : Tally = record {
      bits = replicate (bitmap_bytes page_count) 255;
      total = 0;
      free = 0;
    } in
    let t = claim_pages first metadata_page_count (clear_entries entries fresh) in
    record {
      bitmap = t.bits;
      page_references = replicate page_count 0;
      bitmap_physical = region;
      bitmap_page_count = bitmap_page_count;
      references_physical = add64 region (mul64 bitmap_page_count page_size);
      references_page_count = references_page_count;
      page_count = page_count;
      total_pages = t.total;
      free_pages = t.free;
      search_start = first + metadata_page_count;
      memory_map = entries;
    }

-- The argument is the boot loader's answer to the two requests; `none` is a null response.
unfoldable pub pmm_init : Option (List MemmapEntry) → Option Pmm
pmm_init none = none
pmm_init (some entries) =
    let page_count = pages_of entries in
    elim (metadata_region entries (bitmap_pages page_count + references_pages page_count)) [
      | none ↦ none
      | some region ↦ some (build entries page_count region)
    ]
