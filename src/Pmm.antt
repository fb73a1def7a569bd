-- ===== src/Pmm.antt =====
-- src/mm/pmm.c: the physical page allocator. The state is the file's static variables; each
-- function that takes `pmm_lock` is one step on it.
mod Bitmap
mod Search
pub mod Invariant
pub mod Steps
pub mod Sharing
pub mod Roundtrip
pub mod Init
pub mod Wrap
mod Tests
use cone_os.Prelude.{
  ℕ, zero, suc, ◌+◌, ◌-◌, ◌*◌, ◌/◌, ◌%◌, ◌≤◌, ◌<◌, Bool, true, false, not, ◌&&◌, ◌||◌, Option, none,
  some, List, [], ◌∷◌, ltb, leb, ◌==◌, if◌then◌else◌, get_or, set, replicate, add64, sub64, mul64,
  align_up, align_down, page_size, u64_max,
}
use Bitmap.{bitmap_test, bitmap_set, bitmap_clear}
use Search.{first_free, first_run, mark_range, set_range}

-- `struct limine_memmap_entry`, with the test of its type against LIMINE_MEMMAP_USABLE.
pub record MemmapEntry : Type 0 where
  pub base : ℕ
  pub size : ℕ
  pub usable : Bool

pub record Pmm : Type 0 where
  pub bitmap : List ℕ
  pub page_references : List ℕ
  pub bitmap_physical : ℕ
  pub bitmap_page_count : ℕ
  pub references_physical : ℕ
  pub references_page_count : ℕ
  pub page_count : ℕ
  pub total_pages : ℕ
  pub free_pages : ℕ
  pub search_start : ℕ
  pub memory_map : List MemmapEntry

-- PMM_INVALID_ADDRESS is `none` where a function returns an address.
abbrev pub invalid_address : ℕ
invalid_address = u64_max

-- PMM_KERNEL_RESERVE_PAGES
abbrev pub kernel_reserve_pages : ℕ
kernel_reserve_pages = 1024

abbrev pub entry_covers : MemmapEntry → ℕ → Bool
entry_covers e address =
    e.usable && leb e.base address && leb (add64 address page_size) (add64 e.base e.size)

unfoldable pub page_is_usable : List MemmapEntry → ℕ → Bool
page_is_usable [] address = false
page_is_usable (e ∷ rest) address =
    if entry_covers e address then true else page_is_usable rest address

-- The two passes of the search: from the cursor to the end, then from 0 to the cursor.
unfoldable pub find_page : Pmm → Option ℕ
find_page s = elim (first_free s.bitmap s.search_start (s.page_count - s.search_start)) [
  | some page ↦ some page
  | none ↦ first_free s.bitmap 0 s.search_start
]

-- What the search does at the page that it takes.
abbrev pub take_page : Pmm → ℕ → Pmm
take_page s page = record s {
  bitmap = bitmap_set s.bitmap page;
  page_references = set s.page_references page 1;
  free_pages = s.free_pages - 1;
  search_start = page + 1;
}

unfoldable pub alloc_page_with_reserve : Pmm → ℕ → Option ℕ × Pmm
alloc_page_with_reserve s reserve_pages =
    if leb s.free_pages reserve_pages then (none, s) else elim (find_page s) [
      | some page ↦ (some (page * page_size), take_page s page)
      | none ↦ (none, s)
    ]

unfoldable pub alloc_page : Pmm → Option ℕ × Pmm
alloc_page s = alloc_page_with_reserve s 0

unfoldable pub alloc_user_page : Pmm → Option ℕ × Pmm
alloc_user_page s = alloc_page_with_reserve s kernel_reserve_pages

unfoldable pub find_contiguous : Pmm → ℕ → Option ℕ
find_contiguous s count = elim (first_run s.page_count s.bitmap count s.search_start s.page_count) [
  | some page ↦ some page
  | none ↦ first_run s.search_start s.bitmap count 0 s.search_start
]

abbrev pub take_range : Pmm → ℕ → ℕ → Pmm
take_range s page count = record s {
  bitmap = mark_range s.bitmap page count;
  page_references = set_range s.page_references page count;
  free_pages = s.free_pages - count;
  search_start = page + count;
}

unfoldable pub alloc_contiguous : Pmm → ℕ → Option ℕ × Pmm
alloc_contiguous s count =
    if count == 0
    then (none, s)
    else if ltb s.free_pages count
    then (none, s)
    else elim (find_contiguous s count) [
      | some page ↦ (some (page * page_size), take_range s page count)
      | none ↦ (none, s)
    ]

-- The test that pmm_free_page, pmm_retain_page and pmm_page_references begin with, negated.
unfoldable pub is_page_address : Pmm → ℕ → Bool
is_page_address s address =
    address % page_size == 0
    && not (address == invalid_address)
    && page_is_usable s.memory_map address

abbrev pub metadata_end : Pmm → ℕ
metadata_end s = add64 s.references_physical (mul64 s.references_page_count page_size)

unfoldable pub in_metadata : Pmm → ℕ → Bool
in_metadata s address = leb s.bitmap_physical address && ltb address (metadata_end s)

abbrev pub release_page : Pmm → ℕ → Pmm
release_page s page = record s {
  bitmap = bitmap_clear s.bitmap page;
  page_references = set s.page_references page 0;
  free_pages = s.free_pages + 1;
  search_start = if ltb page s.search_start then page else s.search_start;
}

unfoldable pub free_page : Pmm → ℕ → Bool × Pmm
free_page s address =
    if not (is_page_address s address) || in_metadata s address
    then (false, s)
    else let page = address / page_size in
      let references = get_or s.page_references page 0 in
      if not (bitmap_test s.bitmap page)
      then (false, s)
      else if ltb 1 references
      then (true, record s { page_references = set s.page_references page (references - 1) })
      else (true, release_page s page)

-- UINT16_MAX
abbrev pub max_references : ℕ
max_references = 65535

unfoldable pub retain_page : Pmm → ℕ → Bool × Pmm
retain_page s address =
    if not (is_page_address s address)
    then (false, s)
    else let page = address / page_size in
      let references = get_or s.page_references page 0 in
      if not (bitmap_test s.bitmap page) || references == 0 || references == max_references
      then (false, s)
      else (true, record s { page_references = set s.page_references page (references + 1) })

-- pmm_page_references
unfoldable pub references_of : Pmm → ℕ → ℕ
references_of s address =
    if not (is_page_address s address)
    then 0
    else let page = address / page_size in
      if bitmap_test s.bitmap page then get_or s.page_references page 0 else 0
