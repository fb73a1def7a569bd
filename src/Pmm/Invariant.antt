-- ===== src/Pmm/Invariant.antt =====
-- The representation invariant of src/mm/pmm.c, and that every operation keeps it.
use cone_os.Prelude.{
  ℕ, zero, suc, ◌+◌, ◌-◌, ◌*◌, ◌/◌, ◌^◌, ◌≤◌, ◌<◌, ◌≡◌, true, false, inl, inr, none, some, List,
  arith, leb, ◌==◌, get_or, set, length, length-set, get_or-set, All, All-set, Bool-cases,
  page_size,
}
use cone_os.Pmm.Bitmap.{
  bitmap_test, IsByte, length-bitmap_set, length-bitmap_clear, bitmap_set-IsByte,
  bitmap_clear-IsByte, bitmap_test-set, bitmap_test-clear, free_count, free_count-set,
  free_count-clear, free_below_none,
}
use cone_os.Pmm.Search.{
  first_free-some, first_free-none, set_range, length-mark_range, mark_range-IsByte,
  bitmap_test-mark_range, length-set_range, get_or-set_range, free_count-mark_range, IsFreeRun,
}
use cone_os.Pmm.{
  Pmm, is_page_address, in_metadata, find_page, take_page, take_range, release_page, max_references,
}

-- A page that pmm_free_page can give back.
abbrev pub Freeable : Pmm → ℕ → Type 0
Freeable s page =
    (is_page_address s (page * page_size) ≡ true) × (in_metadata s (page * page_size) ≡ false)

abbrev pub FitsReference : ℕ → Type 0
FitsReference r = r ≤ max_references

pub record IsValid (s : Pmm) : Type 0 where
  pub bytes : All IsByte s.bitmap
  pub bitmap_room : s.page_count ≤ 8 * length s.bitmap
  pub references_room : s.page_count ≤ length s.page_references
  -- No reference count overflows its `uint16_t`.
  pub references_fit : All FitsReference s.page_references
  pub counted : s.free_pages ≡ free_count s.bitmap s.page_count
  pub cursor : s.search_start ≤ s.page_count
  pub addressable : s.page_count * page_size < 2 ^ 64
  -- The memory map lies below `page_count`. The address of the last page of the 64-bit space is left
  -- out: `physical_address + PMM_PAGE_SIZE` wraps there, and the test of the map passes.
  pub covered :
      (a : ℕ) → a + page_size < 2 ^ 64 → is_page_address s a ≡ true → a / page_size < s.page_count
  pub unreferenced : (p : ℕ) → bitmap_test s.bitmap p ≡ false → get_or s.page_references p 0 ≡ 0
  pub freeable : (p : ℕ) → p < s.page_count → bitmap_test s.bitmap p ≡ false → Freeable s p

-- The search finds a free page of the bitmap, if there is one.
pub find_page-some :
    {s : Pmm} {p : ℕ}
    → IsValid s
    → find_page s ≡ some p
    → (p < s.page_count) × (bitmap_test s.bitmap p ≡ false)
unfolding find_page
find_page-some {s} {p} v h = ground (
  arith,
  first_free-some s.bitmap s.search_start (s.page_count - s.search_start) {p = p},
  first_free-some s.bitmap 0 s.search_start {p = p},
  v.cursor,
)

find_page-none_used :
    (s : Pmm) (p : ℕ) → find_page s ≡ none → p < s.page_count → bitmap_test s.bitmap p ≡ true
unfolding find_page
find_page-none_used s p h lt = ground (
  arith,
  first_free-none s.bitmap s.search_start (s.page_count - s.search_start) p,
  first_free-none s.bitmap 0 s.search_start p,
  Bool-cases (leb s.search_start p),
)

pub find_page-none : {s : Pmm} → IsValid s → find_page s ≡ none → s.free_pages ≡ 0
find_page-none {s} v h = omega (
  arith,
  v.counted,
  free_below_none (bitmap_test s.bitmap) s.page_count (λ p lt. find_page-none_used s p h lt),
)

set_range-FitsReference :
    (refs : List ℕ) (page count : ℕ)
    → All FitsReference refs
    → All FitsReference (set_range refs page count)
unfolding set_range
set_range-FitsReference refs page zero h = h
set_range-FitsReference refs page (suc count) h =
    set_range-FitsReference (set refs page 1) (page + 1) count
      (All-set FitsReference refs page 1 h (omega arith))

module _ {s : Pmm} (page : ℕ) (v : IsValid s) (lt : page < s.page_count) where
  in_bitmap : page < 8 * length s.bitmap
  in_bitmap = omega (arith, v.bitmap_room)

  pub take_page-IsValid : bitmap_test s.bitmap page ≡ false → IsValid (take_page s page)
  unfolding is_page_address in_metadata
  take_page-IsValid off = record {
    bytes = bitmap_set-IsByte s.bitmap page v.bytes;
    bitmap_room = omega (arith, v.bitmap_room, length-bitmap_set s.bitmap page);
    references_room = omega (arith, v.references_room, length-set s.page_references page 1);
    references_fit = All-set FitsReference s.page_references page 1 v.references_fit (omega arith);
    counted =
        omega
          (arith, v.counted, free_count-set s.bitmap page s.page_count v.bytes in_bitmap lt off);
    cursor = omega arith;
    addressable = v.addressable;
    covered = v.covered;
    unreferenced = λ p e. ground (
      arith,
      v.unreferenced p,
      bitmap_test-set s.bitmap page p v.bytes in_bitmap,
      get_or-set s.page_references page p 1 0,
      v.references_room,
    );
    freeable =
        λ p l e. v.freeable p l (ground (arith, bitmap_test-set s.bitmap page p v.bytes in_bitmap));
  }

  pub release_page-IsValid :
      bitmap_test s.bitmap page ≡ true → Freeable s page → IsValid (release_page s page)
  unfolding is_page_address in_metadata
  release_page-IsValid on give = record {
    bytes = bitmap_clear-IsByte s.bitmap page v.bytes;
    bitmap_room = omega (arith, v.bitmap_room, length-bitmap_clear s.bitmap page);
    references_room = omega (arith, v.references_room, length-set s.page_references page 0);
    references_fit = All-set FitsReference s.page_references page 0 v.references_fit (omega arith);
    counted =
        omega
          (arith, v.counted, free_count-clear s.bitmap page s.page_count v.bytes in_bitmap lt on);
    cursor = ground (arith, v.cursor);
    addressable = v.addressable;
    covered = v.covered;
    unreferenced = λ p e. ground (
      arith,
      v.unreferenced p,
      bitmap_test-clear s.bitmap page p v.bytes in_bitmap,
      get_or-set s.page_references page p 0 0,
      v.references_room,
    );
    freeable = λ p l e. elim (Bool-cases (page == p)) [
      | inl same ↦ let same' : page ≡ p = ground arith in rw (← same') give
      | inr other ↦
          v.freeable p l (ground (arith, bitmap_test-clear s.bitmap page p v.bytes in_bitmap))
    ];
  }

  pub count_page-IsValid :
      (references : ℕ)
      → references ≤ max_references
      → bitmap_test s.bitmap page ≡ true
      → IsValid (record s { page_references = set s.page_references page references })
  unfolding is_page_address in_metadata
  count_page-IsValid references fits on = record {
    bytes = v.bytes;
    bitmap_room = v.bitmap_room;
    references_room =
        omega (arith, v.references_room, length-set s.page_references page references);
    references_fit = All-set FitsReference s.page_references page references v.references_fit fits;
    counted = v.counted;
    cursor = v.cursor;
    addressable = v.addressable;
    covered = v.covered;
    unreferenced = λ p e. ground (
      arith,
      v.unreferenced p,
      get_or-set s.page_references page p references 0,
      v.references_room,
    );
    freeable = v.freeable;
  }

  pub take_range-IsValid :
      (count : ℕ)
      → page + count ≤ s.page_count
      → IsFreeRun s.bitmap page count
      → IsValid (take_range s page count)
  unfolding is_page_address in_metadata
  take_range-IsValid count fits free = record {
    bytes = mark_range-IsByte s.bitmap page count v.bytes;
    bitmap_room = omega (arith, v.bitmap_room, length-mark_range s.bitmap page count);
    references_room =
        omega (arith, v.references_room, length-set_range s.page_references page count);
    references_fit = set_range-FitsReference s.page_references page count v.references_fit;
    counted = omega (
      arith,
      v.counted,
      free_count-mark_range s.bitmap page count s.page_count v.bytes fits v.bitmap_room free,
    );
    cursor = omega arith;
    addressable = v.addressable;
    covered = v.covered;
    unreferenced = λ p e. ground (
      arith,
      v.unreferenced p,
      bitmap_test-mark_range s.bitmap page count p v.bytes,
      get_or-set_range s.page_references page count p,
      v.references_room,
      v.bitmap_room,
    );
    freeable = λ p l e.
        v.freeable p l
          (ground (arith, bitmap_test-mark_range s.bitmap page count p v.bytes, v.bitmap_room));
  }

-- An address that passes the checks of pmm_free_page names a page that it can give back.
pub Freeable-of_address :
    (s : Pmm) (address : ℕ)
    → is_page_address s address ≡ true
    → in_metadata s address ≡ false
    → Freeable s (address / page_size)
unfolding is_page_address
Freeable-of_address s address ok out =
    let e : address / page_size * page_size ≡ address = ground arith in rw e (ok, out)
