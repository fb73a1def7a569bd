-- ===== src/Pmm/Tests.antt =====
-- Concrete runs of src/mm/pmm.c: a machine with eight usable pages, of which the tables take two.
use cone_os.Prelude.{
  ℕ, ◌≡◌, refl, true, false, some, List, [], ◌∷◌, arith, page_size, ◌^◌, ◌-◌, inl,
}
use cone_os.Prelude.Bytes.{test_bit, set_bit, clear_bit}
use cone_os.Pmm.Bitmap.{bitmap_test, bitmap_set, bitmap_clear}
use cone_os.Pmm.Search.{first_free, first_run, run_length}
use cone_os.Pmm.{
  find_page, find_contiguous, Pmm, MemmapEntry, alloc_page, alloc_page_with_reserve,
  alloc_contiguous, free_page, page_is_usable,
}
use cone_os.Pmm.Invariant.{IsValid}
use cone_os.Pmm.Steps.{
  status, PageOutcome, RunOutcome, alloc_page_with_reserve_lem, alloc_contiguous_lem,
}
use cone_os.Pmm.Sharing.{FreeOutcome, free_page_lem}
use cone_os.Pmm.Roundtrip.{alloc, alloc_run, free, retain, run, run-IsValid, free_page-alloc_page}
use cone_os.Pmm.Init.{
  pmm_init, build, metadata_region, highest_address, clear_entries, clear_pages, claim_pages,
}
use cone_os.Pmm.Init.Establish.{Booted, pmm_init_lem, build-IsValid}
use cone_os.Pmm.Init.Sane.{IsSane}
use cone_os.Pmm.Wrap.{page_is_usable_wraps}

abbrev memory : List MemmapEntry
memory =
    record { base = 0; size = 32768; usable = true }
    ∷ record { base = 40960; size = 4096; usable = false }
    ∷ []

abbrev boot : Pmm
boot = record {
  bitmap = 3 ∷ [];
  page_references = 0 ∷ 0 ∷ 0 ∷ 0 ∷ 0 ∷ 0 ∷ 0 ∷ 0 ∷ [];
  bitmap_physical = 0;
  bitmap_page_count = 1;
  references_physical = 4096;
  references_page_count = 1;
  page_count = 8;
  total_pages = 8;
  free_pages = 6;
  search_start = 2;
  memory_map = memory;
}

boot_runs : pmm_init (some memory) ≡ some boot
unfolding pmm_init build metadata_region highest_address clear_entries clear_pages claim_pages
    bitmap_test bitmap_set bitmap_clear test_bit set_bit clear_bit
boot_runs = refl

memory-IsSane : IsSane 0 memory
memory-IsSane = ((λ on. omega arith), ((λ on. cc), tt))

pmm_init_lem_example : Booted memory (pmm_init (some memory))
pmm_init_lem_example = pmm_init_lem memory memory-IsSane

boot-IsValid : IsValid boot
unfolding build metadata_region highest_address clear_entries clear_pages claim_pages bitmap_test
    bitmap_set bitmap_clear test_bit set_bit clear_bit
boot-IsValid = build-IsValid memory memory-IsSane 0 refl

-- Page 2 is the first that is free.
alloc_runs : (alloc_page boot).0 ≡ some 8192
unfolding alloc_page alloc_page_with_reserve find_page first_free bitmap_test test_bit
alloc_runs = refl

alloc_page_with_reserve_lem_example : PageOutcome boot 0 (alloc_page_with_reserve boot 0)
alloc_page_with_reserve_lem_example = alloc_page_with_reserve_lem 0 boot-IsValid

-- Three pages from page 2 on.
alloc_contiguous_runs : (alloc_contiguous boot 3).0 ≡ some 8192
unfolding alloc_contiguous find_contiguous first_run run_length bitmap_test test_bit
alloc_contiguous_runs = refl

alloc_contiguous_lem_example : RunOutcome boot 3 (alloc_contiguous boot 3)
alloc_contiguous_lem_example = alloc_contiguous_lem 3 boot-IsValid

-- Page 2 is in use, once.
abbrev taken : Pmm
taken = record boot {
  bitmap = 7 ∷ [];
  page_references = 0 ∷ 0 ∷ 1 ∷ 0 ∷ 0 ∷ 0 ∷ 0 ∷ 0 ∷ [];
  free_pages = 5;
  search_start = 3;
}

taken_is_run : run boot (alloc 0 ∷ []) ≡ taken
unfolding run alloc_page_with_reserve find_page first_free bitmap_test bitmap_set test_bit set_bit
taken_is_run = refl

run-IsValid_example : IsValid (run boot (alloc 0 ∷ retain 8192 ∷ free 8192 ∷ alloc_run 3 ∷ []))
run-IsValid_example =
    run-IsValid (alloc 0 ∷ retain 8192 ∷ free 8192 ∷ alloc_run 3 ∷ [])
      (tt, (omega arith, (omega arith, (tt, tt)))) boot-IsValid

taken-IsValid : IsValid taken
taken-IsValid = rw taken_is_run at (run-IsValid (alloc 0 ∷ []) (tt, tt) boot-IsValid)

free_page_lem_example : FreeOutcome taken 8192 (free_page taken 8192)
free_page_lem_example = free_page_lem 8192 taken-IsValid (omega arith)

abbrev given : Pmm
given = record boot { search_start = 2 }

abbrev shared : Pmm
shared = record taken { page_references = 0 ∷ 0 ∷ 2 ∷ 0 ∷ 0 ∷ 0 ∷ 0 ∷ 0 ∷ [] }

free_page-alloc_page_example :
    let (ok, u) = free_page taken 8192 in
    (ok ≡ true) × ((q : ℕ) → status u q ≡ status boot q) × (u.free_pages ≡ 6)
unfolding alloc_page_with_reserve find_page first_free bitmap_test bitmap_set test_bit set_bit
free_page-alloc_page_example = free_page-alloc_page 0 boot-IsValid refl

page_is_usable_wraps_example : page_is_usable memory (2 ^ 64 - page_size) ≡ true
page_is_usable_wraps_example = page_is_usable_wraps memory (inl (refl, omega arith))
