-- ===== src/Process/Tests.antt =====
-- A process with a region of three pages.
use cone_os.Process.{Spaces, Process, running, no_process, unhandled}
use cone_os.Process.Regions.{
  Region, no_region, mapping_covering, find_free_mapping_slot, rounded_mapping_length, covered_from,
  any_splits, upper_part, cut_regions, region_pages,
}
use cone_os.Process.Regions.Coverage.{view, IsRegion, Apart}
use cone_os.Process.Mappings.{munmap, split_slot}
use cone_os.Process.Reserving.{IsSound}
use cone_os.Process.Unmapping.{Gives, munmap_lem}
use cone_os.Process.Runs.{
  IsGuarded, IsOrderly, MemoryCall, map_call, unmap_call, break_call, memory_run,
  memory_run-IsOrderly,
}
use cone_os.Prelude.{
  [], List, Bool, none, not, ◌&&◌, ◌||◌, ◌==◌, if◌then◌else◌, ℕ, ◌≡◌, refl, true, false, some, ◌∷◌,
  Pairwise, All-replicate, replicate, arith, zero, suc,
}

abbrev three : Region
three = record { start = 0x100000000; end = 0x100003000; protection = 3; used = true }

abbrev three_pages : Process
three_pages = record no_process {
  state = running;
  space = some 1;
  heap_base = 0x400000;
  program_break = 0x400000;
  committed_pages = 5;
  mappings = three ∷ replicate 31 no_region;
}

-- The page in the middle is cut out, and a page fits there again.
munmap_middle :
    (munmap 0x100001000 1 three_pages).1.mappings
    ≡ (record { start = 0x100000000; end = 0x100001000; protection = 3; used = true })
      ∷ (record { start = 0x100002000; end = 0x100003000; protection = 3; used = true })
      ∷ replicate 30 no_region
unfolding munmap rounded_mapping_length covered_from mapping_covering split_slot any_splits
    find_free_mapping_slot cut_regions upper_part
munmap_middle = refl

no_region-IsRegion : IsRegion no_region
no_region-IsRegion = λ e. ground arith

no_region-Apart : (r : Region) → Apart r no_region
no_region-Apart r = λ e f. ground arith

Pairwise-replicate : (n : ℕ) → Pairwise Apart (replicate n no_region)
Pairwise-replicate zero = tt
Pairwise-replicate (suc n) =
    (All-replicate (Apart no_region) n no_region (no_region-Apart no_region), Pairwise-replicate n)

three_pages-IsSound : IsSound 2 three_pages
unfolding region_pages
three_pages-IsSound = record {
  table = (
    (λ e. omega arith, All-replicate IsRegion 31 no_region no_region-IsRegion),
    (All-replicate (Apart three) 31 no_region (no_region-Apart three), Pairwise-replicate 31),
  );
  account = refl;
  limited = omega arith;
}

munmap_lem_example : Gives 2 0x100001000 1 three_pages (munmap 0x100001000 1 three_pages)
munmap_lem_example = munmap_lem 2 0x100001000 1 three_pages three_pages-IsSound

view-replicate : (n x : ℕ) → view (replicate n no_region) x ≡ none
view-replicate zero x = refl
view-replicate (suc n) x = view-replicate n x

three_pages-IsGuarded : IsGuarded three_pages
three_pages-IsGuarded x q e = ground (arith, e, view-replicate 31 x)

three_pages-IsOrderly : IsOrderly 2 three_pages
three_pages-IsOrderly = record {
  heap = omega arith;
  sound = three_pages-IsSound;
  guarded = three_pages-IsGuarded;
}

abbrev calls : List MemoryCall
calls =
    map_call (λ a. false) 0 4096 1 3
    ∷ break_call 0x401800
    ∷ unmap_call 0x100001000 1
    ∷ break_call 0x400010
    ∷ []

memory_run-IsOrderly_example : IsOrderly 2 (memory_run calls three_pages)
memory_run-IsOrderly_example = memory_run-IsOrderly 2 calls three_pages three_pages-IsOrderly

-- The pages mapped, with their flags.
abbrev Mapped : Type 0
Mapped = List (ℕ × (Bool × Bool))

abbrev is_in : ℕ → Mapped → Bool
is_in page [] = false
is_in page ((q, _) ∷ w) = q == page || is_in page w

abbrev flat : Spaces Mapped
flat = record {
  translate = λ space page w. if is_in page w then some page else none;
  unmap_page = λ space page w. (none, w);
  clear_bytes = λ physical n w. w;
  resolve_cow = λ space address w. (unhandled, w);
  alloc_user_page = λ w. (some 0x1000, w);
  map_page = λ space page physical w x s. (true, (page, (w, x)) ∷ s);
  free_page = λ physical w. w;
}

abbrev NotBoth : ℕ × (Bool × Bool) → Type 0
NotBoth (page, (w, x)) = (w && not x) ≡ false
