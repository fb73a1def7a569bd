-- ===== src/Pmm/Init/Establish.antt =====
-- pmm_init of src/mm/pmm.c sets up the allocator's invariant.
use cone_os.Prelude.{
  Option, ℕ, ◌+◌, ◌*◌, ◌/◌, ◌%◌, ◌^◌, ◌≤◌, ◌<◌, ◌≡◌, refl, true, ◌⊎◌, inl, inr, none, some, List,
  [], ◌∷◌, arith, replicate, page_size, length-replicate, get_or-replicate, get_or-replicate_lt,
  All, All-replicate, sym,
}
use cone_os.Prelude.Bytes.{test_bit-full}
use cone_os.Pmm.Bitmap.{bitmap_test, IsByte, free_below_none}
use cone_os.Pmm.{Pmm, MemmapEntry, is_page_address, in_metadata}
use cone_os.Pmm.Invariant.{IsValid, FitsReference}
use cone_os.Pmm.Init.{
  Tally, clear_entries, claim_pages, highest_address, metadata_region, bitmap_bytes, bitmap_pages,
  references_pages, pages_of, build, pmm_init,
}
use cone_os.Pmm.Init.Sane.{
  IsSane, IsSaneEntry, after_entry, highest_bounds, usable-le_highest, metadata_region_bounds,
}
use cone_os.Pmm.Init.Tables.{Cleared, Usable, clear_entries-Cleared, claim_pages-Cleared}

abbrev fresh_tally : ℕ → Tally
fresh_tally n = record { bits = replicate (bitmap_bytes n) 255; total = 0; free = 0 }

fresh_marked : (n p : ℕ) → n ≤ 2 ^ 40 → p < n → bitmap_test (fresh_tally n).bits p ≡ true
unfolding bitmap_test
fresh_marked n p small lt =
    rw (get_or-replicate_lt {A = ℕ} (bitmap_bytes n) (p / 8) 255 0 (omega arith))
      (test_bit-full (p % 8) (omega arith))

fresh-Cleared :
    (all : List MemmapEntry) (n : ℕ) → n ≤ 2 ^ 40 → Cleared (Usable all) n 0 (fresh_tally n)
fresh-Cleared all n small = record {
  bytes = All-replicate IsByte (bitmap_bytes n) 255 (omega arith);
  room = omega (arith, length-replicate {A = ℕ} (bitmap_bytes n) 255);
  counted =
      sym
        (free_below_none (bitmap_test (fresh_tally n).bits) n (λ p lt. fresh_marked n p small lt));
  marked = λ p le lt. fresh_marked n p small lt;
  good = λ p lt off. absurd (ground (arith, fresh_marked n p small lt));
}

-- The sizes, where nothing wraps.
module _ (es : List MemmapEntry) (sane : IsSane 0 es) where
  pages_lem : (pages_of es * page_size ≡ highest_address es 0) × (pages_of es ≤ 2 ^ 40)
  pages_lem =
      let (le, whole) = highest_bounds 0 0 es sane (omega arith) (omega arith) in omega arith

  metadata_small :
      (bitmap_pages (pages_of es) + references_pages (pages_of es)) * page_size < 2 ^ 60
  metadata_small = omega (arith, pages_lem)

  module _ (region : ℕ)
      (found : metadata_region es (bitmap_pages (pages_of es) + references_pages (pages_of es))
        ≡ some region) where
    region_lem :
        (region % page_size ≡ 0)
        × (region / page_size + (bitmap_pages (pages_of es) + references_pages (pages_of es))
            ≤ pages_of es)
    region_lem =
        let (whole, fits) =
          metadata_region_bounds 0 0 (bitmap_pages (pages_of es) + references_pages (pages_of es))
            es sane (omega (arith, metadata_small)) found in
        (whole, omega (arith, pages_lem))

    claimed :
        Cleared
          (λ p.
            Usable es p
            × ((p < region / page_size)
                ⊎ (region / page_size
                      + (bitmap_pages (pages_of es) + references_pages (pages_of es))
                    ≤ p)))
          (pages_of es)
          (pages_of es)
          (claim_pages
            (region / page_size)
            (bitmap_pages (pages_of es) + references_pages (pages_of es))
            (clear_entries es (fresh_tally (pages_of es))))
    claimed =
        claim_pages-Cleared (Usable es) (pages_of es)
          (bitmap_pages (pages_of es) + references_pages (pages_of es)) (region / page_size) _
          region_lem.1
          (clear_entries-Cleared es (pages_of es) 0 0 es (fresh_tally (pages_of es)) (omega arith)
            sane (λ a u. u) (omega (arith, pages_lem)) (fresh-Cleared es (pages_of es) pages_lem.1))

    pub build-IsValid : IsValid (build es (pages_of es) region)
    unfolding build is_page_address in_metadata
    build-IsValid = record {
      bytes = claimed.bytes;
      bitmap_room = claimed.room;
      references_room = omega (arith, length-replicate {A = ℕ} (pages_of es) 0);
      references_fit = All-replicate FitsReference (pages_of es) 0 (omega arith);
      counted = claimed.counted;
      cursor = region_lem.1;
      addressable = omega (arith, pages_lem);
      covered = λ a small ok.
          omega (arith, usable-le_highest 0 0 a es sane small (ground (arith, ok)), pages_lem);
      unreferenced = λ p off. get_or-replicate (pages_of es) p 0;
      freeable = λ p lt off.
          let (usable, outside) = claimed.good p lt off in
          (
            ground (arith, usable, pages_lem),
            ground (arith, outside, pages_lem, metadata_small, region_lem),
          );
    }

-- The pages that the tables take.
abbrev pub table_pages : List MemmapEntry → ℕ
table_pages es = bitmap_pages (pages_of es) + references_pages (pages_of es)

no_region :
    (low pages : ℕ) (es : List MemmapEntry)
    → pages * page_size < 2 ^ 64
    → IsSane low es
    → metadata_region es pages ≡ none
    → All (λ e. e.usable ≡ true → e.size < pages * page_size) es
unfolding metadata_region
no_region low pages [] small sane h = tt
no_region low pages (e ∷ rest) small sane h = (
  λ on. let entry : IsSaneEntry low e = sane.0 on in ground arith,
  no_region (after_entry low e) pages rest small sane.1 (ground arith),
)

-- No usable entry has room for the tables, or the state is valid and stands over the map.
abbrev pub Booted : List MemmapEntry → Option Pmm → Type 0
Booted es r =
    ((r ≡ none) × All (λ e. e.usable ≡ true → e.size < table_pages es * page_size) es)
    ⊎ ((s : Pmm) × (r ≡ some s) × IsValid s × (s.memory_map ≡ es))

-- From a memory map that keeps the boot protocol, pmm_init either fails, because no usable entry has
-- room for the two tables, or sets up a valid allocator over that map.
pub pmm_init_lem :
    (es : List MemmapEntry)
    → IsSane 0 es
    → ((pmm_init (some es) ≡ none)
        × All (λ e. e.usable ≡ true → e.size < table_pages es * page_size) es)
      ⊎ ((s : Pmm) × (pmm_init (some es) ≡ some s) × IsValid s × (s.memory_map ≡ es))
unfolding pmm_init build
pmm_init_lem es sane = go (metadata_region es (table_pages es)) refl
  where
    go : (o : Option ℕ) → metadata_region es (table_pages es) ≡ o → Booted es (pmm_init (some es))
    go none e = inl (
      rw (e, pmm_init) refl,
      no_region 0 (table_pages es) es (omega (arith, metadata_small es sane)) sane e,
    )
    go (some region) e =
        inr (
          build es (pages_of es) region,
          rw (e, pmm_init) refl,
          build-IsValid es sane region e,
          refl,
        )
