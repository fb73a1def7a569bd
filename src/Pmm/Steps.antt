-- ===== src/Pmm/Steps.antt =====
-- What each operation of src/mm/pmm.c does, as seen through the state of each page.
use cone_os.Prelude.{
  ℕ, ◌+◌, ◌*◌, ◌≤◌, ◌<◌, ◌≡◌, ◌≢◌, true, ◌&&◌, ◌⊎◌, inl, inr, Option, none, some, arith, ltb, leb,
  ◌==◌, if◌then◌else◌, get_or, set, get_or-set, Bool-cases, Option-cases, page_size,
}
use cone_os.Pmm.Bitmap.{bitmap_test, bitmap_test-set, bitmap_test-clear}
use cone_os.Pmm.Search.{
  run_length, first_run-some, first_run-none, bitmap_test-mark_range, get_or-set_range, IsFreeRun,
  IsFreeRun-of_length,
}
use cone_os.Pmm.{
  Pmm, find_page, take_page, find_contiguous, take_range, release_page, alloc_page_with_reserve,
  alloc_contiguous,
}
use cone_os.Pmm.Invariant.{
  IsValid, find_page-some, find_page-none, take_page-IsValid, take_range-IsValid,
}

-- A page is free, or in use with a number of references; the pages that are never handed out are in
-- use with 0.
abbrev pub status : Pmm → ℕ → Option ℕ
status s page = if bitmap_test s.bitmap page then some (get_or s.page_references page 0) else none

-- `t` is `s` but for page `page`, which has status `o`.
abbrev pub Differs : Pmm → Pmm → ℕ → Option ℕ → Type 0
Differs s t page o = (status t page ≡ o) × ((q : ℕ) → q ≢ page → status t q ≡ status s q)

module _ {s : Pmm} (page : ℕ) (v : IsValid s) (lt : page < s.page_count) where
  pub take_page-Differs : Differs s (take_page s page) page (some 1)
  take_page-Differs = (
    ground (
      arith,
      bitmap_test-set s.bitmap page page v.bytes,
      get_or-set s.page_references page page 1 0,
      v.bitmap_room,
      v.references_room,
    ),
    λ q ne. ground (
      arith,
      bitmap_test-set s.bitmap page q v.bytes,
      get_or-set s.page_references page q 1 0,
      v.bitmap_room,
      v.references_room,
    ),
  )

  pub release_page-Differs : Differs s (release_page s page) page none
  release_page-Differs = (
    ground (arith, bitmap_test-clear s.bitmap page page v.bytes, v.bitmap_room),
    λ q ne. ground (
      arith,
      bitmap_test-clear s.bitmap page q v.bytes,
      get_or-set s.page_references page q 0 0,
      v.bitmap_room,
      v.references_room,
    ),
  )

  pub count_page-Differs :
      (n : ℕ)
      → bitmap_test s.bitmap page ≡ true
      → Differs s (record s { page_references = set s.page_references page n }) page (some n)
  count_page-Differs n on = (
    ground (arith, get_or-set s.page_references page page n 0, v.references_room),
    λ q ne. ground (arith, get_or-set s.page_references page q n 0, v.references_room),
  )

-- What an allocation of one page did, with its result.
abbrev pub PageOutcome : Pmm → ℕ → Option ℕ × Pmm → Type 0
PageOutcome s reserve (r, t) =
    ((s.free_pages ≤ reserve) × (r ≡ none) × (t ≡ s))
    ⊎ ((page : ℕ) × (reserve < s.free_pages)
        × (r ≡ some (page * page_size))
        × (page < s.page_count)
        × (status s page ≡ none)
        × Differs s t page (some 1)
        × (t.free_pages + 1 ≡ s.free_pages))

module _ {s : Pmm} (reserve : ℕ) (v : IsValid s) where
  pub alloc_page_with_reserve-eq :
      ((s.free_pages ≤ reserve) × (alloc_page_with_reserve s reserve ≡ (none, s)))
      ⊎ ((page : ℕ) × (reserve < s.free_pages)
          × (find_page s ≡ some page)
          × (alloc_page_with_reserve s reserve ≡ (some (page * page_size), take_page s page)))
  unfolding alloc_page_with_reserve
  alloc_page_with_reserve-eq = elim (Bool-cases (leb s.free_pages reserve)) [
    | inl few ↦ inl (ground arith, rw few)
    | inr enough ↦ elim (Option-cases (find_page s)) [
      | inl e ↦ absurd (ground (arith, find_page-none v e))
      | inr (page, e) ↦ inr (page, ground arith, e, rw (enough, e))
    ]
  ]

  -- pmm_alloc_page and pmm_alloc_user_page are this at 0 and at the kernel's reserve. A refusal
  -- means that no more than `reserve` pages are free, and changes nothing. Otherwise the caller gets
  -- the address of a page that was free, which now has one reference; no other page changes, and one
  -- page fewer is free.
  pub alloc_page_with_reserve_lem : PageOutcome s reserve (alloc_page_with_reserve s reserve)
  alloc_page_with_reserve_lem = elim alloc_page_with_reserve-eq [
    | inl (few, e) ↦ inl (few, rw e, rw e)
    | inr (page, enough, found, e) ↦
        let (lt, off) = find_page-some v found in
        inr (page, enough, rw e, lt, rw off, rw e (take_page-Differs page v lt), rw e (omega arith))
  ]

  pub alloc_page_with_reserve-IsValid : IsValid (alloc_page_with_reserve s reserve).1
  alloc_page_with_reserve-IsValid = elim alloc_page_with_reserve-eq [
    | inl (few, e) ↦ rw e v
    | inr (page, enough, found, e) ↦
        let (lt, off) = find_page-some v found in rw e (take_page-IsValid page v lt off)
  ]

-- No run of `count` free pages lies on either side of the cursor.
abbrev pub NoRun : Pmm → ℕ → Type 0
NoRun s count =
    (page : ℕ)
    → ((page + count ≤ s.search_start) ⊎ ((s.search_start ≤ page) × (page + count ≤ s.page_count)))
    → ¬ IsFreeRun s.bitmap page count

-- What an allocation of a run did, with its result.
abbrev pub RunOutcome : Pmm → ℕ → Option ℕ × Pmm → Type 0
RunOutcome s count (r, t) =
    (((count ≡ 0) ⊎ (s.free_pages < count) ⊎ NoRun s count) × (r ≡ none) × (t ≡ s))
    ⊎ ((page : ℕ) × (r ≡ some (page * page_size))
        × (0 < count)
        × (page + count ≤ s.page_count)
        × ((i : ℕ) → i < count → status s (page + i) ≡ none)
        × ((q : ℕ)
            → status t q ≡ (if leb page q && ltb q (page + count) then some 1 else status s q))
        × (t.free_pages + count ≡ s.free_pages))

module _ {s : Pmm} (count : ℕ) (v : IsValid s) where
  find_contiguous-some :
      {p : ℕ}
      → find_contiguous s count ≡ some p
      → (p + count ≤ s.page_count) × IsFreeRun s.bitmap p count
  unfolding find_contiguous
  find_contiguous-some {p} h =
      let found : (p + count ≤ s.page_count) × (run_length s.bitmap p count ≡ count) = ground (
        arith,
        first_run-some s.page_count s.bitmap count s.search_start s.page_count {p = p},
        first_run-some s.search_start s.bitmap count 0 s.search_start {p = p},
        v.cursor,
      ) in
      (found.0, IsFreeRun-of_length s.bitmap p count found.1)

  find_contiguous-none : 0 < count → find_contiguous s count ≡ none → NoRun s count
  unfolding find_contiguous
  find_contiguous-none pos h page (inl low) free =
      first_run-none s.search_start s.bitmap count 0 s.search_start page (ground arith) pos
        (omega arith) (omega arith) low free
  find_contiguous-none pos h page (inr high) free =
      first_run-none s.page_count s.bitmap count s.search_start s.page_count page (ground arith) pos
        (omega arith) high.0 high.1 free

  alloc_contiguous-eq :
      (((count ≡ 0) ⊎ (s.free_pages < count) ⊎ NoRun s count)
        × (alloc_contiguous s count ≡ (none, s)))
      ⊎ ((page : ℕ) × (0 < count)
          × (count ≤ s.free_pages)
          × (find_contiguous s count ≡ some page)
          × (alloc_contiguous s count ≡ (some (page * page_size), take_range s page count)))
  unfolding alloc_contiguous
  alloc_contiguous-eq = elim (Bool-cases (count == 0)) [
    | inl nothing ↦ inl (inl (ground arith), rw nothing)
    | inr some_pages ↦ elim (Bool-cases (ltb s.free_pages count)) [
      | inl few ↦ inl (inr (inl (ground arith)), rw (some_pages, few))
      | inr enough ↦ elim (Option-cases (find_contiguous s count)) [
        | inl e ↦
            inl (inr (inr (find_contiguous-none (ground arith) e)), rw (some_pages, enough, e))
        | inr (page, e) ↦ inr (page, ground arith, ground arith, e, rw (some_pages, enough, e))
      ]
    ]
  ]

  -- pmm_alloc_contiguous fails, and changes nothing, only for a count of 0, for more pages than are
  -- free, or where neither side of the cursor has a run that is long enough. Otherwise the caller
  -- gets the first address of a run that was free; its pages now have one reference, no other page
  -- changes, and so many pages fewer are free.
  pub alloc_contiguous_lem : RunOutcome s count (alloc_contiguous s count)
  alloc_contiguous_lem = elim alloc_contiguous-eq [
    | inl (why, e) ↦ inl (why, rw e, rw e)
    | inr (page, pos, enough, found, e) ↦
        let (fits, free) = find_contiguous-some found in
        inr (
          page,
          rw e,
          pos,
          fits,
          λ i lt. rw (free i lt),
          λ q. rw e (
              ground (
                arith,
                bitmap_test-mark_range s.bitmap page count q v.bytes,
                get_or-set_range s.page_references page count q,
                v.bitmap_room,
                v.references_room,
              )),
          rw e (omega arith),
        )
  ]

  pub alloc_contiguous-IsValid : IsValid (alloc_contiguous s count).1
  alloc_contiguous-IsValid = elim alloc_contiguous-eq [
    | inl (why, e) ↦ rw e v
    | inr (page, pos, enough, found, e) ↦
        let (fits, free) = find_contiguous-some found in
        rw e (take_range-IsValid page v (omega arith) count fits free)
  ]
