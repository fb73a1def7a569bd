-- ===== src/Pmm/Search.antt =====
-- The loops of src/mm/pmm.c over the bitmap: the search for a free page and for a run of free
-- pages, and the marking of a run.
use cone_os.Prelude.{
  ℕ, zero, suc, ◌+◌, ◌-◌, ◌*◌, ◌≤◌, ◌<◌, ◌≡◌, refl, true, false, ◌&&◌, inl, inr, Option, none, some,
  List, arith, ltb, leb, ◌==◌, if◌then◌else◌, get_or, set, length, length-set, get_or-set, All,
  Bool-cases,
}
use cone_os.Pmm.Bitmap.{
  bitmap_test, bitmap_set, IsByte, length-bitmap_set, bitmap_set-IsByte, bitmap_test-set,
  free_count, free_count-set,
}

-- for (page = start; page < end; page++), with `rounds` for `end - page`.
unfoldable pub first_free : List ℕ → ℕ → ℕ → Option ℕ
first_free bm page zero = none
first_free bm page (suc rounds) =
    let rest = first_free bm (page + 1) rounds in if bitmap_test bm page then rest else some page

-- while (offset < count && !bitmap_test(page + offset)) offset++; `left` is `count - offset`.
unfoldable pub run_length : List ℕ → ℕ → ℕ → ℕ
run_length bm page zero = 0
run_length bm page (suc left) =
    let rest = run_length bm (page + 1) left in if bitmap_test bm page then 0 else suc rest

-- for (page = start; page < end && count <= end - page; page++), which skips a run that is too short.
-- `fuel` is at least `end - page`.
unfoldable pub first_run : ℕ → List ℕ → ℕ → ℕ → ℕ → Option ℕ
first_run zero bm count page end = none
first_run (suc fuel) bm count page end =
    let offset = run_length bm page count in
    let rest = first_run fuel bm count (page + offset + 1) end in
    if ltb page end && leb count (end - page)
    then if offset == count then some page else rest
    else none

-- for (i = 0; i < count; i++) { bitmap_set(page + i); page_references[page + i] = 1; }
unfoldable pub mark_range : List ℕ → ℕ → ℕ → List ℕ
mark_range bm page zero = bm
mark_range bm page (suc count) = mark_range (bitmap_set bm page) (page + 1) count

unfoldable pub set_range : List ℕ → ℕ → ℕ → List ℕ
set_range refs page zero = refs
set_range refs page (suc count) = set_range (set refs page 1) (page + 1) count

-- The page found is free, in range, and the first such.
pub first_free-some :
    (bm : List ℕ) (page rounds : ℕ) {p : ℕ}
    → first_free bm page rounds ≡ some p
    → (page ≤ p) × (p < page + rounds) × (bitmap_test bm p ≡ false)
unfolding first_free
first_free-some bm page zero h = ground arith
first_free-some bm page (suc rounds) {p} h =
    ground (arith, first_free-some bm (page + 1) rounds {p = p})

pub first_free-none :
    (bm : List ℕ) (page rounds q : ℕ)
    → first_free bm page rounds ≡ none
    → page ≤ q
    → q < page + rounds
    → bitmap_test bm q ≡ true
unfolding first_free
first_free-none bm page zero q h a b = absurd (omega arith)
first_free-none bm page (suc rounds) q h a b =
    ground (arith, first_free-none bm (page + 1) rounds q, Bool-cases (page == q))

pub run_length-le : (bm : List ℕ) (page count : ℕ) → run_length bm page count ≤ count
unfolding run_length
run_length-le bm page zero = omega arith
run_length-le bm page (suc count) = ground (arith, run_length-le bm (page + 1) count)

-- The run is free throughout, and ends at a page in use or at its full length.
pub run_length_free :
    (bm : List ℕ) (page count i : ℕ)
    → i < run_length bm page count
    → bitmap_test bm (page + i) ≡ false
unfolding run_length
run_length_free bm page zero i h = absurd (omega arith)
run_length_free bm page (suc count) zero h = ground arith
run_length_free bm page (suc count) (suc i) h =
    let shift : page + suc i ≡ page + 1 + i = omega arith in
    ground (arith, run_length_free bm (page + 1) count i)

pub run_length_stop :
    (bm : List ℕ) (page count : ℕ)
    → run_length bm page count < count
    → bitmap_test bm (page + run_length bm page count) ≡ true
unfolding run_length
run_length_stop bm page zero h = absurd (omega arith)
run_length_stop bm page (suc count) h = ground (arith, run_length_stop bm (page + 1) count)

-- A run that is found lies between `page` and `end`, and all of it is free.
pub first_run-some :
    (fuel : ℕ) (bm : List ℕ) (count page end : ℕ) {p : ℕ}
    → first_run fuel bm count page end ≡ some p
    → (page ≤ p) × (p + count ≤ end) × (run_length bm p count ≡ count)
unfolding first_run
first_run-some zero bm count page end h = ground arith
first_run-some (suc fuel) bm count page end {p} h =
    ground (arith, first_run-some fuel bm count (page + run_length bm page count + 1) end {p = p})

-- A run of free pages, as a predicate of its start.
abbrev pub IsFreeRun : List ℕ → ℕ → ℕ → Type 0
IsFreeRun bm page count = (i : ℕ) → i < count → bitmap_test bm (page + i) ≡ false

pub IsFreeRun-of_length :
    (bm : List ℕ) (page count : ℕ) → run_length bm page count ≡ count → IsFreeRun bm page count
IsFreeRun-of_length bm page count e i h = run_length_free bm page count i (omega arith)

-- A page in use lies in no run of free pages.
not-IsFreeRun :
    (bm : List ℕ) (q count stop : ℕ)
    → bitmap_test bm stop ≡ true
    → q ≤ stop
    → stop < q + count
    → ¬ IsFreeRun bm q count
not-IsFreeRun bm q count stop on le lt free =
    let e : q + (stop - q) ≡ stop = omega arith in
    let off : bitmap_test bm (q + (stop - q)) ≡ false = free (stop - q) (omega arith) in
    ground arith

-- A search that fails has passed over no run, whatever short runs it skipped.
pub first_run-none :
    (fuel : ℕ) (bm : List ℕ) (count page end q : ℕ)
    → first_run fuel bm count page end ≡ none
    → 0 < count
    → end ≤ page + fuel
    → page ≤ q
    → q + count ≤ end
    → ¬ IsFreeRun bm q count
unfolding first_run
first_run-none zero bm count page end q h pos enough le fits free = omega arith
first_run-none (suc fuel) bm count page end q h pos enough le fits free =
    elim (Bool-cases (leb q (page + run_length bm page count))) [
      | inl near ↦
          not-IsFreeRun bm q count (page + run_length bm page count)
            (run_length_stop bm page count short) (ground arith) (omega (arith, short)) free
      | inr far ↦
          first_run-none fuel bm count (page + run_length bm page count + 1) end q
            (ground (arith, short)) pos (omega arith) (ground arith) fits free
    ]
  where
    short : run_length bm page count < count
    short = ground (arith, run_length-le bm page count)

pub length-mark_range :
    (bm : List ℕ) (page count : ℕ) → length (mark_range bm page count) ≡ length bm
unfolding mark_range
length-mark_range bm page zero = refl
length-mark_range bm page (suc count) =
    omega
      (arith, length-mark_range (bitmap_set bm page) (page + 1) count, length-bitmap_set bm page)

pub mark_range-IsByte :
    (bm : List ℕ) (page count : ℕ) → All IsByte bm → All IsByte (mark_range bm page count)
unfolding mark_range
mark_range-IsByte bm page zero h = h
mark_range-IsByte bm page (suc count) h =
    mark_range-IsByte (bitmap_set bm page) (page + 1) count (bitmap_set-IsByte bm page h)

-- Exactly the pages of the range are marked.
pub bitmap_test-mark_range :
    (bm : List ℕ) (page count q : ℕ)
    → All IsByte bm
    → page + count ≤ 8 * length bm
    → bitmap_test (mark_range bm page count) q
      ≡ (if leb page q && ltb q (page + count) then true else bitmap_test bm q)
unfolding mark_range
bitmap_test-mark_range bm page zero q h room = ground arith
bitmap_test-mark_range bm page (suc count) q h room = ground (
  arith,
  bitmap_test-mark_range (bitmap_set bm page) (page + 1) count q (bitmap_set-IsByte bm page h),
  length-bitmap_set bm page,
  bitmap_test-set bm page q h,
)

pub length-set_range :
    (refs : List ℕ) (page count : ℕ) → length (set_range refs page count) ≡ length refs
unfolding set_range
length-set_range refs page zero = refl
length-set_range refs page (suc count) =
    omega (arith, length-set_range (set refs page 1) (page + 1) count, length-set refs page 1)

pub get_or-set_range :
    (refs : List ℕ) (page count q : ℕ)
    → page + count ≤ length refs
    → get_or (set_range refs page count) q 0
      ≡ (if leb page q && ltb q (page + count) then 1 else get_or refs q 0)
unfolding set_range
get_or-set_range refs page zero q room = ground arith
get_or-set_range refs page (suc count) q room = ground (
  arith,
  get_or-set_range (set refs page 1) (page + 1) count q,
  length-set refs page 1,
  get_or-set refs page q 1 0,
)

-- Marking a free run takes its length from the count of free pages.
pub free_count-mark_range :
    (bm : List ℕ) (page count n : ℕ)
    → All IsByte bm
    → page + count ≤ n
    → n ≤ 8 * length bm
    → IsFreeRun bm page count
    → free_count (mark_range bm page count) n + count ≡ free_count bm n
unfolding mark_range
free_count-mark_range bm page zero n h fits room free = omega arith
free_count-mark_range bm page (suc count) n h fits room free = omega (
  arith,
  free_count-mark_range (bitmap_set bm page) (page + 1) count n (bitmap_set-IsByte bm page h)
      (omega arith) (omega (arith, length-bitmap_set bm page)) (free_rest),
  free_count-set bm page n h (omega arith) (omega arith) first,
)
  where
    first : bitmap_test bm page ≡ false
    first = let e : page + 0 ≡ page = omega arith in rw e at (free 0 (omega arith))

    free_rest : IsFreeRun (bitmap_set bm page) (page + 1) count
    free_rest i lt =
        let e : page + suc i ≡ page + 1 + i = omega arith in
        ground (arith, free (suc i) (omega arith), bitmap_test-set bm page (page + 1 + i) h)
