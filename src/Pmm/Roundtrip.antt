-- ===== src/Pmm/Roundtrip.antt =====
-- Operations of src/mm/pmm.c in sequence: any sequence, and pairs that undo one another.
use cone_os.Prelude.{
  ℕ, ◌+◌, ◌*◌, ◌/◌, ◌^◌, ◌≤◌, ◌<◌, ◌≡◌, Bool, true, false, inl, inr, Option, none, some, List, [],
  ◌∷◌, arith, get_or-set, set-set, set-get_or, sym, ap, ◌∙◌, All, page_size, ℕ_discrete,
}
use cone_os.Pmm.Bitmap.{bitmap_test, bitmap_test-clear}
use cone_os.Pmm.{
  Pmm, is_page_address, in_metadata, take_page, release_page, alloc_page_with_reserve,
  alloc_contiguous, free_page, retain_page,
}
use cone_os.Pmm.Invariant.{IsValid, Freeable}
use cone_os.Pmm.Steps.{
  status, Differs, alloc_page_with_reserve-IsValid, alloc_contiguous-IsValid,
  alloc_page_with_reserve_lem, alloc_page_with_reserve-eq,
}
use cone_os.Pmm.Sharing.{
  free_page-eq, retain_page-eq, free_page_lem, free_page-IsValid, retain_page-IsValid,
  references_at,
}

-- The operations that change the state, as a client calls them.
pub data Op : Type 0 where
  alloc : ℕ → Op
  alloc_run : ℕ → Op
  free : ℕ → Op
  retain : ℕ → Op

unfoldable pub run : Pmm → List Op → Pmm
run s [] = s
run s (alloc reserve ∷ ops) = run (alloc_page_with_reserve s reserve).1 ops
run s (alloc_run count ∷ ops) = run (alloc_contiguous s count).1 ops
run s (free address ∷ ops) = run (free_page s address).1 ops
run s (retain address ∷ ops) = run (retain_page s address).1 ops

-- A physical address that a caller passes leaves room for a page above it.
abbrev pub InRange : Op → Type 0
InRange (alloc reserve) = Unit {0}
InRange (alloc_run count) = Unit {0}
InRange (free address) = address + page_size < 2 ^ 64
InRange (retain address) = address + page_size < 2 ^ 64

-- No sequence of operations breaks the invariant, as long as no address is the last page of the
-- 64-bit space: `free_pages` stays the number of clear bits, free pages have no references, no
-- reference count overflows, and no free page is outside the usable memory or in the allocator's own
-- tables.
pub run-IsValid : (ops : List Op) {s : Pmm} → All InRange ops → IsValid s → IsValid (run s ops)
unfolding run
run-IsValid [] small v = v
run-IsValid (alloc reserve ∷ ops) small v =
    run-IsValid ops small.1 (alloc_page_with_reserve-IsValid reserve v)
run-IsValid (alloc_run count ∷ ops) small v =
    run-IsValid ops small.1 (alloc_contiguous-IsValid count v)
run-IsValid (free address ∷ ops) small v =
    run-IsValid ops small.1 (free_page-IsValid address v small.0)
run-IsValid (retain address ∷ ops) small v =
    run-IsValid ops small.1 (retain_page-IsValid address v small.0)

free_page_clear :
    (t : Pmm) (address : ℕ)
    → bitmap_test t.bitmap (address / page_size) ≡ false
    → free_page t address ≡ (false, t)
free_page_clear t address off = elim (free_page-eq t address) [
  | inl (why, e) ↦ e
  | inr (good, outside, on, next) ↦ absurd (ground arith)
]

pair_true : {s t : Pmm} → ◌≡◌ {A = Bool × Pmm} (true, s) (true, t) → s ≡ t
pair_true e = ap (λ (p : Bool × Pmm). p.1) e

-- A second pmm_free_page of a page that had its last reference is refused.
pub free_page_twice :
    {s t : Pmm} (address : ℕ)
    → IsValid s
    → address + page_size < 2 ^ 64
    → references_at s address ≤ 1
    → free_page s address ≡ (true, t)
    → free_page t address ≡ (false, t)
free_page_twice {s} {t} address v small last e = elim (free_page-eq s address) [
  | inl (why, e') ↦ absurd (cc)
  | inr (good, outside, on, inl (shared, e')) ↦ absurd (omega arith)
  | inr (good, outside, on, inr (l, e')) ↦ rw (← pair_true (sym e' ∙ e)) (
      free_page_clear (release_page s (address / page_size)) address
        (released (v.covered address small good)))
]
  where
    released :
        address / page_size < s.page_count
        → bitmap_test (release_page s (address / page_size)).bitmap (address / page_size) ≡ false
    released lt = ground (
      arith,
      bitmap_test-clear s.bitmap (address / page_size) (address / page_size) v.bytes,
      v.bitmap_room,
    )

-- A reference that is taken and given back leaves the allocator exactly as it was.
pub free_page-retain_page :
    {s t : Pmm} (address : ℕ)
    → IsValid s
    → address + page_size < 2 ^ 64
    → in_metadata s address ≡ false
    → retain_page s address ≡ (true, t)
    → free_page t address ≡ (true, s)
unfolding free_page is_page_address in_metadata
free_page-retain_page {s} {t} address v small outside e = elim (retain_page-eq s address) [
  | inl (why, e') ↦ absurd (cc)
  | inr (good, on, owned, room, e') ↦ rw (← pair_true (sym e' ∙ e)) (
      ground (
        arith,
        good,
        get_or-set s.page_references (address / page_size) (address / page_size)
            (references_at s address + 1) 0,
        v.covered address small good,
        v.references_room,
        set-set s.page_references (address / page_size) (references_at s address + 1)
            (references_at s address),
        set-get_or s.page_references (address / page_size) 0,
      ))
]

-- The checks of pmm_free_page do not depend on what an allocation changes.
Freeable-alloc_page :
    {s t : Pmm} (reserve page : ℕ) {r : Option ℕ}
    → alloc_page_with_reserve s reserve ≡ (r, t)
    → IsValid s
    → Freeable s page
    → Freeable t page
unfolding is_page_address in_metadata
Freeable-alloc_page {s} {t} reserve page e v give = elim (alloc_page_with_reserve-eq reserve v) [
  | inl (few, e') ↦
      let same : s ≡ t = ap (λ (p : Option ℕ × Pmm). p.1) (sym e' ∙ e) in rw (← same) give
  | inr (p, enough, found, e') ↦
      let same : take_page s p ≡ t = ap (λ (p : Option ℕ × Pmm). p.1) (sym e' ∙ e) in
      rw (← same) give
]

freed_status :
    (s t u : Pmm) (page : ℕ)
    → status s page ≡ none
    → Differs s t page (some 1)
    → Differs t u page none
    → (q : ℕ) → status u q ≡ status s q
freed_status s t u page off d d' q = elim (ℕ_discrete q page) [
  | yes same ↦ rw same (d'.0 ∙ sym off)
  | no other ↦ d'.1 q other ∙ d.1 q other
]

free_page_once :
    {t : Pmm} (page address : ℕ)
    → IsValid t
    → address / page_size ≡ page
    → address + page_size < 2 ^ 64
    → (is_page_address t address ≡ true) × (in_metadata t address ≡ false)
    → status t page ≡ some 1
    → let (ok, u) = free_page t address in
      (ok ≡ true) × Differs t u page none × (u.free_pages ≡ t.free_pages + 1)
free_page_once {t} page address v at small give one =
    elim (rw at at (free_page_lem address v small)) [
      | inl (inl bad, _, _) ↦ absurd (ground (arith, give.0))
      | inl (inr (inl inside), _, _) ↦ absurd (ground (arith, give.1))
      | inl (inr (inr off), _, _) ↦ absurd (cc)
      | inr (n, ok, _, _, _, n_is, inl (shared, _, _)) ↦ absurd (ground arith)
      | inr (n, ok, _, _, _, n_is, inr (last, d, count)) ↦ (ok, d, count)
    ]

-- An allocated page can be given back, and then every page has the status that it had, with as many
-- pages free.
pub free_page-alloc_page :
    {s t : Pmm} (reserve : ℕ) {address : ℕ}
    → IsValid s
    → alloc_page_with_reserve s reserve ≡ (some address, t)
    → let (ok, u) = free_page t address in
      (ok ≡ true) × ((q : ℕ) → status u q ≡ status s q) × (u.free_pages ≡ s.free_pages)
free_page-alloc_page {s} {t} reserve {address} v e = elim (alloc_page_with_reserve_lem reserve v) [
  | inl (few, no_page, _) ↦ absurd (ground (arith, e))
  | inr (page, enough, is_page, lt, off, d, count) ↦
      let at : address ≡ page * page_size = ground (arith, e) in
      let to_t : (alloc_page_with_reserve s reserve).1 ≡ t = rw e in
      let d' : Differs s t page (some 1) = rw to_t at d in
      let count' : t.free_pages + 1 ≡ s.free_pages = rw to_t at count in
      let v' : IsValid t = rw to_t at (alloc_page_with_reserve-IsValid reserve v) in
      let give : Freeable t page =
        Freeable-alloc_page reserve page e v (v.freeable page lt (ground arith)) in
      let (ok, gone, more) =
        free_page_once page address v' (omega arith) (omega (arith, v.addressable)) (rw at give)
          d'.0 in
      (ok, freed_status s t (free_page t address).1 page off d' gone, omega arith)
]
