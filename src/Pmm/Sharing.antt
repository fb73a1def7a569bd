-- ===== src/Pmm/Sharing.antt =====
-- pmm_retain_page and pmm_free_page: the references to a page.
use cone_os.Prelude.{
  Bool, ℕ, ◌+◌, ◌-◌, ◌/◌, ◌%◌, ◌^◌, ◌≤◌, ◌<◌, ◌≡◌, ◌≢◌, true, false, ◌⊎◌, inl, inr, none, some,
  arith, ltb, ◌==◌, get_or, set, All-get_or, Bool-cases, page_size,
}
use cone_os.Pmm.Bitmap.{bitmap_test}
use cone_os.Pmm.{
  Pmm, is_page_address, in_metadata, metadata_end, release_page, free_page, retain_page,
  max_references,
}
use cone_os.Pmm.Invariant.{
  IsValid, Freeable-of_address, release_page-IsValid, count_page-IsValid, FitsReference,
}
use cone_os.Pmm.Steps.{status, Differs, release_page-Differs, count_page-Differs}

abbrev pub references_at : Pmm → ℕ → ℕ
references_at s address = get_or s.page_references (address / page_size) 0

abbrev pub recount : Pmm → ℕ → ℕ → Pmm
recount s address n = record s { page_references = set s.page_references (address / page_size) n }

module _ (s : Pmm) (address : ℕ) where
  -- The address is before the tables of the allocator or behind them.
  abbrev pub OutsideTables : Type 0
  OutsideTables = (address < s.bitmap_physical) ⊎ (metadata_end s ≤ address)

  in_metadata-OutsideTables : in_metadata s address ≡ false → OutsideTables
  unfolding in_metadata
  in_metadata-OutsideTables outside = ground (arith, outside)

  is_page_address-aligned : is_page_address s address ≡ true → address % page_size ≡ 0
  unfolding is_page_address
  is_page_address-aligned good = ground (arith, good)

  -- Why pmm_free_page refuses an address.
  abbrev pub Unfreeable : Type 0
  Unfreeable =
      (is_page_address s address ≡ false)
      ⊎ (in_metadata s address ≡ true)
      ⊎ (status s (address / page_size) ≡ none)

  pub free_page-eq :
      (Unfreeable × (free_page s address ≡ (false, s)))
      ⊎ ((is_page_address s address ≡ true)
          × (in_metadata s address ≡ false)
          × (bitmap_test s.bitmap (address / page_size) ≡ true)
          × (((1 < references_at s address)
                × (free_page s address ≡ (true, recount s address (references_at s address - 1))))
              ⊎ ((references_at s address ≤ 1)
                  × (free_page s address ≡ (true, release_page s (address / page_size))))))
  unfolding free_page
  free_page-eq = elim (Bool-cases (is_page_address s address)) [
    | inr bad ↦ inl (inl bad, rw bad)
    | inl good ↦ elim (Bool-cases (in_metadata s address)) [
      | inl inside ↦ inl (inr (inl inside), rw (good, inside))
      | inr outside ↦ elim (Bool-cases (bitmap_test s.bitmap (address / page_size))) [
        | inr off ↦ inl (inr (inr (rw off)), rw (good, outside, off))
        | inl on ↦ elim (Bool-cases (ltb 1 (references_at s address))) [
          | inl shared ↦ inr (good, outside, on, inl (ground arith, rw (good, outside, on, shared)))
          | inr last ↦ inr (good, outside, on, inr (ground arith, rw (good, outside, on, last)))
        ]
      ]
    ]
  ]

  -- Why pmm_retain_page refuses an address.
  abbrev pub Unretainable : Type 0
  Unretainable =
      (is_page_address s address ≡ false)
      ⊎ (status s (address / page_size) ≡ none)
      ⊎ (references_at s address ≡ 0)
      ⊎ (references_at s address ≡ max_references)

  pub retain_page-eq :
      (Unretainable × (retain_page s address ≡ (false, s)))
      ⊎ ((is_page_address s address ≡ true)
          × (bitmap_test s.bitmap (address / page_size) ≡ true)
          × (0 < references_at s address)
          × (references_at s address ≢ max_references)
          × (retain_page s address ≡ (true, recount s address (references_at s address + 1))))
  unfolding retain_page
  retain_page-eq = elim (Bool-cases (is_page_address s address)) [
    | inr bad ↦ inl (inl bad, rw bad)
    | inl good ↦ elim (Bool-cases (bitmap_test s.bitmap (address / page_size))) [
      | inr off ↦ inl (inr (inl (rw off)), rw (good, off))
      | inl on ↦ elim (Bool-cases (references_at s address == 0)) [
        | inl unowned ↦ inl (inr (inr (inl (ground arith))), rw (good, on, unowned))
        | inr owned ↦ elim (Bool-cases (references_at s address == max_references)) [
          | inl full ↦ inl (inr (inr (inr (ground arith))), rw (good, on, owned, full))
          | inr room ↦ inr (good, on, ground arith, ground arith, rw (good, on, owned, room))
        ]
      ]
    ]
  ]

-- What pmm_free_page did, with its result.
abbrev pub FreeOutcome : Pmm → ℕ → Bool × Pmm → Type 0
FreeOutcome s address (ok, t) =
    (Unfreeable s address × (ok ≡ false) × (t ≡ s))
    ⊎ ((n : ℕ) × (ok ≡ true)
        × (is_page_address s address ≡ true)
        × (address % page_size ≡ 0)
        × OutsideTables s address
        × (status s (address / page_size) ≡ some n)
        × (((1 < n)
              × Differs s t (address / page_size) (some (n - 1))
              × (t.free_pages ≡ s.free_pages))
            ⊎ ((n ≤ 1)
                × Differs s t (address / page_size) none
                × (t.free_pages ≡ s.free_pages + 1))))

-- What pmm_retain_page did, with its result.
abbrev pub RetainOutcome : Pmm → ℕ → Bool × Pmm → Type 0
RetainOutcome s address (ok, t) =
    (Unretainable s address × (ok ≡ false) × (t ≡ s))
    ⊎ ((n : ℕ) × (ok ≡ true)
        × (status s (address / page_size) ≡ some n)
        × (0 < n)
        × (n < max_references)
        × Differs s t (address / page_size) (some (n + 1))
        × (t.free_pages ≡ s.free_pages))

module _ {s : Pmm} (address : ℕ) (v : IsValid s) (small : address + page_size < 2 ^ 64) where
  -- pmm_free_page refuses what is no usable page address, the allocator's own tables, and a page
  -- that is free already: then nothing changes. Otherwise a page with several references loses one,
  -- and a page with at most one becomes free; no other page changes. The last page of the 64-bit
  -- space is left out.
  pub free_page_lem : FreeOutcome s address (free_page s address)
  free_page_lem = elim (free_page-eq s address) [
    | inl (why, e) ↦ inl (why, rw e, rw e)
    | inr (good, outside, on, inl (shared, e)) ↦ inr (
      references_at s address,
      rw e,
      good,
      is_page_address-aligned s address good,
      in_metadata-OutsideTables s address outside,
      rw on,
      inl (
        shared,
        rw e (count_page-Differs (address / page_size) v (v.covered address small good) _ on),
        rw e,
      ),
    )
    | inr (good, outside, on, inr (last, e)) ↦ inr (
      references_at s address,
      rw e,
      good,
      is_page_address-aligned s address good,
      in_metadata-OutsideTables s address outside,
      rw on,
      inr (
        last,
        rw e (release_page-Differs (address / page_size) v (v.covered address small good)),
        rw e,
      ),
    )
  ]

  pub free_page-IsValid : IsValid (free_page s address).1
  free_page-IsValid = elim (free_page-eq s address) [
    | inl (why, e) ↦ rw e v
    | inr (good, outside, on, inl (shared, e)) ↦
        rw e (count_page-IsValid (address / page_size) v (v.covered address small good) _ fits on)
    | inr (good, outside, on, inr (last, e)) ↦ rw e (
        release_page-IsValid (address / page_size) v (v.covered address small good) on
          (Freeable-of_address s address good outside))
  ]
    where
      fits : references_at s address - 1 ≤ max_references
      fits = omega (
        arith,
        All-get_or FitsReference s.page_references (address / page_size) 0 v.references_fit
            (omega arith),
      )

  -- pmm_retain_page adds one reference to a page that has between 1 and 65534, so that the count
  -- stays within `uint16_t`; any other page is refused, and then nothing changes. The last page of
  -- the 64-bit space is left out.
  pub retain_page_lem : RetainOutcome s address (retain_page s address)
  retain_page_lem = elim (retain_page-eq s address) [
    | inl (why, e) ↦ inl (why, rw e, rw e)
    | inr (good, on, owned, room, e) ↦ inr (
      references_at s address,
      rw e,
      rw on,
      owned,
      omega (arith, fits),
      rw e (count_page-Differs (address / page_size) v (v.covered address small good) _ on),
      rw e,
    )
  ]
    where
      fits : references_at s address ≤ max_references
      fits =
          All-get_or FitsReference s.page_references (address / page_size) 0 v.references_fit
            (omega arith)

  pub retain_page-IsValid : IsValid (retain_page s address).1
  retain_page-IsValid = elim (retain_page-eq s address) [
    | inl (why, e) ↦ rw e v
    | inr (good, on, owned, room, e) ↦ rw e (
        count_page-IsValid (address / page_size) v (v.covered address small good) _
          (omega (arith, fits, room)) on)
  ]
    where
      fits : references_at s address ≤ max_references
      fits =
          All-get_or FitsReference s.page_references (address / page_size) 0 v.references_fit
            (omega arith)
