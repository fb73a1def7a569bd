-- ===== src/Process/Unmapping.antt =====
-- What process_munmap of src/kernel/process.c does to the memory of a process.
use cone_os.Process.{Process, CallResult, stuck, einval, enomem, value}
use cone_os.Process.Regions.{
  Region, find_free_mapping_slot, rounded_mapping_length, covered_from, any_splits, upper_part,
  cut_regions, region_pages, mmap_start, mmap_limit,
}
use cone_os.Process.Regions.Account.{region_pages-bytes}
use cone_os.Process.Regions.Refund.{cut_regions-bytes}
use cone_os.Process.Regions.Walk.{covered_from_lem}
use cone_os.Process.Regions.Cutting.{HasSlot, cut_regions_lem}
use cone_os.Process.Regions.Coverage.{view, find_free_mapping_slot_lem}
use cone_os.Process.Mappings.{munmap, split_slot}
use cone_os.Process.Reserving.{IsSound, rounded_lem}
use cone_os.Prelude.{
  ℕ, ◌+◌, ◌-◌, ◌*◌, ◌/◌, ◌%◌, ◌<◌, ◌≤◌, ◌≡◌, refl, Bool, true, false, not, ◌&&◌, ◌||◌, ◌==◌, ltb,
  leb, ◌⊎◌, Bool-cases, Option-cases, inl, inr, none, some, List, [], ◌∷◌, length, if◌then◌else◌,
  arith, page_size, sym, ap, ◌∙◌,
}

any_splits_upper :
    (low high : ℕ) (rs : List Region)
    → any_splits low high rs ≡ false
    → upper_part low high rs ≡ none
unfolding any_splits upper_part
any_splits_upper low high [] e = refl
any_splits_upper low high (r ∷ rs) e =
    rw (any_splits_upper low high rs (ground (arith, e))) (ground (arith, e))

split_slot-HasSlot :
    (low high slot : ℕ) (rs : List Region) (h : low < high)
    (aligned : (low % 4096 ≡ 0) × (high % 4096 ≡ 0))
    → split_slot low high rs ≡ some slot
    → HasSlot low high h aligned slot rs
unfolding split_slot
split_slot-HasSlot low high slot rs h aligned e u k = elim (Bool-cases (any_splits low high rs)) [
  | inl c ↦ find_free_mapping_slot_lem rs slot u (ground (arith, c, e))
  | inr c ↦ ground (arith, k, any_splits_upper low high rs c)
]

-- A region in use has bytes on both sides of the range.
abbrev pub Straddled : ℕ → ℕ → List Region → Type 0
Straddled low high [] = ⊥
Straddled low high (r ∷ rs) =
    ((r.used ≡ true) × ((r.start < low) × (high < r.end))) ⊎ Straddled low high rs

any_splits-Straddled :
    (low high : ℕ) (rs : List Region) → any_splits low high rs ≡ true → Straddled low high rs
unfolding any_splits
any_splits-Straddled low high [] e = absurd (cc)
any_splits-Straddled low high (r ∷ rs) e = elim (Bool-cases (any_splits low high rs)) [
  | inl c ↦ inr (any_splits-Straddled low high rs c)
  | inr c ↦ inl (ground (arith, c, e))
]

abbrev bad_range : ℕ → ℕ → Bool
bad_range address length =
    not (address % page_size == 0)
    || ltb address mmap_start
    || leb mmap_limit address
    || ltb (mmap_limit - address) length

-- What a call of process_munmap owes; its value is the number of the pages to unmap.
abbrev pub Gives : ℕ → ℕ → ℕ → Process → CallResult × Process → Type 0
Gives fixed address length p (stuck, p') = ⊥
Gives fixed address length p (einval, p') =
    (p' ≡ p)
    × ((rounded : ℕ)
        → rounded_mapping_length length ≡ some rounded
        → address % 4096 ≡ 0
        → mmap_start ≤ address
        → address + rounded ≤ mmap_limit
        → (x : ℕ) × ((address ≤ x) × ((x < address + rounded) × (view p.mappings x ≡ none))))
Gives fixed address length p (enomem, p') =
    (p' ≡ p)
    × ((find_free_mapping_slot p.mappings ≡ none)
        × ((rounded : ℕ) × ((rounded_mapping_length length ≡ some rounded)
              × Straddled address (address + rounded) p.mappings)))
Gives fixed address length p (value n, p') =
    (rounded_mapping_length length ≡ some (n * 4096))
    × (IsSound fixed p'
        × ((p'.committed_pages + n ≡ p.committed_pages)
            × ((x : ℕ)
                → view p'.mappings x ≡ (
                    if leb address x && ltb x (address + n * 4096)
                    then none
                    else view p.mappings x))))

module _ (fixed address length rounded : ℕ) (p : Process) (s : IsSound fixed p)
    (e : rounded_mapping_length length ≡ some rounded) (c : bad_range address rounded ≡ false) where
  munmap-cut :
      (slot : ℕ)
      → covered_from (rounded + 1) p.mappings address (address + rounded) ≡ some true
      → split_slot address (address + rounded) p.mappings ≡ some slot
      → Gives fixed address length p (munmap address length p)
  unfolding munmap
  munmap-cut slot w k =
      let (_, (_, (whole, some_length))) = rounded_lem length rounded e in
      let high = address + rounded in
      let aligned : (address % 4096 ≡ 0) × (high % 4096 ≡ 0) =
        (ground (arith, c), ground (arith, c, whole)) in
      let order : address < high = omega (arith, some_length) in
      let free = split_slot-HasSlot address high slot p.mappings order aligned k in
      let (table, seen) = cut_regions_lem address high order aligned slot p.mappings s.table free in
      let back =
        cut_regions-bytes slot address high (rounded + 1) p.mappings order aligned s.table free w in
      let old_pages = region_pages-bytes p.mappings s.table.0 in
      let new_pages = region_pages-bytes (cut_regions slot address high p.mappings) table.0 in
      let pages : rounded / 4096 * 4096 ≡ rounded = omega (arith, whole) in
      let given : region_pages (cut_regions slot address high p.mappings) + rounded / 4096
          ≡ region_pages p.mappings =
        omega (arith, back, old_pages, new_pages, whole) in
      rw (e, c, w, k, munmap)
        (
          e ∙ ap some (sym pages),
          (
            record {
              table = table;
              account = omega (arith, s.account, s.limited, given);
              limited = omega (arith, s.account, s.limited, given);
            },
            (omega (arith, s.account, s.limited, given), λ x. rw (pages) (seen x)),
          ),
        )

split_slot-none :
    (low high : ℕ) (rs : List Region)
    → split_slot low high rs ≡ none
    → (find_free_mapping_slot rs ≡ none) × Straddled low high rs
unfolding split_slot
split_slot-none low high rs e = elim (Bool-cases (any_splits low high rs)) [
  | inl c ↦ (ground (arith, c, e), any_splits-Straddled low high rs c)
  | inr c ↦ absurd (ground (arith, c, e))
]

-- process_munmap ends. It is refused for a range that is not made of pages of the bounds or has an
-- address no region covers; it is out of memory only if a region has bytes on both sides of the range
-- and no slot is free for the part above it. In both cases it changes nothing. Else just the range is no longer covered, everything outside keeps
-- its protection, and its pages, as many as there are in the range, leave the account.
pub munmap_lem :
    (fixed address length : ℕ) (p : Process)
    → IsSound fixed p
    → Gives fixed address length p (munmap address length p)
unfolding munmap
munmap_lem fixed address size p s = elim (Option-cases (rounded_mapping_length size)) [
  | inl e ↦ rw (e, munmap) (refl, λ r k. ground (arith, e, k))
  | inr (rounded, e) ↦ elim (Bool-cases (bad_range address rounded)) [
    | inl c ↦
        rw (e, c, munmap)
          (
            refl,
            λ r k a b d.
                let same : rounded ≡ r = ground (arith, e, k) in
                absurd (ground (arith, c, a, b, d, same, rounded_lem size rounded e)),
          )
    | inr c ↦
        elim (covered_from_lem (rounded + 1) p.mappings address (address + rounded) s.table
          (omega arith)) [
            | inr (w, (x, (low, (high, miss)))) ↦
                rw (e, c, w, munmap)
                  (
                    refl,
                    λ r k a b d.
                        let same : rounded ≡ r = ground (arith, e, k) in
                        (x, (low, (omega (arith, high, same), miss))),
                  )
            | inl (w, all) ↦
                elim (Option-cases (split_slot address (address + rounded) p.mappings)) [
                  | inl k ↦
                      rw (e, c, w, k, munmap)
                        (
                          refl,
                          let (full, across) =
                                split_slot-none address (address + rounded) p.mappings k in
                              (full, (rounded, (e, across))),
                        )
                  | inr (slot, k) ↦ munmap-cut fixed address size rounded p s e c slot w k
                ]
          ]
  ]
]
