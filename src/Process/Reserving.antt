-- ===== src/Process/Reserving.antt =====
-- When the memory of a process is in order, and what process_mmap of src/kernel/process.c does to it.
use cone_os.Process.{Process, CallResult, stuck, einval, enomem, value, memory_limit_pages}
use cone_os.Process.Regions.{
  Region, Search, out_of_fuel, nowhere, found, find_free_mapping_slot, rounded_mapping_length,
  select_mapping_address, region_pages, mmap_start, mmap_limit,
}
use cone_os.Process.Regions.Account.{bytes-set, region_pages-bytes}
use cone_os.Process.Regions.Choosing.{IsFree, Misses, Chosen, select_mapping_address_lem}
use cone_os.Process.Regions.Room.{IsRoom, IsFree-IsRoom, IsRoom-IsFree}
use cone_os.Process.Regions.Coverage.{
  view, view-set, IsRegion, IsTable, Apart, Pairwise-set, find_free_mapping_slot_lem,
}
use cone_os.Process.Mappings.{mmap, mmap_refuses, add_region}
use cone_os.Prelude.{
  ℕ, ◌+◌, ◌-◌, ◌*◌, ◌/◌, ◌%◌, ◌<◌, ◌≤◌, ◌≡◌, ◌⊎◌, refl, Bool, true, false, ◌&&◌, ◌||◌, ◌==◌, ◌^◌,
  ltb, leb, Bool-cases, Option-cases, inl, inr, none, some, List, [], ◌∷◌, All, All-set, set,
  length, if◌then◌else◌, arith, page_size,
}

-- The regions are in order, and with the `fixed` pages of the image and the heap they make up the
-- committed pages, which are within the limit.
pub record IsSound (fixed : ℕ) (p : Process) : Type 0 where
  pub table : IsTable p.mappings
  pub account : p.committed_pages ≡ fixed + region_pages p.mappings
  pub limited : p.committed_pages ≤ memory_limit_pages

pub rounded_lem :
    (length rounded : ℕ)
    → rounded_mapping_length length ≡ some rounded
    → (length ≤ rounded) × ((rounded < length + 4096) × ((rounded % 4096 ≡ 0) × (0 < rounded)))
unfolding rounded_mapping_length
rounded_lem length rounded e = ground (arith, e)

rounded_none :
    (length : ℕ)
    → rounded_mapping_length length ≡ none
    → {A : Type 0} → (length ≡ 0) ⊎ ((2 ^ 64 - 4096 < length) ⊎ A)
unfolding rounded_mapping_length
rounded_none length e {A} = elim (Bool-cases (length == 0)) [
  | inl z ↦ inl (ground (arith, z))
  | inr z ↦ inr (inl (ground (arith, z, e)))
]

-- A new region at a free place.
Misses-Apart :
    (a length protection : ℕ) (rs : List Region)
    → All (Misses a (a + length)) rs
    → All (Apart (record { start = a; end = a + length; protection = protection; used = true })) rs
Misses-Apart a length protection [] m = tt
Misses-Apart a length protection (r ∷ rs) m =
    (ground (arith, m.0), Misses-Apart a length protection rs m.1)

-- What a call of process_mmap owes.
abbrev pub Reserves : (ℕ → Bool) → ℕ → ℕ → ℕ → ℕ → ℕ → Process → CallResult × Process → Type 0
Reserves mapped fixed hint length protection flags p (stuck, p') = ⊥
Reserves mapped fixed hint length protection flags p (einval, p') =
    (p' ≡ p)
    × ((length ≡ 0) ⊎ ((2 ^ 64 - 4096 < length) ⊎ (mmap_refuses hint protection flags ≡ true)))
Reserves mapped fixed hint length protection flags p (enomem, p') =
    (p' ≡ p)
    × ((find_free_mapping_slot p.mappings ≡ none)
        ⊎ ((rounded : ℕ) × ((rounded_mapping_length length ≡ some rounded)
              × ((memory_limit_pages * 4096 < p.committed_pages * 4096 + rounded)
                  ⊎ ((a : ℕ) → mmap_start ≤ a → ¬ IsRoom mapped p.mappings rounded a)))))
Reserves mapped fixed hint length protection flags p (value a, p') =
    (rounded : ℕ) × ((rounded_mapping_length length ≡ some rounded)
      × (((mmap_start ≤ a) × IsRoom mapped p.mappings rounded a)
          × (IsSound fixed p'
              × ((x : ℕ)
                  → view p'.mappings x ≡ (
                      if leb a x && ltb x (a + rounded)
                      then some protection
                      else view p.mappings x)))))

add_region_lem :
    (fixed slot a length protection : ℕ) (mapped : ℕ → Bool) (p : Process)
    → IsSound fixed p
    → find_free_mapping_slot p.mappings ≡ some slot
    → (length % 4096 ≡ 0) × (0 < length)
    → p.committed_pages + length / 4096 ≤ memory_limit_pages
    → (mmap_start ≤ a) × IsFree mapped p.mappings length a
    → let p' = add_region slot a length protection p in
      IsSound fixed p'
      × ((x : ℕ)
          → view p'.mappings x
            ≡ (if leb a x && ltb x (a + length) then some protection else view p.mappings x))
add_region_lem fixed slot a length protection mapped p s e whole fits
      (low, (high, (aligned, (misses, m)))) =
    let u : Region = record { start = a; end = a + length; protection = protection; used = true } in
    let (room, free) = find_free_mapping_slot_lem p.mappings slot u e in
    let apart = Misses-Apart a length protection p.mappings misses in
    let good : IsRegion u =
      λ t. (low, (omega (arith, whole), (high, (aligned, omega (arith, aligned, whole))))) in
    let regions = All-set IsRegion p.mappings slot u s.table.0 good in
    (
      record {
        table = (regions, Pairwise-set p.mappings slot u s.table.1 apart);
        account = omega (
          arith,
          s.account,
          fits,
          bytes-set p.mappings slot u room free,
          region_pages-bytes p.mappings s.table.0,
          region_pages-bytes (set p.mappings slot u) regions,
          whole,
        );
        limited = omega (arith, fits);
      },
      λ x. ground (arith, view-set p.mappings slot u x room free apart),
    )

abbrev over_limit : Process → ℕ → Bool
over_limit p length =
    ltb memory_limit_pages p.committed_pages
    || ltb (memory_limit_pages - p.committed_pages) (length / page_size)

module _ (mapped : ℕ → Bool) (fixed hint length protection flags rounded slot : ℕ) (p : Process)
    (s : IsSound fixed p) (e : rounded_mapping_length length ≡ some rounded)
    (c : mmap_refuses hint protection flags ≡ false)
    (f : find_free_mapping_slot p.mappings ≡ some slot) (l : over_limit p rounded ≡ false) where
  mmap-placed :
      (a : Search)
      → select_mapping_address mapped p.mappings hint rounded ≡ a
      → Chosen mapped p.mappings rounded mmap_start a
      → Reserves mapped fixed hint length protection flags p
          (mmap mapped hint length protection flags p)
  unfolding mmap
  mmap-placed out_of_fuel k o = absurd o
  mmap-placed nowhere k o =
      let (_, (_, whole)) = rounded_lem length rounded e in
      let taken : (a : ℕ) → mmap_start ≤ a → ¬ IsRoom mapped p.mappings rounded a =
        λ a low room. o a low (IsRoom-IsFree mapped p.mappings rounded a s.table.0 whole room) in
      rw (e, c, f, l, k, mmap) (refl, inr (rounded, (e, inr taken)))
  mmap-placed (found a) k o =
      let (_, (_, (whole, some_length))) = rounded_lem length rounded e in
      let (sound, seen) =
        add_region_lem fixed slot a rounded protection mapped p s f (whole, some_length)
          (ground (arith, l)) o in
      rw (e, c, f, l, k, mmap)
        (rounded, (e, ((o.0, IsFree-IsRoom mapped p.mappings rounded a whole o.1), (sound, seen))))

pub mmap_lem :
    (mapped : ℕ → Bool) (fixed hint length protection flags : ℕ) (p : Process)
    → IsSound fixed p
    → Reserves mapped fixed hint length protection flags p
        (mmap mapped hint length protection flags p)
unfolding mmap
mmap_lem mapped fixed hint length protection flags p s =
    elim (Option-cases (rounded_mapping_length length)) [
      | inl e ↦ rw (e, mmap) (refl, rounded_none length e)
      | inr (rounded, e) ↦ elim (Bool-cases (mmap_refuses hint protection flags)) [
        | inl c ↦ rw (e, c, mmap) (refl, inr (inr c))
        | inr c ↦ elim (Option-cases (find_free_mapping_slot p.mappings)) [
          | inl f ↦ rw (e, c, f, mmap) (refl, inl f)
          | inr (slot, f) ↦ elim (Bool-cases (over_limit p rounded)) [
            | inl l ↦
                let (_, (_, (whole, _))) = rounded_lem length rounded e in
                rw (e, c, f, l, mmap)
                  (refl, inr (rounded, (e, inl (ground (arith, l, whole, s.limited)))))
            | inr l ↦
                let hinted : hint % 4096 ≡ 0 = ground (arith, c) in
                let ranged : (hint ≡ 0) ⊎ ((mmap_start ≤ hint) × (hint < mmap_limit)) =
                  ground (arith, c) in
                mmap-placed mapped fixed hint length protection flags rounded slot p s e c f l
                  (select_mapping_address mapped p.mappings hint rounded) refl
                  (select_mapping_address_lem mapped p.mappings hint rounded s.table.0 hinted
                    ranged)
          ]
        ]
      ]
    ]
