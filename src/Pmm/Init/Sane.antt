-- ===== src/Pmm/Init/Sane.antt =====
-- What the boot protocol promises of the memory map, and what src/mm/pmm.c takes from it.
use cone_os.Prelude.{
  ℕ, ◌+◌, ◌*◌, ◌%◌, ◌^◌, ◌≤◌, ◌<◌, ◌≡◌, true, ◌&&◌, inl, inr, some, List, [], ◌∷◌, arith, ltb,
  if◌then◌else◌, add64, page_size, Bool-cases,
}
use cone_os.Pmm.{MemmapEntry, page_is_usable, entry_covers}
use cone_os.Pmm.Init.{highest_address, metadata_region}

-- A usable entry begins at or above `low`, is made of whole pages, and lies below the limit of
-- physical addresses.
abbrev pub IsSaneEntry : ℕ → MemmapEntry → Type 0
IsSaneEntry low e =
    (low ≤ e.base)
    × (e.base % page_size ≡ 0)
    × (e.size % page_size ≡ 0)
    × (e.base + e.size ≤ 2 ^ 52)

abbrev pub after_entry : ℕ → MemmapEntry → ℕ
after_entry low e = if e.usable then e.base + e.size else low

-- The usable entries are sorted and do not overlap.
abbrev pub IsSane : ℕ → List MemmapEntry → Type 0
IsSane low [] = Unit {0}
IsSane low (e ∷ rest) = (e.usable ≡ true → IsSaneEntry low e) × IsSane (after_entry low e) rest

pub highest-le : (low h : ℕ) (es : List MemmapEntry) → h ≤ highest_address es h
unfolding highest_address
highest-le low h [] = omega arith
highest-le low h (e ∷ rest) = ground (
  arith,
  highest-le low (if e.usable && ltb h (add64 e.base e.size) then add64 e.base e.size else h) rest,
)

-- The highest end is a page boundary within the physical address space.
pub highest_bounds :
    (low h : ℕ) (es : List MemmapEntry)
    → IsSane low es
    → h ≤ 2 ^ 52
    → h % page_size ≡ 0
    → (highest_address es h ≤ 2 ^ 52) × (highest_address es h % page_size ≡ 0)
unfolding highest_address
highest_bounds low h [] sane le whole = (le, whole)
highest_bounds low h (e ∷ rest) sane le whole = elim (Bool-cases e.usable) [
  | inl on ↦
      let entry : IsSaneEntry low e = sane.0 on in
      highest_bounds (after_entry low e) _ rest sane.1 (ground arith) (ground arith)
  | inr off ↦ highest_bounds (after_entry low e) _ rest sane.1 (ground arith) (ground arith)
]

-- A page that the map covers ends at or below the highest end.
pub usable-le_highest :
    (low h a : ℕ) (es : List MemmapEntry)
    → IsSane low es
    → a + page_size < 2 ^ 64
    → page_is_usable es a ≡ true
    → a + page_size ≤ highest_address es h
unfolding page_is_usable highest_address
usable-le_highest low h a [] sane small use_it = absurd (ground arith)
usable-le_highest low h a (e ∷ rest) sane small use_it =
    let h' : ℕ = if e.usable && ltb h (add64 e.base e.size) then add64 e.base e.size else h in
    let above : h' ≤ highest_address rest h' = highest-le low h' rest in
    elim (Bool-cases (entry_covers e a)) [
      | inl covers ↦ elim (Bool-cases e.usable) [
        | inl on ↦ let entry : IsSaneEntry low e = sane.0 on in ground arith
        | inr off ↦ absurd (ground arith)
      ]
      | inr other ↦ usable-le_highest (after_entry low e) h' a rest sane.1 small (ground arith)
    ]

-- The region for the tables is made of whole pages of one usable entry.
pub metadata_region_bounds :
    (low h pages : ℕ) (es : List MemmapEntry) {region : ℕ}
    → IsSane low es
    → pages * page_size < 2 ^ 64
    → metadata_region es pages ≡ some region
    → (region % page_size ≡ 0) × (region + pages * page_size ≤ highest_address es h)
unfolding metadata_region highest_address
metadata_region_bounds low h pages [] sane small e = absurd (ground arith)
metadata_region_bounds low h pages (x ∷ rest) {region} sane small found =
    let h' : ℕ = if x.usable && ltb h (add64 x.base x.size) then add64 x.base x.size else h in
    let above : h' ≤ highest_address rest h' = highest-le low h' rest in
    elim (Bool-cases x.usable) [
      | inl on ↦
          let entry : IsSaneEntry low x = sane.0 on in
          ground (
            arith,
            metadata_region_bounds (after_entry low x) h' pages rest {region = region} sane.1 small,
          )
      | inr off ↦ ground (
        arith,
        metadata_region_bounds (after_entry low x) h' pages rest {region = region} sane.1 small,
      )
    ]
