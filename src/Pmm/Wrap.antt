-- ===== src/Pmm/Wrap.antt =====
-- The last page of the 64-bit space, in the test of src/mm/pmm.c against the memory map.
use cone_os.Prelude.{
  ◌^◌, ◌≤◌, ◌-◌, ◌≡◌, true, List, [], ◌∷◌, arith, page_size, ◌⊎◌, inl, inr, Bool-cases,
}
use cone_os.Pmm.{MemmapEntry, page_is_usable, entry_covers}

-- A usable entry.
abbrev pub HasUsable : List MemmapEntry → Type 0
HasUsable [] = ⊥
HasUsable (e ∷ rest) = ((e.usable ≡ true) × (e.base ≤ 2 ^ 64 - page_size)) ⊎ HasUsable rest

-- page_is_usable accepts the last page of the 64-bit space under any memory map with a usable entry,
-- wherever the entry ends: `physical_address + PMM_PAGE_SIZE` wraps to 0.
pub page_is_usable_wraps :
    (es : List MemmapEntry) → HasUsable es → page_is_usable es (2 ^ 64 - page_size) ≡ true
unfolding page_is_usable
page_is_usable_wraps [] h = absurd h
page_is_usable_wraps (e ∷ rest) (inl (on, low)) = ground arith
page_is_usable_wraps (e ∷ rest) (inr h) =
    ground (arith, page_is_usable_wraps rest h, Bool-cases (entry_covers e (2 ^ 64 - page_size)))
