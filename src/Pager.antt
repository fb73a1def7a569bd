-- ===== src/Pager.antt =====
-- The page services that src/mm/kmalloc.c and src/mm/stack.c call, as an interface, and the loop by
-- which both map fresh pages and take them back when one cannot be had.
pub mod AllOrNothing
pub mod Sample
use cone_os.Prelude.{
  ℕ, zero, suc, ◌+◌, ◌*◌, Bool, true, false, Option, none, some, page_size, add64,
}

-- pmm_alloc_page, pmm_free_page, vmm_map_page with the flags for writable data, vmm_unmap_page.
pub record Pager (S : Type 0) : Type 0 where
  pub alloc_page : S → Option ℕ × S
  pub free_page : S → ℕ → Bool × S
  pub map_page : S → ℕ → ℕ → Bool × S
  pub unmap_page : S → ℕ → Option ℕ × S

module _ {S : Type 0} (pager : Pager S) where
  open pager use {alloc_page, free_page, map_page, unmap_page}

  -- if (physical != PMM_INVALID_ADDRESS) pmm_free_page(physical);
  unfoldable pub free_if : Option ℕ → S → S
  free_if none s = s
  free_if (some physical) s = (free_page s physical).1

  -- while (mapped_pages > 0) …, the rollback of the first `mapped` pages from `base`.
  unfoldable pub unwind : ℕ → ℕ → S → S
  unwind base zero s = s
  unwind base (suc mapped) s =
      let (physical, t) = unmap_page s (base + mapped * page_size) in
      unwind base mapped (free_if physical t)

  -- One round: a page is allocated and mapped at `virtual`; a page that cannot be mapped is freed.
  unfoldable pub map_fresh : ℕ → S → Bool × S
  map_fresh virtual s =
      let (physical, t) = alloc_page s in
      elim physical [
        | none ↦ (false, t)
        | some p ↦
            let (ok, u) = map_page t virtual p in
            elim ok [ true ↦ (true, u) | false ↦ (false, (free_page u p).1) ]
      ]

  -- for (page = 0; page < page_count; page++): `mapped` pages are done and `left` are to come.
  unfoldable pub map_pages : ℕ → ℕ → ℕ → S → Bool × S
  map_pages base mapped zero s = (true, s)
  map_pages base mapped (suc left) s =
      let (ok, t) = map_fresh (base + mapped * page_size) s in
      let rest = map_pages base (suc mapped) left t in
      elim ok [ true ↦ rest | false ↦ (false, unwind base mapped t) ]
