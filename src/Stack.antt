-- ===== src/Stack.antt =====
-- src/mm/stack.c: kernel stacks, each behind a guard page that is never mapped. `next_base` is the
-- static variable `next_stack_base`; `memory` is the state behind the page services.
pub mod Invariant
mod Growth
mod Unmapping
pub mod Lifetime
mod Tests
use cone_os.Prelude.{
  ℕ, zero, suc, ◌+◌, ◌*◌, Bool, true, false, not, ◌&&◌, Option, none, some, ltb, leb, ◌==◌,
  if◌then◌else◌, add64, mul64, page_size,
}
use cone_os.Pager.{Pager, map_pages, free_if}

pub record KernelStack : Type 0 where
  pub guard_base : ℕ
  pub bottom : ℕ
  pub top : ℕ
  pub page_count : ℕ

pub record Stacks (S : Type 0) : Type 0 where
  pub next_base : ℕ
  pub memory : S

-- STACK_REGION_BASE
abbrev pub stack_region_base : ℕ
stack_region_base = 0xFFFFE00000000000

abbrev pub no_stack : KernelStack
no_stack = record { guard_base = 0; bottom = 0; top = 0; page_count = 0 }

-- address >= guard_base && address < guard_base + PMM_PAGE_SIZE; `stack` is not null.
unfoldable pub contains_guard : KernelStack → ℕ → Bool
contains_guard stack address =
    not (stack.page_count == 0)
    && leb stack.guard_base address
    && ltb address (add64 stack.guard_base page_size)

abbrev pub stack_at : ℕ → ℕ → KernelStack
stack_at guard_base page_count = record {
  guard_base = guard_base;
  bottom = add64 guard_base page_size;
  top = add64 (add64 guard_base page_size) (mul64 page_count page_size);
  page_count = page_count;
}

module _ {S : Type 0} (pager : Pager S) where
  -- kernel_stack_alloc. Its `stack` is not null; `none` is the return of 0.
  unfoldable pub stack_alloc : ℕ → Stacks S → Option KernelStack × Stacks S
  stack_alloc page_count s =
      if page_count == 0
      then (none, s)
      else let stack = stack_at s.next_base page_count in
        let (ok, t) = map_pages pager stack.bottom 0 page_count s.memory in
        if ok
        then (some stack, record { next_base = stack.top; memory = t })
        else (none, record s { memory = t })

  -- The loop of kernel_stack_free: `page` pages are done and `left` are to come.
  unfoldable pub unmap_pages : ℕ → ℕ → ℕ → S → S
  unmap_pages bottom page zero s = s
  unmap_pages bottom page (suc left) s =
      let (physical, t) = pager.unmap_page s (bottom + page * page_size) in
      unmap_pages bottom (suc page) left (free_if pager physical t)

  -- kernel_stack_free: the caller's structure and the state after it.
  unfoldable pub stack_free : KernelStack → Stacks S → KernelStack × Stacks S
  stack_free stack s =
      if stack.page_count == 0
      then (stack, s)
      else (no_stack, record s { memory = unmap_pages stack.bottom 0 stack.page_count s.memory })
