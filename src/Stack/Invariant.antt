-- ===== src/Stack/Invariant.antt =====
-- When the stacks of src/mm/stack.c that are in use are in order.
use cone_os.Prelude.{
  ℕ, ◌+◌, ◌*◌, ◌<◌, ◌≤◌, ◌≡◌, ◌≢◌, ◌⊎◌, inl, inr, Option, none, List, page_size, All, Pairwise,
}
use cone_os.Stack.{KernelStack, Stacks, stack_region_base}

-- The guard page, the pages of the stack, and nothing more, below the address of the next stack.
pub record IsLaidOut (limit : ℕ) (k : KernelStack) : Type 0 where
  pub in_region : stack_region_base ≤ k.guard_base
  pub has_pages : 0 < k.page_count
  pub above_guard : k.bottom ≡ k.guard_base + page_size
  pub ends : k.top ≡ k.bottom + k.page_count * page_size
  pub below : k.top ≤ limit

-- Each page of the stack is mapped and its guard page is not.
pub record IsMapped (mapping : ℕ → Option ℕ) (k : KernelStack) : Type 0 where
  pub guarded : mapping k.guard_base ≡ none
  pub backed : (i : ℕ) → i < k.page_count → mapping (k.bottom + i * page_size) ≢ none

-- The two stacks share no page, guard pages included.
abbrev pub Apart : KernelStack → KernelStack → Type 0
Apart k l = (k.top ≤ l.guard_base) ⊎ (l.top ≤ k.guard_base)

pub Apart-sym : (k l : KernelStack) → Apart k l → Apart l k
Apart-sym k l (inl h) = inr h
Apart-sym k l (inr h) = inl h

pub record IsValid {S : Type 0} (mapping : S → ℕ → Option ℕ) (stacks : List KernelStack)
    (s : Stacks S) : Type 0 where
  pub region : stack_region_base ≤ s.next_base
  pub fresh : (v : ℕ) → s.next_base ≤ v → mapping s.memory v ≡ none
  pub laid_out : All (IsLaidOut s.next_base) stacks
  pub mapped : All (IsMapped (mapping s.memory)) stacks
  pub apart : Pairwise Apart stacks
