-- ===== src/Stack/Tests.antt =====
-- Stacks on the supply of pages of Pager/Sample.
use cone_os.Prelude.{
  ℕ, ◌+◌, ◌*◌, ◌<◌, ◌≡◌, refl, ◌⊎◌, none, some, [], ◌∷◌, arith, page_size, ◌==◌, if◌then◌else◌,
}
use cone_os.Pager.Sample.{Supply, supply, mapping, supply-PagerLaws}
use cone_os.Stack.{KernelStack, Stacks, stack_region_base, no_stack, stack_alloc, stack_free}
use cone_os.Stack.Invariant.{IsLaidOut, IsValid}
use cone_os.Stack.Lifetime.{stack_alloc_lem, stack_free_lem}

abbrev start : Stacks Supply
start = record {
  next_base = stack_region_base;
  memory = record { next_page = 1; limit = 9; maps = λ v. none };
}

start-IsValid : IsValid mapping [] start
start-IsValid = record {
  region = omega arith;
  fresh = λ v le. refl;
  laid_out = tt;
  mapped = tt;
  apart = tt;
}

stack_alloc_lem_example :
    let (r, t) = stack_alloc supply 2 start in
    ((r ≡ none) × IsValid mapping [] t × ((v : ℕ) → mapping t.memory v ≡ mapping start.memory v))
    ⊎ ((k : KernelStack) × (r ≡ some k) × (0 < 2) × (k.page_count ≡ 2) × IsValid mapping (k ∷ []) t)
stack_alloc_lem_example = stack_alloc_lem [] 2 start supply-PagerLaws start-IsValid (omega arith)

abbrev one : KernelStack
one = record {
  guard_base = stack_region_base;
  bottom = stack_region_base + 4096;
  top = stack_region_base + 8192;
  page_count = 1;
}

abbrev in_use : Stacks Supply
in_use = record {
  next_base = stack_region_base + 8192;
  memory = record {
    next_page = 1;
    limit = 9;
    maps = λ v. if v == stack_region_base + 4096 then some 0 else none;
  };
}

one-IsLaidOut : IsLaidOut (stack_region_base + 8192) one
one-IsLaidOut = record {
  in_region = omega arith;
  has_pages = omega arith;
  above_guard = refl;
  ends = refl;
  below = omega arith;
}

in_use-IsValid : IsValid mapping (one ∷ []) in_use
in_use-IsValid = record {
  region = omega arith;
  fresh = λ v le. ground arith;
  laid_out = (one-IsLaidOut, tt);
  mapped = (record { guarded = refl; backed = λ i lt. ground arith }, tt);
  apart = (tt, tt);
}

stack_free_lem_example :
    let (cleared, t) = stack_free supply one in_use in
    (cleared ≡ no_stack)
    × IsValid mapping [] t
    × ((i : ℕ) → i < 1 → mapping t.memory (stack_region_base + 4096 + i * page_size) ≡ none)
stack_free_lem_example = stack_free_lem [] [] one in_use supply-PagerLaws in_use-IsValid

abbrev two : KernelStack
two = record {
  guard_base = stack_region_base + 8192;
  bottom = stack_region_base + 12288;
  top = stack_region_base + 16384;
  page_count = 1;
}
