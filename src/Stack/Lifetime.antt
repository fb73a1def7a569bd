-- ===== src/Stack/Lifetime.antt =====
-- The stacks of src/mm/stack.c keep their guard pages and stay apart as they come and go.
use cone_os.Prelude.{
  ℕ, ◌+◌, ◌*◌, ◌^◌, ◌<◌, ◌≤◌, ◌≡◌, refl, ◌∙◌, ◌⊎◌, inl, inr, true, false, Option, none, some, List,
  [], ◌∷◌, ◌++◌, arith, page_size, All, All-remove, Pairwise-remove, ◌==◌, Bool-cases, add64, mul64,
}
use cone_os.Pager.{Pager}
use cone_os.Pager.AllOrNothing.{PagerLaws, map_pages_lem}
use cone_os.Stack.{
  KernelStack, Stacks, no_stack, stack_alloc, stack_free, unmap_pages, contains_guard,
}
use cone_os.Stack.Invariant.{IsLaidOut, IsMapped, Apart, Apart-sym, IsValid}
use cone_os.Stack.Growth.{pushed, IsValid-same, IsValid-push}
use cone_os.Stack.Unmapping.{unmap_pages_outside, unmap_pages_inside}

module _ {S : Type 0} {pager : Pager S} {mapping : S → ℕ → Option ℕ} where
  -- While the region has room for the request, kernel_stack_alloc either returns 0 and leaves every
  -- mapping as it was, or sets up a stack of the pages asked for; in both cases the stacks in use stay
  -- valid: each one mapped in full behind an unmapped guard page and sharing no page with another. A
  -- request for no pages is refused.
  pub stack_alloc_lem :
      (stacks : List KernelStack) (page_count : ℕ) (s : Stacks S)
      → PagerLaws pager mapping
      → IsValid mapping stacks s
      → s.next_base + (page_count + 1) * page_size < 2 ^ 64
      → let (r, t) = stack_alloc pager page_count s in
        ((r ≡ none)
          × IsValid mapping stacks t
          × ((v : ℕ) → mapping t.memory v ≡ mapping s.memory v))
        ⊎ ((k : KernelStack) × (r ≡ some k)
            × (0 < page_count)
            × (k.page_count ≡ page_count)
            × IsValid mapping (k ∷ stacks) t)
  unfolding stack_alloc
  stack_alloc_lem stacks page_count s laws h room = elim (Bool-cases (page_count == 0)) [
    | inl e ↦ rw e (inl (refl, h, λ v. refl))
    | inr e ↦ rw e (
        rw (at_bottom, at_top)
          (elim (map_pages_lem (s.next_base + page_size) page_count s.memory laws
            (λ i lt. h.fresh _ (omega arith))) [
              | inr (failed, same) ↦
                  rw failed (inl (refl, IsValid-same mapping stacks s _ h same, same))
              | inl (done, inside, outside) ↦ rw done (
                  inr (
                    pushed s.next_base page_count,
                    refl,
                    ground arith,
                    refl,
                    IsValid-push mapping stacks s page_count _ h (ground arith) inside outside,
                  ))
            ]))
  ]
    where
      at_bottom : add64 s.next_base page_size ≡ s.next_base + page_size
      at_bottom = ground arith

      at_top :
          add64 (s.next_base + page_size) (mul64 page_count page_size)
          ≡ s.next_base + page_size + page_count * page_size
      at_top = ground arith

  -- kernel_stack_free unmaps each page of a stack in use and clears its structure, and the other
  -- stacks stay valid, wherever the stack stands among them.
  pub stack_free_lem :
      (before after : List KernelStack) (k : KernelStack) (s : Stacks S)
      → PagerLaws pager mapping
      → IsValid mapping (before ++ (k ∷ after)) s
      → let (cleared, t) = stack_free pager k s in
        (cleared ≡ no_stack)
        × IsValid mapping (before ++ after) t
        × ((i : ℕ) → i < k.page_count → mapping t.memory (k.bottom + i * page_size) ≡ none)
  unfolding stack_free
  stack_free_lem before after k s laws h =
      let (laid, others_laid) = All-remove (IsLaidOut s.next_base) before after k h.laid_out in
      let (there, others) = All-remove (IsMapped (mapping s.memory)) before after k h.mapped in
      let (from_k, pairs) = Pairwise-remove Apart Apart-sym before after k h.apart in
      let some_pages : (k.page_count == 0) ≡ false = ground (arith, laid.has_pages) in
      rw some_pages (
        refl,
        record {
          region = h.region;
          fresh = λ v le.
              unmap_pages_outside laws k.bottom 0 k.page_count v s.memory
                (λ i le' lt e. omega (arith, laid.below, laid.ends))
              ∙ h.fresh v le;
          laid_out = others_laid;
          mapped = still_mapped laid (before ++ after) others_laid others from_k;
          apart = pairs;
        },
        λ i lt.
            unmap_pages_inside laws k.bottom 0 k.page_count i s.memory (omega arith) (omega arith),
      )
    where
      still_mapped :
          IsLaidOut s.next_base k
          → (ls : List KernelStack) → All (IsLaidOut s.next_base) ls
          → All (IsMapped (mapping s.memory)) ls
          → All (Apart k) ls
          → All (IsMapped (mapping (unmap_pages pager k.bottom 0 k.page_count s.memory))) ls
      still_mapped laid [] a b c = tt
      still_mapped laid (l ∷ ls) a b c = (keeps l a.0 b.0 c.0, still_mapped laid ls a.1 b.1 c.1)
        where
          keeps :
              (l : KernelStack)
              → IsLaidOut s.next_base l
              → IsMapped (mapping s.memory) l
              → Apart k l
              → IsMapped (mapping (unmap_pages pager k.bottom 0 k.page_count s.memory)) l
          keeps l laid_l ok away = record {
            guarded =
                unmap_pages_outside laws k.bottom 0 k.page_count l.guard_base s.memory (λ i le lt e.
                  elim away [
                    | inl x ↦ omega (arith, laid.ends, laid.above_guard)
                    | inr x ↦
                        omega (arith, laid.ends, laid.above_guard, laid_l.ends, laid_l.above_guard)
                  ])
                ∙ ok.guarded;
            backed = λ i lt.
                rw
                  (unmap_pages_outside laws k.bottom 0 k.page_count (l.bottom + i * page_size)
                    s.memory
                    (λ j le lt' e. elim away [
                      | inl x ↦ omega (arith, laid.ends, laid.above_guard, laid_l.above_guard)
                      | inr x ↦ omega (arith, laid.ends, laid.above_guard, laid_l.ends)
                    ]))
                  (ok.backed i lt);
          }

-- An address that the page-fault handler finds in the guard page of a stack in use lies in the pages
-- of no such stack, and in no other's guard page.
pub contains_guard_lem :
    (limit address : ℕ) (k l : KernelStack)
    → limit < 2 ^ 64
    → IsLaidOut limit k
    → IsLaidOut limit l
    → Apart k l
    → contains_guard k address ≡ true
    → (address < k.bottom)
      × (contains_guard l address ≡ false)
      × ((address < l.bottom) ⊎ (l.top ≤ address))
unfolding contains_guard
contains_guard_lem limit address k l bound laid laid_l away inside =
    let a = laid.above_guard in
    let b = laid.ends in
    let c = laid.below in
    let d = laid.has_pages in
    let a' = laid_l.above_guard in
    let b' = laid_l.ends in
    let c' = laid_l.below in
    elim away [
      | inl x ↦ (ground arith, ground arith, inl (ground arith))
      | inr x ↦ (ground arith, ground arith, inr (ground arith))
    ]
