-- ===== src/Stack/Growth.antt =====
-- The invariant of the stacks of src/mm/stack.c after a change of the mappings.
use cone_os.Prelude.{
  ℕ, ◌+◌, ◌*◌, ◌<◌, ◌≡◌, ◌≢◌, refl, ◌∙◌, inr, Option, none, List, ◌∷◌, arith, page_size, All-map,
  All-map₂,
}
use cone_os.Stack.{KernelStack, Stacks}
use cone_os.Stack.Invariant.{IsLaidOut, IsMapped, Apart, IsValid}

abbrev pub pushed : ℕ → ℕ → KernelStack
pushed base page_count = record {
  guard_base = base;
  bottom = base + page_size;
  top = base + page_size + page_count * page_size;
  page_count = page_count;
}

module _ {S : Type 0} (mapping : S → ℕ → Option ℕ) where
  -- A state with the same mappings is as valid.
  pub IsValid-same :
      (stacks : List KernelStack) (s : Stacks S) (m : S)
      → IsValid mapping stacks s
      → ((v : ℕ) → mapping m v ≡ mapping s.memory v)
      → IsValid mapping stacks (record s { memory = m })
  IsValid-same stacks s m h same = record {
    region = h.region;
    fresh = λ v le. same v ∙ h.fresh v le;
    laid_out = h.laid_out;
    mapped =
        All-map (IsMapped (mapping s.memory)) (IsMapped (mapping m))
          (λ k ok. record {
            guarded = same k.guard_base ∙ ok.guarded;
            backed = λ i lt. rw (same (k.bottom + i * page_size)) (ok.backed i lt);
          })
          stacks h.mapped;
    apart = h.apart;
  }

  -- One more stack at the end of the region.
  pub IsValid-push :
      (stacks : List KernelStack) (s : Stacks S) (page_count : ℕ) (m : S)
      → IsValid mapping stacks s
      → 0 < page_count
      → let k = pushed s.next_base page_count in
        ((i : ℕ) → i < page_count → mapping m (k.bottom + i * page_size) ≢ none)
        → ((v : ℕ)
            → ((i : ℕ) → i < page_count → v ≢ k.bottom + i * page_size)
            → mapping m v ≡ mapping s.memory v)
        → IsValid mapping (k ∷ stacks) (record { next_base = k.top; memory = m })
  IsValid-push stacks s page_count m h some_pages inside outside = record {
    region = omega (arith, h.region);
    fresh = λ v le. outside v (λ i lt e. omega arith) ∙ h.fresh v (omega arith);
    laid_out = (
      record {
        in_region = h.region;
        has_pages = some_pages;
        above_guard = refl;
        ends = refl;
        below = omega arith;
      },
      All-map (IsLaidOut s.next_base) (IsLaidOut (s.next_base + page_size + page_count * page_size))
          (λ k ok. record {
            in_region = ok.in_region;
            has_pages = ok.has_pages;
            above_guard = ok.above_guard;
            ends = ok.ends;
            below = omega (arith, ok.below);
          })
          stacks h.laid_out,
    );
    mapped = (
      record {
        guarded = outside s.next_base (λ i lt e. omega arith) ∙ h.fresh s.next_base (omega arith);
        backed = inside;
      },
      All-map₂ (IsLaidOut s.next_base) (IsMapped (mapping s.memory)) (IsMapped (mapping m))
          (λ k laid ok. record {
            guarded =
                outside k.guard_base
                  (λ i lt e. omega (arith, laid.below, laid.ends, laid.above_guard))
                ∙ ok.guarded;
            backed = λ i lt.
                rw
                  (outside (k.bottom + i * page_size)
                    (λ j lt' e. omega (arith, laid.below, laid.ends)))
                  (ok.backed i lt);
          })
          stacks h.laid_out h.mapped,
    );
    apart = (
      All-map (IsLaidOut s.next_base) (λ l. Apart (pushed s.next_base page_count) l)
          (λ l laid. inr laid.below) stacks h.laid_out,
      h.apart,
    );
  }
