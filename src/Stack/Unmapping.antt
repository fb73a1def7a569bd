-- ===== src/Stack/Unmapping.antt =====
-- What the loop of kernel_stack_free of src/mm/stack.c leaves of the mappings.
use cone_os.Prelude.{
  ℕ, zero, suc, ◌+◌, ◌*◌, ◌<◌, ◌≤◌, ◌≡◌, ◌≢◌, refl, ◌∙◌, Option, none, some, arith, page_size,
  ℕ_discrete,
}
use cone_os.Pager.{Pager, free_if}
use cone_os.Pager.AllOrNothing.{PagerLaws}
use cone_os.Stack.{unmap_pages}

module _ {S : Type 0} {pager : Pager S} {mapping : S → ℕ → Option ℕ}
    (laws : PagerLaws pager mapping) where
  free_if_keeps : (p : Option ℕ) (s : S) (v : ℕ) → mapping (free_if pager p s) v ≡ mapping s v
  unfolding free_if
  free_if_keeps none s v = refl
  free_if_keeps (some p) s v = laws.free_keeps s p v

  pub unmap_pages_outside :
      (bottom page left v : ℕ) (s : S)
      → ((i : ℕ) → page ≤ i → i < page + left → v ≢ bottom + i * page_size)
      → mapping (unmap_pages pager bottom page left s) v ≡ mapping s v
  unfolding unmap_pages
  unmap_pages_outside bottom page zero v s far = refl
  unmap_pages_outside bottom page (suc left) v s far =
      unmap_pages_outside bottom (suc page) left v _ (λ i le lt. far i (omega arith) (omega arith))
      ∙ free_if_keeps _ _ v
      ∙ laws.unmap_elsewhere s (bottom + page * page_size) v (far page (omega arith) (omega arith))

  pub unmap_pages_inside :
      (bottom page left i : ℕ) (s : S)
      → page ≤ i
      → i < page + left
      → mapping (unmap_pages pager bottom page left s) (bottom + i * page_size) ≡ none
  unfolding unmap_pages
  unmap_pages_inside bottom page zero i s le lt = absurd (omega arith)
  unmap_pages_inside bottom page (suc left) i s le lt = elim (ℕ_discrete i page) [
    | no ne ↦ unmap_pages_inside bottom (suc page) left i _ (omega arith) (omega arith)
    | yes same ↦
        unmap_pages_outside bottom (suc page) left (bottom + i * page_size) _
          (λ j le' lt' e. omega arith)
        ∙ free_if_keeps _ _ (bottom + i * page_size)
        ∙ rw same (laws.unmap_here s (bottom + page * page_size))
  ]
