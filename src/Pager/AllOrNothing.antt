-- ===== src/Pager/AllOrNothing.antt =====
-- The pages of src/mm/kmalloc.c and src/mm/stack.c are mapped all together or not at all.
use cone_os.Prelude.{
  ℕ, zero, suc, ◌+◌, ◌*◌, ◌≤◌, ◌<◌, ◌≡◌, ◌≢◌, refl, Bool, true, false, ◌⊎◌, inl, inr, Option, none,
  some, arith, page_size, ◌∙◌, sym, ℕ_discrete,
}
use cone_os.Pager.{Pager, free_if, unwind, map_fresh, map_pages}

-- What the services do to the kernel's mappings: only mapping and unmapping change them, at the one
-- address, and a mapping that fails changes nothing.
pub record PagerLaws {S : Type 0} (pager : Pager S) (mapping : S → ℕ → Option ℕ) : Type 0 where
  pub alloc_keeps : (s : S) (v : ℕ) → mapping (pager.alloc_page s).1 v ≡ mapping s v
  pub free_keeps : (s : S) (p v : ℕ) → mapping (pager.free_page s p).1 v ≡ mapping s v
  pub map_here :
      (s : S) (v p : ℕ)
      → (pager.map_page s v p).0 ≡ true
      → mapping (pager.map_page s v p).1 v ≡ some p
  pub map_elsewhere : (s : S) (v p w : ℕ) → w ≢ v → mapping (pager.map_page s v p).1 w ≡ mapping s w
  pub map_fails :
      (s : S) (v p : ℕ)
      → (pager.map_page s v p).0 ≡ false
      → mapping (pager.map_page s v p).1 v ≡ mapping s v
  pub unmap_here : (s : S) (v : ℕ) → mapping (pager.unmap_page s v).1 v ≡ none
  pub unmap_elsewhere : (s : S) (v w : ℕ) → w ≢ v → mapping (pager.unmap_page s v).1 w ≡ mapping s w

module _ {S : Type 0} {pager : Pager S} {mapping : S → ℕ → Option ℕ}
    (laws : PagerLaws pager mapping) where
  free_if-keeps : (p : Option ℕ) (s : S) (v : ℕ) → mapping (free_if pager p s) v ≡ mapping s v
  unfolding free_if
  free_if-keeps none s v = refl
  free_if-keeps (some p) s v = laws.free_keeps s p v

  -- Is `v` one of the first `n` pages from `base`?
  abbrev pub InRange : ℕ → ℕ → ℕ → Type 0
  InRange base n v = (i : ℕ) × (i < n) × (v ≡ base + i * page_size)

  unwind_outside :
      (base n v : ℕ) (s : S) → ¬ InRange base n v → mapping (unwind pager base n s) v ≡ mapping s v
  unfolding unwind
  unwind_outside base zero v s out = refl
  unwind_outside base (suc n) v s out =
      unwind_outside base n v _ (λ h. out (h.0, omega (arith, h.1), h.2))
      ∙ free_if-keeps _ _ v
      ∙ laws.unmap_elsewhere s (base + n * page_size) v (λ e. out (n, omega arith, e))

  unwind_inside :
      (base n v : ℕ) (s : S) → InRange base n v → mapping (unwind pager base n s) v ≡ none
  unfolding unwind
  unwind_inside base zero v s h = absurd (omega (arith, h.1))
  unwind_inside base (suc n) v s (i, lt, e) = elim (ℕ_discrete i n) [
    | no ne ↦ unwind_inside base n v _ (i, omega arith, e)
    | yes same ↦
        unwind_outside base n v _ (λ h. omega (arith, h.1, h.2))
        ∙ free_if-keeps _ _ v
        ∙ last (omega arith)
  ]
    where
      last :
          v ≡ base + n * page_size → mapping (pager.unmap_page s (base + n * page_size)).1 v ≡ none
      last e' = rw e' (laws.unmap_here s (base + n * page_size))

  -- What one round did.
  abbrev Mapped : S → ℕ → Bool × S → Type 0
  Mapped s v r =
      ((w : ℕ) → w ≢ v → mapping r.1 w ≡ mapping s w)
      × (((r.0 ≡ true) × (mapping r.1 v ≢ none)) ⊎ ((r.0 ≡ false) × (mapping r.1 v ≡ mapping s v)))

  map_fresh-Mapped : (v : ℕ) (s : S) → Mapped s v (map_fresh pager v s)
  unfolding map_fresh
  map_fresh-Mapped v s = allocated (pager.alloc_page s).0 refl
    where
      t : S
      t = (pager.alloc_page s).1

      mapped :
          (p : ℕ) (ok : Bool)
          → (pager.alloc_page s).0 ≡ some p
          → (pager.map_page t v p).0 ≡ ok
          → Mapped s v (map_fresh pager v s)
      mapped p true e e' =
          rw (e, e', map_fresh)
            (
              λ w ne. laws.map_elsewhere t v p w ne ∙ laws.alloc_keeps s w,
              inl (refl, λ none_there. cc (laws.map_here t v p e')),
            )
      mapped p false e e' =
          rw (e, e', map_fresh)
            (
              λ w ne. laws.free_keeps _ p w ∙ laws.map_elsewhere t v p w ne ∙ laws.alloc_keeps s w,
              inr (refl, laws.free_keeps _ p v ∙ laws.map_fails t v p e' ∙ laws.alloc_keeps s v),
            )

      allocated : (p : Option ℕ) → (pager.alloc_page s).0 ≡ p → Mapped s v (map_fresh pager v s)
      allocated none e =
          rw (e, map_fresh) (λ w ne. laws.alloc_keeps s w, inr (refl, laws.alloc_keeps s v))
      allocated (some p) e = mapped p (pager.map_page t v p).0 e refl

  -- What the loop did, with `mapped` pages done before it and `left` to come.
  abbrev Outcome : ℕ → ℕ → ℕ → S → Bool × S → Type 0
  Outcome base mapped left s r =
      ((r.0 ≡ true)
        × ((i : ℕ) → mapped ≤ i → i < mapped + left → mapping r.1 (base + i * page_size) ≢ none)
        × ((v : ℕ)
            → ((i : ℕ) → mapped ≤ i → i < mapped + left → v ≢ base + i * page_size)
            → mapping r.1 v ≡ mapping s v))
      ⊎ ((r.0 ≡ false)
          × ((v : ℕ) → InRange base mapped v → mapping r.1 v ≡ none)
          × ((v : ℕ) → ¬ InRange base mapped v → mapping r.1 v ≡ mapping s v))

  -- The loop goes on from its first round `r` by `rest`, or unwinds.
  round-Outcome :
      (base mapped left : ℕ) (s : S)
      → ((i : ℕ) → mapped ≤ i → i < mapped + suc left → mapping s (base + i * page_size) ≡ none)
      → (((i : ℕ)
            → suc mapped ≤ i
            → i < suc mapped + left
            → mapping (map_fresh pager (base + mapped * page_size) s).1 (base + i * page_size)
              ≡ none)
          → Outcome base (suc mapped) left (map_fresh pager (base + mapped * page_size) s).1 (
              map_pages pager base
                (suc mapped)
                left
                (map_fresh pager (base + mapped * page_size) s).1))
      → Outcome base mapped (suc left) s (map_pages pager base mapped (suc left) s)
  unfolding map_pages
  round-Outcome base mapped left s fresh rest = round (map_fresh-Mapped here s)
    where
      here : ℕ
      here = base + mapped * page_size

      t : S
      t = (map_fresh pager here s).1

      differ : (i : ℕ) → i ≢ mapped → base + i * page_size ≢ here
      differ i ne e = ne (omega arith)

      first : (v : ℕ) → InRange base (suc mapped) v → (v ≡ here) ⊎ InRange base mapped v
      first v (i, lt, e) = elim (ℕ_discrete i mapped) [
        | yes same ↦ inl (omega arith)
        | no other ↦ inr (i, omega arith, e)
      ]

      done :
          ((w : ℕ) → w ≢ here → mapping t w ≡ mapping s w)
          → mapping t here ≢ none
          → Outcome base (suc mapped) left t (map_pages pager base (suc mapped) left t)
          → Outcome base mapped (suc left) s (map_pages pager base (suc mapped) left t)
      done same there (inl (ok, ins, out)) = inl (
        ok,
        λ i le lt. elim (ℕ_discrete i mapped) [
          | yes e ↦
              let at : base + i * page_size ≡ here = omega arith in
              let kept = out here (λ j le' lt' e'. omega arith) in rw (at, kept) there
          | no ne ↦ ins i (omega arith) (omega arith)
        ],
        λ v far.
            out v (λ i le lt. far i (omega arith) (omega arith))
            ∙ same v (far mapped (omega arith) (omega arith)),
      )
      done same there (inr (ok, ins, out)) = inr (
        ok,
        λ v r. ins v (r.0, omega (arith, r.1), r.2),
        λ v far. elim (ℕ_discrete v here) [
          | yes e ↦ rw e (
              ins here (mapped, omega arith, refl) ∙ sym (fresh mapped (omega arith) (omega arith)))
          | no ne ↦ out v (λ r. undo v ne far (first v r)) ∙ same v ne
        ],
      )
        where
          undo :
              (v : ℕ)
              → v ≢ here
              → ¬ InRange base mapped v
              → ((v ≡ here) ⊎ InRange base mapped v)
              → ⊥
          undo v ne far (inl e) = ne e
          undo v ne far (inr r) = far r

      round :
          Mapped s here (map_fresh pager here s)
          → Outcome base mapped (suc left) s (map_pages pager base mapped (suc left) s)
      round (same, inl (ok, there)) =
          rw (ok, map_pages)
            (done same there (
              rest (λ i le lt.
                same (base + i * page_size) (differ i (omega arith))
                ∙ fresh i (omega arith) (omega arith))))
      round (same, inr (failed, there)) =
          rw (failed, map_pages)
            (inr (
              refl,
              λ v r. unwind_inside base mapped v t r,
              λ v far.
                  unwind_outside base mapped v t far
                  ∙ elim (ℕ_discrete v here) [ yes e ↦ rw e there | no ne ↦ same v ne ],
            ))

  map_pages-Outcome :
      (base mapped left : ℕ) (s : S)
      → ((i : ℕ) → mapped ≤ i → i < mapped + left → mapping s (base + i * page_size) ≡ none)
      → Outcome base mapped left s (map_pages pager base mapped left s)
  unfolding map_pages
  map_pages-Outcome base mapped zero s fresh =
      inl (refl, λ i le lt. absurd (omega arith), λ v out. refl)
  map_pages-Outcome base mapped (suc left) s fresh =
      round-Outcome base mapped left s fresh (map_pages-Outcome base (suc mapped) left _)

-- Fresh pages from `base` on, where nothing is mapped: either each of them is mapped and no other
-- mapping has changed, or the loop reports failure and every mapping is as it was.
pub map_pages_lem :
    {S : Type 0} {pager : Pager S} {mapping : S → ℕ → Option ℕ} (base count : ℕ) (s : S)
    → PagerLaws pager mapping
    → ((i : ℕ) → i < count → mapping s (base + i * page_size) ≡ none)
    → let (ok, t) = map_pages pager base 0 count s in
      ((ok ≡ true)
        × ((i : ℕ) → i < count → mapping t (base + i * page_size) ≢ none)
        × ((v : ℕ) → ((i : ℕ) → i < count → v ≢ base + i * page_size) → mapping t v ≡ mapping s v))
      ⊎ ((ok ≡ false) × ((v : ℕ) → mapping t v ≡ mapping s v))
map_pages_lem base count s laws fresh =
    elim (map_pages-Outcome laws base 0 count s (λ i le lt. fresh i (omega arith))) [
      | inl (ok, ins, out) ↦ inl (
        ok,
        λ i lt. ins i (omega arith) (omega arith),
        λ v far. out v (λ i le lt. far i (omega arith)),
      )
      | inr (failed, ins, out) ↦ inr (failed, λ v. out v (λ r. omega (arith, r.1)))
    ]
