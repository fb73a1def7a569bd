-- ===== src/Heap/Growth.antt =====
-- The end of grow_heap of src/mm/kmalloc.c: the chain with `growth` more bytes behind it.
use cone_os.Prelude.{
  ℕ, ◌+◌, ◌%◌, ◌≤◌, ◌≡◌, ◌≢◌, refl, sym, Bool, false, inl, inr, none, List, [], ◌∷◌, arith,
  Bool-cases, All,
}
use cone_os.Heap.Blocks.{Block, header_size, is_free, append_growth, fits, find_fit}
use cone_os.Heap.Invariant.{Tiles, Coalesced, allocations, find_fit-none}

module _ (growth : ℕ) (enough : 48 ≤ growth) (whole : growth % 16 ≡ 0) where
  pub append_growth-Tiles :
      (bs : List Block) (low end : ℕ)
      → Tiles low bs end
      → Tiles low (append_growth end growth bs) (end + growth)
  unfolding append_growth
  append_growth-Tiles [] low end t = (sym t, (refl, omega arith, omega arith), omega arith)
  append_growth-Tiles (b ∷ []) low end t = elim (Bool-cases (is_free b)) [
    | inl idle ↦
        rw idle (t.0, (t.1.0, omega (arith, t.1.1), omega (arith, t.1.2)), omega (arith, t.2))
    | inr live ↦ rw live (t.0, t.1, (sym t.2, (refl, omega arith, omega arith), omega arith))
  ]
  append_growth-Tiles (b ∷ c ∷ rest) low end t =
      (t.0, t.1, append_growth-Tiles (c ∷ rest) _ end t.2)

  pub append_growth-Coalesced :
      (bs : List Block) (after_free : Bool) (end : ℕ)
      → bs ≢ []
      → Coalesced after_free bs
      → Coalesced after_free (append_growth end growth bs)
  unfolding append_growth
  append_growth-Coalesced [] after_free end ne c = absurd (ne refl)
  append_growth-Coalesced (b ∷ []) after_free end ne c = ground arith
  append_growth-Coalesced (b ∷ d ∷ rest) after_free end ne c =
      (c.0, append_growth-Coalesced (d ∷ rest) (is_free b) end (λ e. cc) c.1)

  pub append_growth-allocations :
      (bs : List Block) (end : ℕ) → allocations (append_growth end growth bs) ≡ allocations bs
  unfolding append_growth allocations
  append_growth-allocations [] end = refl
  append_growth-allocations (b ∷ []) end = ground arith
  append_growth-allocations (b ∷ c ∷ rest) end =
      ground (arith, append_growth-allocations (c ∷ rest) end)

  -- Any request that the growth was made for now fits.
  not-none :
      (size : ℕ) (bs : List Block) (low end : ℕ)
      → size + header_size ≤ growth
      → Tiles low bs end
      → ¬ All (λ b. fits size b ≡ false) (append_growth end growth bs)
  unfolding append_growth
  not-none size [] low end le t no_fit = ground (arith, no_fit.0)
  not-none size (b ∷ []) low end le t no_fit = elim (Bool-cases (is_free b)) [
    | inl idle ↦ let none_fits = rw idle at no_fit in ground (arith, none_fits.0, t.1.0)
    | inr live ↦ let none_fits = rw live at no_fit in ground (arith, none_fits.1.0)
  ]
  not-none size (b ∷ c ∷ rest) low end le t no_fit = not-none size (c ∷ rest) _ end le t.2 no_fit.1

  pub append_growth-fits :
      (size : ℕ) (bs : List Block) (low end : ℕ)
      → size + header_size ≤ growth
      → Tiles low bs end
      → find_fit size (append_growth end growth bs) ≢ none
  append_growth-fits size bs low end le t e =
      not-none size bs low end le t (find_fit-none size (append_growth end growth bs) e)
