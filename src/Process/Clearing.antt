-- ===== src/Process/Clearing.antt =====
-- The loop of process_brk in src/kernel/process.c that clears what a growing heap takes in ends.
use cone_os.Process.{Spaces}
use cone_os.Process.Heap.{clear_range, amount}
use cone_os.Prelude.{
  ℕ, zero, suc, ◌+◌, ◌-◌, ◌*◌, ◌%◌, ◌≤◌, ◌≡◌, ◌⊎◌, ◌∙◌, sym, refl, false, ltb, leb, Bool-cases, inl,
  inr, arith, page_size,
}

clear_range_done {ℓ} :
    {W : Type ℓ} (spaces : Spaces W) (space fuel address stop : ℕ) (w : W)
    → stop ≤ address
    → clear_range spaces space fuel address stop w ≡ w
unfolding clear_range
clear_range_done spaces space zero address stop w h = refl
clear_range_done spaces space (suc fuel) address stop w h = ground arith

suc_add : (n i : ℕ) → suc n + i ≡ suc (n + i)
suc_add n i = omega arith

next_page :
    (fuel address stop : ℕ)
    → (stop ≤ address) ⊎ (stop + address % 4096 ≤ address + suc fuel * 4096)
    → leb stop address ≡ false
    → let next = address + amount address stop in
      (stop ≤ next) ⊎ (stop + next % 4096 ≤ next + fuel * 4096)
next_page fuel address stop h c =
    elim (Bool-cases (ltb (stop - address) (page_size - address % page_size))) [
      | inl e ↦ inl (ground (arith, e, c))
      | inr e ↦ inr (ground (arith, e, c, h))
    ]

-- With fuel for each page that the range touches, more fuel changes nothing.
pub clear_range_more {ℓ} :
    {W : Type ℓ} (spaces : Spaces W) (space fuel more address stop : ℕ) (w : W)
    → (stop ≤ address) ⊎ (stop + address % 4096 ≤ address + fuel * 4096)
    → clear_range spaces space (fuel + more) address stop w
      ≡ clear_range spaces space fuel address stop w
unfolding clear_range
clear_range_more spaces space zero more address stop w h =
    clear_range_done spaces space (zero + more) address stop w (ground (arith, h))
clear_range_more spaces space (suc fuel) more address stop w h =
    elim (Bool-cases (leb stop address)) [
      | inl c ↦
          let past : stop ≤ address = ground (arith, c) in
          clear_range_done spaces space (suc fuel + more) address stop w past
          ∙ sym (clear_range_done spaces space (suc fuel) address stop w past)
      | inr c ↦
          let n = amount address stop in
          rw (suc_add fuel more, c)
            (clear_range_more spaces space fuel more (address + n) stop _
              (next_page fuel address stop h c))
    ]
