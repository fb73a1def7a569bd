-- ===== src/Block/Waiting.antt =====
-- The loop of src/drivers/block.c that waits for the device: it sees the state after the poll at which
-- the index it waits for first appears, or gives up.
use cone_os.Block.{DiskDevice, Memory, wait_for}
use cone_os.Block.Contract.{polls}
use cone_os.Prelude.{
  ℕ, zero, suc, ◌+◌, ◌<◌, ◌≡◌, ◌≢◌, refl, false, ◌==◌, Bool-cases, inl, inr, get_or, arith,
}

module _ {ℓ} {W : Type ℓ} (device : DiskDevice W) where
  -- The index appears after `k` polls and not before.
  pub wait_for-polls :
      (k n index status : ℕ) (m : Memory) (w : W)
      → k < n
      → ((j : ℕ) → j < k → (polls device j m w).0.used_index ≢ index + 1)
      → (polls device k m w).0.used_index ≡ index + 1
      → wait_for device n index status m w
        ≡ (get_or (polls device k m w).0.payload status 255 == 0, polls device k m w)
  unfolding wait_for
  wait_for-polls k zero index status m w h early there = absurd (omega arith)
  wait_for-polls zero (suc n) index status m w h early there =
      elim (Bool-cases (m.used_index == index + 1)) [
        | inl e ↦ rw (e, wait_for) refl
        | inr e ↦ absurd (ground (arith, there))
      ]
  wait_for-polls (suc k) (suc n) index status m w h early there =
      elim (Bool-cases (m.used_index == index + 1)) [
        | inl e ↦ absurd (early 0 (omega arith) (ground arith))
        | inr e ↦
            let (m', w') = device.poll m w in
            rw (e, wait_for)
              (wait_for-polls k n index status m' w' (omega arith)
                (λ j b. early (suc j) (omega arith)) there)
      ]

  -- It never appears.
  pub wait_for-timeout :
      (n index status : ℕ) (m : Memory) (w : W)
      → ((j : ℕ) → j < n → (polls device j m w).0.used_index ≢ index + 1)
      → wait_for device n index status m w ≡ (false, polls device n m w)
  unfolding wait_for
  wait_for-timeout zero index status m w early = refl
  wait_for-timeout (suc n) index status m w early = elim (Bool-cases (m.used_index == index + 1)) [
    | inl e ↦ absurd (early 0 (omega arith) (ground arith))
    | inr e ↦
        let (m', w') = device.poll m w in
        rw (e, wait_for)
          (wait_for-timeout n index status m' w' (λ j b. early (suc j) (omega arith)))
  ]
