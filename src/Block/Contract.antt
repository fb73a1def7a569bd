-- ===== src/Block/Contract.antt =====
-- What the driver relies on of a VirtIO disk: the index of the used ring is 16 bits wide and moves on
-- once, when the request has been carried out, before the driver gives up.
use cone_os.Block.{Descriptor, Memory, DiskDevice, chain, rounds}
use cone_os.Prelude.{
  ℕ, zero, suc, ◌+◌, ◌%◌, ◌^◌, ◌≤◌, ◌<◌, Bool, false, ◌==◌, List, take, get_or, length, ◌≡◌,
  if◌then◌else◌,
}

-- The state after so many polls.
abbrev pub polls {ℓ} : {W : Type ℓ} → DiskDevice W → ℕ → Memory → W → Memory × W
polls device zero m w = (m, w)
polls device (suc n) m w = let (m', w') = device.poll m w in polls device n m' w'

abbrev pub Disk : Type 0
Disk = ℕ → List ℕ

abbrev pub write_disk : ℕ → List ℕ → Disk → Disk
write_disk sector bytes disk i = if i == sector then bytes else disk i

-- The request in the page has been carried out on the disk.
pub record Done (is_write : Bool) (sector : ℕ) (before : Memory) (old new : Disk) (m : Memory)
    : Type 0 where
  pub used : m.used_index ≡ (before.used_index + 1) % 2 ^ 16
  pub available : m.available_index ≡ before.available_index
  pub descriptors : m.descriptors ≡ before.descriptors
  pub space : length m.payload ≡ length before.payload
  pub status : get_or m.payload 512 255 ≡ 0
  pub bytes : is_write ≡ false → take 512 m.payload ≡ old sector
  pub disk : new ≡ (if is_write then write_disk sector (take 512 before.payload) old else old)

-- `m` asks for a transfer, in a page at `base`.
pub record Asks (base : ℕ) (is_write : Bool) (sector : ℕ) (m : Memory) : Type 0 where
  pub kind : m.request_type ≡ (if is_write then 1 else 0)
  pub place : m.sector ≡ sector
  pub table : List Descriptor
  pub room : 3 ≤ length table
  pub descriptors : m.descriptors ≡ chain base is_write table
  pub space : 512 < length m.payload
  pub one : m.available_index ≡ (m.used_index + 1) % 2 ^ 16
  pub bounded : m.used_index < 2 ^ 16

-- A transfer is carried out after some polls, and what comes after them changes nothing.
abbrev pub Answered {ℓ} : {W : Type ℓ} → DiskDevice W → (W → Disk) → Bool → ℕ → Memory → W → Type 0
Answered device disk is_write sector m w =
    let (m', w') = device.notify m w in
    (n : ℕ) × ((n < rounds)
      × (((k : ℕ) → k < n → (polls device k m' w').0.used_index ≡ m.used_index)
          × ((k : ℕ)
              → n ≤ k
              → k ≤ rounds
              → Done is_write sector m (disk w) (disk (polls device k m' w').1)
                  (polls device k m' w').0)))

abbrev pub Serves {ℓ} : {W : Type ℓ} → DiskDevice W → (W → Disk) → ℕ → Type ℓ
Serves {W = W} device disk sectors =
    (base sector : ℕ) (is_write : Bool) (m : Memory) (w : W)
    → sector < sectors
    → Asks base is_write sector m
    → Answered device disk is_write sector m w
