-- ===== src/Block/Requests.antt =====
-- A run of requests to the driver of src/drivers/block.c beside the same run of Block/Spec.
use cone_os.Block.{DiskDevice, Driver}
use cone_os.Block.Contract.{Disk}
use cone_os.Block.Spec.{Request, read, write, View, Answer}
use cone_os.Block.Transfers.{IsReady}
use cone_os.Prelude.{ℕ, ◌≡◌, length}

-- A write hands over a whole sector.
abbrev pub IsWhole : Request → Type 0
IsWhole (read sector) = Unit
IsWhole (write sector contents) = length contents ≡ 512

module _ {ℓ} {W : Type ℓ} (device : DiskDevice W) (disk : W → Disk) (sectors : ℕ) where
  -- What a call owes to the call of the view.
  abbrev Matches : Answer × View → Answer × Driver W → Type ℓ
  Matches (b, v) (a, s) = (a ≡ b) × IsReady disk sectors v s
