-- ===== src/Block/Spec.antt =====
-- What src/drivers/block.c promises: a disk, and a count of the requests made, modulo 2 ^ 16. The
-- request that takes the count back to 0 is carried out, and reported as a failure.
use cone_os.Block.{DiskDevice, Driver, block_read_sector, block_write_sector}
use cone_os.Block.Contract.{Disk, write_disk}
use cone_os.Prelude.{ℕ, ◌+◌, ◌%◌, ◌^◌, ◌==◌, ltb, Option, none, some, List, [], ◌∷◌, if◌then◌else◌}

pub data Request : Type 0 where
  read : ℕ → Request
  write : ℕ → List ℕ → Request

pub data Answer : Type 0 where
  failed : Answer
  bytes : List ℕ → Answer
  written : Answer

pub record View : Type 0 where
  pub disk : Disk
  pub count : ℕ

abbrev pub moved : ℕ → ℕ
moved count = (count + 1) % 2 ^ 16

abbrev pub reported : ℕ → Answer → Answer
reported count a = if count == 65535 then failed else a

abbrev pub spec_step : ℕ → Request → View → Answer × View
spec_step sectors (read sector) v =
    if ltb sector sectors
    then (reported v.count (bytes (v.disk sector)), record v { count = moved v.count })
    else (failed, v)
spec_step sectors (write sector contents) v =
    if ltb sector sectors
    then (
      reported v.count written,
      record { disk = write_disk sector contents v.disk; count = moved v.count },
    )
    else (failed, v)

abbrev pub spec_run : ℕ → List Request → View → List Answer × View
spec_run sectors [] v = ([], v)
spec_run sectors (r ∷ rs) v =
    let (a, v') = spec_step sectors r v in
    let (later, v'') = spec_run sectors rs v' in (a ∷ later, v'')

-- The same requests to the driver; a read overwrites the whole of its buffer, whatever it holds.
abbrev pub read_answer : Option (List ℕ) → Answer
read_answer none = failed
read_answer (some contents) = bytes contents

abbrev pub request_step {ℓ} : {W : Type ℓ} → DiskDevice W → Request → Driver W → Answer × Driver W
request_step device (read sector) s =
    let (answer, s') = block_read_sector device sector (some []) s in (read_answer answer, s')
request_step device (write sector contents) s =
    let (done, s') = block_write_sector device sector (some contents) s in
    (if done then written else failed, s')

abbrev pub request_run {ℓ} :
    {W : Type ℓ} → DiskDevice W → List Request → Driver W → List Answer × Driver W
request_run device [] s = ([], s)
request_run device (r ∷ rs) s =
    let (a, s') = request_step device r s in
    let (later, s'') = request_run device rs s' in (a ∷ later, s'')
