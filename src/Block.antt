-- ===== src/Block.antt =====
-- src/drivers/block.c: the driver of a VirtIO disk. Memory is what driver and device share: the
-- descriptors, the indices of the two rings, and the page of the request, whose bytes from 16 on are
-- `payload`. The device is a parameter: what it does when it is notified, and what it does between
-- two reads of the index of the used ring.
use cone_os.Prelude.{
  ℕ, zero, suc, ◌+◌, ◌*◌, ◌%◌, ◌^◌, Bool, true, false, not, ◌||◌, ◌==◌, ltb, leb, Option, none,
  some, List, [], ◌∷◌, ◌++◌, take, drop, set, get_or, replicate, if◌then◌else◌, align_up, page_size,
}
mod Startup
mod Contract
mod Waiting
mod Spec
mod Transfers
mod Requests
mod Tests

-- VIRTQ_SIZE
abbrev pub virtq_size : ℕ
virtq_size = 8

-- The rounds of the loop that waits for the device.
unfoldable pub rounds : ℕ
rounds = 10000000

-- struct virtq_desc
pub record Descriptor : Type 0 where
  pub address : ℕ
  pub length : ℕ
  pub flags : ℕ
  pub next : ℕ

-- The rings, and struct request_header with the bytes after it.
pub record Memory : Type 0 where
  pub descriptors : List Descriptor
  pub ring : List ℕ
  pub available_index : ℕ
  pub used_index : ℕ
  pub request_type : ℕ
  pub reserved : ℕ
  pub sector : ℕ
  pub payload : List ℕ

pub record DiskDevice {ℓ} (W : Type ℓ) : Type ℓ where
  pub notify : Memory → W → Memory × W
  pub poll : Memory → W → Memory × W

-- The static variables.
pub record Driver {ℓ} (W : Type ℓ) : Type ℓ where
  pub initialized : Bool
  pub flush_supported : Bool
  pub sectors : ℕ
  pub request_physical : ℕ
  pub memory : Memory
  pub world : W

-- The chain of descriptors of a transfer: the header, the bytes of the sector, the status.
abbrev pub chain : ℕ → Bool → List Descriptor → List Descriptor
chain base is_write ds =
    set
      (set (set ds 0 (record { address = base; length = 16; flags = 1; next = 1 })) 1
        (record { address = base + 16; length = 512; flags = if is_write then 1 else 3; next = 2 }))
      2 (record { address = base + 528; length = 1; flags = 2; next = 0 })

-- The chain of a flush has no bytes of a sector.
abbrev pub flush_chain : ℕ → List Descriptor → List Descriptor
flush_chain base ds =
    set (set ds 0 (record { address = base; length = 16; flags = 1; next = 1 })) 1
      (record { address = base + 16; length = 1; flags = 2; next = 0 })

-- The chain goes into the ring, and the index moves on, as a `uint16_t`.
abbrev pub publish : Memory → Memory
publish m = record m {
  ring = set m.ring (m.available_index % virtq_size) 0;
  available_index = (m.available_index + 1) % 2 ^ 16;
}

-- The request as `transfer` leaves it, before the device is notified.
abbrev pub transfer_request : ℕ → ℕ → List ℕ → Bool → Memory → Memory
transfer_request base sector buffer is_write m = publish (record m {
  request_type = if is_write then 1 else 0;
  reserved = 0;
  sector = sector;
  payload = set (if is_write then take 512 buffer ++ drop 512 m.payload else m.payload) 512 255;
  descriptors = chain base is_write m.descriptors;
})

-- The loop after the notification: `index + 1` is an `int`, and does not wrap around.
unfoldable pub wait_for {ℓ} :
    {W : Type ℓ} → DiskDevice W → ℕ → ℕ → ℕ → Memory → W → Bool × (Memory × W)
wait_for device zero index status m w = (false, (m, w))
wait_for device (suc n) index status m w = elim (m.used_index == index + 1) [
  | true ↦ (get_or m.payload status 255 == 0, (m, w))
  | false ↦ let (m', w') = device.poll m w in wait_for device n index status m' w'
]

-- transfer: the bytes of the buffer afterwards, or none for a failure, which leaves them.
unfoldable pub transfer {ℓ} :
    {W : Type ℓ} → DiskDevice W → ℕ → Option (List ℕ) → Bool → Driver W → Option (List ℕ) × Driver W
transfer device sector none is_write s = (none, s)
transfer device sector (some buffer) is_write s =
    let (m, w) =
      device.notify (transfer_request s.request_physical sector buffer is_write s.memory) s.world in
    let (done, (m', w')) = wait_for device rounds s.memory.available_index 512 m w in
    let s' = record s { memory = m'; world = w' } in
    if not s.initialized || leb s.sectors sector
    then (none, s)
    else if done
    then (some (if is_write then buffer else take 512 m'.payload), s')
    else (none, s')

unfoldable pub block_read_sector {ℓ} :
    {W : Type ℓ} → DiskDevice W → ℕ → Option (List ℕ) → Driver W → Option (List ℕ) × Driver W
block_read_sector device sector buffer s = transfer device sector buffer false s

unfoldable pub block_write_sector {ℓ} :
    {W : Type ℓ} → DiskDevice W → ℕ → Option (List ℕ) → Driver W → Bool × Driver W
block_write_sector device sector buffer s =
    let (answer, s') = transfer device sector buffer true s in
    elim answer [ none ↦ (false, s') | some bytes ↦ (true, s') ]

-- block_flush
unfoldable pub block_flush {ℓ} : {W : Type ℓ} → DiskDevice W → Driver W → Bool × Driver W
block_flush device s =
    let m = record s.memory {
      request_type = 4;
      reserved = 0;
      sector = 0;
      payload = set s.memory.payload 0 255;
      descriptors = flush_chain s.request_physical s.memory.descriptors;
    } in
    let (m', w) = device.notify (publish m) s.world in
    let (done, (m'', w')) = wait_for device rounds s.memory.available_index 0 m' w in
    if not s.initialized
    then (false, s)
    else if not s.flush_supported
    then (false, s)
    else (done, record s { memory = m''; world = w' })
