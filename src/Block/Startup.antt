-- ===== src/Block/Startup.antt =====
-- block_init of src/drivers/block.c. The accesses to the ports and to the PCI bus, and the page
-- allocator, are a parameter; the pages that it clears make the empty Memory.
mod Layout
use cone_os.Block.{Driver, Memory, Descriptor, virtq_size}
use cone_os.Prelude.{
  ℕ, ◌+◌, ◌*◌, ◌/◌, ◌%◌, ◌^◌, bit_and, bit_or, Bool, true, false, not, ◌||◌, ◌==◌, ltb, List, [],
  ◌∷◌, Option, none, some, replicate, if◌then◌else◌, page_size, align_up, ◌≤◌, ◌<◌, ◌≡◌, ◌-◌, arith,
}

-- struct pci_device_info
pub record PciDevice : Type 0 where
  pub bus : ℕ
  pub slot : ℕ
  pub function : ℕ
  pub vendor_id : ℕ
  pub device_id : ℕ

pub record Hardware {ℓ} (W : Type ℓ) : Type ℓ where
  pub pci_devices : List PciDevice
  pub config_read32 : PciDevice → ℕ → W → ℕ × W
  pub config_write16 : PciDevice → ℕ → ℕ → W → W
  pub inw : ℕ → W → ℕ × W
  pub inl : ℕ → W → ℕ × W
  pub outb : ℕ → ℕ → W → W
  pub outw : ℕ → ℕ → W → W
  pub outl : ℕ → ℕ → W → W
  pub alloc_contiguous : ℕ → W → Option ℕ × W
  pub alloc_page : W → Option ℕ × W

-- The first VirtIO block device, legacy interface.
unfoldable pub find_device : List PciDevice → Option PciDevice
find_device [] = none
find_device (info ∷ rest) =
    let found = find_device rest in
    if info.vendor_id == 6900 then if info.device_id == 4097 then some info else found else found

-- A port number is a `uint16_t`.
abbrev pub port : ℕ → ℕ → ℕ
port base offset = (base + offset) % 2 ^ 16

-- Where the rings lie in the queue's pages.
abbrev pub available_offset : ℕ → ℕ
available_offset queue_size = 16 * queue_size

abbrev pub used_offset : ℕ → ℕ
used_offset queue_size = align_up (16 * queue_size + 4 + 2 * queue_size) page_size

-- The pages after `clear_page`.
abbrev pub cleared : ℕ → Memory
cleared queue_size = record {
  descriptors = replicate queue_size (record { address = 0; length = 0; flags = 0; next = 0 });
  ring = replicate queue_size 0;
  available_index = 0;
  used_index = 0;
  request_type = 0;
  reserved = 0;
  sector = 0;
  payload = replicate 4080 0;
}

-- The registers of the device, from reset to the size of the queue.
unfoldable pub negotiate {ℓ} : {W : Type ℓ} → Hardware W → PciDevice → ℕ → W → (Bool × ℕ) × W
negotiate hardware info base w =
    let (command, w) = hardware.config_read32 info 4 w in
    let w = hardware.config_write16 info 4 (bit_or command 5 % 2 ^ 16) w in
    let w = hardware.outb (port base 18) 0 w in
    let w = hardware.outb (port base 18) 1 w in
    let w = hardware.outb (port base 18) 3 w in
    let (features, w) = hardware.inl base w in
    let flush = not (bit_and features 512 == 0) in
    let w = hardware.outl (port base 4) (if flush then 512 else 0) w in
    let w = hardware.outw (port base 14) 0 w in
    let (queue_size, w) = hardware.inw (port base 12) w in ((flush, queue_size), w)

-- The queue is handed to the device, and the device started.
unfoldable pub start {ℓ} : {W : Type ℓ} → Hardware W → ℕ → Bool → ℕ → ℕ → ℕ → W → Driver W
start hardware base flush queue_size queue request w =
    let w = hardware.outl (port base 8) (queue / page_size % 2 ^ 32) w in
    let (low, w) = hardware.inl (port base 20) w in
    let (high, w) = hardware.inl (port base 24) w in
    let w = hardware.outb (port base 18) 7 w in
    record {
      initialized = true;
      flush_supported = flush;
      sectors = low + high * 2 ^ 32;
      request_physical = request;
      memory = cleared queue_size;
      world = w;
    }

-- block_init: the driver at work, or none.
unfoldable pub block_init {ℓ} : {W : Type ℓ} → Hardware W → W → Option (Driver W) × W
block_init hardware w = elim (find_device hardware.pci_devices) [
  | none ↦ (none, w)
  | some info ↦
      let (bar, w) = hardware.config_read32 info 16 w in
      if bar % 2 == 0
      then (none, w)
      else let base = (bar - bar % 4) % 2 ^ 16 in
        let ((flush, queue_size), w) = negotiate hardware info base w in
        if ltb queue_size virtq_size || ltb 256 queue_size
        then (none, w)
        else let (queue, w) = hardware.alloc_contiguous 3 w in
          let (request, w) = hardware.alloc_page w in
          elim queue [
            | none ↦ (none, w)
            | some q ↦ elim request [
              | none ↦ (none, w)
              | some r ↦ let s = start hardware base flush queue_size q r w in (some s, s.world)
            ]
          ]
]
