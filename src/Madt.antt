-- ===== src/Madt.antt =====
-- src/firmware/madt.c: the parser of the ACPI table of processors and interrupt controllers. The
-- table is the list of the bytes that the caller says are there; a read past them is a fault.
mod Monad
mod Tables
mod Ensures
mod IsSound
pub mod Sound
mod Tests
use cone_os.Prelude.{
  ℕ, zero, suc, ◌+◌, ◌-◌, ◌*◌, ◌/◌, ◌%◌, ◌^◌, Bool, true, false, not, ◌&&◌, ◌||◌, List, [], ◌∷◌,
  ◌++◌, ltb, leb, ◌==◌, if◌then◌else◌, length, get_elem?, get_or, set, map,
}
use Monad.{Result, fault, out_of_fuel, reject, ok, ◌>>=◌, ◌>>◌, guard, byte, read16, read32, read64}
use Tables.{
  Cpu, IoApic, IsaIrq, LocalNmi, IoNmi, Topology, max_cpus, max_ioapics, max_nmis, initial,
  interrupt_flags_valid, has_cpu, has_ioapic, no_irq,
}

-- The parser's variables: the topology, and whether an entry has given the address.
pub record Parse : Type 0 where
  pub topology : Topology
  pub address_override : Bool

-- `uint8_t sum` over the first `count` bytes; a byte outside the table is a fault.
unfoldable pub checksum : List ℕ → ℕ → ℕ → Result ℕ
checksum bytes zero sum = ok sum
checksum [] (suc count) sum = fault
checksum (b ∷ rest) (suc count) sum = checksum rest count ((sum + b) % 256)

unfoldable pub checksum_valid : List ℕ → ℕ → Result Bool
checksum_valid bytes count = do sum ← checksum bytes count 0; ok (sum == 0)

unfoldable pub add_cpu : Parse → ℕ → ℕ → ℕ → Result Parse
add_cpu s uid id flags = do
  guard (not (length s.topology.cpus == max_cpus))
  guard (not (has_cpu s.topology.cpus uid id))
  ok (record s {
    topology = record (s.topology) {
      cpus = s.topology.cpus ++ (record { uid = uid; apic_id = id; flags = flags } ∷ []);
    };
  })

-- The cases of the switch; `p` is the offset of the entry, of `size` bytes.
module _ (bytes : List ℕ) (p size : ℕ) (s : Parse) where
  unfoldable pub local_apic : Result Parse
  local_apic = do
    guard (leb 8 size)
    uid ← byte bytes (p + 2)
    id ← byte bytes (p + 3)
    flags ← read32 bytes (p + 4)
    add_cpu s uid id flags

  unfoldable pub io_apic : Result Parse
  io_apic = do
    guard (leb 12 size)
    guard (not (length s.topology.ioapics == max_ioapics))
    address ← read32 bytes (p + 4)
    guard (not (address == 0) && address % 4096 == 0)
    id ← byte bytes (p + 2)
    guard (not (has_ioapic s.topology.ioapics id address))
    gsi_base ← read32 bytes (p + 8)
    ok (record s {
      topology = record (s.topology) {
        ioapics =
            s.topology.ioapics ++ (record { address = address; gsi_base = gsi_base; id = id } ∷ []);
      };
    })

  unfoldable pub source_override : Result Parse
  source_override = do
    guard (leb 10 size)
    bus ← byte bytes (p + 2)
    guard (bus == 0)
    source ← byte bytes (p + 3)
    guard (ltb source 16)
    flags ← read16 bytes (p + 8)
    guard (interrupt_flags_valid flags)
    guard (not (get_or s.topology.isa_irqs source no_irq).overridden)
    gsi ← read32 bytes (p + 4)
    ok (record s {
      topology = record (s.topology) {
        isa_irqs =
            set s.topology.isa_irqs source (record { gsi = gsi; flags = flags; overridden = true });
      };
    })

  unfoldable pub io_nmi : Result Parse
  io_nmi = do
    guard (leb 8 size)
    guard (not (length s.topology.io_nmis == max_nmis))
    flags ← read16 bytes (p + 2)
    guard (interrupt_flags_valid flags)
    gsi ← read32 bytes (p + 4)
    ok (record s {
      topology = record (s.topology) {
        io_nmis = s.topology.io_nmis ++ (record { gsi = gsi; flags = flags } ∷ []);
      };
    })

  abbrev add_local_nmi : ℕ → ℕ → ℕ → Bool → Parse
  add_local_nmi uid flags lint all_cpus = record s {
    topology = record (s.topology) {
      local_nmis =
          s.topology.local_nmis
          ++ (record { uid = uid; flags = flags; lint = lint; all_cpus = all_cpus } ∷ []);
    };
  }

  unfoldable pub local_nmi : Result Parse
  local_nmi = do
    guard (leb 6 size)
    guard (not (length s.topology.local_nmis == max_nmis))
    lint ← byte bytes (p + 5)
    guard (leb lint 1)
    flags ← read16 bytes (p + 3)
    guard (interrupt_flags_valid flags)
    uid ← byte bytes (p + 2)
    ok (add_local_nmi uid flags lint (uid == 255))

  unfoldable pub lapic_override : Result Parse
  lapic_override = do
    guard (leb 12 size)
    guard (not s.address_override)
    address ← read64 bytes (p + 4)
    ok (record s {
      topology = record (s.topology) { lapic_address = address };
      address_override = true;
    })

  unfoldable pub local_x2apic : Result Parse
  local_x2apic = do
    guard (leb 16 size)
    uid ← read32 bytes (p + 12)
    id ← read32 bytes (p + 4)
    flags ← read32 bytes (p + 8)
    add_cpu s uid id flags

  unfoldable pub x2apic_nmi : Result Parse
  x2apic_nmi = do
    guard (leb 12 size)
    guard (not (length s.topology.local_nmis == max_nmis))
    lint ← byte bytes (p + 8)
    guard (leb lint 1)
    flags ← read16 bytes (p + 2)
    guard (interrupt_flags_valid flags)
    uid ← read32 bytes (p + 4)
    ok (add_local_nmi uid flags lint (uid == 2 ^ 32 - 1))

  unfoldable pub entry : ℕ → Result Parse
  entry kind =
      if kind == 0
      then local_apic
      else if kind == 1
      then io_apic
      else if kind == 2
      then source_override
      else if kind == 3
      then io_nmi
      else if kind == 4
      then local_nmi
      else if kind == 5
      then lapic_override
      else if kind == 9
      then local_x2apic
      else if kind == 10
      then x2apic_nmi
      else ok s

-- for (offset = 44; offset < length;). Each round moves on by at least two bytes, so a fuel of
-- `length` is enough: Madt.Sound.
unfoldable pub entries : ℕ → List ℕ → ℕ → ℕ → Parse → Result Parse
entries zero bytes count offset s = out_of_fuel
entries (suc fuel) bytes count offset s =
    if ltb offset count
    then (do
      guard (leb 2 (count - offset))
      size ← byte bytes (offset + 1)
      guard (leb 2 size && leb size (count - offset))
      kind ← byte bytes offset
      s' ← entry bytes offset size s kind
      entries fuel bytes count (offset + size) s')
    else ok s

abbrev pub topology_usable : Topology → Bool
topology_usable t =
    not (length t.cpus == 0)
    && not (length t.ioapics == 0)
    && not (t.lapic_address == 0)
    && t.lapic_address % 4096 == 0
    && ltb t.lapic_address (2 ^ 52)

-- `data` and `t` are not null.
unfoldable pub parse_madt : List ℕ → ℕ → Result Topology
parse_madt bytes available = do
  guard (leb 44 available)
  count ← read32 bytes 4
  a ← byte bytes 0
  p ← byte bytes 1
  i ← byte bytes 2
  c ← byte bytes 3
  guard (a == b'A' && p == b'P' && i == b'I' && c == b'C')
  guard (leb 44 count && leb count available)
  valid ← checksum_valid bytes count
  guard valid
  address ← read32 bytes 36
  flags ← read32 bytes 40
  s ←
      entries (suc count) bytes count 44
        (record { topology = initial address flags; address_override = false })
  guard (topology_usable s.topology)
  ok s.topology
