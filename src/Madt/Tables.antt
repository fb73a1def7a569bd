-- ===== src/Madt/Tables.antt =====
-- The topology of src/firmware/madt.h: an array and its count are a list.
use cone_os.Prelude.{
  ℕ, zero, suc, ◌+◌, ◌/◌, ◌%◌, Bool, false, not, ◌&&◌, ◌||◌, List, [], ◌∷◌, ltb, ◌==◌,
}

pub record Cpu : Type 0 where
  pub uid : ℕ
  pub apic_id : ℕ
  pub flags : ℕ

pub record IoApic : Type 0 where
  pub address : ℕ
  pub gsi_base : ℕ
  pub id : ℕ

pub record IsaIrq : Type 0 where
  pub gsi : ℕ
  pub flags : ℕ
  pub overridden : Bool

pub record LocalNmi : Type 0 where
  pub uid : ℕ
  pub flags : ℕ
  pub lint : ℕ
  pub all_cpus : Bool

pub record IoNmi : Type 0 where
  pub gsi : ℕ
  pub flags : ℕ

pub record Topology : Type 0 where
  pub lapic_address : ℕ
  pub flags : ℕ
  pub cpus : List Cpu
  pub ioapics : List IoApic
  pub isa_irqs : List IsaIrq
  pub local_nmis : List LocalNmi
  pub io_nmis : List IoNmi

-- ACPI_MAX_CPUS, ACPI_MAX_IOAPICS, ACPI_MAX_NMIS
abbrev pub max_cpus : ℕ
max_cpus = 64

abbrev pub max_ioapics : ℕ
max_ioapics = 8

abbrev pub max_nmis : ℕ
max_nmis = 64

abbrev pub no_irq : IsaIrq
no_irq = record { gsi = 0; flags = 0; overridden = false }

-- The identity mapping of the `count` interrupts from `first` on.
unfoldable pub identity_irqs : ℕ → ℕ → List IsaIrq
identity_irqs first zero = []
identity_irqs first (suc count) = record no_irq { gsi = first } ∷ identity_irqs (first + 1) count

unfoldable pub initial : ℕ → ℕ → Topology
unfolding identity_irqs
initial address flags = record {
  lapic_address = address;
  flags = flags;
  cpus = [];
  ioapics = [];
  isa_irqs = identity_irqs 0 16;
  local_nmis = [];
  io_nmis = [];
}

-- !(flags & ~0xFU) && (flags & 3) != 2 && ((flags >> 2) & 3) != 2
unfoldable pub interrupt_flags_valid : ℕ → Bool
interrupt_flags_valid flags = ltb flags 16 && not (flags % 4 == 2) && not (flags / 4 % 4 == 2)

-- Does a processor with this APIC id or this uid stand in the list?
unfoldable pub has_cpu : List Cpu → ℕ → ℕ → Bool
has_cpu [] uid id = false
has_cpu (c ∷ rest) uid id = (c.apic_id == id || c.uid == uid) || has_cpu rest uid id

unfoldable pub has_ioapic : List IoApic → ℕ → ℕ → Bool
has_ioapic [] id address = false
has_ioapic (c ∷ rest) id address =
    (c.id == id || c.address == address) || has_ioapic rest id address
