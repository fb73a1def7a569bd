-- ===== src/Madt/IsSound.antt =====
-- When a topology of src/firmware/madt.h is in order, and what a new entry must satisfy to keep it so.
use cone_os.Prelude.{Pairwise, ℕ, ◌%◌, ◌≤◌, ◌≡◌, ◌≢◌, false, List, [], ◌∷◌, arith, length, All}
use cone_os.Madt.Tables.{
  Cpu, IoApic, Topology, max_cpus, max_ioapics, max_nmis, has_cpu, has_ioapic,
}

abbrev pub CpusDiffer : Cpu → Cpu → Type 0
CpusDiffer c d = (c.apic_id ≢ d.apic_id) × (c.uid ≢ d.uid)

abbrev pub IoApicsDiffer : IoApic → IoApic → Type 0
IoApicsDiffer c d = (c.id ≢ d.id) × (c.address ≢ d.address)

abbrev pub IsPageAddress : ℕ → Type 0
IsPageAddress a = (a ≢ 0) × (a % 4096 ≡ 0)

-- The tables are within their arrays, no two processors share an id, no two controllers share an id
-- or an address, and a controller's address is that of a page.
pub record IsSound (t : Topology) : Type 0 where
  pub cpus_fit : length t.cpus ≤ max_cpus
  pub cpus_differ : Pairwise CpusDiffer t.cpus
  pub ioapics_fit : length t.ioapics ≤ max_ioapics
  pub ioapics_differ : Pairwise IoApicsDiffer t.ioapics
  pub ioapic_pages : All (λ c. IsPageAddress c.address) t.ioapics
  pub sixteen_irqs : length t.isa_irqs ≡ 16
  pub local_nmis_fit : length t.local_nmis ≤ max_nmis
  pub lints : All (λ n. n.lint ≤ 1) t.local_nmis
  pub io_nmis_fit : length t.io_nmis ≤ max_nmis

pub has_cpu-Differ :
    (cpus : List Cpu) (uid id flags : ℕ)
    → has_cpu cpus uid id ≡ false
    → All (λ c. CpusDiffer c (record { uid = uid; apic_id = id; flags = flags })) cpus
unfolding has_cpu
has_cpu-Differ [] uid id flags h = tt
has_cpu-Differ (c ∷ rest) uid id flags h =
    ((ground arith, ground arith), has_cpu-Differ rest uid id flags (ground arith))

pub has_ioapic-Differ :
    (ioapics : List IoApic) (id address gsi_base : ℕ)
    → has_ioapic ioapics id address ≡ false
    → All
        (λ c. IoApicsDiffer c (record { address = address; gsi_base = gsi_base; id = id }))
        ioapics
unfolding has_ioapic
has_ioapic-Differ [] id address gsi_base h = tt
has_ioapic-Differ (c ∷ rest) id address gsi_base h =
    ((ground arith, ground arith), has_ioapic-Differ rest id address gsi_base (ground arith))
