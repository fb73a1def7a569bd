-- ===== src/Madt/Tests.antt =====
-- A table of one processor and one I/O controller.
use cone_os.Prelude.{ℕ, ◌≡◌, refl, List, [], ◌∷◌, ◌++◌, arith, replicate}
use cone_os.Madt.{
  parse_madt, checksum, checksum_valid, entries, entry, local_apic, io_apic, add_cpu,
}
use cone_os.Madt.Monad.{Result, ok, byte, read16, read32}
use cone_os.Madt.Tables.{Topology, initial, identity_irqs, has_cpu, has_ioapic, Cpu}
use cone_os.Madt.Ensures.{Ensures}
use cone_os.Madt.Sound.{Accepted, parse_madt_lem}

abbrev table : List ℕ
table =
    b'A'
    ∷ b'P'
    ∷ b'I'
    ∷ b'C'
    ∷ 64
    ∷ 0
    ∷ 0
    ∷ 0
    ∷ 1
    ∷ 227
    ∷ (replicate 26 0
        ++ (0 ∷ 0 ∷ 224 ∷ 254 ∷ 1 ∷ 0 ∷ 0 ∷ 0 ∷ 0 ∷ 8 ∷ 3 ∷ 7 ∷ 1 ∷ 0 ∷ 0 ∷ 0 ∷ 1 ∷ 12 ∷ 2 ∷ 0 ∷ 0
            ∷ 0 ∷ 192 ∷ 254 ∷ 0 ∷ 0 ∷ 0 ∷ 0 ∷ []))

cpus_of : Result Topology → List Cpu
cpus_of (ok t) = t.cpus
cpus_of r = []

parse_madt-table : cpus_of (parse_madt table 64) ≡ record { uid = 3; apic_id = 7; flags = 1 } ∷ []
unfolding cpus_of parse_madt checksum checksum_valid entries entry local_apic io_apic add_cpu byte
    read16 read32 initial identity_irqs has_cpu has_ioapic
parse_madt-table = refl

parse_madt_lem_example : Ensures Accepted (parse_madt table 64)
parse_madt_lem_example = parse_madt_lem table 64 (omega arith)
