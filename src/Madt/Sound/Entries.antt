-- ===== src/Madt/Sound/Entries.antt =====
-- Each case of the switch of src/firmware/madt.c reads within its entry and keeps the topology in
-- order.
use cone_os.Prelude.{
  All-append_one, Pairwise-append_one, ℕ, ◌+◌, ◌-◌, ◌%◌, ◌^◌, ◌≤◌, ◌≡◌, Bool, true, false, not,
  ◌&&◌, List, [], ◌∷◌, ◌++◌, arith, length, length-append, length-set, get_or, ltb, leb, ◌==◌,
  if◌then◌else◌,
}
use cone_os.Madt.{
  Parse, entry, add_cpu, local_apic, io_apic, source_override, io_nmi, local_nmi, lapic_override,
  local_x2apic, x2apic_nmi, add_local_nmi,
}
use cone_os.Madt.Monad.{Result}
use cone_os.Madt.Tables.{
  max_cpus, max_ioapics, max_nmis, has_cpu, has_ioapic, interrupt_flags_valid, no_irq,
}
use cone_os.Madt.IsSound.{
  IsSound, CpusDiffer, IoApicsDiffer, IsPageAddress, has_cpu-Differ, has_ioapic-Differ,
}
use cone_os.Madt.Ensures.{
  Ensures, Ensures-guard, Ensures-byte, Ensures-read16, Ensures-read32, Ensures-read64,
}

abbrev Sound : Parse → Type 0
Sound s = IsSound s.topology

one_more :
    {A : Type 0} (xs : List A) (x : A) (n : ℕ)
    → length xs ≤ n
    → not (length xs == n) ≡ true
    → length (xs ++ (x ∷ [])) ≤ n
one_more xs x n h e = ground (arith, length-append xs (x ∷ []))

add_cpu-Ensures : (s : Parse) (uid id flags : ℕ) → Sound s → Ensures Sound (add_cpu s uid id flags)
unfolding add_cpu
add_cpu-Ensures s uid id flags h =
    Ensures-guard Sound (not (length s.topology.cpus == max_cpus)) _ (λ room.
      Ensures-guard Sound (not (has_cpu s.topology.cpus uid id)) _ (λ fresh. record {
        cpus_fit = one_more s.topology.cpus _ 64 h.cpus_fit room;
        cpus_differ =
            Pairwise-append_one CpusDiffer s.topology.cpus _ h.cpus_differ
              (has_cpu-Differ s.topology.cpus uid id flags (ground arith));
        ioapics_fit = h.ioapics_fit;
        ioapics_differ = h.ioapics_differ;
        ioapic_pages = h.ioapic_pages;
        sixteen_irqs = h.sixteen_irqs;
        local_nmis_fit = h.local_nmis_fit;
        lints = h.lints;
        io_nmis_fit = h.io_nmis_fit;
      }))

module _ (bytes : List ℕ) (p size : ℕ) (s : Parse) (inside : p + size ≤ length bytes)
    (h : Sound s) where
  local_apic-Ensures : Ensures Sound (local_apic bytes p size s)
  unfolding local_apic
  local_apic-Ensures = Ensures-guard Sound (leb 8 size) _ (λ fits.
      Ensures-byte Sound bytes (p + 2) _ (ground arith) (λ uid.
        Ensures-byte Sound bytes (p + 3) _ (ground arith) (λ id.
          Ensures-read32 Sound bytes (p + 4) _ (ground arith)
            (λ flags. add_cpu-Ensures s uid id flags h))))

  local_x2apic-Ensures : Ensures Sound (local_x2apic bytes p size s)
  unfolding local_x2apic
  local_x2apic-Ensures = Ensures-guard Sound (leb 16 size) _ (λ fits.
      Ensures-read32 Sound bytes (p + 12) _ (ground arith) (λ uid.
        Ensures-read32 Sound bytes (p + 4) _ (ground arith) (λ id.
          Ensures-read32 Sound bytes (p + 8) _ (ground arith)
            (λ flags. add_cpu-Ensures s uid id flags h))))

  io_apic-Ensures : Ensures Sound (io_apic bytes p size s)
  unfolding io_apic
  io_apic-Ensures = Ensures-guard Sound (leb 12 size) _ (λ fits.
      Ensures-guard Sound (not (length s.topology.ioapics == max_ioapics)) _ (λ room.
        Ensures-read32 Sound bytes (p + 4) _ (ground arith) (λ address.
          Ensures-guard Sound (not (address == 0) && address % 4096 == 0) _ (λ page.
            Ensures-byte Sound bytes (p + 2) _ (ground arith) (λ id.
              Ensures-guard Sound (not (has_ioapic s.topology.ioapics id address)) _ (λ fresh.
                Ensures-read32 Sound bytes (p + 8) _ (ground arith) (λ gsi_base. record {
                  ioapics_fit = one_more s.topology.ioapics _ 8 h.ioapics_fit room;
                  ioapics_differ =
                      Pairwise-append_one IoApicsDiffer s.topology.ioapics _ h.ioapics_differ
                        (has_ioapic-Differ s.topology.ioapics id address gsi_base (ground arith));
                  ioapic_pages =
                      All-append_one (λ c. IsPageAddress c.address) s.topology.ioapics _
                        h.ioapic_pages (ground arith, ground arith);
                  cpus_fit = h.cpus_fit;
                  cpus_differ = h.cpus_differ;
                  sixteen_irqs = h.sixteen_irqs;
                  local_nmis_fit = h.local_nmis_fit;
                  lints = h.lints;
                  io_nmis_fit = h.io_nmis_fit;
                })))))))

  source_override-Ensures : Ensures Sound (source_override bytes p size s)
  unfolding source_override
  source_override-Ensures = Ensures-guard Sound (leb 10 size) _ (λ fits.
      Ensures-byte Sound bytes (p + 2) _ (ground arith) (λ bus.
        Ensures-guard Sound (bus == 0) _ (λ isa.
          Ensures-byte Sound bytes (p + 3) _ (ground arith) (λ source.
            Ensures-guard Sound (ltb source 16) _ (λ line.
              Ensures-read16 Sound bytes (p + 8) _ (ground arith) (λ flags.
                Ensures-guard Sound (interrupt_flags_valid flags) _ (λ valid.
                  Ensures-guard Sound (not (get_or s.topology.isa_irqs source no_irq).overridden) _
                    (λ first. Ensures-read32 Sound bytes (p + 4) _ (ground arith) (λ gsi. record {
                      sixteen_irqs = omega (
                        arith,
                        length-set s.topology.isa_irqs source
                            (record { gsi = gsi; flags = flags; overridden = true }),
                        h.sixteen_irqs,
                      );
                      cpus_fit = h.cpus_fit;
                      cpus_differ = h.cpus_differ;
                      ioapics_fit = h.ioapics_fit;
                      ioapics_differ = h.ioapics_differ;
                      ioapic_pages = h.ioapic_pages;
                      local_nmis_fit = h.local_nmis_fit;
                      lints = h.lints;
                      io_nmis_fit = h.io_nmis_fit;
                    })))))))))

  io_nmi-Ensures : Ensures Sound (io_nmi bytes p size s)
  unfolding io_nmi
  io_nmi-Ensures = Ensures-guard Sound (leb 8 size) _ (λ fits.
      Ensures-guard Sound (not (length s.topology.io_nmis == max_nmis)) _ (λ room.
        Ensures-read16 Sound bytes (p + 2) _ (ground arith) (λ flags.
          Ensures-guard Sound (interrupt_flags_valid flags) _ (λ valid.
            Ensures-read32 Sound bytes (p + 4) _ (ground arith) (λ gsi. record {
              io_nmis_fit = one_more s.topology.io_nmis _ 64 h.io_nmis_fit room;
              cpus_fit = h.cpus_fit;
              cpus_differ = h.cpus_differ;
              ioapics_fit = h.ioapics_fit;
              ioapics_differ = h.ioapics_differ;
              ioapic_pages = h.ioapic_pages;
              sixteen_irqs = h.sixteen_irqs;
              local_nmis_fit = h.local_nmis_fit;
              lints = h.lints;
            })))))

  add_local_nmi-IsSound :
      (uid flags lint : ℕ) (all_cpus : Bool)
      → not (length s.topology.local_nmis == max_nmis) ≡ true
      → leb lint 1 ≡ true
      → Sound (add_local_nmi bytes p size s uid flags lint all_cpus)
  add_local_nmi-IsSound uid flags lint all_cpus room low = record {
    local_nmis_fit = one_more s.topology.local_nmis _ 64 h.local_nmis_fit room;
    lints = All-append_one (λ n. n.lint ≤ 1) s.topology.local_nmis _ h.lints (ground arith);
    cpus_fit = h.cpus_fit;
    cpus_differ = h.cpus_differ;
    ioapics_fit = h.ioapics_fit;
    ioapics_differ = h.ioapics_differ;
    ioapic_pages = h.ioapic_pages;
    sixteen_irqs = h.sixteen_irqs;
    io_nmis_fit = h.io_nmis_fit;
  }

  local_nmi-Ensures : Ensures Sound (local_nmi bytes p size s)
  unfolding local_nmi
  local_nmi-Ensures = Ensures-guard Sound (leb 6 size) _ (λ fits.
      Ensures-guard Sound (not (length s.topology.local_nmis == max_nmis)) _ (λ room.
        Ensures-byte Sound bytes (p + 5) _ (ground arith) (λ lint.
          Ensures-guard Sound (leb lint 1) _ (λ low.
            Ensures-read16 Sound bytes (p + 3) _ (ground arith) (λ flags.
              Ensures-guard Sound (interrupt_flags_valid flags) _ (λ valid.
                Ensures-byte Sound bytes (p + 2) _ (ground arith)
                  (λ uid. add_local_nmi-IsSound uid flags lint (uid == 255) room low)))))))

  x2apic_nmi-Ensures : Ensures Sound (x2apic_nmi bytes p size s)
  unfolding x2apic_nmi
  x2apic_nmi-Ensures = Ensures-guard Sound (leb 12 size) _ (λ fits.
      Ensures-guard Sound (not (length s.topology.local_nmis == max_nmis)) _ (λ room.
        Ensures-byte Sound bytes (p + 8) _ (ground arith) (λ lint.
          Ensures-guard Sound (leb lint 1) _ (λ low.
            Ensures-read16 Sound bytes (p + 2) _ (ground arith) (λ flags.
              Ensures-guard Sound (interrupt_flags_valid flags) _ (λ valid.
                Ensures-read32 Sound bytes (p + 4) _ (ground arith)
                  (λ uid. add_local_nmi-IsSound uid flags lint (uid == 2 ^ 32 - 1) room low)))))))

  lapic_override-Ensures : Ensures Sound (lapic_override bytes p size s)
  unfolding lapic_override
  lapic_override-Ensures = Ensures-guard Sound (leb 12 size) _ (λ fits.
      Ensures-guard Sound (not s.address_override) _ (λ first.
        Ensures-read64 Sound bytes (p + 4) _ (ground arith) (λ address. record {
          cpus_fit = h.cpus_fit;
          cpus_differ = h.cpus_differ;
          ioapics_fit = h.ioapics_fit;
          ioapics_differ = h.ioapics_differ;
          ioapic_pages = h.ioapic_pages;
          sixteen_irqs = h.sixteen_irqs;
          local_nmis_fit = h.local_nmis_fit;
          lints = h.lints;
          io_nmis_fit = h.io_nmis_fit;
        })))

  Ensures-if :
      (b : Bool) (m n : Result Parse)
      → Ensures Sound m
      → Ensures Sound n
      → Ensures Sound (if b then m else n)
  Ensures-if true m n hm hn = hm
  Ensures-if false m n hm hn = hn

  pub entry-Ensures : (kind : ℕ) → Ensures Sound (entry bytes p size s kind)
  unfolding entry
  entry-Ensures kind = Ensures-if (kind == 0) _ _ local_apic-Ensures (
      Ensures-if (kind == 1) _ _ io_apic-Ensures (
        Ensures-if (kind == 2) _ _ source_override-Ensures (
          Ensures-if (kind == 3) _ _ io_nmi-Ensures (
            Ensures-if (kind == 4) _ _ local_nmi-Ensures (
              Ensures-if (kind == 5) _ _ lapic_override-Ensures (
                Ensures-if (kind == 9) _ _ local_x2apic-Ensures
                  (Ensures-if (kind == 10) _ _ x2apic_nmi-Ensures h)))))))
