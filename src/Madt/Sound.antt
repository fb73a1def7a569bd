-- ===== src/Madt/Sound.antt =====
-- The parser of src/firmware/madt.c stays within the bytes it is given, ends, and accepts only a
-- topology that is in order.
mod Entries
use cone_os.Prelude.{
  ℕ, zero, suc, ◌+◌, ◌-◌, ◌*◌, ◌%◌, ◌^◌, ◌<◌, ◌≤◌, ◌≡◌, ◌≢◌, refl, Bool, true, false, not, ◌&&◌,
  List, [], ◌∷◌, arith, length, ltb, leb, ◌==◌, if◌then◌else◌, Bool-cases, inl, inr,
}
use cone_os.Madt.{Parse, entry, entries, topology_usable, parse_madt, checksum, checksum_valid}
use cone_os.Madt.Monad.{Result, fault, out_of_fuel, reject, ok, ◌>>=◌, ◌>>◌, guard, byte, read32}
use cone_os.Madt.Tables.{Topology, initial, identity_irqs, max_cpus, max_ioapics, max_nmis}
use cone_os.Madt.IsSound.{IsSound}
use cone_os.Madt.Ensures.{Ensures, Ensures-bind, Ensures-guard, Ensures-byte, Ensures-read32}
use Entries.{entry-Ensures}

abbrev Sound : Parse → Type 0
Sound s = IsSound s.topology

entries-Ensures :
    (fuel : ℕ) (bytes : List ℕ) (count offset : ℕ) (s : Parse)
    → Sound s
    → count ≤ length bytes
    → count < fuel + offset
    → offset ≤ count
    → Ensures Sound (entries fuel bytes count offset s)
unfolding entries
entries-Ensures zero bytes count offset s h fit fuel_ok le = absurd (omega arith)
entries-Ensures (suc fuel) bytes count offset s h fit fuel_ok le =
    elim (Bool-cases (ltb offset count)) [
      | inr e ↦ rw e h
      | inl e ↦ rw e (
          Ensures-guard Sound (leb 2 (count - offset)) _ (λ room.
            Ensures-byte Sound bytes (offset + 1) _ (ground arith) (λ size.
              Ensures-guard Sound (leb 2 size && leb size (count - offset)) _ (λ fits.
                Ensures-byte Sound bytes offset _ (ground arith) (λ kind.
                  Ensures-bind Sound Sound (entry bytes offset size s kind) _
                    (entry-Ensures bytes offset size s (ground arith) h kind)
                    (λ s' h'.
                      entries-Ensures fuel bytes count (offset + size) s' h' fit (ground arith)
                        (ground arith)))))))
    ]

initial-IsSound : (address flags : ℕ) → IsSound (initial address flags)
unfolding initial identity_irqs
initial-IsSound address flags = record {
  cpus_fit = omega arith;
  cpus_differ = tt;
  ioapics_fit = omega arith;
  ioapics_differ = tt;
  ioapic_pages = tt;
  sixteen_irqs = refl;
  local_nmis_fit = omega arith;
  lints = tt;
  io_nmis_fit = omega arith;
}

abbrev pub Accepted : Topology → Type 0
Accepted t =
    IsSound t
    × (0 < length t.cpus)
    × (0 < length t.ioapics)
    × (t.lapic_address ≢ 0)
    × (t.lapic_address % 4096 ≡ 0)
    × (t.lapic_address < 2 ^ 52)

checksum-ok :
    (bytes : List ℕ) (count sum : ℕ)
    → count ≤ length bytes
    → (v : ℕ) × (checksum bytes count sum ≡ ok v)
unfolding checksum
checksum-ok bytes zero sum h = (sum, refl)
checksum-ok [] (suc count) sum h = absurd (omega arith)
checksum-ok (b ∷ rest) (suc count) sum h = checksum-ok rest count ((sum + b) % 256) (omega arith)

Ensures-checksum :
    (Q : Topology → Type 0) (bytes : List ℕ) (count : ℕ) (f : Bool → Result Topology)
    → count ≤ length bytes
    → ((valid : Bool) → Ensures Q (f valid))
    → Ensures Q (checksum_valid bytes count >>= f)
unfolding checksum_valid
Ensures-checksum Q bytes count f h k =
    let (sum, e) = checksum-ok bytes count 0 h in rw e (k (sum == 0))

-- If the bytes that acpi_parse_madt is told of are there, then it reads none beyond them, it ends, and
-- it rejects the table or accepts it. An accepted topology has a processor and an I/O controller, is
-- within its arrays, gives no two processors the same APIC id or uid and no two controllers the same
-- id or address, has only controllers at page addresses, and a local controller at a page address
-- below 2^52.
pub parse_madt_lem :
    (bytes : List ℕ) (available : ℕ)
    → available ≤ length bytes
    → Ensures Accepted (parse_madt bytes available)
unfolding parse_madt
parse_madt_lem bytes available fit = Ensures-guard Accepted (leb 44 available) _ (λ long.
    Ensures-read32 Accepted bytes 4 _ (ground arith) (λ count.
      Ensures-byte Accepted bytes 0 _ (ground arith) (λ a.
        Ensures-byte Accepted bytes 1 _ (ground arith) (λ p.
          Ensures-byte Accepted bytes 2 _ (ground arith) (λ i.
            Ensures-byte Accepted bytes 3 _ (ground arith) (λ c.
              Ensures-guard Accepted (a == b'A' && p == b'P' && i == b'I' && c == b'C') _
                (λ signature.
                  Ensures-guard Accepted (leb 44 count && leb count available) _ (λ bounded.
                    Ensures-checksum Accepted bytes count _ (ground arith) (λ valid.
                      Ensures-guard Accepted valid _ (λ summed.
                        Ensures-read32 Accepted bytes 36 _ (ground arith) (λ address.
                          Ensures-read32 Accepted bytes 40 _ (ground arith) (λ flags.
                            Ensures-bind Sound Accepted _ _
                              (entries-Ensures (suc count) bytes count 44 _
                                (initial-IsSound address flags) (ground arith) (ground arith)
                                (ground arith))
                              (λ s h.
                                Ensures-guard Accepted (topology_usable s.topology) (ok s.topology)
                                  (λ usable. (
                                    h,
                                    ground arith,
                                    ground arith,
                                    ground arith,
                                    ground arith,
                                    ground arith,
                                  )))))))))))))))
