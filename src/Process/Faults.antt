-- ===== src/Process/Faults.antt =====
-- process_handle_page_fault of src/kernel/process.c.
use cone_os.Process.{Process, Processes, Spaces, Fault, unhandled, failed, handled, current_process}
use cone_os.Process.Regions.{mapping_covering}
use cone_os.Process.Mappings.{readable, writable, executable, is_mapped}
use cone_os.Prelude.{
  ℕ, ◌-◌, ◌/◌, ◌%◌, Bool, not, ◌&&◌, ◌||◌, ◌==◌, ltb, leb, none, some, if◌then◌else◌, page_size,
}

-- The bits of the error code: the page is present, a write, from user mode, a reserved bit, a fetch.
abbrev pub fault_bit : ℕ → ℕ → Bool
fault_bit code k = code / k % 2 == 1

-- The protection that the process has given the address, or 0.
unfoldable pub protection_at : Process → ℕ → ℕ
protection_at p address =
    if leb p.heap_base address && ltb address p.program_break
    then 3
    else elim (mapping_covering p.mappings address) [ none ↦ 0 | some r ↦ r.protection ]

-- The access that faulted is allowed.
abbrev pub allows : ℕ → ℕ → Bool
allows code protection =
    readable protection
    && not (fault_bit code 2 && not (writable protection))
    && not (fault_bit code 16 && not (executable protection))

-- A page of zeros is mapped at the address, with the flags of the protection.
unfoldable pub map_zeros {ℓ} : {W : Type ℓ} → Spaces W → ℕ → ℕ → ℕ → W → Fault × W
map_zeros spaces space page protection w =
    let (physical, w) = spaces.alloc_user_page w in
    elim physical [
      | none ↦ (failed, w)
      | some p ↦
          let w = spaces.clear_bytes p page_size w in
          let (ok, w) =
            spaces.map_page space page p (writable protection) (not (executable protection)) w in
          if ok then (handled, w) else (failed, spaces.free_page p w)
    ]

-- process_handle_page_fault, for a process and its space.
unfoldable pub fault {ℓ} : {W : Type ℓ} → Spaces W → ℕ → Process → ℕ → ℕ → W → Fault × W
fault spaces space p address code w =
    let (copied, w') = spaces.resolve_cow space address w in
    let protection = protection_at p address in
    let page = address - address % page_size in
    if fault_bit code 1
    then if not (fault_bit code 2) then (unhandled, w) else (copied, w')
    else if not (allows code protection)
    then (unhandled, w)
    else if is_mapped spaces space w page
    then (unhandled, w)
    else map_zeros spaces space page protection w

unfoldable pub process_handle_page_fault {ℓ} :
    {W : Type ℓ} → Spaces W → ℕ → ℕ → ℕ → Processes W → Fault × Processes W
process_handle_page_fault spaces current address code s =
    if not (fault_bit code 4) || fault_bit code 8
    then (unhandled, s)
    else elim (current_process current s.processes) [
      | none ↦ (unhandled, s)
      | some (i, (p, space)) ↦
          let (result, w) = fault spaces space p address code s.world in
          (result, record s { world = w })
    ]
