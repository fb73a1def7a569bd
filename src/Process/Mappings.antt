-- ===== src/Process/Mappings.antt =====
-- process_mmap and process_munmap of src/kernel/process.c.
use cone_os.Process.{
  Process, Processes, CallResult, stuck, einval, enomem, value, Spaces, memory_limit_pages,
  current_process,
}
use cone_os.Process.Regions.{
  Region, out_of_fuel, nowhere, found, find_free_mapping_slot, rounded_mapping_length,
  select_mapping_address, covered_from, any_splits, cut_regions, mmap_start, mmap_limit,
}
use cone_os.Prelude.{
  ℕ, zero, suc, ◌+◌, ◌-◌, ◌/◌, ◌%◌, Bool, true, false, not, ◌&&◌, ◌||◌, ◌==◌, ltb, leb, Option,
  none, some, List, set, if◌then◌else◌, page_size, add64, sub64,
}

-- CONEOS_PROT_READ, CONEOS_PROT_WRITE and CONEOS_PROT_EXEC are the bits 0 to 2.
abbrev pub readable : ℕ → Bool
readable protection = protection % 2 == 1

abbrev pub writable : ℕ → Bool
writable protection = protection / 2 % 2 == 1

abbrev pub executable : ℕ → Bool
executable protection = protection / 4 % 2 == 1

-- What process_mmap refuses of its arguments, but for the length. CONEOS_MAP_PRIVATE and
-- CONEOS_MAP_ANONYMOUS are the only flags.
abbrev pub mmap_refuses : ℕ → ℕ → ℕ → Bool
mmap_refuses hint protection flags =
    ltb 7 protection
    || not (readable protection)
    || (writable protection && executable protection)
    || not (flags == 3)
    || (not (hint == 0)
        && (not (hint % page_size == 0) || ltb hint mmap_start || leb mmap_limit hint))

-- A new region in a slot.
abbrev pub add_region : ℕ → ℕ → ℕ → ℕ → Process → Process
add_region slot address length protection p = record p {
  mappings =
      set p.mappings slot
        (record { start = address; end = address + length; protection = protection; used = true });
  committed_pages = add64 p.committed_pages (length / page_size);
}

-- process_mmap for a process, with the test whether a page is mapped in its space.
unfoldable pub mmap : (ℕ → Bool) → ℕ → ℕ → ℕ → ℕ → Process → CallResult × Process
mmap mapped hint length protection flags p = elim (rounded_mapping_length length) [
  | none ↦ (einval, p)
  | some rounded ↦
      if mmap_refuses hint protection flags
      then (einval, p)
      else elim (find_free_mapping_slot p.mappings) [
        | none ↦ (enomem, p)
        | some slot ↦
            if ltb memory_limit_pages p.committed_pages
              || ltb (memory_limit_pages - p.committed_pages) (rounded / page_size)
            then (enomem, p)
            else elim (select_mapping_address mapped p.mappings hint rounded) [
              | out_of_fuel ↦ (stuck, p)
              | nowhere ↦ (enomem, p)
              | found address ↦ (value address, add_region slot address rounded protection p)
            ]
      ]
]

abbrev pub is_mapped {ℓ} : {W : Type ℓ} → Spaces W → ℕ → W → ℕ → Bool
is_mapped spaces space w page = elim (spaces.translate space page w) [
  | none ↦ false
  | some physical ↦ true
]

-- process_mmap
unfoldable pub process_mmap {ℓ} :
    {W : Type ℓ} → Spaces W → ℕ → ℕ → ℕ → ℕ → ℕ → Processes W → CallResult × Processes W
process_mmap spaces current hint length protection flags s =
    elim (current_process current s.processes) [
      | none ↦ (einval, s)
      | some (i, (p, space)) ↦
          let (outcome, p') =
            mmap (is_mapped spaces space s.world) hint length protection flags p in
          (outcome, record s { processes = set s.processes i p' })
    ]

-- The pages of an address space from an address on are unmapped and freed.
unfoldable pub unmap_mapping {ℓ} : {W : Type ℓ} → Spaces W → ℕ → ℕ → ℕ → W → W
unmap_mapping spaces space zero page w = w
unmap_mapping spaces space (suc n) page w =
    let (physical, w') = spaces.unmap_page space page w in
    unmap_mapping spaces space n (page + page_size)
      (elim physical [ none ↦ w' | some p ↦ spaces.free_page p w' ])

-- The slot for the part above the cut; none if there is no free one.
unfoldable pub split_slot : ℕ → ℕ → List Region → Option ℕ
split_slot low high rs = if any_splits low high rs then find_free_mapping_slot rs else some 32

-- process_munmap for a process: how many pages from the address on are unmapped, none if the call
-- fails, and the process afterwards. The walk has fuel for a round for each byte.
unfoldable pub munmap : ℕ → ℕ → Process → CallResult × Process
munmap address length p = elim (rounded_mapping_length length) [
  | none ↦ (einval, p)
  | some rounded ↦
      if not (address % page_size == 0)
        || ltb address mmap_start
        || leb mmap_limit address
        || ltb (mmap_limit - address) rounded
      then (einval, p)
      else elim (covered_from (rounded + 1) p.mappings address (address + rounded)) [
        | none ↦ (stuck, p)
        | some covered ↦
            if not covered
            then (einval, p)
            else elim (split_slot address (address + rounded) p.mappings) [
              | none ↦ (enomem, p)
              | some slot ↦ (
                value (rounded / page_size),
                record p {
                  mappings = cut_regions slot address (address + rounded) p.mappings;
                  committed_pages = sub64 p.committed_pages (rounded / page_size);
                },
              )
            ]
      ]
]

-- process_munmap: its value is 0.
unfoldable pub process_munmap {ℓ} :
    {W : Type ℓ} → Spaces W → ℕ → ℕ → ℕ → Processes W → CallResult × Processes W
process_munmap spaces current address length s = elim (current_process current s.processes) [
  | none ↦ (einval, s)
  | some (i, (p, space)) ↦
      let (outcome, p') = munmap address length p in
      let ps = set s.processes i p' in
      elim outcome [
        | stuck ↦ (stuck, record s { processes = ps })
        | einval ↦ (einval, record s { processes = ps })
        | enomem ↦ (enomem, record s { processes = ps })
        | value pages ↦ (
          value 0,
          record { processes = ps; world = unmap_mapping spaces space pages address s.world },
        )
      ]
]
