-- ===== src/Process/Heap.antt =====
-- process_brk of src/kernel/process.c: the heap of a process.
use cone_os.Process.{
  Process, Processes, CallResult, einval, enomem, value, Spaces, memory_limit_pages,
  current_process,
}
use cone_os.Process.Mappings.{unmap_mapping}
use cone_os.Prelude.{
  ℕ, zero, suc, ◌+◌, ◌-◌, ◌/◌, ◌%◌, Bool, false, ◌||◌, ◌==◌, ltb, leb, none, some, set,
  if◌then◌else◌, align_up, page_size, add64, sub64,
}

-- USER_STACK_ADDRESS
abbrev pub user_stack : ℕ
user_stack = 0x800000

-- How much of the loop's range lies in the page of the address.
abbrev pub amount : ℕ → ℕ → ℕ
amount address stop =
    let rest = page_size - address % page_size in
    if ltb (stop - address) rest then stop - address else rest

-- The bytes from an address to another are cleared where a page is mapped; a round for each page,
-- and one more.
unfoldable pub clear_range {ℓ} : {W : Type ℓ} → Spaces W → ℕ → ℕ → ℕ → ℕ → W → W
clear_range spaces space zero address stop w = w
clear_range spaces space (suc fuel) address stop w =
    if leb stop address
    then w
    else let n = amount address stop in
      clear_range spaces space fuel (address + n) stop (elim (spaces.translate space address w) [
        | none ↦ w
        | some physical ↦ spaces.clear_bytes physical n w
      ])

abbrev pub heap_pages : ℕ → ℕ → ℕ
heap_pages base stop = sub64 (align_up stop page_size) base / page_size

-- The new pages are more than the limit leaves.
abbrev pub over_heap_limit : ℕ → ℕ → ℕ → Bool
over_heap_limit committed old_pages new_pages =
    if ltb old_pages new_pages
    then ltb memory_limit_pages committed
      || ltb (memory_limit_pages - committed) (new_pages - old_pages)
    else false

-- process_brk for a process: the result and the record.
unfoldable pub brk : ℕ → Process → CallResult × Process
brk requested p =
    let old_pages = heap_pages p.heap_base p.program_break in
    let new_pages = heap_pages p.heap_base requested in
    if requested == 0
    then (value p.program_break, p)
    else if ltb requested p.heap_base || ltb (user_stack - page_size) requested
    then (einval, p)
    else if over_heap_limit p.committed_pages old_pages new_pages
    then (enomem, p)
    else (
      value requested,
      record p {
        program_break = requested;
        committed_pages =
            if leb old_pages new_pages
            then add64 p.committed_pages (new_pages - old_pages)
            else sub64 p.committed_pages (old_pages - new_pages);
      },
    )

-- What process_brk does to the pages between the old break and the new one.
unfoldable pub move_break {ℓ} : {W : Type ℓ} → Spaces W → ℕ → ℕ → ℕ → W → W
move_break spaces space old requested w =
    if ltb old requested
    then clear_range spaces space ((requested - old) / page_size + 2) old requested w
    else unmap_mapping spaces space
        ((align_up old page_size - align_up requested page_size) / page_size)
        (align_up requested page_size) w

-- process_brk
unfoldable pub process_brk {ℓ} :
    {W : Type ℓ} → Spaces W → ℕ → ℕ → Processes W → CallResult × Processes W
process_brk spaces current requested s = elim (current_process current s.processes) [
  | none ↦ (einval, s)
  | some (i, (p, space)) ↦
      let (result, p') = brk requested p in
      elim result [
        | value n ↦ (
          value n,
          if requested == 0 then s else record {
            processes = set s.processes i p';
            world = move_break spaces space p.program_break requested s.world;
          },
        )
        | other ↦ (other, s)
      ]
]
