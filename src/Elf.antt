-- ===== src/Elf.antt =====
-- src/kernel/elf.c: the loader of executables. The image is the list of its bytes, a read outside it
-- is a fault, and the user address space with the page allocator is a set of services.
pub mod Image
pub mod Services
pub mod Segments
pub mod Safety
mod Tests
use cone_os.Prelude.{
  ℕ, zero, suc, ◌+◌, ◌-◌, ◌*◌, ◌/◌, Bool, true, false, not, ◌&&◌, ◌||◌, Option, none, some, List,
  ltb, leb, ◌==◌, if◌then◌else◌, sub64, max,
}
use Image.{
  Header, ProgramHeader, elf_header, program_header, ident_valid, header_bytes,
  program_header_bytes,
}
use Services.{SpaceServices, LoadResult, fault, out_of_fuel, invalid, out_of_memory, success}
use Segments.{page_floor, range_valid, user_address_limit, flag_execute, load_segment}

-- USER_STACK_ADDRESS
abbrev pub user_stack_address : ℕ
user_stack_address = 0x800000

-- What elf_load writes through its pointers.
pub record Loaded : Type 0 where
  pub entry_point : ℕ
  pub image_end : ℕ
  pub mapped_pages : ℕ

-- The variables of the loop over the program headers.
pub record Totals : Type 0 where
  pub entry_is_executable : Bool
  pub highest_end : ℕ
  pub total_pages : ℕ

unfoldable pub header_valid : Header → ℕ → Bool
header_valid h image_size =
    h.type == 2
    && h.machine == 62
    && h.version == 1
    && h.program_entry_size == program_header_bytes
    && not (h.program_count == 0)
    && range_valid h.program_offset (h.program_count * h.program_entry_size) image_size
    && ltb h.entry user_address_limit

abbrev pub segment_pages : ProgramHeader → ℕ
segment_pages p =
    if p.memory_size == 0
    then 0
    else (p.virtual_address + p.memory_size - 1 - page_floor p.virtual_address) / 4096 + 1

abbrev pub count_segment : ℕ → ProgramHeader → Totals → Totals
count_segment entry p t = record {
  entry_is_executable =
      t.entry_is_executable
      || (flag_execute p.flags
          && leb p.virtual_address entry
          && ltb (entry - p.virtual_address) p.memory_size);
  highest_end = max t.highest_end (p.virtual_address + p.memory_size);
  total_pages = t.total_pages + segment_pages p;
}

-- A segment's result, where a success hands on the totals.
abbrev pub with_totals : LoadResult (Unit {0}) → Totals → LoadResult Totals
with_totals fault t = fault
with_totals out_of_fuel t = out_of_fuel
with_totals invalid t = invalid
with_totals out_of_memory t = out_of_memory
with_totals (success u) t = success t

-- The end of elf_load.
unfoldable pub finish : {S : Type 0} → ℕ → LoadResult Totals × S → LoadResult Loaded × S
finish entry (fault, s) = (fault, s)
finish entry (out_of_fuel, s) = (out_of_fuel, s)
finish entry (invalid, s) = (invalid, s)
finish entry (out_of_memory, s) = (out_of_memory, s)
finish entry (success t, s) =
    if not t.entry_is_executable || leb (user_stack_address - 4096) t.highest_end
    then (invalid, s)
    else (
      success
          (record { entry_point = entry; image_end = t.highest_end; mapped_pages = t.total_pages }),
      s,
    )

module _ {S : Type 0} (services : SpaceServices S) (image : List ℕ)
    (image_size page_limit : ℕ) where
  -- The body of the loop: `continue` and the end of the body both go on with the totals.
  unfoldable pub load_program : ℕ → ProgramHeader → Totals → S → LoadResult Totals × S
  load_program entry p t s =
      if not (p.type == 1)
      then (success t, s)
      else if not (range_valid p.virtual_address p.memory_size user_address_limit)
      then (invalid, s)
      else if ltb (sub64 page_limit t.total_pages) (segment_pages p)
      then (out_of_memory, s)
      else let (r, s') = load_segment services image image_size p s in
        (with_totals r (count_segment entry p t), s')

  -- for (i = 0; i < program_count; i++), with `left` headers to come, the next one at `offset`.
  unfoldable pub load_programs : ℕ → ℕ → ℕ → Totals → S → LoadResult Totals × S
  load_programs entry offset zero t s = (success t, s)
  load_programs entry offset (suc left) t s = elim (program_header image offset) [
    | none ↦ (fault, s)
    | some p ↦
        let (r, s') = load_program entry p t s in
        elim r [
          | fault ↦ (fault, s')
          | out_of_fuel ↦ (out_of_fuel, s')
          | invalid ↦ (invalid, s')
          | out_of_memory ↦ (out_of_memory, s')
          | success t' ↦ load_programs entry (offset + program_header_bytes) left t' s'
        ]
  ]

  -- None of the pointers is null.
  unfoldable pub elf_load : S → LoadResult Loaded × S
  elf_load s = if ltb image_size header_bytes then (invalid, s) else elim (elf_header image) [
    | none ↦ (fault, s)
    | some h ↦
        if not (ident_valid h) || not (header_valid h image_size)
        then (invalid, s)
        else finish h.entry (
            load_programs h.entry h.program_offset h.program_count
              (record { entry_is_executable = false; highest_end = 0; total_pages = 0 }) s)
  ]
