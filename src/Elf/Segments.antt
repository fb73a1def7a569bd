-- ===== src/Elf/Segments.antt =====
-- load_segment of src/kernel/elf.c.
use cone_os.Prelude.{
  ℕ, zero, suc, ◌+◌, ◌-◌, ◌/◌, ◌%◌, min, Bool, not, ◌&&◌, Option, none, some, List, ltb, leb, ◌==◌,
  if◌then◌else◌, take, drop, length,
}
use cone_os.Elf.Image.{ProgramHeader}
use cone_os.Elf.Services.{
  SpaceServices, PageFlags, LoadResult, fault, out_of_fuel, invalid, out_of_memory, success,
}

-- USER_ADDRESS_LIMIT
abbrev pub user_address_limit : ℕ
user_address_limit = 0x800000000000

abbrev pub page_floor : ℕ → ℕ
page_floor value = value - value % 4096

abbrev pub range_valid : ℕ → ℕ → ℕ → Bool
range_valid start size limit = leb start limit && leb size (limit - start)

-- flags & ELF_FLAG_EXECUTE, flags & ELF_FLAG_WRITE
abbrev pub flag_execute : ℕ → Bool
flag_execute flags = flags % 2 == 1

abbrev pub flag_write : ℕ → Bool
flag_write flags = flags / 2 % 2 == 1

abbrev pub page_flags : ℕ → PageFlags
page_flags flags = record { writable = flag_write flags; no_execute = not (flag_execute flags) }

abbrev pub slice : List ℕ → ℕ → ℕ → Option (List ℕ)
slice image p count =
    if leb (p + count) (length image) then some (take count (drop p image)) else none

module _ {S : Type 0} (services : SpaceServices S) where
  -- for (page = page_floor(virtual_address); page < end; page += PMM_PAGE_SIZE)
  unfoldable pub map_segment : ℕ → ℕ → ℕ → PageFlags → S → LoadResult (Unit {0}) × S
  map_segment zero page end flags s = (out_of_fuel, s)
  map_segment (suc fuel) page end flags s =
      if ltb page end
      then (elim (services.translate s page) [
        | some p ↦ (invalid, s)
        | none ↦
            let (physical, t) = services.alloc_user_page s in
            elim physical [
              | none ↦ (out_of_memory, t)
              | some p ↦
                  let (mapped, u) = services.map_page page p flags (services.zero_page p t) in
                  let rest = map_segment fuel (page + 4096) end flags u in
                  if mapped then rest else (out_of_memory, services.free_page p u)
            ]
      ])
      else (success tt, s)

  abbrev pub chunk_of : ProgramHeader → ℕ → ℕ
  chunk_of p copied = min (4096 - (p.virtual_address + copied) % 4096) (p.file_size - copied)

  -- while (copied < program->file_size)
  unfoldable pub copy_segment : ℕ → List ℕ → ProgramHeader → ℕ → S → LoadResult (Unit {0}) × S
  copy_segment zero image p copied s = (out_of_fuel, s)
  copy_segment (suc fuel) image p copied s =
      if ltb copied p.file_size
      then (elim (services.translate s (p.virtual_address + copied)) [
        | none ↦ (invalid, s)
        | some physical ↦ elim (slice image (p.offset + copied) (chunk_of p copied)) [
          | none ↦ (fault, s)
          | some bytes ↦
              copy_segment fuel image p (copied + chunk_of p copied)
                (services.copy_bytes physical bytes s)
        ]
      ])
      else (success tt, s)

  abbrev pub segment_valid : ProgramHeader → ℕ → Bool
  segment_valid p image_size =
      leb p.file_size p.memory_size
      && range_valid p.offset p.file_size image_size
      && range_valid p.virtual_address p.memory_size user_address_limit
      && not (flag_write p.flags && flag_execute p.flags)

  -- The fuel is enough for the pages of the segment and for a chunk of one byte each.
  unfoldable pub load_segment : List ℕ → ℕ → ProgramHeader → S → LoadResult (Unit {0}) × S
  load_segment image image_size p s =
      if not (segment_valid p image_size)
      then (invalid, s)
      else if p.memory_size == 0
      then (success tt, s)
      else let (r, t) =
          map_segment (p.memory_size / 4096 + 3) (page_floor p.virtual_address)
            (p.virtual_address + p.memory_size) (page_flags p.flags) s in
        elim r [
          | success u ↦ copy_segment (suc p.file_size) image p 0 t
          | fault ↦ (fault, t)
          | out_of_fuel ↦ (out_of_fuel, t)
          | invalid ↦ (invalid, t)
          | out_of_memory ↦ (out_of_memory, t)
        ]
