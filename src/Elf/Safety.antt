-- ===== src/Elf/Safety.antt =====
-- The loader of src/kernel/elf.c stays within the image, ends, and asks for user pages only, never
-- both writable and executable.
pub mod Mapping
mod Copying
mod Programs
use cone_os.Prelude.{
  ℕ, ◌+◌, ◌*◌, ◌-◌, ◌<◌, ◌≤◌, ◌^◌, ◌≡◌, refl, Bool, true, false, not, ◌&&◌, ◌||◌, Option, none,
  some, List, arith, length, ltb, leb, ◌==◌, if◌then◌else◌, Bool-cases, inl, inr,
}
use cone_os.Elf.{Loaded, Totals, header_valid, load_programs, finish, elf_load, user_stack_address}
use cone_os.Elf.Image.{
  Header, header_bytes, program_header_bytes, elf_header, elf_header-some, ident_valid,
}
use cone_os.Elf.Services.{
  SpaceServices, Keeps, LoadResult, fault, out_of_fuel, invalid, out_of_memory, success,
}
use cone_os.Elf.Segments.{range_valid, user_address_limit}
use Mapping.{Fine}
use Programs.{TotalsWithin, load_programs-Fine}

-- What elf_load hands on.
abbrev pub LoadedWithin : ℕ → Loaded → Type 0
LoadedWithin page_limit l =
    (l.entry_point < user_address_limit)
    × (l.image_end < user_stack_address - 4096)
    × (l.mapped_pages ≤ page_limit)

module _ {S : Type 0} (Inv : S → Type 0) (page_limit : ℕ) where
  finish-Fine :
      (entry : ℕ) (r : LoadResult Totals) (s : S)
      → entry < user_address_limit
      → Fine Inv (TotalsWithin page_limit) (r, s)
      → Fine Inv (LoadedWithin page_limit) (finish entry (r, s))
  unfolding finish
  finish-Fine entry fault s low h = h
  finish-Fine entry out_of_fuel s low h = h
  finish-Fine entry invalid s low h = h
  finish-Fine entry out_of_memory s low h = h
  finish-Fine entry (success t) s low h =
      elim (Bool-cases
        (not t.entry_is_executable || leb (user_stack_address - 4096) t.highest_end)) [
          | inl e ↦ rw e (h.0, tt)
          | inr e ↦ rw e (h.0, (low, ground arith, h.1))
        ]

-- If the image has the bytes that elf_load is told of, the loader reads none beyond them and ends: it
-- refuses the image, runs out of memory, or succeeds with an entry point in the user half, an end below
-- the guard page of the user stack and no more pages than the limit. It keeps every property of the
-- address space that the services keep when they are asked for user pages that are not both writable
-- and executable.
pub elf_load_lem :
    {S : Type 0} (services : SpaceServices S) (Inv : S → Type 0) (image : List ℕ)
    (image_size page_limit : ℕ) (s : S)
    → Keeps services Inv
    → image_size ≤ length image
    → page_limit < 2 ^ 64
    → Inv s
    → Fine Inv (LoadedWithin page_limit) (elf_load services image image_size page_limit s)
unfolding elf_load header_valid
elf_load_lem services Inv image image_size page_limit s keeps fit bound start =
    elim (Bool-cases (ltb image_size header_bytes)) [
      | inl e ↦ rw e (start, tt)
      | inr e ↦ let (h, read) = elf_header-some image (ground arith) in checked e h read
    ]
  where
    checked :
        ltb image_size header_bytes ≡ false
        → (h : Header) → elf_header image ≡ some h
        → Fine Inv (LoadedWithin page_limit) (elf_load services image image_size page_limit s)
    checked e h read = elim (Bool-cases (not (ident_valid h) || not (header_valid h image_size))) [
      | inl e' ↦ rw (e, read, e', elf_load) (start, tt)
      | inr e' ↦
          rw (e, read, e', elf_load)
            (finish-Fine Inv page_limit h.entry _ _ (ground arith) (
              load_programs-Fine services Inv keeps image image_size page_limit fit bound h.entry
                h.program_offset h.program_count _ s (ground arith) (omega arith) start))
    ]
