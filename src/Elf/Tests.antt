-- ===== src/Elf/Tests.antt =====
-- An image of one executable segment of four bytes, and an address space that records its mappings.
use cone_os.Prelude.{
  ℕ, ◌+◌, ◌-◌, ◌*◌, ◌%◌, ◌<◌, ◌≡◌, refl, true, false, not, ◌&&◌, Option, none, some, List, [], ◌∷◌,
  ◌++◌, arith, replicate, All, ◌==◌, if◌then◌else◌,
}
use cone_os.Elf.{elf_load, load_programs, load_program, header_valid, finish}
use cone_os.Elf.Image.{number, elf_header, program_header}
use cone_os.Elf.Services.{SpaceServices, Keeps, PageFlags, success}
use cone_os.Elf.Segments.{map_segment, copy_segment, load_segment}
use cone_os.Elf.Safety.{LoadedWithin, elf_load_lem}
use cone_os.Elf.Safety.Mapping.{Fine}

abbrev image : List ℕ
image =
    (127 ∷ 69 ∷ 76 ∷ 70 ∷ 2 ∷ 1 ∷ 1 ∷ [])
    ++ replicate 9 0
    ++ (2 ∷ 0 ∷ 62 ∷ 0 ∷ 1 ∷ 0 ∷ 0 ∷ 0 ∷ 0 ∷ 16 ∷ 64 ∷ [])
    ++ replicate 5 0
    ++ (64 ∷ [])
    ++ replicate 19 0
    ++ (64 ∷ 0 ∷ 56 ∷ 0 ∷ 1 ∷ [])
    ++ replicate 7 0
    ++ (1 ∷ 0 ∷ 0 ∷ 0 ∷ 5 ∷ 0 ∷ 0 ∷ 0 ∷ 120 ∷ [])
    ++ replicate 8 0
    ++ (16 ∷ 64 ∷ [])
    ++ replicate 13 0
    ++ (4 ∷ [])
    ++ replicate 7 0
    ++ (4 ∷ [])
    ++ replicate 15 0
    ++ (144 ∷ 144 ∷ 144 ∷ 195 ∷ [])

record Mapping : Type 0 where
  page : ℕ
  physical : ℕ
  flags : PageFlags

record Space : Type 0 where
  next : ℕ
  mappings : List Mapping

abbrev find_page_of : List Mapping → ℕ → Option ℕ
find_page_of [] address = none
find_page_of (m ∷ ms) address =
    if m.page == address - address % 4096
    then some (m.physical + address % 4096)
    else find_page_of ms address

abbrev recording : SpaceServices Space
recording = record {
  translate = λ s address. find_page_of s.mappings address;
  alloc_user_page = λ s. (some (s.next * 4096), record s { next = s.next + 1 });
  free_page = λ p s. s;
  zero_page = λ p s. s;
  copy_bytes = λ p bytes s. s;
  map_page = λ page p flags s. (
    true,
    record s { mappings = record { page = page; physical = p; flags = flags } ∷ s.mappings },
  );
}

abbrev IsUserPage : Mapping → Type 0
IsUserPage m =
    (m.page < 0x800000000000)
    × (m.page % 4096 ≡ 0)
    × ((m.flags.writable && not m.flags.no_execute) ≡ false)

abbrev UserPages : Space → Type 0
UserPages s = All IsUserPage s.mappings

recording-Keeps : Keeps recording UserPages
recording-Keeps = record {
  alloc_keeps = λ s h. h;
  free_keeps = λ p s h. h;
  zero_keeps = λ p s h. h;
  copy_keeps = λ p bytes s h. h;
  map_keeps = λ page p flags s low aligned exclusive h. ((low, aligned, exclusive), h);
}

abbrev unmapped : Space
unmapped = record { next = 1; mappings = [] }

elf_load-image :
    (elf_load recording image 124 8 unmapped).0
    ≡ success (record { entry_point = 0x401000; image_end = 0x401004; mapped_pages = 1 })
unfolding elf_load load_programs load_program header_valid finish number elf_header program_header
    map_segment copy_segment load_segment
elf_load-image = refl

elf_load_lem_example : Fine UserPages (LoadedWithin 8) (elf_load recording image 124 8 unmapped)
elf_load_lem_example =
    elf_load_lem recording UserPages image 124 8 unmapped recording-Keeps (omega arith)
      (omega arith) tt
