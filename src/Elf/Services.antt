-- ===== src/Elf/Services.antt =====
-- What src/kernel/elf.c asks of the user address space and of the page allocator.
use cone_os.Prelude.{ℕ, ◌%◌, ◌<◌, ◌≡◌, Bool, false, not, ◌&&◌, Option, List}

-- enum elf_load_result, with the value that a success hands on; `fault` is a read outside the image.
pub data LoadResult (A : Type 0) : Type 0 where
  fault : LoadResult A
  out_of_fuel : LoadResult A
  invalid : LoadResult A
  out_of_memory : LoadResult A
  success : A → LoadResult A

-- VMM_WRITABLE and VMM_NO_EXECUTE; VMM_USER is always set.
pub record PageFlags : Type 0 where
  pub writable : Bool
  pub no_execute : Bool

-- vmm_space_translate, pmm_alloc_user_page, pmm_free_page, the clearing of a page, copy_bytes to a
-- physical address, vmm_space_map_page.
pub record SpaceServices (S : Type 0) : Type 0 where
  pub translate : S → ℕ → Option ℕ
  pub alloc_user_page : S → Option ℕ × S
  pub free_page : ℕ → S → S
  pub zero_page : ℕ → S → S
  pub copy_bytes : ℕ → List ℕ → S → S
  pub map_page : ℕ → ℕ → PageFlags → S → Bool × S

-- The services keep `Inv`, where a mapping is asked for at a page of the user half, never both
-- writable and executable.
pub record Keeps {S : Type 0} (services : SpaceServices S) (Inv : S → Type 0) : Type 0 where
  pub alloc_keeps : (s : S) → Inv s → Inv (services.alloc_user_page s).1
  pub free_keeps : (p : ℕ) (s : S) → Inv s → Inv (services.free_page p s)
  pub zero_keeps : (p : ℕ) (s : S) → Inv s → Inv (services.zero_page p s)
  pub copy_keeps : (p : ℕ) (bytes : List ℕ) (s : S) → Inv s → Inv (services.copy_bytes p bytes s)
  pub map_keeps :
      (page p : ℕ) (flags : PageFlags) (s : S)
      → page < 0x800000000000
      → page % 4096 ≡ 0
      → (flags.writable && not flags.no_execute) ≡ false
      → Inv s
      → Inv (services.map_page page p flags s).1
