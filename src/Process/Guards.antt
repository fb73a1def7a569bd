-- ===== src/Process/Guards.antt =====
-- What process_handle_page_fault of src/kernel/process.c maps.
use cone_os.Process.{Process, Spaces, Fault, unhandled, handled}
use cone_os.Process.Regions.Coverage.{view}
use cone_os.Prelude.{ℕ, ◌-◌, ◌/◌, ◌==◌, none, ◌%◌, ◌<◌, ◌≤◌, ◌≡◌, ◌⊎◌, not, some, page_size}

-- What the process has given the address: its heap, or a region.
abbrev pub Grants : Process → ℕ → ℕ → Type 0
Grants p address protection =
    ((p.heap_base ≤ address) × ((address < p.program_break) × (protection ≡ 3)))
    ⊎ (view p.mappings address ≡ some protection)

-- The services keep `Inv`, where a page is mapped for the user only in memory that the process has
-- been given, with the flags of a protection that is not both writable and executable.
pub record Keeps {ℓ} {W : Type ℓ} (spaces : Spaces W) (Inv : W → Type 0) (space : ℕ) (p : Process)
    : Type ℓ where
  pub alloc_keeps : (w : W) → Inv w → Inv (spaces.alloc_user_page w).1
  pub free_keeps : (physical : ℕ) (w : W) → Inv w → Inv (spaces.free_page physical w)
  pub clear_keeps : (physical n : ℕ) (w : W) → Inv w → Inv (spaces.clear_bytes physical n w)
  pub map_keeps :
      (address physical protection : ℕ) (w : W)
      → Grants p address protection
      → protection % 2 ≡ 1
      → ¬ ((protection / 2 % 2 ≡ 1) × (protection / 4 % 2 ≡ 1))
      → Inv w
      → Inv
          (spaces.map_page space
            (address - address % page_size)
            physical
            (protection / 2 % 2 == 1)
            (not (protection / 4 % 2 == 1))
            w).1

-- A protection permits the access that an error code of a fault tells of: a protection has the bits
-- read, write and execute, a code the bit 1 of a write and the bit 4 of a fetch.
abbrev pub Permits : ℕ → ℕ → Type 0
Permits code protection =
    (protection % 2 ≡ 1)
    × ((code / 2 % 2 ≡ 1 → protection / 2 % 2 ≡ 1) × (code / 16 % 2 ≡ 1 → protection / 4 % 2 ≡ 1))

-- What the process has given the address where both are tested in turn: its heap, then a region.
abbrev pub Owns : Process → ℕ → ℕ → Type 0
Owns p address protection =
    ((p.heap_base ≤ address) × ((address < p.program_break) × (protection ≡ 3)))
    ⊎ (((address < p.heap_base) ⊎ (p.program_break ≤ address))
        × (view p.mappings address ≡ some protection))

-- The page is neither present nor mapped, and the heap or the region permits the access.
abbrev pub Deserves {ℓ} : {W : Type ℓ} → Spaces W → ℕ → Process → ℕ → ℕ → W → Type 0
Deserves spaces space p address code w =
    (code % 2 ≡ 0)
    × ((spaces.translate space (address - address % page_size) w ≡ none)
        × ((protection : ℕ) × (Owns p address protection × Permits code protection)))

-- What a fault owes, with its result.
abbrev pub Serves {ℓ} :
    {W : Type ℓ} → Spaces W → (W → Type 0) → ℕ → Process → ℕ → ℕ → W → Fault × W → Type ℓ
Serves spaces Inv space p address code w r =
    ((code % 2 ≡ 1) × ((code / 2 % 2 ≡ 1) × (r ≡ spaces.resolve_cow space address w)))
    ⊎ (Inv r.1
        × ((r.0 ≡ handled → Deserves spaces space p address code w)
            × (r.0 ≡ unhandled → (r.1 ≡ w) × (¬ Deserves spaces space p address code w))))
