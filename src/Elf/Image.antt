-- ===== src/Elf/Image.antt =====
-- The headers of src/kernel/elf.c, read from the bytes of the image.
use cone_os.Prelude.{
  ℕ, zero, suc, ◌+◌, ◌*◌, ◌<◌, ◌≤◌, ◌≡◌, refl, Bool, Option, none, some, List, [], ◌∷◌, arith,
  length, get_elem?, ◌==◌,
}

infixl 5 ◌>>=◌
abbrev ◌>>=◌ {ℓ κ} : {A : Type ℓ} {B : Type κ} → Option A → (A → Option B) → Option B
none >>= f = none
some a >>= f = f a

-- A little-endian number of `n` bytes at `p`.
unfoldable pub number : List ℕ → ℕ → ℕ → Option ℕ
number image p zero = some 0
number image p (suc n) = do
  low ← get_elem? image p
  high ← number image (p + 1) n
  some (low + 256 * high)

-- The fields that elf_load reads; `ident` is the number of the first seven bytes of the array.
pub record Header : Type 0 where
  pub ident : ℕ
  pub type : ℕ
  pub machine : ℕ
  pub version : ℕ
  pub entry : ℕ
  pub program_offset : ℕ
  pub program_entry_size : ℕ
  pub program_count : ℕ

pub record ProgramHeader : Type 0 where
  pub type : ℕ
  pub flags : ℕ
  pub offset : ℕ
  pub virtual_address : ℕ
  pub file_size : ℕ
  pub memory_size : ℕ

-- sizeof(struct elf64_header), sizeof(struct elf64_program_header)
abbrev pub header_bytes : ℕ
header_bytes = 64

abbrev pub program_header_bytes : ℕ
program_header_bytes = 56

unfoldable pub elf_header : List ℕ → Option Header
elf_header image = do
  ident ← number image 0 7
  type ← number image 16 2
  machine ← number image 18 2
  version ← number image 20 4
  entry ← number image 24 8
  program_offset ← number image 32 8
  program_entry_size ← number image 54 2
  program_count ← number image 56 2
  some (record {
    ident = ident;
    type = type;
    machine = machine;
    version = version;
    entry = entry;
    program_offset = program_offset;
    program_entry_size = program_entry_size;
    program_count = program_count;
  })

unfoldable pub program_header : List ℕ → ℕ → Option ProgramHeader
program_header image p = do
  type ← number image p 4
  flags ← number image (p + 4) 4
  offset ← number image (p + 8) 8
  virtual_address ← number image (p + 16) 8
  file_size ← number image (p + 32) 8
  memory_size ← number image (p + 40) 8
  some (record {
    type = type;
    flags = flags;
    offset = offset;
    virtual_address = virtual_address;
    file_size = file_size;
    memory_size = memory_size;
  })

-- 0x7F, 'E', 'L', 'F', ELF_CLASS_64, ELF_DATA_LSB, ELF_CURRENT_VERSION
abbrev pub ident_valid : Header → Bool
ident_valid h = h.ident == 0x010102464C457F

get_elem?-some : (xs : List ℕ) (i : ℕ) → i < length xs → (v : ℕ) × (get_elem? xs i ≡ some v)
get_elem?-some [] i h = absurd (omega arith)
get_elem?-some (x ∷ xs) zero h = (x, refl)
get_elem?-some (x ∷ xs) (suc i) h = get_elem?-some xs i (omega arith)

number-some :
    (image : List ℕ) (p n : ℕ) → p + n ≤ length image → (v : ℕ) × (number image p n ≡ some v)
unfolding number
number-some image p zero h = (0, refl)
number-some image p (suc n) h =
    let (low, e) = get_elem?-some image p (omega arith) in
    let (high, e') = number-some image (p + 1) n (omega arith) in
    (low + 256 * high, rw (e, e', number) refl)

pub elf_header-some :
    (image : List ℕ) → header_bytes ≤ length image → (h : Header) × (elf_header image ≡ some h)
unfolding elf_header
elf_header-some image fit =
    let (a, ea) = number-some image 0 7 (omega arith) in
    let (b, eb) = number-some image 16 2 (omega arith) in
    let (c, ec) = number-some image 18 2 (omega arith) in
    let (d, ed) = number-some image 20 4 (omega arith) in
    let (e, ee) = number-some image 24 8 (omega arith) in
    let (f, ef) = number-some image 32 8 (omega arith) in
    let (g, eg) = number-some image 54 2 (omega arith) in
    let (k, ek) = number-some image 56 2 (omega arith) in
    (
      record {
        ident = a;
        type = b;
        machine = c;
        version = d;
        entry = e;
        program_offset = f;
        program_entry_size = g;
        program_count = k;
      },
      rw (ea, eb, ec, ed, ee, ef, eg, ek, elf_header) refl,
    )

pub program_header-some :
    (image : List ℕ) (p : ℕ)
    → p + program_header_bytes ≤ length image
    → (h : ProgramHeader) × (program_header image p ≡ some h)
unfolding program_header
program_header-some image p fit =
    let (a, ea) = number-some image p 4 (omega arith) in
    let (b, eb) = number-some image (p + 4) 4 (omega arith) in
    let (c, ec) = number-some image (p + 8) 8 (omega arith) in
    let (d, ed) = number-some image (p + 16) 8 (omega arith) in
    let (e, ee) = number-some image (p + 32) 8 (omega arith) in
    let (f, ef) = number-some image (p + 40) 8 (omega arith) in
    (
      record {
        type = a;
        flags = b;
        offset = c;
        virtual_address = d;
        file_size = e;
        memory_size = f;
      },
      rw (ea, eb, ec, ed, ee, ef, program_header) refl,
    )
