-- ===== src/Process/Image.antt =====
-- create_process_image of src/kernel/process.c: the image of a new program. The stack page is the list
-- of its bytes; an argument is the list of its bytes without the final 0, and no pointer is null.
-- ramfs_read, elf_load, the address space and the page allocator are a parameter.
use cone_os.Process.Heap.{user_stack}
use cone_os.Process.Life.{Image, ImageResult, out_of_memory, invalid, ready}
mod Bytes
mod Stack
mod Tests
use cone_os.Prelude.{
  ℕ, zero, suc, ◌+◌, ◌-◌, ◌*◌, ◌/◌, ◌%◌, ◌^◌, Bool, true, false, not, ◌||◌, ltb, leb, Option, none,
  some, List, [], ◌∷◌, ◌++◌, length, set, replicate, if◌then◌else◌, align_up, align_down, page_size,
}

-- PROCESS_MAX_ARGUMENTS
abbrev pub max_arguments : ℕ
max_arguments = 16

-- Bytes written from an offset on.
unfoldable pub store_bytes : List ℕ → ℕ → List ℕ → List ℕ
store_bytes page offset [] = page
store_bytes page offset (b ∷ bs) = store_bytes (set page offset b) (offset + 1) bs

-- The addresses of the strings, the cursor and the page.
pub record Pushed : Type 0 where
  pub addresses : List ℕ
  pub cursor : ℕ
  pub page : List ℕ

-- The strings of the arguments below the cursor, the last one first.
unfoldable pub push_strings : List (List ℕ) → ℕ → List ℕ → Option Pushed
push_strings [] cursor page = some (record { addresses = []; cursor = cursor; page = page })
push_strings (a ∷ rest) cursor page = elim (push_strings rest cursor page) [
  | none ↦ none
  | some p ↦
      if leb page_size (length a) || ltb p.cursor (length a + 1)
      then none
      else some (record {
        addresses = (user_stack + (p.cursor - (length a + 1))) ∷ p.addresses;
        cursor = p.cursor - (length a + 1);
        page = store_bytes p.page (p.cursor - (length a + 1)) (a ++ (0 ∷ []));
      })
]

-- The eight bytes of a `uint64_t`, the lowest first.
unfoldable pub word_bytes : ℕ → ℕ → List ℕ
word_bytes zero n = []
word_bytes (suc k) n = (n % 256) ∷ word_bytes k (n / 256)

unfoldable pub words_bytes : List ℕ → List ℕ
words_bytes [] = []
words_bytes (n ∷ ns) = word_bytes 8 n ++ words_bytes ns

-- The array of the addresses, with a 0 at its end, below the strings: the cursor and the page.
unfoldable pub push_arguments : List (List ℕ) → List ℕ → Option (ℕ × List ℕ)
push_arguments arguments page = elim (push_strings arguments page_size page) [
  | none ↦ none
  | some p ↦
      let cursor = align_down p.cursor 8 in
      let size = (length arguments + 1) * 8 in
      if ltb cursor size
      then none
      else some (
        cursor - size,
        store_bytes p.page (cursor - size) (words_bytes (p.addresses ++ (0 ∷ []))),
      )
]

-- elf_load as its caller sees it, with the entry, the end of the image and its pages.
pub data LoadReport : Type 0 where
  load_invalid : LoadReport
  load_out_of_memory : LoadReport
  load_success : ℕ → ℕ → ℕ → LoadReport

-- vmm_space_create and vmm_space_destroy, ramfs_read into the static buffer, elf_load of its bytes into
-- a space with a limit of pages, pmm_alloc_user_page, pmm_free_page, vmm_space_map_page of the stack,
-- and the bytes of a physical page, read and written.
pub record Loader {ℓ} (W : Type ℓ) : Type ℓ where
  pub create_space : W → Option ℕ × W
  pub destroy_space : ℕ → W → W
  pub read_file : List ℕ → W → Option (List ℕ) × W
  pub load : List ℕ → ℕ → ℕ → W → LoadReport × W
  pub alloc_page : W → Option ℕ × W
  pub free_page : ℕ → W → W
  pub map_stack : ℕ → ℕ → ℕ → W → Bool × W
  pub page_bytes : ℕ → W → List ℕ
  pub write_page : ℕ → List ℕ → W → W

module _ {ℓ} {W : Type ℓ} (loader : Loader W) where
  -- The label `failure`.
  abbrev pub abandon : ImageResult → ℕ → W → ImageResult × W
  abandon result space w = (result, loader.destroy_space space w)

  -- From the stack page on. What a failure leaves in the page, which goes back with the space, is left
  -- out.
  unfoldable pub build_stack : List (List ℕ) → ℕ → ℕ → ℕ → ℕ → W → ImageResult × W
  build_stack arguments space entry image_end pages w =
      let (physical, w) = loader.alloc_page w in
      elim physical [
        | none ↦ abandon out_of_memory space w
        | some p ↦
            let (mapped, w) = loader.map_stack space user_stack p w in
            if not mapped
            then abandon out_of_memory space (loader.free_page p w)
            else elim (push_arguments arguments (loader.page_bytes p w)) [
              | none ↦ abandon invalid space w
              | some (cursor, page) ↦ (
                ready (record {
                  space = space;
                  entry = entry;
                  heap_base = align_up image_end page_size;
                  stack_pointer = user_stack + cursor;
                  argc = length arguments;
                  argv = user_stack + cursor;
                  committed_pages = pages + 1;
                }),
                loader.write_page p page w,
              )
            ]
      ]

  -- create_process_image; PROCESS_MEMORY_LIMIT_PAGES is 4096.
  unfoldable pub create_process_image : List ℕ → List (List ℕ) → W → ImageResult × W
  create_process_image path arguments w =
      if ltb max_arguments (length arguments)
      then (invalid, w)
      else let (space, w) = loader.create_space w in
        elim space [
          | none ↦ (out_of_memory, w)
          | some a ↦
              let (file, w) = loader.read_file path w in
              elim file [
                | none ↦ abandon invalid a w
                | some bytes ↦
                    let (loaded, w) = loader.load bytes a 4095 w in
                    elim loaded [
                      | load_invalid ↦ abandon invalid a w
                      | load_out_of_memory ↦ abandon out_of_memory a w
                      | load_success entry image_end pages ↦
                          build_stack arguments a entry image_end pages w
                    ]
              ]
        ]
