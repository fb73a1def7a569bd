-- ===== src/Process/Life.antt =====
-- What the calls of src/kernel/process.c that make and end processes are given: images, the services
-- they ask for, and the words of an argument. create_process_image is one of the services.
use cone_os.Prelude.{
  ℕ, zero, suc, Bool, ◌==◌, leb, Option, none, some, List, [], ◌∷◌, length, if◌then◌else◌,
}

-- struct process_image
pub record Image : Type 0 where
  pub space : ℕ
  pub entry : ℕ
  pub heap_base : ℕ
  pub stack_pointer : ℕ
  pub argc : ℕ
  pub argv : ℕ
  pub committed_pages : ℕ

-- enum process_image_result, with the image.
pub data ImageResult : Type 0 where
  out_of_memory : ImageResult
  invalid : ImageResult
  ready : Image → ImageResult

-- create_process_image, kmalloc of a launch record, kfree, vmm_space_clone_cow, vmm_space_destroy,
-- task_create_in_space, task_cancel_ready, task_yield, task_replace_address_space,
-- task_exit_current, vfs_inherit_standard, vfs_fork, vfs_close_all.
pub record Life {ℓ} (W : Type ℓ) : Type ℓ where
  pub create_image : List ℕ → List (List ℕ) → W → ImageResult × W
  pub alloc_launch : W → Option ℕ × W
  pub kfree : ℕ → W → W
  pub clone_space : ℕ → W → Option ℕ × W
  pub destroy_space : ℕ → W → W
  pub create_task : ℕ → ℕ → W → Option ℕ × W
  pub cancel_ready : ℕ → W → W
  pub yield_task : W → W
  pub replace_space : ℕ → W → Option ℕ × W
  pub exit_task : W → W
  pub inherit : ℕ → ℕ → W → W
  pub fork_files : ℕ → ℕ → W → Bool × W
  pub close_all : ℕ → W → W

abbrev space_byte : ℕ
space_byte = b' '

unfoldable pub skip_spaces : List ℕ → List ℕ
skip_spaces [] = []
skip_spaces (c ∷ cs) = let rest = skip_spaces cs in if c == space_byte then rest else c ∷ cs

unfoldable pub word : List ℕ → List ℕ
word [] = []
word (c ∷ cs) = let rest = word cs in if c == space_byte then [] else c ∷ rest

unfoldable pub after_word : List ℕ → List ℕ
after_word [] = []
after_word (c ∷ cs) = let rest = after_word cs in if c == space_byte then c ∷ cs else rest

-- The loop of process_spawn_path_args that splits the argument, with room for so many words; none for
-- a word of 64 bytes or more.
unfoldable pub split_arguments : ℕ → List ℕ → Option (List (List ℕ))
split_arguments zero text = some []
split_arguments (suc n) text = elim (skip_spaces text) [
  | [] ↦ some []
  | c ∷ cs ↦
      if leb 64 (length (word (c ∷ cs)))
      then none
      else elim (split_arguments n (after_word (c ∷ cs))) [
        | none ↦ none
        | some words ↦ some (word (c ∷ cs) ∷ words)
      ]
]
