-- ===== src/Process.antt =====
-- src/kernel/process.c: the table of processes. Processes is the static array `processes` with the
-- world of the address spaces; a pointer to a record is its index, and a pointer to an address space
-- a number, none for NULL. Spaces is what is asked of the page tables and the page
-- allocator.
use cone_os.Prelude.{
  ℕ, zero, suc, ◌+◌, ◌*◌, ◌/◌, ◌%◌, Bool, true, false, not, ◌&&◌, ◌==◌, Option, none, some, List,
  [], ◌∷◌, get_or, set, replicate, if◌then◌else◌, page_size,
}
use cone_os.Process.Regions.{Region, no_region}
mod Regions
mod Mappings
mod Heap
mod Clearing
mod Faults
mod Reserving
mod Unmapping
mod Runs
mod Guards
mod Life
mod Lifecycle
mod Image
mod Pids
mod Steps
mod Births
mod Waiting
mod Tests

-- enum process_state
pub data ProcessState : Type 0 where
  unused : ProcessState
  running : ProcessState
  zombie : ProcessState

abbrev pub is_unused : ProcessState → Bool
is_unused unused = true
is_unused running = false
is_unused zombie = false

abbrev pub is_running : ProcessState → Bool
is_running unused = false
is_running running = true
is_running zombie = false

-- MAX_PROCESSES, MAX_MMAP_REGIONS and PROCESS_MEMORY_LIMIT_PAGES
abbrev pub max_processes : ℕ
max_processes = 16

abbrev pub max_mmap_regions : ℕ
max_mmap_regions = 32

abbrev pub memory_limit_pages : ℕ
memory_limit_pages = 16 * 1024 * 1024 / page_size

-- struct process_record
pub record Process : Type 0 where
  pub pid : ℕ
  pub ppid : ℕ
  pub state : ProcessState
  pub exit_status : ℕ
  pub space : Option ℕ
  pub heap_base : ℕ
  pub program_break : ℕ
  pub committed_pages : ℕ
  pub cwd : List ℕ
  pub mappings : List Region

abbrev pub no_process : Process
no_process = record {
  pid = 0;
  ppid = 0;
  state = unused;
  exit_status = 0;
  space = none;
  heap_base = 0;
  program_break = 0;
  committed_pages = 0;
  cwd = [];
  mappings = replicate 32 no_region;
}

-- The static state, and the world of the address spaces.
pub record Processes {ℓ} (W : Type ℓ) : Type ℓ where
  pub processes : List Process
  pub world : W

-- find_process
unfoldable pub find_process : ℕ → List Process → Option ℕ
find_process pid [] = none
find_process pid (p ∷ ps) =
    if not (is_unused p.state) && p.pid == pid
    then some 0
    else elim (find_process pid ps) [ none ↦ none | some i ↦ some (suc i) ]

-- free_process_record
unfoldable pub free_process_record : List Process → Option ℕ
free_process_record [] = none
free_process_record (p ∷ ps) =
    if is_unused p.state
    then some 0
    else elim (free_process_record ps) [ none ↦ none | some i ↦ some (suc i) ]

-- The result of a call: an error, or a value; `stuck` is a search out of fuel.
pub data CallResult : Type 0 where
  stuck : CallResult
  einval : CallResult
  enomem : CallResult
  value : ℕ → CallResult

-- The results 0, -1 and 1 of a page fault and of vmm_space_resolve_cow.
pub data Fault : Type 0 where
  unhandled : Fault
  failed : Fault
  handled : Fault

-- What the calls ask of an address space, by its number: vmm_space_translate, vmm_space_unmap_page,
-- the clearing of so many bytes at a physical address, vmm_space_resolve_cow, pmm_alloc_user_page,
-- vmm_space_map_page for a user page that is writable or may not be executed, and pmm_free_page.
pub record Spaces {ℓ} (W : Type ℓ) : Type ℓ where
  pub translate : ℕ → ℕ → W → Option ℕ
  pub unmap_page : ℕ → ℕ → W → Option ℕ × W
  pub clear_bytes : ℕ → ℕ → W → W
  pub resolve_cow : ℕ → ℕ → W → Fault × W
  pub alloc_user_page : W → Option ℕ × W
  pub map_page : ℕ → ℕ → ℕ → Bool → Bool → W → Bool × W
  pub free_page : ℕ → W → W

-- The current process, if it runs in an address space: its index, its record and the space.
unfoldable pub current_process : ℕ → List Process → Option (ℕ × (Process × ℕ))
current_process id ps = elim (find_process id ps) [
  | none ↦ none
  | some i ↦
      let p = get_or ps i no_process in
      if is_running p.state
      then elim p.space [ none ↦ none | some space ↦ some (i, (p, space)) ]
      else none
]
