-- ===== src/Process/Lifecycle.antt =====
-- The calls of src/kernel/process.c that make and end processes. Process/Life has the services they
-- ask for.
mod Tests
use cone_os.Process.{
  Process, Processes, unused, running, zombie, is_unused, is_running, no_process, max_mmap_regions,
  find_process, free_process_record, CallResult, einval, enomem, value,
}
use cone_os.Process.Regions.{Region, no_region}
use cone_os.Paths.{resolve_path, resolved, refused, out_of_fuel}
use cone_os.Process.Life.{Image, ImageResult, out_of_memory, invalid, ready, Life, split_arguments}
use cone_os.Prelude.{
  ℕ, zero, suc, Bool, true, false, not, ◌&&◌, ◌||◌, ◌==◌, ltb, leb, Option, none, some, List, [],
  ◌∷◌, map, take, length, get_or, set, replicate, if◌then◌else◌,
}

-- The current directory of a process, or "/".
abbrev pub cwd_of : ℕ → List Process → List ℕ
cwd_of pid ps = elim (find_process pid ps) [
  | none ↦ b'/' ∷ []
  | some i ↦ (get_or ps i no_process).cwd
]

abbrev pub unused_region : Region → Region
unused_region r = record r { used = false }

-- The record of a new process, in the record it takes.
abbrev pub spawned : ℕ → ℕ → Image → List ℕ → Process → Process
spawned pid ppid image cwd old = record {
  pid = pid;
  ppid = ppid;
  state = running;
  exit_status = 0;
  space = some image.space;
  heap_base = image.heap_base;
  program_break = image.heap_base;
  committed_pages = image.committed_pages;
  cwd = take 255 cwd;
  mappings = map unused_region old.mappings;
}

module _ {ℓ} {W : Type ℓ} (life : Life W) where
  -- From the launch record on.
  unfoldable pub spawn_image : ℕ → ℕ → Image → Processes W → CallResult × Processes W
  spawn_image current i image s =
      let (launch, w) = life.alloc_launch s.world in
      elim launch [
        | none ↦ (enomem, record s { world = life.destroy_space image.space w })
        | some l ↦
            let (pid, w) = life.create_task l image.space w in
            elim pid [
              | none ↦
                  (enomem, record s { world = life.destroy_space image.space (life.kfree l w) })
              | some id ↦
                  let old = get_or s.processes i no_process in
                  (
                    value id,
                    record {
                      processes =
                          set s.processes i
                            (spawned id current image (cwd_of current s.processes) old);
                      world = life.inherit current id w;
                    },
                  )
            ]
      ]

  -- process_spawn_path_args; an argument that is NULL is empty.
  unfoldable pub spawn : ℕ → List ℕ → List ℕ → Processes W → CallResult × Processes W
  spawn current path argument s = elim (free_process_record s.processes) [
    | none ↦ (enomem, s)
    | some i ↦ elim (split_arguments 15 argument) [
      | none ↦ (einval, s)
      | some words ↦
          let (image, w) = life.create_image path (path ∷ words) s.world in
          elim image [
            | out_of_memory ↦ (enomem, record s { world = w })
            | invalid ↦ (einval, record s { world = w })
            | ready im ↦ spawn_image current i im (record s { world = w })
          ]
    ]
  ]

  -- process_fork, from the clone of the address space on.
  unfoldable pub fork_space : ℕ → Process → ℕ → ℕ → Processes W → CallResult × Processes W
  fork_space i parent parent_space l s =
      let (space, w) = life.clone_space parent_space s.world in
      elim space [
        | none ↦ (enomem, record s { world = life.kfree l w })
        | some copy ↦
            let (pid, w) = life.create_task l copy w in
            elim pid [
              | none ↦ (enomem, record s { world = life.kfree l (life.destroy_space copy w) })
              | some id ↦
                  let (ok, w) = life.fork_files parent.pid id w in
                  if ok
                  then (
                    value id,
                    record {
                      processes = set s.processes i (record parent {
                        pid = id;
                        ppid = parent.pid;
                        state = running;
                        exit_status = 0;
                        space = some copy;
                      });
                      world = w;
                    },
                  )
                  else (
                    enomem,
                    record s { world = life.yield_task (life.kfree l (life.cancel_ready id w)) },
                  )
            ]
      ]

  -- process_fork; `frame` is not null.
  unfoldable pub process_fork : ℕ → Processes W → CallResult × Processes W
  process_fork current s = elim (find_process current s.processes) [
    | none ↦ (enomem, s)
    | some j ↦
        let parent = get_or s.processes j no_process in
        if not (is_running parent.state) then (enomem, s) else elim parent.space [
          | none ↦ (enomem, s)
          | some parent_space ↦ elim (free_process_record s.processes) [
            | none ↦ (enomem, s)
            | some i ↦
                let (launch, w) = life.alloc_launch s.world in
                elim launch [
                  | none ↦ (enomem, record s { world = w })
                  | some l ↦ fork_space i parent parent_space l (record s { world = w })
                ]
          ]
        ]
  ]

  -- The record of a process after process_exec_path_args.
  abbrev pub executing : Image → Process → Process
  executing image p = record p {
    space = some image.space;
    heap_base = image.heap_base;
    program_break = image.heap_base;
    committed_pages = image.committed_pages;
    exit_status = 0;
    mappings = map unused_region p.mappings;
  }

  -- process_exec_path_args; where it does not return, the value is the entry point.
  unfoldable pub exec : ℕ → List ℕ → List (List ℕ) → Processes W → CallResult × Processes W
  exec current path arguments s = elim (find_process current s.processes) [
    | none ↦ (einval, s)
    | some i ↦
        let p = get_or s.processes i no_process in
        if not (is_running p.state)
        then (einval, s)
        else let (image, w) = life.create_image path arguments s.world in
          elim image [
            | out_of_memory ↦ (enomem, record s { world = w })
            | invalid ↦ (einval, record s { world = w })
            | ready im ↦
                let (old, w) = life.replace_space im.space w in
                elim old [
                  | none ↦ (einval, record s { world = life.destroy_space im.space w })
                  | some o ↦ (
                    value im.entry,
                    record {
                      processes = set s.processes i (executing im p);
                      world = life.destroy_space o w;
                    },
                  )
                ]
          ]
  ]

  -- process_exit_current
  unfoldable pub process_exit_current : ℕ → ℕ → Processes W → Processes W
  process_exit_current current status s =
      let w = life.exit_task (life.close_all current s.world) in
      elim (find_process current s.processes) [
        | none ↦ record s { world = w }
        | some i ↦ record {
          processes =
              set s.processes i
                (record (get_or s.processes i no_process) { exit_status = status; state = zombie });
          world = w;
        }
      ]

  -- A round of its loop: the status of a process that has exited, or a yield to other tasks.
  unfoldable pub wait_round : ℕ → Processes W → Option ℕ × Processes W
  wait_round i s =
      let p = get_or s.processes i no_process in
      elim p.state [
        | zombie ↦ (
          some p.exit_status,
          record s { processes = set s.processes i (record p { state = unused }) },
        )
        | unused ↦ (none, record s { world = life.yield_task s.world })
        | running ↦ (none, record s { world = life.yield_task s.world })
      ]

-- process_waitpid up to its loop: the record, or none for the -1.
unfoldable pub waitpid {ℓ} : {W : Type ℓ} → ℕ → ℕ → Processes W → Option ℕ
waitpid current pid s = elim (find_process pid s.processes) [
  | none ↦ none
  | some i ↦ if (get_or s.processes i no_process).ppid == current then some i else none
]

-- process_chdir: its walk along the path is that of resolve_path.
unfoldable pub process_chdir {ℓ} :
    {W : Type ℓ} → (List ℕ → Bool) → ℕ → List ℕ → Processes W → Bool × Processes W
process_chdir is_directory current path s = elim (find_process current s.processes) [
  | none ↦ (false, s)
  | some i ↦
      let p = get_or s.processes i no_process in
      elim (resolve_path 256 (some p.cwd) path) [
        | out_of_fuel ↦ (false, s)
        | refused ↦ (false, s)
        | resolved absolute ↦
            if is_directory absolute
            then (
              true,
              record s { processes = set s.processes i (record p { cwd = take 255 absolute }) },
            )
            else (false, s)
      ]
]

-- process_is_running
unfoldable pub process_is_running : List Process → Bool
process_is_running [] = false
process_is_running (p ∷ ps) = is_running p.state || process_is_running ps
