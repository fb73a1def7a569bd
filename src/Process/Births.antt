-- ===== src/Process/Births.antt =====
-- What process_fork and process_spawn_path_args of src/kernel/process.c do to the table.
use cone_os.Process.{Process, Processes, is_running, no_process, find_process, free_process_record}
use cone_os.Process.Life.{Life, Image, ImageResult, out_of_memory, invalid, ready, split_arguments}
use cone_os.Process.Lifecycle.{spawn, spawn_image, process_fork, fork_space}
use cone_os.Process.Pids.{free_process_record_lem}
use cone_os.Process.Steps.{
  HandsOut, LifeCall, spawn_call, fork_call, exec_call, exit_call, wait_call, chdir_call, life_step,
  life_run, same, added, Changes, Change-IsTable, exit-Changes, wait-Changes, chdir-Changes,
  exec-Changes,
}
use cone_os.Process.Pids.{IsTable}
use cone_os.Prelude.{
  ℕ, ◌≤◌, ◌≡◌, refl, Bool-cases, Option-cases, inl, inr, some, List, [], ◌∷◌, get_or, arith,
}

module _ {ℓ} {W : Type ℓ} (life : Life W) (next : W → ℕ) (hands : HandsOut life next) where
  fork_space-Changes :
      (current i parent_space l : ℕ) (parent : Process) (s : Processes W) (w : W)
      → next s.world ≤ next w
      → free_process_record s.processes ≡ some i
      → Changes life next hands
          (fork_call current)
          s
          (fork_space life i parent parent_space l (record s { world = w })).1
  unfolding fork_space
  fork_space-Changes current i parent_space l parent s w h f =
      let (room, free) = free_process_record_lem s.processes i no_process f in
      let w₁ = (life.clone_space parent_space w).1 in
      let cloned = hands.clone parent_space w in
      elim (Option-cases (life.clone_space parent_space w).0) [
        | inl c ↦ rw (c, fork_space) (same (omega (arith, h, cloned, hands.free l w₁)))
        | inr (copy, c) ↦
            let w₂ = (life.create_task l copy w₁).1 in
            let made = hands.create l copy w₁ in
            elim (Option-cases (life.create_task l copy w₁).0) [
              | inl t ↦
                  let w₃ = life.destroy_space copy w₂ in
                  rw (c, t, fork_space)
                    (same (omega (arith, h, cloned, made, hands.destroy copy w₂, hands.free l w₃)))
              | inr (id, t) ↦
                  let w₃ = (life.fork_files parent.pid id w₂).1 in
                  let copied = hands.fork parent.pid id w₂ in
                  let (fresh, above) = hands.created l copy id w₁ t in
                  elim (Bool-cases (life.fork_files parent.pid id w₂).0) [
                    | inl o ↦
                        rw (c, t, o, fork_space)
                          (added i _ room free (omega (arith, h, cloned, fresh))
                            (omega (arith, fresh, above, copied)) refl)
                    | inr o ↦
                        let w₄ = life.cancel_ready id w₃ in
                        let w₅ = life.kfree l w₄ in
                        rw (c, t, o, fork_space)
                          (same (
                            omega (
                              arith,
                              h,
                              cloned,
                              made,
                              copied,
                              hands.cancel id w₃,
                              hands.free l w₄,
                              hands.yields w₅,
                            )))
                  ]
            ]
      ]

  fork-Changes :
      (current : ℕ) (s : Processes W)
      → Changes life next hands (fork_call current) s (process_fork life current s).1
  unfolding process_fork
  fork-Changes current s = elim (Option-cases (find_process current s.processes)) [
    | inl e ↦ rw (e, process_fork) (same (omega arith))
    | inr (j, e) ↦
        let parent = get_or s.processes j no_process in
        elim (Bool-cases (is_running parent.state)) [
          | inr r ↦ rw (e, r, process_fork) (same (omega arith))
          | inl r ↦ elim (Option-cases parent.space) [
            | inl p ↦ rw (e, r, p, process_fork) (same (omega arith))
            | inr (a, p) ↦ elim (Option-cases (free_process_record s.processes)) [
              | inl f ↦ rw (e, r, p, f, process_fork) (same (omega arith))
              | inr (i, f) ↦
                  let w = (life.alloc_launch s.world).1 in
                  elim (Option-cases (life.alloc_launch s.world).0) [
                    | inl l ↦ rw (e, r, p, f, l, process_fork) (same (hands.launch s.world))
                    | inr (k, l) ↦
                        rw (e, r, p, f, l, process_fork)
                          (fork_space-Changes current i a k parent s w (hands.launch s.world) f)
                  ]
            ]
          ]
        ]
  ]

  spawn_image-Changes :
      (current i : ℕ) (path argument : List ℕ) (image : Image) (s : Processes W) (w : W)
      → next s.world ≤ next w
      → free_process_record s.processes ≡ some i
      → Changes life next hands
          (spawn_call current path argument)
          s
          (spawn_image life current i image (record s { world = w })).1
  unfolding spawn_image
  spawn_image-Changes current i path argument image s w h f =
      let (room, free) = free_process_record_lem s.processes i no_process f in
      let w₁ = (life.alloc_launch w).1 in
      let launched = hands.launch w in
      elim (Option-cases (life.alloc_launch w).0) [
        | inl c ↦
            rw (c, spawn_image) (same (omega (arith, h, launched, hands.destroy image.space w₁)))
        | inr (l, c) ↦
            let w₂ = (life.create_task l image.space w₁).1 in
            let made = hands.create l image.space w₁ in
            elim (Option-cases (life.create_task l image.space w₁).0) [
              | inl t ↦
                  let w₃ = life.kfree l w₂ in
                  rw (c, t, spawn_image)
                    (same (
                      omega
                        (arith, h, launched, made, hands.free l w₂, hands.destroy image.space w₃)))
              | inr (id, t) ↦
                  let (fresh, above) = hands.created l image.space id w₁ t in
                  rw (c, t, spawn_image)
                    (added i _ room free (omega (arith, h, launched, fresh))
                      (omega (arith, fresh, above, hands.inherit current id w₂)) refl)
            ]
      ]

  spawn-built :
      (current i : ℕ) (path argument : List ℕ) (words : List (List ℕ)) (s : Processes W)
      (image : ImageResult)
      → free_process_record s.processes ≡ some i
      → split_arguments 15 argument ≡ some words
      → (life.create_image path (path ∷ words) s.world).0 ≡ image
      → Changes life next hands
          (spawn_call current path argument)
          s
          (spawn life current path argument s).1
  unfolding spawn
  spawn-built current i path argument words s out_of_memory f a k =
      rw (f, a, k, spawn) (same (hands.image path (path ∷ words) s.world))
  spawn-built current i path argument words s invalid f a k =
      rw (f, a, k, spawn) (same (hands.image path (path ∷ words) s.world))
  spawn-built current i path argument words s (ready im) f a k =
      rw (f, a, k, spawn)
        (spawn_image-Changes current i path argument im s _
          (hands.image path (path ∷ words) s.world) f)

  spawn-Changes :
      (current : ℕ) (path argument : List ℕ) (s : Processes W)
      → Changes life next hands
          (spawn_call current path argument)
          s
          (spawn life current path argument s).1
  unfolding spawn
  spawn-Changes current path argument s = elim (Option-cases (free_process_record s.processes)) [
    | inl f ↦ rw (f, spawn) (same (omega arith))
    | inr (i, f) ↦ elim (Option-cases (split_arguments 15 argument)) [
      | inl a ↦ rw (f, a, spawn) (same (omega arith))
      | inr (words, a) ↦ spawn-built current i path argument words s _ f a refl
    ]
  ]

  pub life_step-Changes :
      (c : LifeCall) (s : Processes W) → Changes life next hands c s (life_step life c s)
  unfolding life_step
  life_step-Changes (spawn_call current path argument) s = spawn-Changes current path argument s
  life_step-Changes (fork_call current) s = fork-Changes current s
  life_step-Changes (exec_call current path arguments) s =
      exec-Changes life next hands current path arguments s
  life_step-Changes (exit_call current status) s = exit-Changes life next hands current status s
  life_step-Changes (wait_call i) s = wait-Changes life next hands i s
  life_step-Changes (chdir_call is_directory current path) s =
      chdir-Changes life next hands is_directory current path s

  -- Whatever processes do, the records in use have different ids, all below the next task's.
  pub life_run-IsTable :
      (cs : List LifeCall) (s : Processes W)
      → IsTable (next s.world) s.processes
      → let s' = life_run life cs s in IsTable (next s'.world) s'.processes
  unfolding life_run
  life_run-IsTable [] s t = t
  life_run-IsTable (c ∷ cs) s t =
      life_run-IsTable cs (life_step life c s) (Change-IsTable c _ _ _ _ (life_step-Changes c s) t)
