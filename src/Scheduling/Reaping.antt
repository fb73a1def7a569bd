-- ===== src/Scheduling/Reaping.antt =====
-- remove_zombies of src/kernel/task.c, over the services that it gives the memory back to.
use cone_os.Prelude.{ℕ, Bool, not, ◌&&◌, Option, List, [], ◌∷◌, ◌==◌, if◌then◌else◌}
use cone_os.Stack.{KernelStack}
use cone_os.Scheduling.Tasks.{Task, is_zombie}

-- kmalloc and kfree of a struct task, kernel_stack_alloc and _free, vmm_space_destroy,
-- vmm_kernel_space.
pub record TaskServices (W : Type 0) : Type 0 where
  pub kmalloc : W → Bool × W
  pub kfree : W → W
  pub stack_alloc : ℕ → W → Option KernelStack × W
  pub stack_free : KernelStack → W → W
  pub space_destroy : ℕ → W → W
  pub kernel_space : ℕ

module _ {W : Type 0} (services : TaskServices W) where
  unfoldable pub release_task : Task → W → W
  release_task t w =
      let w' = services.stack_free t.fault_stack (services.stack_free t.stack w) in
      services.kfree (if t.owns_space then services.space_destroy t.space w' else w')

  -- The loop, from the second task on.
  unfoldable pub reap : ℕ → List Task → W → List Task × W
  reap current [] w = ([], w)
  reap current (t ∷ ts) w =
      if not (t.id == current) && is_zombie t.state
      then reap current ts (release_task t w)
      else let (ts', w') = reap current ts w in (t ∷ ts', w')

  unfoldable pub remove_zombies : ℕ → List Task → W → List Task × W
  remove_zombies current [] w = ([], w)
  remove_zombies current (main ∷ ts) w = let (ts', w') = reap current ts w in (main ∷ ts', w')
