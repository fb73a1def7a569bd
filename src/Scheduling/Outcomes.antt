-- ===== src/Scheduling/Outcomes.antt =====
-- What task_cancel_ready, task_count and task_init of src/kernel/task.c do.
use cone_os.Prelude.{
  ℕ, ◌<◌, ◌≡◌, ◌≢◌, refl, sym, ◌⊎◌, Bool, true, false, not, ◌||◌, inl, inr, Option, none, some,
  arith, ◌==◌, Bool-cases, All, length, drop,
}
use cone_os.Scheduling.{Scheduler, clean, task_count, cancel_ready, task_init, main_task}
use cone_os.Scheduling.Tasks.{Task, is_ready, is_zombie, zombie, find_task}
use cone_os.Scheduling.Reaping.{TaskServices}
use cone_os.Scheduling.Invariant.{IsValid, find_task-update}
use cone_os.Scheduling.Reaped.{clean-IsValid, remove_zombies-gone}

abbrev pub Cancelled : ℕ → Scheduler → Bool × Scheduler → Type 0
Cancelled id s r =
    ((r.0 ≡ true)
      × ((t : Task) × (find_task id s.tasks ≡ some t)
          × (is_ready t.state ≡ true)
          × (id ≢ s.current)
          × (find_task id r.1.tasks ≡ some (record t { state = zombie }))))
    ⊎ ((r.0 ≡ false)
        × (r.1 ≡ s)
        × ((t : Task) → find_task id s.tasks ≡ some t → id ≢ s.current → is_ready t.state ≡ false))

-- task_cancel_ready turns a task into a zombie exactly if the list has the task, it is ready and it is
-- not the current one. Otherwise it returns 0 and changes nothing.
pub cancel_ready_lem : (id : ℕ) (s : Scheduler) → Cancelled id s (cancel_ready id s)
unfolding cancel_ready
cancel_ready_lem id s = found (find_task id s.tasks) refl
  where
    found : (o : Option Task) → find_task id s.tasks ≡ o → Cancelled id s (cancel_ready id s)
    found none e = rw (e, cancel_ready) (inr (refl, refl, λ t e' ne. absurd (cc)))
    found (some t) e = elim (Bool-cases (id == s.current || not (is_ready t.state))) [
      | inl b ↦
          rw (e, b, cancel_ready)
            (inr (refl, refl, λ u e' ne. let same : t ≡ u = cc in rw (← same) (ground arith)))
      | inr b ↦
          rw (e, b, cancel_ready)
            (inl (
              refl,
              (
                t,
                refl,
                ground arith,
                ground arith,
                find_task-update (λ u. record u { state = zombie }) (λ u. refl) id s.tasks t e,
              ),
            ))
    ]

-- task_count removes every zombie behind the main task and keeps the scheduler in order. It returns
-- the number of tasks that are left.
pub task_count_lem :
    {W : Type 0} (services : TaskServices W) (s : Scheduler) (w : W)
    → IsValid s
    → let (n, s', w') = task_count services s w in
      (n ≡ length s'.tasks)
      × IsValid s'
      × (s'.current ≡ s.current)
      × All (λ t. t.id ≢ s.current → is_zombie t.state ≡ false) (drop 1 s'.tasks)
unfolding task_count clean
task_count_lem services s w h =
    (refl, clean-IsValid services s w h, refl, remove_zombies-gone services s.current s.tasks w)

-- task_init leaves a scheduler in order, if the kernel's address space is loaded.
pub task_init-IsValid :
    (name top kernel_space : ℕ) (s : Scheduler)
    → s.active_space ≡ kernel_space
    → 0 < s.next_id
    → IsValid (task_init name top kernel_space s)
unfolding task_init find_task
task_init-IsValid name top kernel_space s loaded fresh = record {
  listed = record {
    distinct = (tt, tt);
    numbered = (fresh, tt);
    present = (main_task name top kernel_space, refl, sym loaded);
    alone = (λ ne. absurd (ne refl), tt);
  };
  runs = λ t e. let same : main_task name top kernel_space ≡ t = cc in rw (← same) refl;
}
