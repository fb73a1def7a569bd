-- ===== src/Scheduling/Steps.antt =====
-- The calls of src/kernel/task.c keep the scheduler in order.
use cone_os.Prelude.{
  ℕ, ◌+◌, ◌^◌, ◌<◌, ◌≡◌, ◌≢◌, refl, Bool, true, false, not, ◌||◌, inl, inr, Option, none, some,
  arith, ◌==◌, Bool-cases,
}
use cone_os.Stack.{KernelStack}
use cone_os.Scheduling.{
  Scheduler, clean, task_yield, create_in_space, replace_address_space, enable_preemption,
  cancel_ready,
}
use cone_os.Scheduling.Tasks.{Task, running, zombie, is_ready, find_task, update}
use cone_os.Scheduling.Reaping.{TaskServices}
use cone_os.Scheduling.Invariant.{IsListed, IsValid, Pairwise-update, All-update, find_task-update}
use cone_os.Scheduling.Switch.{pick_next_lem}
use cone_os.Scheduling.Reaped.{clean-IsListed}
use cone_os.Scheduling.Changes.{set_state-IsValid, append-IsValid}

module _ {W : Type 0} (services : TaskServices W) where
  pub task_yield-IsValid :
      (now : ℕ) (s : Scheduler) (w : W) → IsListed s → IsValid (task_yield services now s w).0
  unfolding task_yield
  task_yield-IsValid now s w h =
      (pick_next_lem now (clean services s w).0 (clean-IsListed services s w h)).0

  pub create-IsValid :
      (name entry argument space : ℕ) (s : Scheduler) (w : W)
      → IsValid s
      → s.next_id + 1 < 2 ^ 64
      → IsValid (create_in_space services name entry argument space s w).1
  unfolding create_in_space
  create-IsValid name entry argument space s w h bound =
      elim (Bool-cases (name == 0 || entry == 0 || space == 0)) [
        | inl e ↦ rw e h
        | inr e ↦ got e (services.kmalloc w).0 refl
      ]
    where
      w₁ : W
      w₁ = (services.kmalloc w).1

      w₂ : W
      w₂ = (services.stack_alloc 16 w₁).1

      got :
          (name == 0 || entry == 0 || space == 0) ≡ false
          → (b : Bool) → (services.kmalloc w).0 ≡ b
          → IsValid (create_in_space services name entry argument space s w).1
      got g false e = rw (g, e, create_in_space) h
      got g true e = stack (services.stack_alloc 16 w₁).0 refl
        where
          stack :
              (o : Option KernelStack)
              → (services.stack_alloc 16 w₁).0 ≡ o
              → IsValid (create_in_space services name entry argument space s w).1
          stack none e' = rw (g, e, e', create_in_space) h
          stack (some k) e' = fault (services.stack_alloc 4 w₂).0 refl
            where
              fault :
                  (o : Option KernelStack)
                  → (services.stack_alloc 4 w₂).0 ≡ o
                  → IsValid (create_in_space services name entry argument space s w).1
              fault none e'' = rw (g, e, e', e'', create_in_space) h
              fault (some f) e'' =
                  rw (g, e, e', e'', create_in_space) (append-IsValid _ s refl refl bound h)

  pub cancel-IsValid : (id : ℕ) (s : Scheduler) → IsValid s → IsValid (cancel_ready id s).1
  unfolding cancel_ready
  cancel-IsValid id s h = found (find_task id s.tasks) refl
    where
      found : (o : Option Task) → find_task id s.tasks ≡ o → IsValid (cancel_ready id s).1
      found none e = rw (e, cancel_ready) h
      found (some t) e = elim (Bool-cases (id == s.current || not (is_ready t.state))) [
        | inl b ↦ rw (e, b, cancel_ready) h
        | inr b ↦
            rw (e, b, cancel_ready) (set_state-IsValid id zombie s (ground arith) (λ e'. cc) h)
      ]

  pub replace-IsValid :
      (space : ℕ) (s : Scheduler) → IsValid s → IsValid (replace_address_space services space s).1
  unfolding replace_address_space
  replace-IsValid space s h = elim (Bool-cases (space == 0 || space == services.kernel_space)) [
    | inl b ↦ rw (b, replace_address_space) h
    | inr b ↦ owned b h.listed.present.0 h.listed.present.1
  ]
    where
      loaded : Task → Task
      loaded u = record u { space = space; owns_space = true }

      moved :
          (t : Task)
          → find_task s.current s.tasks ≡ some t
          → IsValid (record s { tasks = update s.current loaded s.tasks; active_space = space })
      moved t found =
          let there : find_task s.current (update s.current loaded s.tasks) ≡ some (loaded t) =
            find_task-update loaded (λ u. refl) s.current s.tasks t found in
          record {
            listed = record {
              distinct = Pairwise-update loaded (λ u. refl) s.current s.tasks h.listed.distinct;
              numbered =
                  All-update (λ u. u.id < s.next_id) loaded s.current s.tasks (λ u e lt. lt)
                    h.listed.numbered;
              present = (loaded t, there, refl);
              alone =
                  All-update (λ u. u.id ≢ s.current → u.state ≢ running) loaded s.current s.tasks
                    (λ u e k. k) h.listed.alone;
            };
            runs = λ u e. let same : loaded t ≡ u = cc in rw (← same) (h.runs t found);
          }

      owned :
          (space == 0 || space == services.kernel_space) ≡ false
          → (t : Task) → find_task s.current s.tasks ≡ some t
          → IsValid (replace_address_space services space s).1
      owned g t found = elim (Bool-cases (not t.owns_space || t.space == space)) [
        | inl b ↦ rw (g, found, b, replace_address_space) h
        | inr b ↦ rw (g, found, b, replace_address_space) (moved t found)
      ]

  pub enable-IsValid : (s : Scheduler) → IsValid s → IsValid (enable_preemption s)
  unfolding enable_preemption
  enable-IsValid s h = record {
    listed = record {
      distinct = h.listed.distinct;
      numbered = h.listed.numbered;
      present = h.listed.present;
      alone = h.listed.alone;
    };
    runs = h.runs;
  }
