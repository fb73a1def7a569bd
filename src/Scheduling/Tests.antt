-- ===== src/Scheduling/Tests.antt =====
-- A scheduler with one task beside the main one. The world counts the structures in use.
use cone_os.Prelude.{ℕ, ◌+◌, ◌-◌, ◌≡◌, ◌≢◌, refl, ◌⊎◌, true, false, some, List, [], ◌∷◌, arith, All}
use cone_os.Stack.{no_stack}
use cone_os.Scheduling.{
  Scheduler, task_init, main_task, pick_next, next_ready_task, exit_current, sleep_ms,
}
use cone_os.Scheduling.Tasks.{Task, ready, is_ready, find_task, update, rest_of, up_to, first_ready}
use cone_os.Scheduling.Reaping.{TaskServices}
use cone_os.Scheduling.Invariant.{IsValid}
use cone_os.Scheduling.Choice.{prepared}
use cone_os.Scheduling.Switch.{pick_next_lem}
use cone_os.Scheduling.Runs.{Call, yield, exit, create, sleep, call_all, call_all-IsValid}
use cone_os.Scheduling.Lone.{exit_current_returns, sleep_ms_returns}
use cone_os.Scheduling.Outcomes.{task_init-IsValid}

abbrev counting : TaskServices ℕ
counting = record {
  kmalloc = λ w. (true, w + 1);
  kfree = λ w. w - 1;
  stack_alloc = λ n w. (some no_stack, w);
  stack_free = λ k w. w;
  space_destroy = λ p w. w;
  kernel_space = 7;
}

abbrev unset : Scheduler
unset = record {
  tasks = [];
  current = 0;
  next_id = 1;
  preemption = false;
  kernel_stack = 0;
  fault_stack = 0;
  active_space = 7;
}

abbrev lone : Scheduler
lone = record unset { tasks = main_task 5 4096 7 ∷ [] }

lone-IsValid : IsValid lone
unfolding task_init
lone-IsValid = task_init-IsValid 5 4096 7 unset refl (omega arith)

abbrev second : Task
second = record (main_task 6 8192 7) { id = 1; state = ready }

abbrev pair : Scheduler
pair = record lone { tasks = main_task 5 4096 7 ∷ second ∷ []; next_id = 2 }

pair-IsValid : IsValid pair
unfolding find_task
pair-IsValid = record {
  listed = record {
    distinct = ((λ e. omega arith, tt), (tt, tt));
    numbered = (omega arith, (omega arith, tt));
    present = (main_task 5 4096 7, refl, refl);
    alone = (λ ne e. ne refl, (λ ne e. cc, tt));
  };
  runs = λ t e. let same : main_task 5 4096 7 ≡ t = cc in rw (← same) refl;
}

abbrev calls : List Call
calls = create 8 9 0 7 ∷ yield 3 ∷ sleep 10 4 ∷ exit 5 ∷ yield 20 ∷ []

call_all-IsValid_example : IsValid (call_all counting calls (pair, 2)).0
call_all-IsValid_example = call_all-IsValid counting calls pair 2 pair-IsValid (omega arith)

pick_next_lem_example :
    IsValid (pick_next 3 pair)
    × (((t : Task) × (find_task t.id (prepared 3 pair) ≡ some t)
          × (is_ready t.state ≡ true)
          × (t.id ≢ 0)
          × ((pick_next 3 pair).current ≡ t.id)
          × ((pick_next 3 pair).kernel_stack ≡ t.stack.top))
        ⊎ (All (λ t. t.id ≢ 0 → is_ready t.state ≡ false) (prepared 3 pair)
            × ((pick_next 3 pair).current ≡ 0)))
pick_next_lem_example = pick_next_lem 3 pair pair-IsValid.listed

pick_next-second : (pick_next 3 pair).current ≡ 1
unfolding pick_next next_ready_task find_task update rest_of up_to first_ready
pick_next-second = refl

exit_current_returns_example :
    let s' = (exit_current counting 3 lone 1).0 in IsValid s' × (s'.current ≡ 0)
exit_current_returns_example =
    exit_current_returns counting 3 lone 1 lone-IsValid (λ ne. absurd (ne refl), tt)

sleep_ms_returns_example :
    let s' = (sleep_ms counting 5000 3 lone 1).0 in IsValid s' × (s'.current ≡ 0)
sleep_ms_returns_example =
    sleep_ms_returns counting 5000 3 lone 1 lone-IsValid (λ ne. absurd (ne refl), tt)
