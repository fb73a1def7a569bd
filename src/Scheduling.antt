-- ===== src/Scheduling.antt =====
-- src/kernel/task.c: the tasks and the scheduler. `task_list` is a list with the main task first, and
-- a pointer to a task is the task's id, which no two tasks share. `now` is what pit_uptime_ms returns
-- in the step. The stack switch itself ends a step: what runs next is the field `current`.
pub mod Tasks
pub mod Reaping
pub mod Invariant
pub mod Rotation
pub mod Choice
pub mod Switch
pub mod Reaped
pub mod Changes
pub mod Steps
pub mod Runs
pub mod Lone
pub mod Outcomes
mod Tests
use cone_os.Prelude.{
  ℕ, zero, suc, ◌+◌, ◌-◌, ◌^◌, Bool, true, false, not, ◌&&◌, ◌||◌, Option, none, some, List, [],
  ◌∷◌, ◌++◌, map, ltb, leb, ◌==◌, if◌then◌else◌, add64, u64_max, length, get_elem?,
}
use cone_os.Stack.{KernelStack, no_stack}
use Tasks.{
  Task, TaskState, ready, running, blocked, sleeping, zombie, is_ready, is_running, is_blocked,
  update, find_task, set_state, wake_sleeper, wake_blocked, rest_of, up_to, first_ready,
}
use Reaping.{TaskServices, remove_zombies}

-- The static variables, and what the last switch loaded into the processor: the stacks of the task
-- state segment and the address space.
pub record Scheduler : Type 0 where
  pub tasks : List Task
  pub current : ℕ
  pub next_id : ℕ
  pub preemption : Bool
  pub kernel_stack : ℕ
  pub fault_stack : ℕ
  pub active_space : ℕ

abbrev no_task : Task
no_task = record {
  id = 0;
  name = 0;
  state = running;
  entry = 0;
  argument = 0;
  stack = no_stack;
  fault_stack = no_stack;
  space = 0;
  owns_space = false;
  wake_at = 0;
}

abbrev pub main_task : ℕ → ℕ → ℕ → Task
main_task name top kernel_space = record no_task {
  name = name;
  stack = record no_stack { top = top };
  space = kernel_space;
}

-- task_init, at the stack pointer `top`, of a scheduler whose next id is still 1. What the boot code
-- has loaded into the processor stays.
unfoldable pub task_init : ℕ → ℕ → ℕ → Scheduler → Scheduler
task_init name top kernel_space s = record s {
  tasks = main_task name top kernel_space ∷ [];
  current = 0;
  preemption = false;
}

-- next_ready_task, after it has woken the sleepers: the tasks behind the current one, then those from
-- the head of the list up to it, then the current one itself.
unfoldable pub next_ready_task : ℕ → List Task → Option Task
next_ready_task current tasks = elim (first_ready (rest_of current tasks ++ up_to current tasks)) [
  | some t ↦ some t
  | none ↦ elim (find_task current tasks) [
    | none ↦ none
    | some t ↦ if is_ready t.state then some t else none
  ]
]

abbrev pub ready_if_running : Task → Task
ready_if_running t = if is_running t.state then record t { state = ready } else t

-- The main task has id 0.
abbrev pub switch_to : Task → Scheduler → Scheduler
switch_to next s = record s {
  tasks = set_state next.id running s.tasks;
  current = next.id;
  kernel_stack = next.stack.top;
  fault_stack = if next.id == 0 then 0 else next.fault_stack.top;
  active_space = next.space;
}

-- schedule, after the zombies are removed.
unfoldable pub pick_next : ℕ → Scheduler → Scheduler
pick_next now s =
    let tasks = map (wake_sleeper now) (update s.current ready_if_running s.tasks) in
    let stay = record s { tasks = set_state s.current running tasks } in
    elim (next_ready_task s.current tasks) [
      | none ↦ stay
      | some next ↦
          if next.id == s.current then stay else switch_to next (record s { tasks = tasks })
    ]

module _ {W : Type 0} (services : TaskServices W) where
  unfoldable pub clean : Scheduler → W → Scheduler × W
  clean s w =
      let (tasks, w') = remove_zombies services s.current s.tasks w in
      (record s { tasks = tasks }, w')

  unfoldable pub task_yield : ℕ → Scheduler → W → Scheduler × W
  task_yield now s w = let (s', w') = clean s w in (pick_next now s', w')

  -- task_exit_current
  unfoldable pub exit_current : ℕ → Scheduler → W → Scheduler × W
  exit_current now s w = task_yield now (record s { tasks = set_state s.current zombie s.tasks }) w

  -- task_block_current_if; `should_block` is the result of the callback, true if there is none.
  unfoldable pub block_current_if : Bool → ℕ → Scheduler → W → Bool × Scheduler × W
  block_current_if false now s w = (false, s, w)
  block_current_if true now s w =
      let (s', w') = task_yield now (record s { tasks = set_state s.current blocked s.tasks }) w in
      (true, s', w')

  abbrev sleep_until : ℕ → Task → Task
  sleep_until wake_at t = record t { wake_at = wake_at; state = sleeping }

  unfoldable pub sleep_ms : ℕ → ℕ → Scheduler → W → Scheduler × W
  sleep_ms milliseconds now s w =
      if milliseconds == 0
      then task_yield now s w
      else let wake_at = if ltb (u64_max - now) milliseconds then u64_max else now + milliseconds in
        task_yield now (record s { tasks = update s.current (sleep_until wake_at) s.tasks }) w

  -- The pages of a task's stack: TASK_STACK_SIZE / PMM_PAGE_SIZE, TASK_FAULT_STACK_PAGES
  abbrev stack_pages : ℕ
  stack_pages = 16

  abbrev fault_stack_pages : ℕ
  fault_stack_pages = 4

  -- What task_create_in_space fills in once its memory is there.
  abbrev new_task : ℕ → ℕ → ℕ → KernelStack → KernelStack → ℕ → ℕ → Task
  new_task name entry argument stack fault_stack space id = record {
    id = id;
    name = name;
    state = ready;
    entry = entry;
    argument = argument;
    stack = stack;
    fault_stack = fault_stack;
    space = space;
    owns_space = not (space == services.kernel_space);
    wake_at = 0;
  }

  -- task_create_in_space; a null pointer is 0 and UINT64_MAX is `none`.
  unfoldable pub create_in_space : ℕ → ℕ → ℕ → ℕ → Scheduler → W → Option ℕ × Scheduler × W
  create_in_space name entry argument space s w =
      if name == 0 || entry == 0 || space == 0
      then (none, s, w)
      else let (got, w₁) = services.kmalloc w in
        let (stack, w₂) = services.stack_alloc stack_pages w₁ in
        let (fault, w₃) = services.stack_alloc fault_stack_pages w₂ in
        elim got [
          | false ↦ (none, s, w₁)
          | true ↦ elim stack [
            | none ↦ (none, s, services.kfree w₂)
            | some k ↦ elim fault [
              | none ↦ (none, s, services.kfree (services.stack_free k w₃))
              | some f ↦ (
                some s.next_id,
                record s {
                  tasks = s.tasks ++ (new_task name entry argument k f space s.next_id ∷ []);
                  next_id = add64 s.next_id 1;
                },
                w₃,
              )
            ]
          ]
        ]

  -- task_count
  unfoldable pub task_count : Scheduler → W → ℕ × Scheduler × W
  task_count s w = let (s', w') = clean s w in (length s'.tasks, s', w')

  -- task_get_info: the task at the index.
  unfoldable pub get_info : ℕ → Scheduler → W → Option Task × Scheduler × W
  get_info index s w = let (s', w') = clean s w in (get_elem? s'.tasks index, s', w')

  -- task_replace_address_space: the previous space.
  unfoldable pub replace_address_space : ℕ → Scheduler → Option ℕ × Scheduler
  replace_address_space space s =
      if space == 0 || space == services.kernel_space
      then (none, s)
      else elim (find_task s.current s.tasks) [
        | none ↦ (none, s)
        | some t ↦ if not t.owns_space || t.space == space then (none, s) else (
          some t.space,
          record s {
            tasks = update s.current (λ u. record u { space = space; owns_space = true }) s.tasks;
            active_space = space;
          },
        )
      ]

unfoldable pub task_preempt : ℕ → Scheduler → Scheduler
task_preempt now s = if s.preemption then pick_next now s else s

unfoldable pub enable_preemption : Scheduler → Scheduler
enable_preemption s = record s { preemption = true }

-- task_cancel_ready
unfoldable pub cancel_ready : ℕ → Scheduler → Bool × Scheduler
cancel_ready id s = elim (find_task id s.tasks) [
  | none ↦ (false, s)
  | some t ↦
      if id == s.current || not (is_ready t.state)
      then (false, s)
      else (true, record s { tasks = set_state id zombie s.tasks })
]

-- task_wake_blocked
unfoldable pub wake_all_blocked : Scheduler → Scheduler
wake_all_blocked s = record s { tasks = map wake_blocked s.tasks }
