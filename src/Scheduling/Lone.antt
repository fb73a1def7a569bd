-- ===== src/Scheduling/Lone.antt =====
-- src/kernel/task.c when no other task can run: the current task goes on, even after it has exited or
-- gone to sleep.
use cone_os.Prelude.{
  ℕ, ◌≡◌, ◌≢◌, refl, false, inl, inr, some, List, [], ◌∷◌, arith, ◌==◌, Bool-cases, All,
}
use cone_os.Scheduling.{Scheduler, ready_if_running, clean, task_yield, exit_current, sleep_ms}
use cone_os.Scheduling.Tasks.{Task, is_ready, is_sleeping, zombie, find_task, update, wake_sleeper}
use cone_os.Scheduling.Reaping.{TaskServices}
use cone_os.Scheduling.Invariant.{IsValid, KeepsId, All-update, All-map_list}
use cone_os.Scheduling.Choice.{prepared}
use cone_os.Scheduling.Switch.{pick_next_lem}
use cone_os.Scheduling.Reaped.{clean-IsListed, remove_zombies-All}
use cone_os.Scheduling.Changes.{update_current-IsListed}

-- No task but the current one is ready or asleep.
abbrev pub Waits : ℕ → Task → Type 0
Waits current t = t.id ≢ current → (is_ready t.state ≡ false) × (is_sleeping t.state ≡ false)

find_task-All :
    (P : Task → Type 0) (id : ℕ) (ts : List Task) (t : Task)
    → All P ts
    → find_task id ts ≡ some t
    → P t
unfolding find_task
find_task-All P id [] t h e = absurd (cc)
find_task-All P id (u ∷ ts) t h e = elim (Bool-cases (u.id == id)) [
  | inl b ↦ let same : u ≡ t = cc (rw b at e) in rw (← same) h.0
  | inr b ↦ find_task-All P id ts t h.1 (rw b at e)
]

wake_sleeper-Waits :
    (now current : ℕ) (t : Task) → Waits current t → Waits current (wake_sleeper now t)
wake_sleeper-Waits now current t h = ground arith

ready_if_running-id : (t : Task) → (ready_if_running t).id ≡ t.id
ready_if_running-id t = ground arith

prepared-Waits :
    (now : ℕ) (s : Scheduler)
    → All (Waits s.current) s.tasks
    → All (Waits s.current) (prepared now s)
prepared-Waits now s h =
    All-map_list (Waits s.current) (Waits s.current) (wake_sleeper now)
      (update s.current ready_if_running s.tasks) (wake_sleeper-Waits now s.current)
      (All-update (Waits s.current) ready_if_running s.current s.tasks
        (λ t e k ne. absurd (ne (rw (ready_if_running-id t) e))) h)

-- A change of the current task, then a yield, while the others wait.
yield-alone :
    {W : Type 0} (services : TaskServices W) (f : Task → Task) (now : ℕ) (s : Scheduler) (w : W)
    → KeepsId f
    → ((t : Task) → (f t).space ≡ t.space)
    → IsValid s
    → All (Waits s.current) s.tasks
    → let s' = (task_yield services now (record s { tasks = update s.current f s.tasks }) w).0 in
      IsValid s' × (s'.current ≡ s.current)
unfolding task_yield clean
yield-alone services f now s w keeps same h waits =
    let changed : Scheduler = record s { tasks = update s.current f s.tasks } in
    let cleaned : Scheduler = (clean services changed w).0 in
    let quiet : All (Waits s.current) (prepared now cleaned) = prepared-Waits now cleaned (
      remove_zombies-All services s.current (Waits s.current) changed.tasks w (
        All-update (Waits s.current) f s.current s.tasks (λ t e k ne. absurd (ne (rw (keeps t) e)))
          waits)) in
    let (valid, outcome) =
      pick_next_lem now cleaned
        (clean-IsListed services changed w (update_current-IsListed f s keeps same h.listed)) in
    elim outcome [
      | inr (idle, stays) ↦ (valid, stays)
      | inl (t, found, is_next, other, goes, stack) ↦
          let (idle, awake) =
            find_task-All (Waits s.current) t.id (prepared now cleaned) t quiet found other in
          absurd (cc)
    ]

-- If no other task is ready or asleep, task_exit_current returns to the task that has exited, which is
-- marked as running again.
pub exit_current_returns :
    {W : Type 0} (services : TaskServices W) (now : ℕ) (s : Scheduler) (w : W)
    → IsValid s
    → All (Waits s.current) s.tasks
    → let s' = (exit_current services now s w).0 in IsValid s' × (s'.current ≡ s.current)
unfolding exit_current
exit_current_returns services now s w h waits =
    yield-alone services (λ t. record t { state = zombie }) now s w (λ t. refl) (λ t. refl) h waits

-- If no other task is ready or asleep, task_sleep_ms returns at once, however long the sleep, and the
-- task is marked as running.
pub sleep_ms_returns :
    {W : Type 0} (services : TaskServices W) (milliseconds now : ℕ) (s : Scheduler) (w : W)
    → IsValid s
    → All (Waits s.current) s.tasks
    → let s' = (sleep_ms services milliseconds now s w).0 in IsValid s' × (s'.current ≡ s.current)
unfolding sleep_ms update
sleep_ms_returns services milliseconds now s w h waits = elim (Bool-cases (milliseconds == 0)) [
  | inl e ↦ rw e (unchanged (yield-alone services (λ t. t) now s w (λ t. refl) (λ t. refl) h waits))
  | inr e ↦ rw e (yield-alone services _ now s w (λ t. refl) (λ t. refl) h waits)
]
  where
    same : (ts : List Task) → update s.current (λ t. t) ts ≡ ts
    same [] = refl
    same (t ∷ ts) = elim (Bool-cases (t.id == s.current)) [
      | inl e ↦ rw (e, update) refl
      | inr e ↦ rw (e, update) (rw (same ts) refl)
    ]

    unchanged :
        let s' =
          (task_yield services now (record s { tasks = update s.current (λ t. t) s.tasks }) w).0 in
        IsValid s' × (s'.current ≡ s.current)
        → let s'' = (task_yield services now s w).0 in IsValid s'' × (s''.current ≡ s.current)
    unchanged k = rw (same s.tasks) at k
