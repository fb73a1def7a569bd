-- ===== src/Scheduling/Runs.antt =====
-- Sequences of calls of src/kernel/task.c.
use cone_os.Prelude.{
  ℕ, ◌+◌, ◌^◌, ◌<◌, ◌≤◌, ◌≡◌, refl, Bool, true, false, inl, inr, List, [], ◌∷◌, length, arith, ◌==◌,
  if◌then◌else◌, Bool-cases,
}
use cone_os.Scheduling.{
  Scheduler, pick_next, clean, task_yield, exit_current, block_current_if, sleep_ms,
  create_in_space, task_count, replace_address_space, task_preempt, enable_preemption, cancel_ready,
  wake_all_blocked,
}
use cone_os.Scheduling.Tasks.{blocked, zombie, set_state}
use cone_os.Scheduling.Reaping.{TaskServices}
use cone_os.Scheduling.Invariant.{IsValid}
use cone_os.Scheduling.Switch.{pick_next_lem}
use cone_os.Scheduling.Reaped.{clean-IsValid}
use cone_os.Scheduling.Changes.{update_current-IsListed, wake_blocked-IsValid}
use cone_os.Scheduling.Switch.{pick_next-next_id}
use cone_os.Scheduling.Steps.{
  task_yield-IsValid, create-IsValid, cancel-IsValid, replace-IsValid, enable-IsValid,
}

-- A call, with the time at which it is made where the time is read.
pub data Call : Type 0 where
  yield : ℕ → Call
  preempt : ℕ → Call
  exit : ℕ → Call
  block : Bool → ℕ → Call
  sleep : ℕ → ℕ → Call
  create : ℕ → ℕ → ℕ → ℕ → Call
  cancel : ℕ → Call
  replace : ℕ → Call
  wake : Call
  count : Call
  enable : Call

module _ {W : Type 0} (services : TaskServices W) where
  abbrev pub call : Call → Scheduler × W → Scheduler × W
  call (yield now) (s, w) = task_yield services now s w
  call (preempt now) (s, w) = (task_preempt now s, w)
  call (exit now) (s, w) = exit_current services now s w
  call (block should now) (s, w) =
      let (done, s', w') = block_current_if services should now s w in (s', w')
  call (sleep ms now) (s, w) = sleep_ms services ms now s w
  call (create name entry argument space) (s, w) =
      let (id, s', w') = create_in_space services name entry argument space s w in (s', w')
  call (cancel id) (s, w) = ((cancel_ready id s).1, w)
  call (replace space) (s, w) = ((replace_address_space services space s).1, w)
  call wake (s, w) = (wake_all_blocked s, w)
  call count (s, w) = let (n, s', w') = task_count services s w in (s', w')
  call enable (s, w) = (enable_preemption s, w)

  unfoldable pub call_all : List Call → Scheduler × W → Scheduler × W
  call_all [] m = m
  call_all (c ∷ cs) m = call_all cs (call c m)

  pub call-IsValid :
      (c : Call) (s : Scheduler) (w : W)
      → IsValid s
      → s.next_id + 1 < 2 ^ 64
      → IsValid (call c (s, w)).0
  unfolding exit_current block_current_if sleep_ms task_count task_preempt wake_all_blocked
  call-IsValid (yield now) s w h bound = task_yield-IsValid services now s w h.listed
  call-IsValid (preempt now) s w h bound = either s.preemption (pick_next_lem now s h.listed).0
    where
      either : (b : Bool) → IsValid (pick_next now s) → IsValid (if b then pick_next now s else s)
      either true k = k
      either false k = h
  call-IsValid (exit now) s w h bound =
      task_yield-IsValid services now _ w
        (update_current-IsListed _ s (λ t. refl) (λ t. refl) h.listed)
  call-IsValid (block false now) s w h bound = h
  call-IsValid (block true now) s w h bound =
      task_yield-IsValid services now _ w
        (update_current-IsListed _ s (λ t. refl) (λ t. refl) h.listed)
  call-IsValid (sleep ms now) s w h bound = elim (Bool-cases (ms == 0)) [
    | inl e ↦ rw e (task_yield-IsValid services now s w h.listed)
    | inr e ↦ rw e (
        task_yield-IsValid services now _ w
          (update_current-IsListed _ s (λ t. refl) (λ t. refl) h.listed))
  ]
  call-IsValid (create name entry argument space) s w h bound =
      create-IsValid services name entry argument space s w h bound
  call-IsValid (cancel id) s w h bound = cancel-IsValid services id s h
  call-IsValid (replace space) s w h bound = replace-IsValid services space s h
  call-IsValid wake s w h bound = wake_blocked-IsValid s h
  call-IsValid count s w h bound = clean-IsValid services s w h
  call-IsValid enable s w h bound = enable-IsValid services s h

  yield_next_id :
      (now : ℕ) (s : Scheduler) (w : W) → (task_yield services now s w).0.next_id ≡ s.next_id
  unfolding task_yield clean
  yield_next_id now s w = pick_next-next_id now (clean services s w).0

  create_next_id :
      (name entry argument space : ℕ) (s : Scheduler) (w : W)
      → (create_in_space services name entry argument space s w).1.next_id ≤ s.next_id + 1
  unfolding create_in_space
  create_next_id name entry argument space s w = ground arith

  call_next_id : (c : Call) (s : Scheduler) (w : W) → (call c (s, w)).0.next_id ≤ s.next_id + 1
  unfolding exit_current block_current_if sleep_ms task_count task_preempt wake_all_blocked clean
      cancel_ready replace_address_space enable_preemption
  call_next_id (yield now) s w = omega (arith, yield_next_id now s w)
  call_next_id (preempt now) s w = ground (arith, pick_next-next_id now s)
  call_next_id (exit now) s w =
      omega (arith, yield_next_id now (record s { tasks = set_state s.current zombie s.tasks }) w)
  call_next_id (block false now) s w = omega arith
  call_next_id (block true now) s w =
      omega (arith, yield_next_id now (record s { tasks = set_state s.current blocked s.tasks }) w)
  call_next_id (sleep ms now) s w = elim (Bool-cases (ms == 0)) [
    | inl e ↦ rw e (omega (arith, yield_next_id now s w))
    | inr e ↦ rw e (omega (arith, yield_next_id now (record s { tasks = _ }) w))
  ]
  call_next_id (create name entry argument space) s w = create_next_id name entry argument space s w
  call_next_id (cancel id) s w = ground arith
  call_next_id (replace space) s w = ground arith
  call_next_id wake s w = omega arith
  call_next_id count s w = omega arith
  call_next_id enable s w = omega arith

-- From a scheduler in order, no sequence of calls breaks it, as long as the 64-bit task ids do not
-- run out: ids stay distinct, the current task stays in the list, it alone is marked as running, and
-- its address space is the loaded one.
pub call_all-IsValid :
    {W : Type 0} (services : TaskServices W) (calls : List Call) (s : Scheduler) (w : W)
    → IsValid s
    → s.next_id + length calls < 2 ^ 64
    → IsValid (call_all services calls (s, w)).0
unfolding call_all
call_all-IsValid services [] s w h bound = h
call_all-IsValid services (c ∷ cs) s w h bound =
    call_all-IsValid services cs _ _ (call-IsValid services c s w h (omega arith))
      (omega (arith, call_next_id services c s w))
