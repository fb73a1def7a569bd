-- ===== src/Scheduling/Choice.antt =====
-- schedule of src/kernel/task.c: whom it switches to, and that one task runs afterwards.
use cone_os.Prelude.{
  ℕ, ◌<◌, ◌≡◌, ◌≢◌, refl, sym, ◌∙◌, inl, inr, some, List, [], ◌∷◌, map, arith, ◌==◌, Bool-cases,
  All, All-map, All-map₂, Pairwise, ==→eq, ==_false,
}
use cone_os.Scheduling.{Scheduler, ready_if_running}
use cone_os.Scheduling.Tasks.{Task, running, update, set_state, find_task, wake_sleeper}
use cone_os.Scheduling.Invariant.{
  Differ, IsListed, IsValid, KeepsId, All-update, All-map_list, Pairwise-map, Pairwise-update,
  find_task-map, find_task-update,
}

-- The tasks once the current one is ready again and the sleepers that are due are woken.
abbrev pub prepared : ℕ → Scheduler → List Task
prepared now s = map (wake_sleeper now) (update s.current ready_if_running s.tasks)

ready_if_running-KeepsId : KeepsId ready_if_running
ready_if_running-KeepsId t = ground arith

wake_sleeper-KeepsId : (now : ℕ) → KeepsId (wake_sleeper now)
wake_sleeper-KeepsId now t = ground arith

ready_if_running-space : (t : Task) → (ready_if_running t).space ≡ t.space
ready_if_running-space t = ground arith

wake_sleeper-space : (now : ℕ) (t : Task) → (wake_sleeper now t).space ≡ t.space
wake_sleeper-space now t = ground arith

ready_if_running-idle : (t : Task) → (ready_if_running t).state ≢ running
ready_if_running-idle t = ground arith

wake_sleeper-idle : (now : ℕ) (t : Task) → t.state ≢ running → (wake_sleeper now t).state ≢ running
wake_sleeper-idle now t h = ground arith

update-idle :
    (id : ℕ) (ts : List Task)
    → Pairwise Differ ts
    → All (λ t. t.id ≢ id → t.state ≢ running) ts
    → All (λ t. t.state ≢ running) (update id ready_if_running ts)
unfolding update
update-idle id [] d h = tt
update-idle id (t ∷ ts) d h = elim (Bool-cases (t.id == id)) [
  | inl e ↦ rw e (
    ready_if_running-idle t,
    All-map₂ (Differ t) (λ u. u.id ≢ id → u.state ≢ running) (λ u. u.state ≢ running)
        (λ u ne k. k (λ e'. ne (==→eq t.id id e ∙ sym e'))) ts d.0 h.1,
  )
  | inr e ↦ rw e (h.0 (==_false t.id id e), update-idle id ts d.1 h.1)
]

-- What `prepared` keeps, and that it leaves no task running.
pub record IsPrepared (s : Scheduler) (ts : List Task) : Type 0 where
  pub distinct : Pairwise Differ ts
  pub numbered : All (λ t. t.id < s.next_id) ts
  pub present : (t : Task) × (find_task s.current ts ≡ some t) × (t.space ≡ s.active_space)
  pub idle : All (λ t. t.state ≢ running) ts

pub prepared-IsPrepared : (now : ℕ) (s : Scheduler) → IsListed s → IsPrepared s (prepared now s)
prepared-IsPrepared now s h =
    let (t, found, space) = h.present in
    let ts = update s.current ready_if_running s.tasks in
    record {
      distinct =
          Pairwise-map (wake_sleeper now) (wake_sleeper-KeepsId now) ts (
            Pairwise-update ready_if_running ready_if_running-KeepsId s.current s.tasks h.distinct);
      numbered =
          All-map_list (λ t. t.id < s.next_id) (λ t. t.id < s.next_id) (wake_sleeper now) ts
            (λ t lt. rw (wake_sleeper-KeepsId now t) lt)
            (All-update (λ t. t.id < s.next_id) ready_if_running s.current s.tasks
              (λ t e lt. rw (ready_if_running-KeepsId t) lt) h.numbered);
      present = (
        wake_sleeper now (ready_if_running t),
        find_task-map (wake_sleeper now) (wake_sleeper-KeepsId now) s.current ts
            (ready_if_running t)
            (find_task-update ready_if_running ready_if_running-KeepsId s.current s.tasks t found),
        wake_sleeper-space now (ready_if_running t) ∙ ready_if_running-space t ∙ space,
      );
      idle =
          All-map_list (λ t. t.state ≢ running) (λ t. t.state ≢ running) (wake_sleeper now) ts
            (wake_sleeper-idle now) (update-idle s.current s.tasks h.distinct h.alone);
    }

abbrev run_task : Task → Task
run_task t = record t { state = running }

-- One task of the prepared list is set running, and its address space is loaded.
pub running-IsValid :
    (s : Scheduler) (ts : List Task) (t : Task) (s' : Scheduler)
    → IsPrepared s ts
    → find_task s'.current ts ≡ some t
    → s'.tasks ≡ set_state s'.current running ts
    → t.space ≡ s'.active_space
    → s.next_id ≡ s'.next_id
    → IsValid s'
running-IsValid s ts t s' h found tasks space ids =
    let there : find_task s'.current s'.tasks ≡ some (run_task t) =
      rw tasks (find_task-update run_task (λ u. refl) s'.current ts t found) in
    record {
      listed = record {
        distinct = rw tasks (Pairwise-update run_task (λ u. refl) s'.current ts h.distinct);
        numbered =
            rw (tasks, ← ids)
              (All-update (λ t. t.id < s.next_id) run_task s'.current ts (λ t e lt. lt) h.numbered);
        present = (run_task t, there, space);
        alone = rw tasks (
            All-update (λ t. t.id ≢ s'.current → t.state ≢ running) run_task s'.current ts
              (λ t e k ne. absurd (ne e))
              (All-map (λ t. t.state ≢ running) (λ t. t.id ≢ s'.current → t.state ≢ running)
                (λ t k ne. k) ts h.idle));
      };
      runs = λ u e. cc;
    }
