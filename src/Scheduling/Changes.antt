-- ===== src/Scheduling/Changes.antt =====
-- The writes to the list of tasks of src/kernel/task.c keep it in order.
use cone_os.Prelude.{
  ℕ, ◌+◌, ◌^◌, ◌<◌, ◌≡◌, ◌≢◌, refl, sym, ◌∙◌, false, inl, inr, some, List, [], ◌∷◌, ◌++◌, map,
  arith, ◌==◌, Bool-cases, All-map, All-append_one, Pairwise-append_one, add64,
}
use cone_os.Scheduling.{Scheduler}
use cone_os.Scheduling.Tasks.{
  Task, TaskState, ready, running, update, set_state, find_task, wake_blocked,
}
use cone_os.Scheduling.Invariant.{
  Differ, IsListed, IsValid, KeepsId, All-update, All-map_list, Pairwise-map, Pairwise-update,
  find_task-map, find_task-update,
}

-- A write to the current task that keeps its id and its space.
pub update_current-IsListed :
    (f : Task → Task) (s : Scheduler)
    → KeepsId f
    → ((t : Task) → (f t).space ≡ t.space)
    → IsListed s
    → IsListed (record s { tasks = update s.current f s.tasks })
update_current-IsListed f s keeps same h =
    let (t, found, space) = h.present in
    record {
      distinct = Pairwise-update f keeps s.current s.tasks h.distinct;
      numbered =
          All-update (λ t. t.id < s.next_id) f s.current s.tasks (λ t e lt. rw (keeps t) lt)
            h.numbered;
      present = (f t, find_task-update f keeps s.current s.tasks t found, same t ∙ space);
      alone =
          All-update (λ t. t.id ≢ s.current → t.state ≢ running) f s.current s.tasks
            (λ t e k ne. absurd (ne (keeps t ∙ e))) h.alone;
    }

find_task-update_ne :
    (id other : ℕ) (f : Task → Task) (ts : List Task)
    → KeepsId f
    → id ≢ other
    → find_task id (update other f ts) ≡ find_task id ts
unfolding find_task update
find_task-update_ne id other f [] keeps ne = refl
find_task-update_ne id other f (t ∷ ts) keeps ne = elim (Bool-cases (t.id == other)) [
  | inl e ↦
      let same : (f t).id ≡ t.id = keeps t in
      let miss : (t.id == id) ≡ false = ground arith in rw e (rw (same, miss) refl)
  | inr e ↦ rw e (elim (Bool-cases (t.id == id)) [
    | inl e' ↦ rw (e', find_task) refl
    | inr e' ↦ rw (e', find_task) (find_task-update_ne id other f ts keeps ne)
  ])
]

-- A task that is not the current one gets a state in which it does not run.
pub set_state-IsValid :
    (id : ℕ) (state : TaskState) (s : Scheduler)
    → id ≢ s.current
    → state ≢ running
    → IsValid s
    → IsValid (record s { tasks = set_state id state s.tasks })
set_state-IsValid id state s ne idle h =
    let f : Task → Task = λ t. record t { state = state } in
    let (t, found, space) = h.listed.present in
    let same : find_task s.current (set_state id state s.tasks) ≡ find_task s.current s.tasks =
      find_task-update_ne s.current id f s.tasks (λ t. refl) (λ e. ne (sym e)) in
    record {
      listed = record {
        distinct = Pairwise-update f (λ t. refl) id s.tasks h.listed.distinct;
        numbered = All-update (λ t. t.id < s.next_id) f id s.tasks (λ t e lt. lt) h.listed.numbered;
        present = (t, same ∙ found, space);
        alone =
            All-update (λ t. t.id ≢ s.current → t.state ≢ running) f id s.tasks
              (λ t e k other. idle) h.listed.alone;
      };
      runs = λ t e. h.runs t (sym same ∙ e);
    }

wake_blocked-KeepsId : KeepsId wake_blocked
wake_blocked-KeepsId t = ground arith

wake_blocked-space : (t : Task) → (wake_blocked t).space ≡ t.space
wake_blocked-space t = ground arith

wake_blocked-idle : (t : Task) → t.state ≢ running → (wake_blocked t).state ≢ running
wake_blocked-idle t h = ground arith

wake_blocked-running : (t : Task) → t.state ≡ running → (wake_blocked t).state ≡ running
wake_blocked-running t h = rw h refl

pub wake_blocked-IsValid :
    (s : Scheduler) → IsValid s → IsValid (record s { tasks = map wake_blocked s.tasks })
wake_blocked-IsValid s h =
    let (t, found, space) = h.listed.present in
    let there : find_task s.current (map wake_blocked s.tasks) ≡ some (wake_blocked t) =
      find_task-map wake_blocked wake_blocked-KeepsId s.current s.tasks t found in
    record {
      listed = record {
        distinct = Pairwise-map wake_blocked wake_blocked-KeepsId s.tasks h.listed.distinct;
        numbered =
            All-map_list (λ t. t.id < s.next_id) (λ t. t.id < s.next_id) wake_blocked s.tasks
              (λ t lt. rw (wake_blocked-KeepsId t) lt) h.listed.numbered;
        present = (wake_blocked t, there, wake_blocked-space t ∙ space);
        alone =
            All-map_list (λ t. t.id ≢ s.current → t.state ≢ running)
              (λ t. t.id ≢ s.current → t.state ≢ running) wake_blocked s.tasks
              (λ t k ne. wake_blocked-idle t (k (rw (wake_blocked-KeepsId t) at ne)))
              h.listed.alone;
      };
      runs = λ u e.
          let same : wake_blocked t ≡ u = cc in
          rw (← same) (wake_blocked-running t (h.runs t found));
    }

find_task-append :
    (id : ℕ) (ts : List Task) (n t : Task)
    → find_task id ts ≡ some t
    → find_task id (ts ++ (n ∷ [])) ≡ some t
unfolding find_task
find_task-append id [] n t h = absurd (cc)
find_task-append id (u ∷ ts) n t h = elim (Bool-cases (u.id == id)) [
  | inl e ↦ rw e (rw e at h)
  | inr e ↦ rw e (find_task-append id ts n t (rw e at h))
]

-- A new task at the end of the list, with the next id.
pub append-IsValid :
    (n : Task) (s : Scheduler)
    → n.id ≡ s.next_id
    → n.state ≡ ready
    → s.next_id + 1 < 2 ^ 64
    → IsValid s
    → IsValid (record s { tasks = s.tasks ++ (n ∷ []); next_id = add64 s.next_id 1 })
append-IsValid n s is_next is_ready bound h =
    let (t, found, space) = h.listed.present in
    let up : add64 s.next_id 1 ≡ s.next_id + 1 = ground arith in
    let there : find_task s.current (s.tasks ++ (n ∷ [])) ≡ some t =
      find_task-append s.current s.tasks n t found in
    record {
      listed = record {
        distinct = Pairwise-append_one Differ s.tasks n h.listed.distinct (
            All-map (λ t. t.id < s.next_id) (λ t. Differ t n) (λ t lt e. omega arith) s.tasks
              h.listed.numbered);
        numbered = rw up (
            All-append_one (λ t. t.id < s.next_id + 1) s.tasks n
              (All-map (λ t. t.id < s.next_id) (λ t. t.id < s.next_id + 1) (λ t lt. omega arith)
                s.tasks h.listed.numbered)
              (omega arith));
        present = (t, there, space);
        alone =
            All-append_one (λ t. t.id ≢ s.current → t.state ≢ running) s.tasks n h.listed.alone
              (λ ne e. cc);
      };
      runs = λ u e. h.runs u (cc (found, there, e));
    }
