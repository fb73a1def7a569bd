-- ===== src/Scheduling/Invariant.antt =====
-- When the tasks of src/kernel/task.c are in order, and the walks along the list that keep them so.
use cone_os.Prelude.{
  ℕ, ◌<◌, ◌≡◌, ◌≢◌, sym, ◌∙◌, inl, inr, some, List, [], ◌∷◌, map, arith, ◌==◌, Bool-cases, All,
  All-map, All-map₂, Pairwise, ==→eq,
}
use cone_os.Scheduling.{Scheduler}
use cone_os.Scheduling.Tasks.{Task, running, update, find_task}

abbrev pub Differ : Task → Task → Type 0
Differ t u = t.id ≢ u.id

-- What holds within a step as well: the ids are distinct and were handed out, the current task is in
-- the list, its address space is the loaded one, and no other task is marked as running.
pub record IsListed (s : Scheduler) : Type 0 where
  pub distinct : Pairwise Differ s.tasks
  pub numbered : All (λ t. t.id < s.next_id) s.tasks
  pub present : (t : Task) × (find_task s.current s.tasks ≡ some t) × (t.space ≡ s.active_space)
  pub alone : All (λ t. t.id ≢ s.current → t.state ≢ running) s.tasks

-- Between steps the current task is also marked as running.
pub record IsValid (s : Scheduler) : Type 0 where
  pub listed : IsListed s
  pub runs : (t : Task) → find_task s.current s.tasks ≡ some t → t.state ≡ running

abbrev pub KeepsId : (Task → Task) → Type 0
KeepsId f = (t : Task) → (f t).id ≡ t.id

module _ (P Q : Task → Type 0) (f : Task → Task) where
  pub All-map_list : (ts : List Task) → ((t : Task) → P t → Q (f t)) → All P ts → All Q (map f ts)
  All-map_list [] g h = tt
  All-map_list (t ∷ ts) g h = (g t h.0, All-map_list ts g h.1)

module _ (P : Task → Type 0) (f : Task → Task) (id : ℕ) where
  pub All-update :
      (ts : List Task)
      → ((t : Task) → t.id ≡ id → P t → P (f t))
      → All P ts
      → All P (update id f ts)
  unfolding update
  All-update [] g h = tt
  All-update (t ∷ ts) g h = elim (Bool-cases (t.id == id)) [
    | inl e ↦ rw e (g t (==→eq t.id id e) h.0, h.1)
    | inr e ↦ rw e (h.0, All-update ts g h.1)
  ]

module _ (f : Task → Task) (keeps : KeepsId f) where
  pub Pairwise-map : (ts : List Task) → Pairwise Differ ts → Pairwise Differ (map f ts)
  Pairwise-map [] h = tt
  Pairwise-map (t ∷ ts) h = (
    All-map_list (Differ t) (Differ (f t)) f ts (λ u ne e. ne (sym (keeps t) ∙ e ∙ keeps u)) h.0,
    Pairwise-map ts h.1,
  )

  pub Pairwise-update :
      (id : ℕ) (ts : List Task) → Pairwise Differ ts → Pairwise Differ (update id f ts)
  unfolding update
  Pairwise-update id [] h = tt
  Pairwise-update id (t ∷ ts) h = elim (Bool-cases (t.id == id)) [
    | inl e ↦
        rw e (All-map (Differ t) (Differ (f t)) (λ u ne e'. ne (sym (keeps t) ∙ e')) ts h.0, h.1)
    | inr e ↦ rw e (
      All-update (Differ t) f id ts (λ u e' ne e''. ne (e'' ∙ keeps u)) h.0,
      Pairwise-update id ts h.1,
    )
  ]

  pub find_task-map :
      (id : ℕ) (ts : List Task) (t : Task)
      → find_task id ts ≡ some t
      → find_task id (map f ts) ≡ some (f t)
  unfolding find_task
  find_task-map id [] t h = cc
  find_task-map id (u ∷ ts) t h = elim (Bool-cases (u.id == id)) [
    | inl e ↦ let same : (f u).id ≡ u.id = keeps u in rw (same, e) (cc (rw e at h))
    | inr e ↦
        let same : (f u).id ≡ u.id = keeps u in rw (same, e) (find_task-map id ts t (rw e at h))
  ]

  pub find_task-update :
      (id : ℕ) (ts : List Task) (t : Task)
      → find_task id ts ≡ some t
      → find_task id (update id f ts) ≡ some (f t)
  unfolding find_task update
  find_task-update id [] t h = cc
  find_task-update id (u ∷ ts) t h = elim (Bool-cases (u.id == id)) [
    | inl e ↦ let same : (f u).id ≡ u.id = keeps u in rw e (rw (same, e) (cc (rw e at h)))
    | inr e ↦ rw e (rw e (find_task-update id ts t (rw e at h)))
  ]

-- In a list of distinct tasks, each is the one that its id finds.
pub find_task-Found :
    (ts : List Task) → Pairwise Differ ts → All (λ t. find_task t.id ts ≡ some t) ts
unfolding find_task
find_task-Found [] h = tt
find_task-Found (t ∷ ts) h = (
  ground arith,
  All-map₂ (Differ t) (λ u. find_task u.id ts ≡ some u) (λ u. find_task u.id (t ∷ ts) ≡ some u)
      (λ u ne e. ground arith) ts h.0 (find_task-Found ts h.1),
)
