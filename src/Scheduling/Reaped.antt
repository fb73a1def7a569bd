-- ===== src/Scheduling/Reaped.antt =====
-- remove_zombies of src/kernel/task.c keeps the list in order and the current task in it.
use cone_os.Prelude.{
  ℕ, ◌≡◌, ◌≢◌, refl, Bool, false, not, ◌&&◌, inl, inr, List, [], ◌∷◌, arith, ◌==◌, Bool-cases, All,
  drop, Pairwise,
}
use cone_os.Scheduling.{Scheduler, clean}
use cone_os.Scheduling.Tasks.{Task, is_zombie, find_task}
use cone_os.Scheduling.Reaping.{TaskServices, reap, remove_zombies, release_task}
use cone_os.Scheduling.Invariant.{Differ, IsListed, IsValid}

abbrev is_reaped : ℕ → Task → Bool
is_reaped current t = not (t.id == current) && is_zombie t.state

module _ {W : Type 0} (services : TaskServices W) (current : ℕ) where
  reap-All :
      (P : Task → Type 0) (ts : List Task) (w : W) → All P ts → All P (reap services current ts w).0
  unfolding reap
  reap-All P [] w h = tt
  reap-All P (t ∷ ts) w h = elim (Bool-cases (is_reaped current t)) [
    | inl e ↦ rw (e, reap) (reap-All P ts (release_task services t w) h.1)
    | inr e ↦ rw (e, reap) (h.0, reap-All P ts w h.1)
  ]

  reap-Pairwise :
      (ts : List Task) (w : W) → Pairwise Differ ts → Pairwise Differ (reap services current ts w).0
  unfolding reap
  reap-Pairwise [] w h = tt
  reap-Pairwise (t ∷ ts) w h = elim (Bool-cases (is_reaped current t)) [
    | inl e ↦ rw (e, reap) (reap-Pairwise ts (release_task services t w) h.1)
    | inr e ↦ rw (e, reap) (reap-All (Differ t) ts w h.0, reap-Pairwise ts w h.1)
  ]

  reap-find_task :
      (ts : List Task) (w : W)
      → find_task current (reap services current ts w).0 ≡ find_task current ts
  unfolding reap find_task
  reap-find_task [] w = refl
  reap-find_task (t ∷ ts) w = elim (Bool-cases (is_reaped current t)) [
    | inl e ↦
        let other : (t.id == current) ≡ false = ground arith in
        rw (e, reap) (rw (other, find_task) (reap-find_task ts (release_task services t w)))
    | inr e ↦
        rw (e, reap)
          (elim (Bool-cases (t.id == current)) [
            | inl e' ↦ rw (e', find_task) refl
            | inr e' ↦ rw (e', find_task) (reap-find_task ts w)
          ])
  ]

  -- No zombie is left but the current task.
  reap-gone :
      (ts : List Task) (w : W)
      → All (λ t. t.id ≢ current → is_zombie t.state ≡ false) (reap services current ts w).0
  unfolding reap
  reap-gone [] w = tt
  reap-gone (t ∷ ts) w = elim (Bool-cases (is_reaped current t)) [
    | inl e ↦ rw (e, reap) (reap-gone ts (release_task services t w))
    | inr e ↦ rw (e, reap) (λ ne. ground arith, reap-gone ts w)
  ]

  module _ (P : Task → Type 0) where
    pub remove_zombies-All :
        (ts : List Task) (w : W) → All P ts → All P (remove_zombies services current ts w).0
    unfolding remove_zombies
    remove_zombies-All [] w h = tt
    remove_zombies-All (t ∷ ts) w h = (h.0, reap-All P ts w h.1)

  remove_zombies-Pairwise :
      (ts : List Task) (w : W)
      → Pairwise Differ ts
      → Pairwise Differ (remove_zombies services current ts w).0
  unfolding remove_zombies
  remove_zombies-Pairwise [] w h = tt
  remove_zombies-Pairwise (t ∷ ts) w h = (reap-All (Differ t) ts w h.0, reap-Pairwise ts w h.1)

  pub remove_zombies-find_task :
      (ts : List Task) (w : W)
      → find_task current (remove_zombies services current ts w).0 ≡ find_task current ts
  unfolding remove_zombies find_task
  remove_zombies-find_task [] w = refl
  remove_zombies-find_task (t ∷ ts) w = elim (Bool-cases (t.id == current)) [
    | inl e ↦ rw (e, find_task) refl
    | inr e ↦ rw (e, find_task) (reap-find_task ts w)
  ]

  pub remove_zombies-gone :
      (ts : List Task) (w : W)
      → All
          (λ t. t.id ≢ current → is_zombie t.state ≡ false)
          (drop 1 (remove_zombies services current ts w).0)
  unfolding remove_zombies
  remove_zombies-gone [] w = tt
  remove_zombies-gone (t ∷ ts) w = reap-gone ts w

module _ {W : Type 0} (services : TaskServices W) (s : Scheduler) (w : W) where
  pub clean-IsListed : IsListed s → IsListed (clean services s w).0
  unfolding clean
  clean-IsListed h = record {
    distinct = remove_zombies-Pairwise services s.current s.tasks w h.distinct;
    numbered = remove_zombies-All services s.current _ s.tasks w h.numbered;
    present =
        let (t, found, space) = h.present in
        (t, rw (remove_zombies-find_task services s.current s.tasks w) found, space);
    alone = remove_zombies-All services s.current _ s.tasks w h.alone;
  }

  pub clean-IsValid : IsValid s → IsValid (clean services s w).0
  unfolding clean
  clean-IsValid h = record {
    listed = clean-IsListed h.listed;
    runs = λ t e. h.runs t (rw (remove_zombies-find_task services s.current s.tasks w) at e);
  }
