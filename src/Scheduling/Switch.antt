-- ===== src/Scheduling/Switch.antt =====
-- The outcome of schedule of src/kernel/task.c.
use cone_os.Prelude.{
  ℕ, ◌≡◌, ◌≢◌, refl, ◌⊎◌, true, false, inl, inr, Option, none, some, List, [], ◌∷◌, ◌++◌, arith,
  ◌==◌, Bool-cases, All, ==→eq,
}
use cone_os.Scheduling.{Scheduler, next_ready_task, switch_to, pick_next}
use cone_os.Scheduling.Tasks.{
  Task, is_ready, running, set_state, find_task, rest_of, up_to, first_ready,
}
use cone_os.Scheduling.Invariant.{IsListed, IsValid, find_task-Found}
use cone_os.Scheduling.Rotation.{
  All-rotation, rotation-All, first_ready-All, first_ready-none, first_ready-ready, rotation-others,
}
use cone_os.Scheduling.Choice.{prepared, IsPrepared, prepared-IsPrepared, running-IsValid}

abbrev others : ℕ → List Task → List Task
others current ts = rest_of current ts ++ up_to current ts

abbrev stay : Scheduler → List Task → Scheduler
stay s ts = record s { tasks = set_state s.current running ts }

find_task-id : (id : ℕ) (ts : List Task) (t : Task) → find_task id ts ≡ some t → t.id ≡ id
unfolding find_task
find_task-id id ts t h = go ts h
  where
    go : (ts : List Task) → find_task id ts ≡ some t → t.id ≡ id
    go [] h = absurd (cc)
    go (u ∷ ts) h = elim (Bool-cases (u.id == id)) [
      | inl e ↦ let same : u ≡ t = cc (rw e at h) in rw (← same) (==→eq u.id id e)
      | inr e ↦ go ts (rw e at h)
    ]

-- A task that is ready is switched to, wherever it stands.
pick_next-switch :
    (now : ℕ) (s : Scheduler) (next : Task)
    → first_ready (others s.current (prepared now s)) ≡ some next
    → (next.id == s.current) ≡ false
    → pick_next now s ≡ switch_to next (record s { tasks = prepared now s })
unfolding pick_next next_ready_task
pick_next-switch now s next e ne = rw (e, ne, pick_next, next_ready_task) refl

-- Without another ready task the current one goes on.
pick_next-stay :
    (now : ℕ) (s : Scheduler)
    → first_ready (others s.current (prepared now s)) ≡ none
    → pick_next now s ≡ stay s (prepared now s)
unfolding pick_next next_ready_task
pick_next-stay now s e = current (find_task s.current (prepared now s)) refl
  where
    same : (t : Task) → find_task s.current (prepared now s) ≡ some t → (t.id == s.current) ≡ true
    same t e' = ground (arith, find_task-id s.current (prepared now s) t e')

    current :
        (o : Option Task)
        → find_task s.current (prepared now s) ≡ o
        → pick_next now s ≡ stay s (prepared now s)
    current none e' = rw (e, e', pick_next, next_ready_task) refl
    current (some t) e' = elim (Bool-cases (is_ready t.state)) [
      | inl b ↦ rw (e, e', b, same t e', pick_next, next_ready_task) refl
      | inr b ↦ rw (e, e', b, pick_next, next_ready_task) refl
    ]

pub pick_next-next_id : (now : ℕ) (s : Scheduler) → (pick_next now s).next_id ≡ s.next_id
unfolding pick_next
pick_next-next_id now s = go (next_ready_task s.current (prepared now s)) refl
  where
    go :
        (o : Option Task)
        → next_ready_task s.current (prepared now s) ≡ o
        → (pick_next now s).next_id ≡ s.next_id
    go none e = rw (e, pick_next) refl
    go (some t) e = elim (Bool-cases (t.id == s.current)) [
      | inl b ↦ rw (e, b, pick_next) refl
      | inr b ↦ rw (e, b, pick_next) refl
    ]

-- schedule, from a state within a step: afterwards the current task is the only one marked as
-- running and its address space is loaded. If another task is ready or due to wake, the processor
-- goes to such a task; if none is, the current task goes on, whatever state it was in.
pub pick_next_lem :
    (now : ℕ) (s : Scheduler)
    → IsListed s
    → IsValid (pick_next now s)
      × (((t : Task) × (find_task t.id (prepared now s) ≡ some t)
            × (is_ready t.state ≡ true)
            × (t.id ≢ s.current)
            × ((pick_next now s).current ≡ t.id)
            × ((pick_next now s).kernel_stack ≡ t.stack.top))
          ⊎ (All (λ t. t.id ≢ s.current → is_ready t.state ≡ false) (prepared now s)
              × ((pick_next now s).current ≡ s.current)))
pick_next_lem now s h = choose (first_ready (others s.current (prepared now s))) refl
  where
    ts : List Task
    ts = prepared now s

    p : IsPrepared s ts
    p = prepared-IsPrepared now s h

    choose :
        (o : Option Task)
        → first_ready (others s.current ts) ≡ o
        → IsValid (pick_next now s)
          × (((t : Task) × (find_task t.id ts ≡ some t)
                × (is_ready t.state ≡ true)
                × (t.id ≢ s.current)
                × ((pick_next now s).current ≡ t.id)
                × ((pick_next now s).kernel_stack ≡ t.stack.top))
              ⊎ (All (λ t. t.id ≢ s.current → is_ready t.state ≡ false) ts
                  × ((pick_next now s).current ≡ s.current)))
    choose none e =
        let (t, found, space) = p.present in
        rw (pick_next-stay now s e) (
          running-IsValid s ts t (stay s ts) p found refl space refl,
          inr (
            rotation-All (λ t. is_ready t.state ≡ false) s.current ts
                (first_ready-none (others s.current ts) e),
            refl,
          ),
        )
    choose (some t) e =
        let other : t.id ≢ s.current =
          first_ready-All (λ u. u.id ≢ s.current) (others s.current ts) t
            (rotation-others s.current ts p.distinct) e in
        let found : find_task t.id ts ≡ some t =
          first_ready-All (λ u. find_task u.id ts ≡ some u) (others s.current ts) t
            (All-rotation (λ u. find_task u.id ts ≡ some u) s.current ts
              (find_task-Found ts p.distinct))
            e in
        rw (pick_next-switch now s t e (ground arith)) (
          running-IsValid s ts t (switch_to t (record s { tasks = ts })) p found refl refl refl,
          inl (t, found, first_ready-ready (others s.current ts) t e, other, refl, refl),
        )
