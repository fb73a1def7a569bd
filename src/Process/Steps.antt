-- ===== src/Process/Steps.antt =====
-- The calls of src/kernel/process.c that make and end processes, as steps.
use cone_os.Process.{
  Process, Processes, ProcessState, unused, running, zombie, is_unused, is_running, no_process,
  find_process,
}
use cone_os.Process.Life.{Life, ImageResult, out_of_memory, invalid, ready}
use cone_os.Process.Lifecycle.{
  spawn, process_fork, exec, process_exit_current, wait_round, process_chdir,
}
use cone_os.Process.Pids.{IsTable, All-IsBelow, add-IsTable, change-IsTable, find_process_lem}
use cone_os.Paths.{resolve_path, resolved, refused, out_of_fuel, Resolved}
use cone_os.Prelude.{
  ℕ, zero, suc, ◌+◌, ◌<◌, ◌≤◌, ◌≡◌, refl, Bool, true, false, Bool-cases, Option-cases, inl, inr,
  some, List, [], ◌∷◌, length, get_or, set, arith, sym, subst, ap, ◌⊎◌,
}

-- Task ids are handed out in order, and no other service takes one back.
pub record HandsOut {ℓ} {W : Type ℓ} (life : Life W) (next : W → ℕ) : Type ℓ where
  pub image :
      (path : List ℕ) (arguments : List (List ℕ)) (w : W)
      → next w ≤ next (life.create_image path arguments w).1
  pub launch : (w : W) → next w ≤ next (life.alloc_launch w).1
  pub free : (l : ℕ) (w : W) → next w ≤ next (life.kfree l w)
  pub clone : (a : ℕ) (w : W) → next w ≤ next (life.clone_space a w).1
  pub destroy : (a : ℕ) (w : W) → next w ≤ next (life.destroy_space a w)
  pub create : (l a : ℕ) (w : W) → next w ≤ next (life.create_task l a w).1
  pub created :
      (l a id : ℕ) (w : W)
      → (life.create_task l a w).0 ≡ some id
      → (id ≡ next w) × (next w < next (life.create_task l a w).1)
  pub cancel : (id : ℕ) (w : W) → next w ≤ next (life.cancel_ready id w)
  pub yields : (w : W) → next w ≤ next (life.yield_task w)
  pub replace : (a : ℕ) (w : W) → next w ≤ next (life.replace_space a w).1
  pub exit : (w : W) → next w ≤ next (life.exit_task w)
  pub inherit : (p q : ℕ) (w : W) → next w ≤ next (life.inherit p q w)
  pub fork : (p q : ℕ) (w : W) → next w ≤ next (life.fork_files p q w).1
  pub close : (p : ℕ) (w : W) → next w ≤ next (life.close_all p w)

-- A call by the task of the given id; a wait is a round of the loop, at a record.
pub data LifeCall : Type 0 where
  spawn_call : ℕ → List ℕ → List ℕ → LifeCall
  fork_call : ℕ → LifeCall
  exec_call : ℕ → List ℕ → List (List ℕ) → LifeCall
  exit_call : ℕ → ℕ → LifeCall
  wait_call : ℕ → LifeCall
  chdir_call : (List ℕ → Bool) → ℕ → List ℕ → LifeCall

unfoldable pub life_step {ℓ} : {W : Type ℓ} → Life W → LifeCall → Processes W → Processes W
life_step life (spawn_call current path argument) s = (spawn life current path argument s).1
life_step life (fork_call current) s = (process_fork life current s).1
life_step life (exec_call current path arguments) s = (exec life current path arguments s).1
life_step life (exit_call current status) s = process_exit_current life current status s
life_step life (wait_call i) s = (wait_round life i s).1
life_step life (chdir_call is_directory current path) s =
    (process_chdir is_directory current path s).1

unfoldable pub life_run {ℓ} : {W : Type ℓ} → Life W → List LifeCall → Processes W → Processes W
life_run life [] s = s
life_run life (c ∷ cs) s = life_run life cs (life_step life c s)

-- The record that a call may change: that of its caller, or that of the process waited for.
abbrev pub Concerns : LifeCall → ℕ → Process → Type 0
Concerns (spawn_call current path argument) i p = ⊥
Concerns (fork_call current) i p = ⊥
Concerns (exec_call current path arguments) i p = current ≡ p.pid
Concerns (exit_call current status) i p = current ≡ p.pid
Concerns (wait_call j) i p = j ≡ i
Concerns (chdir_call is_directory current path) i p = current ≡ p.pid

-- What a step does to the table: nothing, a new process in an unused record, or a change of a record
-- in use that keeps its id and is the caller's or the one waited for.
pub data Change (c : LifeCall) (next : ℕ) (ps : List Process) : ℕ → List Process → Type 0 where
  same : {n : ℕ} → next ≤ n → Change c next ps n ps
  added :
      {n : ℕ} {qs : List Process} (i : ℕ) (q : Process)
      → i < length ps
      → is_unused (get_or ps i no_process).state ≡ true
      → next ≤ q.pid
      → q.pid < n
      → qs ≡ set ps i q
      → Change c next ps n qs
  changed :
      {n : ℕ} {qs : List Process} (i : ℕ) (q : Process)
      → i < length ps
      → is_unused (get_or ps i no_process).state ≡ false
      → q.pid ≡ (get_or ps i no_process).pid
      → Concerns c i (get_or ps i no_process)
      → next ≤ n
      → qs ≡ set ps i q
      → Change c next ps n qs

pub Change-IsTable :
    (c : LifeCall) (next n : ℕ) (ps qs : List Process)
    → Change c next ps n qs
    → IsTable next ps
    → IsTable n qs
Change-IsTable c next n ps qs (same h) (a, t) = (All-IsBelow next n ps h a, t)
Change-IsTable c next n ps qs (added i q h u e k r) (a, p) =
    let (b, d) = add-IsTable q.pid ps i q refl (All-IsBelow next q.pid ps e a, p) in
    subst (IsTable n) (sym r) (All-IsBelow (q.pid + 1) n (set ps i q) (omega (arith, k)) b, d)
Change-IsTable c next n ps qs (changed i q h u e o k r) t =
    let (a, p) = change-IsTable next ps i no_process q h (e, λ v. u) t in
    subst (IsTable n) (sym r) (All-IsBelow next n (set ps i q) k a, p)

State-cases : (t : ProcessState) → (t ≡ zombie) ⊎ ((t ≡ unused) ⊎ (t ≡ running))
State-cases zombie = inl refl
State-cases unused = inr (inl refl)
State-cases running = inr (inr refl)

pub in_range :
    (ps : List Process) (i : ℕ) → is_unused (get_or ps i no_process).state ≡ false → i < length ps
in_range [] i u = ground arith
in_range (p ∷ ps) zero u = omega arith
in_range (p ∷ ps) (suc i) u = omega (arith, in_range ps i u)

module _ {ℓ} {W : Type ℓ} (life : Life W) (next : W → ℕ) (hands : HandsOut life next) where
  abbrev pub Changes : LifeCall → Processes W → Processes W → Type 0
  Changes c s s' = Change c (next s.world) s.processes (next s'.world) s'.processes

  pub exit-Changes :
      (current status : ℕ) (s : Processes W)
      → Changes (exit_call current status) s (process_exit_current life current status s)
  unfolding process_exit_current
  exit-Changes current status s =
      let later : next s.world ≤ next (life.exit_task (life.close_all current s.world)) =
        omega (arith, hands.close current s.world, hands.exit (life.close_all current s.world)) in
      elim (Option-cases (find_process current s.processes)) [
        | inl e ↦ rw (e, process_exit_current) (same later)
        | inr (i, e) ↦
            let (room, (own, used)) = find_process_lem current s.processes i no_process e in
            rw (e, process_exit_current) (changed i _ room used refl (sym own) later refl)
      ]

  pub wait-Changes : (i : ℕ) (s : Processes W) → Changes (wait_call i) s (wait_round life i s).1
  unfolding wait_round
  wait-Changes i s =
      let p = get_or s.processes i no_process in
      elim (State-cases p.state) [
        | inl e ↦
            let used : is_unused p.state ≡ false = ap is_unused e in
            rw (e, wait_round)
              (changed i (record p { state = unused }) (in_range s.processes i used) used refl refl
                (omega arith) refl)
        | inr (inl e) ↦ rw (e, wait_round) (same (hands.yields s.world))
        | inr (inr e) ↦ rw (e, wait_round) (same (hands.yields s.world))
      ]

  chdir-resolved :
      (is_directory : List ℕ → Bool) (current : ℕ) (path : List ℕ) (s : Processes W) (i : ℕ)
      (r : Resolved)
      → find_process current s.processes ≡ some i
      → resolve_path 256 (some (get_or s.processes i no_process).cwd) path ≡ r
      → Changes
          (chdir_call is_directory current path)
          s
          (process_chdir is_directory current path s).1
  unfolding process_chdir
  chdir-resolved is_directory current path s i out_of_fuel e k =
      rw (e, k, process_chdir) (same (omega arith))
  chdir-resolved is_directory current path s i refused e k =
      rw (e, k, process_chdir) (same (omega arith))
  chdir-resolved is_directory current path s i (resolved absolute) e k =
      let (room, (own, used)) = find_process_lem current s.processes i no_process e in
      elim (Bool-cases (is_directory absolute)) [
        | inl d ↦
            rw (e, k, d, process_chdir) (changed i _ room used refl (sym own) (omega arith) refl)
        | inr d ↦ rw (e, k, d, process_chdir) (same (omega arith))
      ]

  pub chdir-Changes :
      (is_directory : List ℕ → Bool) (current : ℕ) (path : List ℕ) (s : Processes W)
      → Changes
          (chdir_call is_directory current path)
          s
          (process_chdir is_directory current path s).1
  unfolding process_chdir
  chdir-Changes is_directory current path s =
      elim (Option-cases (find_process current s.processes)) [
        | inl e ↦ rw (e, process_chdir) (same (omega arith))
        | inr (i, e) ↦ chdir-resolved is_directory current path s i _ e refl
      ]

  exec-built :
      (current : ℕ) (path : List ℕ) (arguments : List (List ℕ)) (s : Processes W) (i : ℕ)
      (image : ImageResult)
      → find_process current s.processes ≡ some i
      → is_running (get_or s.processes i no_process).state ≡ true
      → (life.create_image path arguments s.world).0 ≡ image
      → Changes (exec_call current path arguments) s (exec life current path arguments s).1
  unfolding exec
  exec-built current path arguments s i out_of_memory e r k =
      rw (e, r, k, exec) (same (hands.image path arguments s.world))
  exec-built current path arguments s i invalid e r k =
      rw (e, r, k, exec) (same (hands.image path arguments s.world))
  exec-built current path arguments s i (ready im) e r k =
      let (room, (own, used)) = find_process_lem current s.processes i no_process e in
      let w = (life.create_image path arguments s.world).1 in
      let w' = (life.replace_space im.space w).1 in
      let built = hands.image path arguments s.world in
      let replaced = hands.replace im.space w in
      elim (Option-cases (life.replace_space im.space w).0) [
        | inl o ↦
            rw (e, r, k, o, exec) (same (omega (arith, built, replaced, hands.destroy im.space w')))
        | inr (a, o) ↦
            rw (e, r, k, o, exec)
              (changed i _ room used refl (sym own)
                (omega (arith, built, replaced, hands.destroy a w')) refl)
      ]

  pub exec-Changes :
      (current : ℕ) (path : List ℕ) (arguments : List (List ℕ)) (s : Processes W)
      → Changes (exec_call current path arguments) s (exec life current path arguments s).1
  unfolding exec
  exec-Changes current path arguments s = elim (Option-cases (find_process current s.processes)) [
    | inl e ↦ rw (e, exec) (same (omega arith))
    | inr (i, e) ↦ elim (Bool-cases (is_running (get_or s.processes i no_process).state)) [
      | inl r ↦ exec-built current path arguments s i _ e r refl
      | inr r ↦ rw (e, r, exec) (same (omega arith))
    ]
  ]
