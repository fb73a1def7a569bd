-- ===== src/Process/Waiting.antt =====
-- process_exit_current and process_waitpid of src/kernel/process.c, with the calls between them.
use cone_os.Process.{Process, Processes, unused, zombie, is_unused, no_process, find_process}
use cone_os.Process.Life.{Life}
use cone_os.Process.Lifecycle.{process_exit_current, waitpid, wait_round}
use cone_os.Process.Pids.{IsTable, find_process_lem, find_process_at}
use cone_os.Process.Steps.{
  HandsOut, in_range, LifeCall, spawn_call, fork_call, exec_call, exit_call, wait_call, chdir_call,
  life_step, life_run, Change, same, added, changed, Concerns, Change-IsTable, exit-Changes,
}
use cone_os.Process.Births.{life_step-Changes, life_run-IsTable}
use cone_os.Prelude.{
  ℕ, ◌<◌, ◌≡◌, ◌≢◌, refl, true, false, Bool-cases, Option-cases, inl, inr, none, some, List, [],
  ◌∷◌, All, length, get_or, set, ◌==◌, get_or-set, get_or-set_ne, arith, sym, subst, ap, ◌∙◌,
}

-- Neither a call of the process nor a wait for it.
abbrev pub Leaves : ℕ → ℕ → LifeCall → Type 0
Leaves i pid (spawn_call current path argument) = Unit
Leaves i pid (fork_call current) = Unit
Leaves i pid (exec_call current path arguments) = current ≢ pid
Leaves i pid (exit_call current status) = current ≢ pid
Leaves i pid (wait_call j) = j ≢ i
Leaves i pid (chdir_call is_directory current path) = current ≢ pid

Leaves-not : (c : LifeCall) (i : ℕ) (p : Process) → Leaves i p.pid c → ¬ Concerns c i p
Leaves-not (spawn_call current path argument) i p h k = k
Leaves-not (fork_call current) i p h k = k
Leaves-not (exec_call current path arguments) i p h k = h k
Leaves-not (exit_call current status) i p h k = h k
Leaves-not (wait_call j) i p h k = h k
Leaves-not (chdir_call is_directory current path) i p h k = h k

-- A record in use that a call leaves alone.
Change-keeps :
    (c : LifeCall) (next n : ℕ) (ps qs : List Process) (i : ℕ)
    → Change c next ps n qs
    → is_unused (get_or ps i no_process).state ≡ false
    → Leaves i (get_or ps i no_process).pid c
    → get_or qs i no_process ≡ get_or ps i no_process
Change-keeps c next n ps qs i (same h) u l = refl
Change-keeps c next n ps qs i (added j q h free a b e) u l =
    ap (λ rs. get_or rs i no_process) e
    ∙ get_or-set_ne ps j i q no_process (λ k.
      let f = subst (λ m. is_unused (get_or ps m no_process).state ≡ true) k free in
      ground (arith, f, u))
Change-keeps c next n ps qs i (changed j q h used a o b e) u l =
    ap (λ rs. get_or rs i no_process) e
    ∙ get_or-set_ne ps j i q no_process (λ k.
      Leaves-not c i (get_or ps i no_process) l
        (subst (λ m. Concerns c m (get_or ps m no_process)) k o))

-- No other record has the id.
find_process-gone :
    (n : ℕ) (ps : List Process) (i : ℕ) (q : Process)
    → IsTable n ps
    → i < length ps
    → is_unused (get_or ps i no_process).state ≡ false
    → is_unused q.state ≡ true
    → find_process (get_or ps i no_process).pid (set ps i q) ≡ none
find_process-gone n ps i q t h u v =
    let pid = (get_or ps i no_process).pid in
    elim (Option-cases (find_process pid (set ps i q))) [
      | inl e ↦ e
      | inr (j, e) ↦
          let (room, (own, used)) = find_process_lem pid (set ps i q) j no_process e in
          let here = get_or-set ps i j q no_process h in
          elim (Bool-cases (i == j)) [
            | inl k ↦
                let mine : get_or (set ps i q) j no_process ≡ q = rw (here, k) refl in
                let clash = subst (λ p. is_unused p.state ≡ false) mine used in
                ground (arith, v, clash)
            | inr k ↦
                let other : get_or (set ps i q) j no_process ≡ get_or ps j no_process =
                  rw (here, k) refl in
                let used_j = subst (λ p. is_unused p.state ≡ false) other used in
                let own_j : (get_or ps j no_process).pid ≡ pid =
                  sym (ap (λ p. p.pid) other) ∙ own in
                let at_i = find_process_at n ps i no_process t h u in
                let at_j = find_process_at n ps j no_process t (in_range ps j used_j) used_j in
                ground (arith, k, at_i, subst (λ m. find_process m ps ≡ some j) own_j at_j)
          ]
    ]

module _ {ℓ} {W : Type ℓ} (life : Life W) (next : W → ℕ) (hands : HandsOut life next) where
  life_run-keeps :
      (cs : List LifeCall) (s : Processes W) (i : ℕ) (p : Process)
      → get_or s.processes i no_process ≡ p
      → is_unused p.state ≡ false
      → All (Leaves i p.pid) cs
      → get_or (life_run life cs s).processes i no_process ≡ p
  unfolding life_run
  life_run-keeps [] s i p e u l = e
  life_run-keeps (c ∷ cs) s i p e u (l, ls) =
      let used = subst (λ q. is_unused q.state ≡ false) (sym e) u in
      let leaves = subst (λ q. Leaves i q.pid c) (sym e) l in
      let kept =
        Change-keeps c _ _ s.processes (life_step life c s).processes i
          (life_step-Changes life next hands c s) used leaves in
      life_run-keeps cs (life_step life c s) i p (kept ∙ e) u ls

  abbrev exited : ℕ → Process → Process
  exited status p = record p { exit_status = status; state = zombie }

  process_exit_current-record :
      (pid status i : ℕ) (s : Processes W)
      → find_process pid s.processes ≡ some i
      → get_or (process_exit_current life pid status s).processes i no_process
        ≡ exited status (get_or s.processes i no_process)
  unfolding process_exit_current
  process_exit_current-record pid status i s e =
      let (room, _) = find_process_lem pid s.processes i no_process e in
      let here =
        get_or-set s.processes i i (exited status (get_or s.processes i no_process)) no_process
          room in
      let found : (i == i) ≡ true = ground arith in
      rw (e, process_exit_current) (here ∙ rw (found) refl)

  wait_round-zombie :
      (i : ℕ) (s : Processes W)
      → (get_or s.processes i no_process).state ≡ zombie
      → wait_round life i s ≡ (
        some (get_or s.processes i no_process).exit_status,
        record s {
          processes =
              set s.processes i (record (get_or s.processes i no_process) { state = unused });
        },
      )
  unfolding wait_round
  wait_round-zombie i s e = rw (e, wait_round) refl

  -- A process that has exited waits for its parent: after any calls of others that do not wait for it,
  -- process_waitpid of the parent finds it and ends at once with its status, and its id is then no
  -- longer in the table; nobody else can wait for it.
  pub waitpid_lem :
      (pid status i : ℕ) (cs : List LifeCall) (s : Processes W)
      → IsTable (next s.world) s.processes
      → find_process pid s.processes ≡ some i
      → All (Leaves i pid) cs
      → let parent = (get_or s.processes i no_process).ppid in
        let s' = life_run life cs (process_exit_current life pid status s) in
        (waitpid parent pid s' ≡ some i)
        × (((current : ℕ) → current ≢ parent → waitpid current pid s' ≡ none)
            × (((wait_round life i s').0 ≡ some status)
                × (find_process pid (wait_round life i s').1.processes ≡ none)))
  unfolding waitpid
  waitpid_lem pid status i cs s t e l =
      let old = get_or s.processes i no_process in
      let (room, (own, used)) = find_process_lem pid s.processes i no_process e in
      let s₁ = process_exit_current life pid status s in
      let s' = life_run life cs s₁ in
      let leaves = subst (λ q. All (Leaves i q) cs) (sym own) l in
      let kept =
        life_run-keeps cs s₁ i (exited status old) (process_exit_current-record pid status i s e)
          refl leaves in
      let t₁ =
        Change-IsTable (exit_call pid status) _ _ _ _ (exit-Changes life next hands pid status s)
          t in
      let table = life_run-IsTable life next hands cs s₁ t₁ in
      let mine = ap (λ p. p.pid) kept ∙ own in
      let in_use : is_unused (get_or s'.processes i no_process).state ≡ false =
        ap (λ p. is_unused p.state) kept in
      let here = in_range s'.processes i in_use in
      let seen = find_process_at _ s'.processes i no_process table here in_use in
      let found : find_process pid s'.processes ≡ some i =
        subst (λ q. find_process q s'.processes ≡ some i) mine seen in
      let gone : Process = record (get_or s'.processes i no_process) { state = unused } in
      let same_parent = ap (λ p. p.ppid) kept in
      let parent_found : ((get_or s'.processes i no_process).ppid == old.ppid) ≡ true =
        ground (arith, same_parent) in
      (
        rw (found, parent_found, waitpid) refl,
        (
          λ current k.
              let other : ((get_or s'.processes i no_process).ppid == current) ≡ false =
                ground (arith, same_parent, k) in
              rw (found, other, waitpid) refl,
          subst (λ r. (r.0 ≡ some status) × (find_process pid r.1.processes ≡ none))
              (sym (wait_round-zombie i s' (ap (λ p. p.state) kept)))
              (
                ap (λ p. some p.exit_status) kept,
                subst (λ q. find_process q (set s'.processes i gone) ≡ none) mine
                    (find_process-gone _ s'.processes i gone table here in_use refl),
              ),
        ),
      )
