-- ===== src/Process/Lifecycle/Tests.antt =====
-- Two processes: 1 is the parent of 2. The world is the id of the next task.
use cone_os.Process.{
  Process, Processes, running, no_process, find_process, free_process_record, value,
}
use cone_os.Process.Life.{Life, Image, ready, split_arguments, skip_spaces, word, after_word}
use cone_os.Process.Lifecycle.{process_exit_current, waitpid, wait_round, process_fork, fork_space}
use cone_os.Process.Pids.{IsTable}
use cone_os.Process.Steps.{
  HandsOut, LifeCall, spawn_call, fork_call, wait_call, exit_call, life_run,
}
use cone_os.Process.Births.{life_run-IsTable}
use cone_os.Process.Waiting.{Leaves, waitpid_lem}
use cone_os.Prelude.{ℕ, ◌+◌, ◌≡◌, ◌≢◌, refl, true, none, some, List, [], ◌∷◌, All, get_or, arith}

abbrev image : Image
image = record {
  space = 7;
  entry = 0x401000;
  heap_base = 0x500000;
  stack_pointer = 0x800FF0;
  argc = 1;
  argv = 0x800FF0;
  committed_pages = 2;
}

abbrev life : Life ℕ
life = record {
  create_image = λ path arguments w. (ready image, w);
  alloc_launch = λ w. (some 0x1000, w);
  kfree = λ l w. w;
  clone_space = λ a w. (some (a + 1), w);
  destroy_space = λ a w. w;
  create_task = λ l a w. (some w, w + 1);
  cancel_ready = λ id w. w;
  yield_task = λ w. w;
  replace_space = λ a w. (some 7, w);
  exit_task = λ w. w;
  inherit = λ p q w. w;
  fork_files = λ p q w. (true, w);
  close_all = λ p w. w;
}

life-HandsOut : HandsOut life (λ w. w)
life-HandsOut = record {
  image = λ p a w. omega arith;
  launch = λ w. omega arith;
  free = λ l w. omega arith;
  clone = λ a w. omega arith;
  destroy = λ a w. omega arith;
  create = λ l a w. omega arith;
  created = λ l a id w e. ground (arith, e);
  cancel = λ id w. omega arith;
  yields = λ w. omega arith;
  replace = λ a w. omega arith;
  exit = λ w. omega arith;
  inherit = λ p q w. omega arith;
  fork = λ p q w. omega arith;
  close = λ p w. omega arith;
}

abbrev root : Process
root = record no_process { pid = 1; state = running; space = some 3; cwd = b'/' ∷ [] }

abbrev child : Process
child = record no_process { pid = 2; ppid = 1; state = running; space = some 4; cwd = b'/' ∷ [] }

abbrev table : Processes ℕ
table = record { processes = root ∷ child ∷ no_process ∷ no_process ∷ []; world = 3 }

table-IsTable : IsTable 3 table.processes
table-IsTable = ground arith

-- "a  b" has two words.
split : split_arguments 15 (b'a' ∷ b' ' ∷ b' ' ∷ b'b' ∷ []) ≡ some ((b'a' ∷ []) ∷ (b'b' ∷ []) ∷ [])
unfolding split_arguments skip_spaces word after_word
split = refl

forked : (process_fork life 1 table).0 ≡ value 3
unfolding process_fork fork_space find_process free_process_record
forked = refl

abbrev calls : List LifeCall
calls = fork_call 1 ∷ spawn_call 1 (b'/' ∷ b'a' ∷ []) [] ∷ exit_call 3 0 ∷ wait_call 2 ∷ []

life_run-IsTable_example : let s' = life_run life calls table in IsTable s'.world s'.processes
life_run-IsTable_example = life_run-IsTable life (λ w. w) life-HandsOut calls table table-IsTable

child_found : find_process 2 table.processes ≡ some 1
unfolding find_process
child_found = refl

calls-Leaves : All (Leaves 1 2) calls
calls-Leaves = omega arith

waitpid_lem_example :
    let parent = (get_or table.processes 1 no_process).ppid in
    let s' = life_run life calls (process_exit_current life 2 9 table) in
    (waitpid parent 2 s' ≡ some 1)
    × (((current : ℕ) → current ≢ parent → waitpid current 2 s' ≡ none)
        × (((wait_round life 1 s').0 ≡ some 9)
            × (find_process 2 (wait_round life 1 s').1.processes ≡ none)))
waitpid_lem_example =
    waitpid_lem life (λ w. w) life-HandsOut 2 9 1 calls table table-IsTable child_found calls-Leaves
