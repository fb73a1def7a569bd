-- ===== src/Scheduling/Tasks.antt =====
-- A task of src/kernel/task.c, and the walks along the list of tasks.
use cone_os.Prelude.{
  ℕ, Bool, true, false, ◌&&◌, Option, none, some, List, [], ◌∷◌, leb, ◌==◌, if◌then◌else◌,
}
use cone_os.Stack.{KernelStack}

pub data TaskState : Type 0 where
  ready : TaskState
  running : TaskState
  blocked : TaskState
  sleeping : TaskState
  zombie : TaskState

-- `name`, `entry`, `argument` and `space` are pointers. The saved stack pointer is left out: only the
-- switch reads it.
pub record Task : Type 0 where
  pub id : ℕ
  pub name : ℕ
  pub state : TaskState
  pub entry : ℕ
  pub argument : ℕ
  pub stack : KernelStack
  pub fault_stack : KernelStack
  pub space : ℕ
  pub owns_space : Bool
  pub wake_at : ℕ

abbrev pub is_ready : TaskState → Bool
is_ready ready = true
is_ready s = false

abbrev pub is_running : TaskState → Bool
is_running running = true
is_running s = false

abbrev pub is_blocked : TaskState → Bool
is_blocked blocked = true
is_blocked s = false

abbrev pub is_sleeping : TaskState → Bool
is_sleeping sleeping = true
is_sleeping s = false

abbrev pub is_zombie : TaskState → Bool
is_zombie zombie = true
is_zombie s = false

-- A write through the pointer to the task `id`.
unfoldable pub update : ℕ → (Task → Task) → List Task → List Task
update id f [] = []
update id f (t ∷ ts) = if t.id == id then f t ∷ ts else t ∷ update id f ts

abbrev pub set_state : ℕ → TaskState → List Task → List Task
set_state id state ts = update id (λ t. record t { state = state }) ts

unfoldable pub find_task : ℕ → List Task → Option Task
find_task id [] = none
find_task id (t ∷ ts) = if t.id == id then some t else find_task id ts

-- if (state == TASK_SLEEPING && wake_at_ms <= now) state = TASK_READY;
abbrev pub wake_sleeper : ℕ → Task → Task
wake_sleeper now t =
    if is_sleeping t.state && leb t.wake_at now then record t { state = ready } else t

abbrev pub wake_blocked : Task → Task
wake_blocked t = if is_blocked t.state then record t { state = ready } else t

-- The tasks behind the task `id`, and those before it.
unfoldable pub rest_of : ℕ → List Task → List Task
rest_of id [] = []
rest_of id (t ∷ ts) = if t.id == id then ts else rest_of id ts

unfoldable pub up_to : ℕ → List Task → List Task
up_to id [] = []
up_to id (t ∷ ts) = if t.id == id then [] else t ∷ up_to id ts

unfoldable pub first_ready : List Task → Option Task
first_ready [] = none
first_ready (t ∷ ts) = if is_ready t.state then some t else first_ready ts
