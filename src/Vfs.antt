-- ===== src/Vfs.antt =====
-- src/fs/vfs.c: the tables of the virtual file system and the operations on their entries. A pointer
-- into a table is an index. The locked parts run without interruption. `world` is the state of the
-- file systems behind it, and `woken` counts the calls of task_wake_blocked.
pub mod Tables
pub mod Mounts
pub mod Descriptors
pub mod Inheritance
pub mod Pipes
pub mod FileSystems
pub mod Names
pub mod Transfers
pub mod Calls
pub mod Counts
pub mod Routing
pub mod Unmounting
pub mod Forking
pub mod Ring
pub mod Queue
pub mod Refinement
pub mod Rereading
pub mod Opened
pub mod Roundtrip
mod Tests
use cone_os.Prelude.{
  ℕ, zero, suc, ◌+◌, ◌-◌, Bool, true, false, not, ◌&&◌, ◌||◌, Option, none, some, List, [], ◌∷◌,
  get_or, set, replicate, ◌==◌, if◌then◌else◌,
}
use cone_os.Devfs.{Device, unknown, console}

-- The three tables of a struct vfs_fs_ops.
pub data FileSystem : Type 0 where
  ramfs_ops : FileSystem
  fat32_ops : FileSystem
  devfs_ops : FileSystem

-- pipe and pipe_mode, which the code always sets together: NULL and VFS_PIPE_NONE, or a pipe and one of
-- the other two modes.
pub data PipeEnd : Type 0 where
  no_pipe : PipeEnd
  read_end : ℕ → PipeEnd
  write_end : ℕ → PipeEnd

-- struct vfs_fd. No number is negative: a negative argument is that of no descriptor.
pub record Fd : Type 0 where
  pub used : Bool
  pub owner : ℕ
  pub number : ℕ
  pub name : List ℕ
  pub file : Option ℕ
  pub device : Device
  pub pipe : PipeEnd

pub record OpenFile : Type 0 where
  pub used : Bool
  pub references : ℕ
  pub offset : ℕ

pub record Pipe : Type 0 where
  pub used : Bool
  pub readers : ℕ
  pub writers : ℕ
  pub head : ℕ
  pub tail : ℕ
  pub count : ℕ
  pub buffer : List ℕ

pub record Mount : Type 0 where
  pub used : Bool
  pub removable : Bool
  pub path : List ℕ
  pub kind : List ℕ
  pub ops : FileSystem

pub record Vfs (W : Type 0) : Type 0 where
  pub descriptors : List Fd
  pub open_files : List OpenFile
  pub pipes : List Pipe
  pub mounts : List Mount
  pub world : W
  pub woken : ℕ

abbrev pub max_fds : ℕ
max_fds = 32

-- VFS_DESCRIPTOR_SLOTS
abbrev pub descriptor_slots : ℕ
descriptor_slots = 512

abbrev pub max_mounts : ℕ
max_mounts = 8

abbrev pub max_pipes : ℕ
max_pipes = 16

abbrev pub pipe_capacity : ℕ
pipe_capacity = 4096

abbrev pub no_fd : Fd
no_fd = record {
  used = false;
  owner = 0;
  number = 0;
  name = [];
  file = none;
  device = unknown;
  pipe = no_pipe;
}

abbrev pub no_file : OpenFile
no_file = record { used = false; references = 0; offset = 0 }

abbrev pub no_pipe_at : Pipe
no_pipe_at = record {
  used = false;
  readers = 0;
  writers = 0;
  head = 0;
  tail = 0;
  count = 0;
  buffer = [];
}

-- An entry of the table of mounts that is not used; the code leaves NULL for its `ops`.
abbrev pub no_mount : Mount
no_mount = record { used = false; removable = false; path = []; kind = []; ops = ramfs_ops }

module _ {W : Type 0} where
  unfoldable pub set_fd : ℕ → Fd → Vfs W → Vfs W
  set_fd i fd v = record v { descriptors = set v.descriptors i fd }

  unfoldable pub set_file : ℕ → OpenFile → Vfs W → Vfs W
  set_file i f v = record v { open_files = set v.open_files i f }

  unfoldable pub set_pipe : ℕ → Pipe → Vfs W → Vfs W
  set_pipe i p v = record v { pipes = set v.pipes i p }

  unfoldable pub wake : Vfs W → Vfs W
  wake v = record v { woken = suc v.woken }
