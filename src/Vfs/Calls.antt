-- ===== src/Vfs/Calls.antt =====
-- The calls of src/fs/vfs.c by all tasks, as one list of steps. A call that blocks goes on later as a
-- round of its own, with other calls between.
use cone_os.Prelude.{ℕ, Bool, List, [], ◌∷◌}
use cone_os.Memory.{ℤ}
use cone_os.Vfs.{Vfs}
use cone_os.Vfs.Descriptors.{vfs_pipe, dup, dup2, close, close_all}
use cone_os.Vfs.Inheritance.{inherit_standard, fork}
use cone_os.Vfs.FileSystems.{FileSystems}
use cone_os.Vfs.Names.{
  Task, vfs_open, vfs_stat, vfs_readdir, vfs_mkdir, vfs_unlink, vfs_rmdir, vfs_is_directory,
  vfs_sync, vfs_mount, vfs_unmount,
}
use cone_os.Vfs.Pipes.{read_round, write_round}
use cone_os.Vfs.Transfers.{vfs_read, vfs_write, vfs_seek}

pub data Call (W : Type 0) : Type 0 where
  opened : List ℕ → Bool → Call W
  piped : Call W
  duplicated : ℕ → Call W
  duplicated_to : ℕ → ℕ → Call W
  closed : ℕ → Call W
  ended : ℕ → Call W
  inherited : ℕ → Call W
  forked : ℕ → Call W
  read : ℕ → ℕ → Call W
  read_again : ℕ → ℕ → Call W
  wrote : ℕ → List ℕ → Call W
  wrote_on : ℕ → List ℕ → ℕ → Call W
  sought : ℕ → ℤ → ℕ → Call W
  asked_size : List ℕ → Call W
  listed_at : List ℕ → ℕ → Call W
  made : List ℕ → Call W
  unlinked : List ℕ → Call W
  removed : List ℕ → Call W
  asked_directory : List ℕ → Call W
  synced : Call W
  mounted : List ℕ → List ℕ → Call W
  unmounted : List ℕ → List (List ℕ) → Call W
  changed_elsewhere : W → Call W

module _ {W : Type 0} (fs : FileSystems W) where
  unfoldable pub call : Task → Call W → Vfs W → Vfs W
  call task (opened name create) v = (vfs_open fs task name create v).1
  call task piped v = (vfs_pipe task.id v).1
  call task (duplicated number) v = (dup task.id number v).1
  call task (duplicated_to source destination) v = (dup2 task.id source destination v).1
  call task (closed number) v = (close task.id number v).1
  call task (ended owner) v = close_all owner v
  call task (inherited child) v = (inherit_standard task.id child v).1
  call task (forked child) v = (fork task.id child v).1
  call task (read number count) v = (vfs_read fs task.id number count v).1
  call task (read_again i count) v = (read_round i count v).1
  call task (wrote number bytes) v = (vfs_write fs task.id number bytes v).1
  call task (wrote_on i bytes total) v = (write_round i bytes total v).1
  call task (sought number offset whence) v = (vfs_seek fs task.id number offset whence v).1
  call task (asked_size name) v = (vfs_stat fs task name v).1
  call task (listed_at name index) v = (vfs_readdir fs task name index v).1
  call task (made name) v = (vfs_mkdir fs task name v).1
  call task (unlinked name) v = (vfs_unlink fs task name v).1
  call task (removed name) v = (vfs_rmdir fs task name v).1
  call task (asked_directory name) v = (vfs_is_directory fs task name v).1
  call task synced v = (vfs_sync fs v).1
  call task (mounted kind target) v = (vfs_mount fs task kind target v).1
  call task (unmounted target cwds) v = (vfs_unmount fs task target cwds v).1
  call task (changed_elsewhere w) v = record v { world = w }

  unfoldable pub calls : List (Task × Call W) → Vfs W → Vfs W
  calls [] v = v
  calls ((task, c) ∷ cs) v = calls cs (call task c v)
