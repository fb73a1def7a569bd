-- ===== src/Vfs/Counts/Runs.antt =====
-- The references of src/fs/vfs.c stay counted over any calls.
use cone_os.Prelude.{
  ℕ, ◌≡◌, refl, ◌||◌, List, [], ◌∷◌, length, get_or, inl, inr, Bool-cases, Option-cases, ltb, leb,
  ◌==◌,
}
use cone_os.Devfs.{Device, is_device, Input, no_input, bytes, waiting}
use cone_os.Memory.{ℤ}
use cone_os.Ramfs.{data_size}
use cone_os.Vfs.{Vfs, Fd, PipeEnd, no_pipe, read_end, write_end, no_fd, no_file, max_fds}
use cone_os.Vfs.Tables.{lookup}
use cone_os.Vfs.Descriptors.{is_pipe, ensure_standard_streams, vfs_pipe, dup, dup2}
use cone_os.Vfs.FileSystems.{FsOps, FileSystems}
use cone_os.Vfs.Names.{Task, ask_path, vfs_sync}
use cone_os.Vfs.Transfers.{
  take_from, read_file, read_device, pipe_read, read_fd, vfs_read, write_file, write_device,
  pipe_write, write_fd, vfs_write, seek_base, seek_target, seek_file, vfs_seek,
}
use cone_os.Vfs.Calls.{Call, call, calls}
use cone_os.Vfs.Counts.Tally.{IsCounted}
use cone_os.Vfs.Counts.Calls.{ensure-IsCounted, dup_locked-IsCounted}
use cone_os.Vfs.Counts.Pairs.{dup2_locked-IsCounted, close-IsCounted, pipe_locked-IsCounted}
use cone_os.Vfs.Counts.Loops.{close_all-IsCounted, inherit_standard-IsCounted, fork-IsCounted}
use cone_os.Vfs.Counts.Uncounted.{
  world-IsCounted, offset-IsCounted, read_round-IsCounted, write_round-IsCounted,
}
use cone_os.Vfs.Counts.Named.{
  vfs_open-IsCounted, vfs_stat-IsCounted, vfs_readdir-IsCounted, vfs_mkdir-IsCounted,
  vfs_unlink-IsCounted, vfs_rmdir-IsCounted, vfs_is_directory-IsCounted, vfs_mount-IsCounted,
  vfs_unmount-IsCounted,
}

module _ {W : Type 0} where
  pipe_read-IsCounted :
      (e : PipeEnd) (n : ℕ) (v : Vfs W) → IsCounted v → IsCounted (pipe_read e n v).1
  unfolding pipe_read
  pipe_read-IsCounted no_pipe n v c = c
  pipe_read-IsCounted (write_end i) n v c = c
  pipe_read-IsCounted (read_end i) n v c = elim (Bool-cases (n == 0)) [
    | inl e ↦ rw (e, pipe_read) c
    | inr e ↦ rw (e, pipe_read) (read_round-IsCounted i n v c)
  ]

  pipe_write-IsCounted :
      (e : PipeEnd) (cs : List ℕ) (v : Vfs W) → IsCounted v → IsCounted (pipe_write e cs v).1
  unfolding pipe_write
  pipe_write-IsCounted no_pipe cs v c = c
  pipe_write-IsCounted (read_end i) cs v c = c
  pipe_write-IsCounted (write_end i) cs v c = write_round-IsCounted i cs 0 v c

  dup2_all-IsCounted :
      (owner source destination : ℕ) (v : Vfs W)
      → IsCounted v
      → IsCounted (dup2 owner source destination v).1
  unfolding dup2
  dup2_all-IsCounted owner source destination v c = elim (Bool-cases (leb max_fds destination)) [
    | inl e ↦ rw (e, dup2) c
    | inr e ↦
        rw (e, dup2) (dup2_locked-IsCounted owner source destination _ (ensure-IsCounted owner v c))
  ]

module _ {W : Type 0} (fs : FileSystems W) where
  read_file-IsCounted :
      (fd : Fd) (n : ℕ) (v : Vfs W) → IsCounted v → IsCounted (read_file fs fd n v).1
  unfolding read_file take_from
  read_file-IsCounted fd n v c = elim (Option-cases fd.file) [
    | inl e ↦ rw (e, read_file) c
    | inr (i, e) ↦
        let op = λ (ops : FsOps W) (path : List ℕ). ops.read path data_size in
        let u = (ask_path fs op fd.name v).1 in
        let k = world-IsCounted v u.world c in
        elim (Option-cases (ask_path fs op fd.name v).0) [
          | inl a ↦ rw (e, read_file, a) k
          | inr (all, a) ↦
              elim (Bool-cases (leb (length all) (get_or v.open_files i no_file).offset)) [
                | inl b ↦ rw (e, read_file, a, take_from, b) k
                | inr b ↦ rw (e, read_file, a, take_from, b) (offset-IsCounted u i _ k)
              ]
        ]
  ]

  read_device-IsCounted :
      (device : Device) (n : ℕ) (v : Vfs W) → IsCounted v → IsCounted (read_device fs device n v).1
  unfolding read_device
  read_device-IsCounted device n v c = go (fs.device_read device n v.world).0 refl
    where
      go :
          (r : Input)
          → (fs.device_read device n v.world).0 ≡ r
          → IsCounted (read_device fs device n v).1
      go no_input e = rw (e, read_device) (world-IsCounted v _ c)
      go (bytes cs) e = rw (e, read_device) (world-IsCounted v _ c)
      go waiting e = rw (e, read_device) (world-IsCounted v _ c)

  read_fd-IsCounted :
      (number : ℕ) (fd : Fd) (n : ℕ) (v : Vfs W)
      → IsCounted v
      → IsCounted (read_fd fs number fd n v).1
  unfolding read_fd
  read_fd-IsCounted number fd n v c = elim (Bool-cases (is_pipe fd.pipe)) [
    | inl e ↦ rw (e, read_fd) (pipe_read-IsCounted fd.pipe n v c)
    | inr e ↦ elim (Bool-cases (number == 1 || number == 2)) [
      | inl a ↦ rw (e, read_fd, a) c
      | inr a ↦ elim (Bool-cases (is_device fd.device)) [
        | inl b ↦ rw (e, read_fd, a, b) (read_device-IsCounted fd.device n v c)
        | inr b ↦ elim (Bool-cases (ltb number 3)) [
          | inl d ↦ rw (e, read_fd, a, b, d) c
          | inr d ↦ rw (e, read_fd, a, b, d) (read_file-IsCounted fd n v c)
        ]
      ]
    ]
  ]

  vfs_read-IsCounted :
      (owner number n : ℕ) (v : Vfs W) → IsCounted v → IsCounted (vfs_read fs owner number n v).1
  unfolding vfs_read
  vfs_read-IsCounted owner number n v c =
      let u = ensure_standard_streams owner v in
      let k = ensure-IsCounted owner v c in
      elim (Option-cases (lookup owner number u.descriptors)) [
        | inl e ↦ rw (e, vfs_read) k
        | inr (i, e) ↦
            rw (e, vfs_read) (read_fd-IsCounted number (get_or u.descriptors i no_fd) n u k)
      ]

  write_file-IsCounted :
      (fd : Fd) (cs : List ℕ) (v : Vfs W) → IsCounted v → IsCounted (write_file fs fd cs v).1
  unfolding write_file
  write_file-IsCounted fd cs v c = elim (Option-cases fd.file) [
    | inl e ↦ rw (e, write_file) c
    | inr (i, e) ↦
        let op = λ (ops : FsOps W) (path : List ℕ). ops.write path cs in
        let u = (ask_path fs op fd.name v).1 in
        let k = world-IsCounted v u.world c in
        elim (Bool-cases (ask_path fs op fd.name v).0) [
          | inl a ↦ rw (e, write_file, a) (offset-IsCounted u i _ k)
          | inr a ↦ rw (e, write_file, a) k
        ]
  ]

  write_device-IsCounted :
      (device : Device) (cs : List ℕ) (v : Vfs W)
      → IsCounted v
      → IsCounted (write_device fs device cs v).1
  unfolding write_device
  write_device-IsCounted device cs v c = elim (Option-cases (fs.device_write device cs v.world).0) [
    | inl e ↦ rw (e, write_device) (world-IsCounted v _ c)
    | inr (n, e) ↦ rw (e, write_device) (world-IsCounted v _ c)
  ]

  write_fd-IsCounted :
      (number : ℕ) (fd : Fd) (cs : List ℕ) (v : Vfs W)
      → IsCounted v
      → IsCounted (write_fd fs number fd cs v).1
  unfolding write_fd
  write_fd-IsCounted number fd cs v c = elim (Bool-cases (is_pipe fd.pipe)) [
    | inl e ↦ rw (e, write_fd) (pipe_write-IsCounted fd.pipe cs v c)
    | inr e ↦ elim (Bool-cases (number == 0)) [
      | inl a ↦ rw (e, write_fd, a) c
      | inr a ↦ elim (Bool-cases (is_device fd.device)) [
        | inl b ↦ rw (e, write_fd, a, b) (write_device-IsCounted fd.device cs v c)
        | inr b ↦ rw (e, write_fd, a, b) (write_file-IsCounted fd cs v c)
      ]
    ]
  ]

  vfs_write-IsCounted :
      (owner number : ℕ) (cs : List ℕ) (v : Vfs W)
      → IsCounted v
      → IsCounted (vfs_write fs owner number cs v).1
  unfolding vfs_write
  vfs_write-IsCounted owner number cs v c =
      let u = ensure_standard_streams owner v in
      let k = ensure-IsCounted owner v c in
      elim (Option-cases (lookup owner number u.descriptors)) [
        | inl e ↦ rw (e, vfs_write) k
        | inr (i, e) ↦ elim (Bool-cases (ltb data_size (length cs))) [
          | inl a ↦ rw (e, vfs_write, a) k
          | inr a ↦
              rw (e, vfs_write, a) (write_fd-IsCounted number (get_or u.descriptors i no_fd) cs u k)
        ]
      ]

  seek_file-IsCounted :
      (i : ℕ) (fd : Fd) (offset : ℤ) (whence : ℕ) (v : Vfs W)
      → IsCounted v
      → IsCounted (seek_file fs i fd offset whence v).1
  unfolding seek_file
  seek_file-IsCounted i fd offset whence v c =
      let op = λ (ops : FsOps W). ops.stat in
      let u = (ask_path fs op fd.name v).1 in
      let k = world-IsCounted v u.world c in
      elim (Option-cases (ask_path fs op fd.name v).0) [
        | inl e ↦ rw (e, seek_file) k
        | inr (n, e) ↦
            elim (Option-cases (seek_base whence (get_or v.open_files i no_file).offset n)) [
              | inl a ↦ rw (e, seek_file, a) k
              | inr (base, a) ↦ elim (Option-cases (seek_target base offset n)) [
                | inl b ↦ rw (e, seek_file, a, b) k
                | inr (target, b) ↦ rw (e, seek_file, a, b) (offset-IsCounted u i target k)
              ]
            ]
      ]

  vfs_seek-IsCounted :
      (owner number : ℕ) (offset : ℤ) (whence : ℕ) (v : Vfs W)
      → IsCounted v
      → IsCounted (vfs_seek fs owner number offset whence v).1
  unfolding vfs_seek
  vfs_seek-IsCounted owner number offset whence v c =
      elim (Option-cases (lookup owner number v.descriptors)) [
        | inl e ↦ rw (e, vfs_seek) c
        | inr (s, e) ↦
            let fd : Fd = get_or v.descriptors s no_fd in
            elim (Bool-cases (ltb number 3 || is_device fd.device || is_pipe fd.pipe)) [
              | inl a ↦ rw (e, vfs_seek, a) c
              | inr a ↦ elim (Option-cases fd.file) [
                | inl b ↦ rw (e, vfs_seek, a, b) c
                | inr (i, b) ↦ rw (e, vfs_seek, a, b) (seek_file-IsCounted i fd offset whence v c)
              ]
            ]
      ]

  call-IsCounted :
      (task : Task) (k : Call W) (v : Vfs W) → IsCounted v → IsCounted (call fs task k v)
  unfolding call vfs_pipe dup dup2 vfs_sync
  call-IsCounted task (Call.opened name create) v c = vfs_open-IsCounted fs task name create v c
  call-IsCounted task Call.piped v c =
      pipe_locked-IsCounted task.id _ (ensure-IsCounted task.id v c)
  call-IsCounted task (Call.duplicated number) v c =
      dup_locked-IsCounted task.id number _ (ensure-IsCounted task.id v c)
  call-IsCounted task (Call.duplicated_to source destination) v c =
      dup2_all-IsCounted task.id source destination v c
  call-IsCounted task (Call.closed number) v c = close-IsCounted task.id number v c
  call-IsCounted task (Call.ended owner) v c = close_all-IsCounted owner v c
  call-IsCounted task (Call.inherited child) v c = inherit_standard-IsCounted task.id child v c
  call-IsCounted task (Call.forked child) v c = fork-IsCounted task.id child v c
  call-IsCounted task (Call.read number count) v c = vfs_read-IsCounted task.id number count v c
  call-IsCounted task (Call.read_again i count) v c = read_round-IsCounted i count v c
  call-IsCounted task (Call.wrote number cs) v c = vfs_write-IsCounted task.id number cs v c
  call-IsCounted task (Call.wrote_on i cs total) v c = write_round-IsCounted i cs total v c
  call-IsCounted task (Call.sought number offset whence) v c =
      vfs_seek-IsCounted task.id number offset whence v c
  call-IsCounted task (Call.asked_size name) v c = vfs_stat-IsCounted fs task name v c
  call-IsCounted task (Call.listed_at name index) v c = vfs_readdir-IsCounted fs task name index v c
  call-IsCounted task (Call.made name) v c = vfs_mkdir-IsCounted fs task name v c
  call-IsCounted task (Call.unlinked name) v c = vfs_unlink-IsCounted fs task name v c
  call-IsCounted task (Call.removed name) v c = vfs_rmdir-IsCounted fs task name v c
  call-IsCounted task (Call.asked_directory name) v c = vfs_is_directory-IsCounted fs task name v c
  call-IsCounted task Call.synced v c = world-IsCounted v _ c
  call-IsCounted task (Call.mounted kind target) v c = vfs_mount-IsCounted fs task kind target v c
  call-IsCounted task (Call.unmounted target cwds) v c =
      vfs_unmount-IsCounted fs task target cwds v c
  call-IsCounted task (Call.changed_elsewhere w) v c = world-IsCounted v w c

  -- Over any sequence of calls of any tasks, whatever the file systems do, each open file's reference
  -- count is the number of the descriptors that name it, each pipe's counts of readers and writers are
  -- those of its ends, and a file or a pipe is used exactly if a descriptor refers to it. Condition: it
  -- is so at the start.
  pub calls-IsCounted :
      (cs : List (Task × Call W)) (v : Vfs W) → IsCounted v → IsCounted (calls fs cs v)
  unfolding calls
  calls-IsCounted [] v c = c
  calls-IsCounted ((task, k) ∷ cs) v c =
      calls-IsCounted cs (call fs task k v) (call-IsCounted task k v c)
