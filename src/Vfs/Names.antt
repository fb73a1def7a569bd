-- ===== src/Vfs/Names.antt =====
-- The calls of src/fs/vfs.c that take a path. The current task is a Task; a result of false or none is
-- the 0 or the -1 of the code. No pointer is null.
use cone_os.Prelude.{
  ℕ, Bool, true, false, not, ◌&&◌, ◌||◌, Option, none, some, List, [], ◌∷◌, length, get_or, set,
  map, leb, ◌==◌, if◌then◌else◌,
}
use cone_os.Devfs.{Device}
use cone_os.Paths.{slash, resolve_path, path_has_prefix, resolved, refused, out_of_fuel}
use cone_os.Ramfs.Listing.{Listed, not_directory}
use cone_os.Ramfs.Names.{name_equal}
use cone_os.Vfs.{Vfs, Fd, OpenFile, Pipe, Mount, fat32_ops, devfs_ops, no_mount}
use cone_os.Vfs.FileSystems.{FsOps, FileSystems, ops_of}
use cone_os.Vfs.Mounts.{find_mount, path_ops, install_mount, mount_at, other_below, fat32_name}
use cone_os.Vfs.Descriptors.{ensure_standard_streams, open_at}

-- task_current_id, and the current directory of its process or "/".
pub record Task : Type 0 where
  pub id : ℕ
  pub cwd : List ℕ

-- FS_PATH_MAX and RAMFS_NAME_SIZE
abbrev pub path_max : ℕ
path_max = 256

-- process_getcwd
unfoldable pub getcwd : ℕ → List ℕ → Option (List ℕ)
getcwd capacity cwd = if leb capacity (length cwd) then none else some cwd

-- resolve_path(name, absolute, sizeof(absolute))
unfoldable pub absolute_of : Task → List ℕ → Option (List ℕ)
absolute_of task name = elim (resolve_path path_max (getcwd path_max task.cwd) name) [
  | out_of_fuel ↦ none
  | refused ↦ none
  | resolved path ↦ some path
]

abbrev pub dev_name : List ℕ
dev_name = b'/' ∷ b'd' ∷ b'e' ∷ b'v' ∷ []

abbrev pub devfs_name : List ℕ
devfs_name = b'd' ∷ b'e' ∷ b'v' ∷ b'f' ∷ b's' ∷ []

-- process_cwd_in_mount, over the current directories of the running processes.
unfoldable pub cwd_in_mount : List ℕ → List (List ℕ) → Bool
cwd_in_mount path [] = false
cwd_in_mount path (cwd ∷ cwds) = path_has_prefix cwd path || cwd_in_mount path cwds

-- A descriptor from 3 on whose name is at or below the path.
unfoldable pub any_open : List ℕ → List Fd → Bool
any_open path [] = false
any_open path (fd ∷ fds) =
    (fd.used && leb 3 fd.number && path_has_prefix fd.name path) || any_open path fds

abbrev pub unused_fd : Fd → Fd
unused_fd fd = record fd { used = false }

abbrev pub unused_file : OpenFile → OpenFile
unused_file f = record f { used = false }

abbrev pub unused_pipe : Pipe → Pipe
unused_pipe p = record p { used = false }

abbrev pub unused_mount : Mount → Mount
unused_mount m = record m { used = false }

-- mount && names_equal(absolute, mount->path)
unfoldable pub is_mount_point : List ℕ → List Mount → Bool
is_mount_point path ms = elim (find_mount path ms) [
  | none ↦ false
  | some (m, relative) ↦ name_equal path m.path
]

module _ {W : Type 0} where
  -- The end of vfs_mount, at a directory.
  unfoldable pub mount_on : List ℕ → Vfs W → Bool × Vfs W
  mount_on path v = elim (install_mount path fat32_name fat32_ops true v.mounts) [
    | none ↦ (false, v)
    | some ms ↦ (true, record v { mounts = ms })
  ]

module _ {W : Type 0} (fs : FileSystems W) where
  -- A call of a file system that gives an answer and its next state.
  abbrev pub ask : {A : Type 0} → (W → A × W) → Vfs W → A × Vfs W
  ask f v = let (a, w) = f v.world in (a, record v { world = w })

  -- path_ops(absolute, &backend)->…(backend)
  abbrev pub ask_path : {A : Type 0} → (FsOps W → List ℕ → W → A × W) → List ℕ → Vfs W → A × Vfs W
  ask_path op path v =
      let (kind, relative) = path_ops path v.mounts in ask (op (ops_of fs kind) relative) v

  -- !ops->stat(backend, &file_size) && (!create || !ops->create(backend)): whether there is a file.
  unfoldable pub found_or_created : List ℕ → Bool → Vfs W → Bool × Vfs W
  found_or_created path create v =
      let (size, after) = ask_path (λ (ops : FsOps W). ops.stat) path v in
      elim size [
        | some n ↦ (true, after)
        | none ↦
            if create then ask_path (λ (ops : FsOps W). ops.create) path after else (false, after)
      ]

  -- The device is taken from the table's `device`, which only devfs_ops has.
  unfoldable pub device_at : List ℕ → Vfs W → Device
  device_at path v =
      let (kind, relative) = path_ops path v.mounts in (ops_of fs kind).device relative

  -- vfs_open
  unfoldable pub vfs_open : Task → List ℕ → Bool → Vfs W → Option ℕ × Vfs W
  vfs_open task name create v =
      if length name == 0 || leb path_max (length name)
      then (none, v)
      else elim (absolute_of task name) [
        | none ↦ (none, v)
        | some path ↦
            let (there, after) = found_or_created path create v in
            if there
            then open_at task.id path (device_at path v) (ensure_standard_streams task.id after)
            else (none, after)
      ]

  unfoldable pub vfs_stat : Task → List ℕ → Vfs W → Option ℕ × Vfs W
  vfs_stat task name v = elim (absolute_of task name) [
    | none ↦ (none, v)
    | some path ↦ ask_path (λ (ops : FsOps W). ops.stat) path v
  ]

  unfoldable pub vfs_readdir : Task → List ℕ → ℕ → Vfs W → Listed × Vfs W
  vfs_readdir task name index v = elim (absolute_of task name) [
    | none ↦ (not_directory, v)
    | some path ↦
        ask_path (λ (ops : FsOps W) (relative : List ℕ). ops.readdir relative index) path v
  ]

  unfoldable pub vfs_mkdir : Task → List ℕ → Vfs W → Bool × Vfs W
  vfs_mkdir task name v = elim (absolute_of task name) [
    | none ↦ (false, v)
    | some path ↦ ask_path (λ (ops : FsOps W). ops.mkdir) path v
  ]

  unfoldable pub vfs_unlink : Task → List ℕ → Vfs W → Bool × Vfs W
  vfs_unlink task name v = elim (absolute_of task name) [
    | none ↦ (false, v)
    | some path ↦ ask_path (λ (ops : FsOps W). ops.unlink) path v
  ]

  unfoldable pub vfs_rmdir : Task → List ℕ → Vfs W → Bool × Vfs W
  vfs_rmdir task name v = elim (absolute_of task name) [
    | none ↦ (false, v)
    | some path ↦ ask_path (λ (ops : FsOps W). ops.rmdir) path v
  ]

  unfoldable pub vfs_is_directory : Task → List ℕ → Vfs W → Bool × Vfs W
  vfs_is_directory task name v = elim (absolute_of task name) [
    | none ↦ (false, v)
    | some path ↦
        if name_equal path (slash ∷ [])
        then (true, v)
        else if is_mount_point path v.mounts
        then (true, v)
        else ask_path (λ (ops : FsOps W). ops.is_directory) path v
  ]

  unfoldable pub sync_mounts : List Mount → W → Bool × W
  sync_mounts [] w = (true, w)
  sync_mounts (m ∷ ms) w =
      let (ok, after) = (if m.used then (ops_of fs m.ops).sync w else (true, w)) in
      let rest = sync_mounts ms after in if ok then rest else (false, after)

  unfoldable pub vfs_sync : Vfs W → Bool × Vfs W
  vfs_sync v = ask (sync_mounts v.mounts) v

  unfoldable pub vfs_mount : Task → List ℕ → List ℕ → Vfs W → Bool × Vfs W
  vfs_mount task kind target v =
      if not (name_equal kind fat32_name) || not (fs.fat32_mounted v.world)
      then (false, v)
      else elim (absolute_of task target) [
        | none ↦ (false, v)
        | some path ↦
            if name_equal path (slash ∷ [])
            then (false, v)
            else let (is_directory, after) = vfs_is_directory task path v in
              if is_directory then mount_on path after else (false, after)
      ]

  -- The end of vfs_unmount, at the mount of the index.
  unfoldable pub unmount_at : ℕ → List ℕ → List (List ℕ) → Vfs W → Bool × Vfs W
  unmount_at i path cwds v =
      let m = get_or v.mounts i no_mount in
      if not m.removable
        || cwd_in_mount path cwds
        || other_below path i v.mounts
        || any_open path v.descriptors
      then (false, v)
      else let (ok, w) = (ops_of fs m.ops).sync v.world in
        if ok
        then (true, record v { world = w; mounts = set v.mounts i no_mount })
        else (false, record v { world = w })

  unfoldable pub vfs_unmount : Task → List ℕ → List (List ℕ) → Vfs W → Bool × Vfs W
  vfs_unmount task target cwds v = elim (absolute_of task target) [
    | none ↦ (false, v)
    | some path ↦
        if name_equal path (slash ∷ [])
        then (false, v)
        else elim (mount_at path v.mounts) [ none ↦ (false, v) | some i ↦ unmount_at i path cwds v ]
  ]

module _ {W : Type 0} where
  -- vfs_init
  unfoldable pub vfs_init : Vfs W → Vfs W
  vfs_init v =
      let ms = map unused_mount v.mounts in
      ensure_standard_streams 0 (record v {
        descriptors = map unused_fd v.descriptors;
        open_files = map unused_file v.open_files;
        pipes = map unused_pipe v.pipes;
        mounts = (elim (install_mount dev_name devfs_name devfs_ops false ms) [
          | none ↦ ms
          | some installed ↦ installed
        ]);
      })
