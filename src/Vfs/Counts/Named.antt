-- ===== src/Vfs/Counts/Named.antt =====
-- The references of src/fs/vfs.c stay counted in the calls that take a path.
use cone_os.Prelude.{
  ℕ, Bool, true, not, ◌||◌, List, [], ◌∷◌, length, get_or, inl, inr, Bool-cases, Option-cases, leb,
  ◌==◌,
}
use cone_os.Ramfs.Names.{name_equal}
use cone_os.Paths.{slash}
use cone_os.Vfs.{Vfs, no_mount, fat32_ops}
use cone_os.Vfs.Mounts.{install_mount, mount_at, other_below, fat32_name}
use cone_os.Vfs.FileSystems.{FsOps, FileSystems, ops_of}
use cone_os.Vfs.Names.{
  Task, ask_path, absolute_of, path_max, found_or_created, device_at, vfs_open, vfs_stat,
  vfs_readdir, vfs_mkdir, vfs_unlink, vfs_rmdir, is_mount_point, vfs_is_directory, mount_on,
  vfs_mount, cwd_in_mount, any_open, unmount_at, vfs_unmount,
}
use cone_os.Vfs.Counts.Tally.{IsCounted}
use cone_os.Vfs.Counts.Calls.{ensure-IsCounted, open_at-IsCounted}
use cone_os.Vfs.Counts.Uncounted.{world-IsCounted, mounts-IsCounted}

module _ {W : Type 0} where
  mount_on-IsCounted : (path : List ℕ) (v : Vfs W) → IsCounted v → IsCounted (mount_on path v).1
  unfolding mount_on
  mount_on-IsCounted path v c =
      elim (Option-cases (install_mount path fat32_name fat32_ops true v.mounts)) [
        | inl e ↦ rw (e, mount_on) c
        | inr (ms, e) ↦ rw (e, mount_on) (mounts-IsCounted v v.world ms c)
      ]

module _ {W : Type 0} (fs : FileSystems W) where
  found_or_created-IsCounted :
      (path : List ℕ) (create : Bool) (v : Vfs W)
      → IsCounted v
      → IsCounted (found_or_created fs path create v).1
  unfolding found_or_created
  found_or_created-IsCounted path create v c =
      let k = world-IsCounted v (ask_path fs (λ (ops : FsOps W). ops.stat) path v).1.world c in
      elim (Option-cases (ask_path fs (λ (ops : FsOps W). ops.stat) path v).0) [
        | inr (n, e) ↦ rw (e, found_or_created) k
        | inl e ↦ elim (Bool-cases create) [
          | inl b ↦ rw (e, found_or_created, b) (world-IsCounted _ _ k)
          | inr b ↦ rw (e, found_or_created, b) k
        ]
      ]

  pub vfs_open-IsCounted :
      (task : Task) (name : List ℕ) (create : Bool) (v : Vfs W)
      → IsCounted v
      → IsCounted (vfs_open fs task name create v).1
  unfolding vfs_open
  vfs_open-IsCounted task name create v c =
      elim (Bool-cases (length name == 0 || leb path_max (length name))) [
        | inl e ↦ rw (e, vfs_open) c
        | inr e ↦ elim (Option-cases (absolute_of task name)) [
          | inl a ↦ rw (e, vfs_open, a) c
          | inr (path, a) ↦
              let k = found_or_created-IsCounted path create v c in
              elim (Bool-cases (found_or_created fs path create v).0) [
                | inl b ↦
                    rw (e, vfs_open, a, b)
                      (open_at-IsCounted task.id path (device_at fs path v) _
                        (ensure-IsCounted task.id _ k))
                | inr b ↦ rw (e, vfs_open, a, b) k
              ]
        ]
      ]

  pub vfs_stat-IsCounted :
      (task : Task) (name : List ℕ) (v : Vfs W)
      → IsCounted v
      → IsCounted (vfs_stat fs task name v).1
  unfolding vfs_stat
  vfs_stat-IsCounted task name v c = elim (Option-cases (absolute_of task name)) [
    | inl a ↦ rw (a, vfs_stat) c
    | inr (path, a) ↦ rw (a, vfs_stat) (world-IsCounted v _ c)
  ]

  pub vfs_readdir-IsCounted :
      (task : Task) (name : List ℕ) (index : ℕ) (v : Vfs W)
      → IsCounted v
      → IsCounted (vfs_readdir fs task name index v).1
  unfolding vfs_readdir
  vfs_readdir-IsCounted task name index v c = elim (Option-cases (absolute_of task name)) [
    | inl a ↦ rw (a, vfs_readdir) c
    | inr (path, a) ↦ rw (a, vfs_readdir) (world-IsCounted v _ c)
  ]

  pub vfs_mkdir-IsCounted :
      (task : Task) (name : List ℕ) (v : Vfs W)
      → IsCounted v
      → IsCounted (vfs_mkdir fs task name v).1
  unfolding vfs_mkdir
  vfs_mkdir-IsCounted task name v c = elim (Option-cases (absolute_of task name)) [
    | inl a ↦ rw (a, vfs_mkdir) c
    | inr (path, a) ↦ rw (a, vfs_mkdir) (world-IsCounted v _ c)
  ]

  pub vfs_unlink-IsCounted :
      (task : Task) (name : List ℕ) (v : Vfs W)
      → IsCounted v
      → IsCounted (vfs_unlink fs task name v).1
  unfolding vfs_unlink
  vfs_unlink-IsCounted task name v c = elim (Option-cases (absolute_of task name)) [
    | inl a ↦ rw (a, vfs_unlink) c
    | inr (path, a) ↦ rw (a, vfs_unlink) (world-IsCounted v _ c)
  ]

  pub vfs_rmdir-IsCounted :
      (task : Task) (name : List ℕ) (v : Vfs W)
      → IsCounted v
      → IsCounted (vfs_rmdir fs task name v).1
  unfolding vfs_rmdir
  vfs_rmdir-IsCounted task name v c = elim (Option-cases (absolute_of task name)) [
    | inl a ↦ rw (a, vfs_rmdir) c
    | inr (path, a) ↦ rw (a, vfs_rmdir) (world-IsCounted v _ c)
  ]

  pub vfs_is_directory-IsCounted :
      (task : Task) (name : List ℕ) (v : Vfs W)
      → IsCounted v
      → IsCounted (vfs_is_directory fs task name v).1
  unfolding vfs_is_directory
  vfs_is_directory-IsCounted task name v c = elim (Option-cases (absolute_of task name)) [
    | inl a ↦ rw (a, vfs_is_directory) c
    | inr (path, a) ↦ elim (Bool-cases (name_equal path (slash ∷ []))) [
      | inl b ↦ rw (a, vfs_is_directory, b) c
      | inr b ↦ elim (Bool-cases (is_mount_point path v.mounts)) [
        | inl d ↦ rw (a, vfs_is_directory, b, d) c
        | inr d ↦ rw (a, vfs_is_directory, b, d) (world-IsCounted v _ c)
      ]
    ]
  ]

  pub vfs_mount-IsCounted :
      (task : Task) (kind target : List ℕ) (v : Vfs W)
      → IsCounted v
      → IsCounted (vfs_mount fs task kind target v).1
  unfolding vfs_mount
  vfs_mount-IsCounted task kind target v c =
      elim (Bool-cases (not (name_equal kind fat32_name) || not (fs.fat32_mounted v.world))) [
        | inl e ↦ rw (e, vfs_mount) c
        | inr e ↦ elim (Option-cases (absolute_of task target)) [
          | inl a ↦ rw (e, vfs_mount, a) c
          | inr (path, a) ↦ elim (Bool-cases (name_equal path (slash ∷ []))) [
            | inl b ↦ rw (e, vfs_mount, a, b) c
            | inr b ↦
                let k = vfs_is_directory-IsCounted task path v c in
                elim (Bool-cases (vfs_is_directory fs task path v).0) [
                  | inl d ↦ rw (e, vfs_mount, a, b, d) (mount_on-IsCounted path _ k)
                  | inr d ↦ rw (e, vfs_mount, a, b, d) k
                ]
          ]
        ]
      ]

  unmount_at-IsCounted :
      (i : ℕ) (path : List ℕ) (cwds : List (List ℕ)) (v : Vfs W)
      → IsCounted v
      → IsCounted (unmount_at fs i path cwds v).1
  unfolding unmount_at
  unmount_at-IsCounted i path cwds v c =
      elim (Bool-cases (
        not (get_or v.mounts i no_mount).removable
        || cwd_in_mount path cwds
        || other_below path i v.mounts
        || any_open path v.descriptors)) [
          | inl e ↦ rw (e, unmount_at) c
          | inr e ↦
              elim (Bool-cases ((ops_of fs (get_or v.mounts i no_mount).ops).sync v.world).0) [
                | inl b ↦ rw (e, unmount_at, b) (mounts-IsCounted v _ _ c)
                | inr b ↦ rw (e, unmount_at, b) (world-IsCounted v _ c)
              ]
        ]

  pub vfs_unmount-IsCounted :
      (task : Task) (target : List ℕ) (cwds : List (List ℕ)) (v : Vfs W)
      → IsCounted v
      → IsCounted (vfs_unmount fs task target cwds v).1
  unfolding vfs_unmount
  vfs_unmount-IsCounted task target cwds v c = elim (Option-cases (absolute_of task target)) [
    | inl a ↦ rw (a, vfs_unmount) c
    | inr (path, a) ↦ elim (Bool-cases (name_equal path (slash ∷ []))) [
      | inl b ↦ rw (a, vfs_unmount, b) c
      | inr b ↦ elim (Option-cases (mount_at path v.mounts)) [
        | inl d ↦ rw (a, vfs_unmount, b, d) c
        | inr (i, d) ↦ rw (a, vfs_unmount, b, d) (unmount_at-IsCounted i path cwds v c)
      ]
    ]
  ]
