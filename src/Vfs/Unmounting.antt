-- ===== src/Vfs/Unmounting.antt =====
-- When vfs_unmount of src/fs/vfs.c removes a mount.
use cone_os.Prelude.{
  ℕ, ◌≤◌, ◌≡◌, ◌⊎◌, inl, inr, refl, sym, ◌∙◌, ap, subst, Bool, true, false, not, ◌||◌, some, List,
  [], ◌∷◌, get_or, set, arith, All, Bool-cases, Option-cases,
}
use cone_os.Paths.{slash, path_has_prefix}
use cone_os.Ramfs.Names.{name_equal}
use cone_os.Vfs.{Vfs, Fd, Mount, no_mount}
use cone_os.Vfs.Mounts.{mount_at, any_below, other_below}
use cone_os.Vfs.FileSystems.{FileSystems, ops_of}
use cone_os.Vfs.Names.{Task, absolute_of, cwd_in_mount, any_open, unmount_at, vfs_unmount}

-- The path is neither `place` nor above it.
abbrev pub Apart : List ℕ → List ℕ → Type 0
Apart path place = path_has_prefix place path ≡ false

abbrev pub NotOpen : List ℕ → Fd → Type 0
NotOpen path fd = fd.used ≡ true → 3 ≤ fd.number → Apart path fd.name

abbrev pub NotMounted : List ℕ → Mount → Type 0
NotMounted path m = m.used ≡ true → Apart path m.path

cwd_in_mount-All :
    (path : List ℕ) (cwds : List (List ℕ)) → cwd_in_mount path cwds ≡ false → All (Apart path) cwds
unfolding cwd_in_mount
cwd_in_mount-All path [] h = tt
cwd_in_mount-All path (c ∷ cs) h = ((ground arith), cwd_in_mount-All path cs (ground arith))

any_open-All : (path : List ℕ) (fds : List Fd) → any_open path fds ≡ false → All (NotOpen path) fds
unfolding any_open
any_open-All path [] h = tt
any_open-All path (fd ∷ fds) h = ((λ u l. ground arith), any_open-All path fds (ground arith))

any_below-All :
    (path : List ℕ) (ms : List Mount) → any_below path ms ≡ false → All (NotMounted path) ms
unfolding any_below
any_below-All path [] h = tt
any_below-All path (m ∷ ms) h = ((λ u. ground arith), any_below-All path ms (ground arith))

-- What has been so before the mount of the index `i` is removed, and what is left.
pub record Unmounted {W : Type 0} (path : List ℕ) (i : ℕ) (cwds : List (List ℕ)) (v after : Vfs W)
    : Type 0 where
  pub at : mount_at path v.mounts ≡ some i
  pub removable : (get_or v.mounts i no_mount).removable ≡ true
  pub no_cwd : All (Apart path) cwds
  pub no_file : All (NotOpen path) v.descriptors
  pub no_mount_below : All (NotMounted path) (set v.mounts i no_mount)
  pub mounts : after.mounts ≡ set v.mounts i no_mount
  pub descriptors : after.descriptors ≡ v.descriptors

abbrev pub Kept : {W : Type 0} → Vfs W → Bool × Vfs W → Type 0
Kept v r = (r.0 ≡ false) × (r.1.mounts ≡ v.mounts) × (r.1.descriptors ≡ v.descriptors)

module _ {W : Type 0} (fs : FileSystems W) where
  abbrev At : List ℕ → ℕ → List (List ℕ) → Vfs W → Bool × Vfs W → Type 0
  At path i cwds v r = ((r.0 ≡ true) × Unmounted path i cwds v r.1) ⊎ Kept v r

  unmount_at_lem :
      (path : List ℕ) (i : ℕ) (cwds : List (List ℕ)) (v : Vfs W)
      → mount_at path v.mounts ≡ some i
      → At path i cwds v (unmount_at fs i path cwds v)
  unfolding unmount_at other_below
  unmount_at_lem path i cwds v at =
      let m : Mount = get_or v.mounts i no_mount in
      elim (Bool-cases (
        not m.removable
        || cwd_in_mount path cwds
        || other_below path i v.mounts
        || any_open path v.descriptors)) [
          | inl e ↦ subst (At path i cwds v) (sym (stays e)) (inr (refl, refl, refl))
          | inr e ↦ elim (Bool-cases ((ops_of fs m.ops).sync v.world).0) [
            | inr b ↦ subst (At path i cwds v) (sym (unsynced e b)) (inr (refl, refl, refl))
            | inl b ↦ subst (At path i cwds v) (sym (gone e b)) (
                inl (
                  refl,
                  record {
                    at = at;
                    removable = ground arith;
                    no_cwd = cwd_in_mount-All path cwds (ground arith);
                    no_file = any_open-All path v.descriptors (ground arith);
                    no_mount_below = any_below-All path (set v.mounts i no_mount) (ground arith);
                    mounts = refl;
                    descriptors = refl;
                  },
                ))
          ]
        ]
    where
      stays :
          (not (get_or v.mounts i no_mount).removable
              || cwd_in_mount path cwds
              || other_below path i v.mounts
              || any_open path v.descriptors)
            ≡ true
          → unmount_at fs i path cwds v ≡ (false, v)
      stays e = rw (e, unmount_at) refl

      unsynced :
          (not (get_or v.mounts i no_mount).removable
              || cwd_in_mount path cwds
              || other_below path i v.mounts
              || any_open path v.descriptors)
            ≡ false
          → ((ops_of fs (get_or v.mounts i no_mount).ops).sync v.world).0 ≡ false
          → unmount_at fs i path cwds v ≡ (
            false,
            record v { world = ((ops_of fs (get_or v.mounts i no_mount).ops).sync v.world).1 },
          )
      unsynced e b = rw (e, unmount_at, b) refl

      gone :
          (not (get_or v.mounts i no_mount).removable
              || cwd_in_mount path cwds
              || other_below path i v.mounts
              || any_open path v.descriptors)
            ≡ false
          → ((ops_of fs (get_or v.mounts i no_mount).ops).sync v.world).0 ≡ true
          → unmount_at fs i path cwds v ≡ (
            true,
            record v {
              world = ((ops_of fs (get_or v.mounts i no_mount).ops).sync v.world).1;
              mounts = set v.mounts i no_mount;
            },
          )
      gone e b = rw (e, unmount_at, b) refl

  -- vfs_unmount leaves the mounts and the descriptors as they are and returns 0, or it returns 1 and
  -- clears exactly the mount at the path. Then the mount was removable, no running process has its
  -- current directory there, no other mount lies at or below the path, and no descriptor from 3 on names
  -- a file there.
  pub vfs_unmount_lem :
      (task : Task) (target : List ℕ) (cwds : List (List ℕ)) (v : Vfs W)
      → (((vfs_unmount fs task target cwds v).0 ≡ true)
          × ((path : List ℕ) × (i : ℕ) × (absolute_of task target ≡ some path)
              × Unmounted path i cwds v (vfs_unmount fs task target cwds v).1))
        ⊎ Kept v (vfs_unmount fs task target cwds v)
  unfolding vfs_unmount
  vfs_unmount_lem task target cwds v = elim (Option-cases (absolute_of task target)) [
    | inl a ↦ rw (a, vfs_unmount) (inr (refl, refl, refl))
    | inr (path, a) ↦ elim (Bool-cases (name_equal path (slash ∷ []))) [
      | inl b ↦ rw (a, vfs_unmount, b) (inr (refl, refl, refl))
      | inr b ↦ elim (Option-cases (mount_at path v.mounts)) [
        | inl d ↦ rw (a, vfs_unmount, b, d) (inr (refl, refl, refl))
        | inr (i, d) ↦
            let all : vfs_unmount fs task target cwds v ≡ unmount_at fs i path cwds v =
              rw (a, vfs_unmount, b, d) refl in
            elim (unmount_at_lem path i cwds v d) [
              | inl (ok, un) ↦ inl (
                ap (λ (r : Bool × Vfs W). r.0) all ∙ ok,
                (
                  path,
                  i,
                  a,
                  subst (λ (r : Bool × Vfs W). Unmounted path i cwds v r.1) (sym all) un,
                ),
              )
              | inr k ↦ inr (subst (Kept v) (sym all) k)
            ]
      ]
    ]
  ]
