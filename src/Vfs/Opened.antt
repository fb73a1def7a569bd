-- ===== src/Vfs/Opened.antt =====
-- vfs_write, vfs_read and vfs_seek of src/fs/vfs.c on a descriptor that names an open file.
use cone_os.Prelude.{
  ℕ, zero, suc, ◌+◌, ◌<◌, ◌≤◌, ◌≡◌, inl, inr, refl, sym, ◌∙◌, ap, false, Option, none, some, List,
  [], ◌∷◌, length, get_or, drop, arith, ltb, ◌==◌, if◌then◌else◌, Bool-cases,
}
use cone_os.Devfs.{is_device}
use cone_os.Memory.{pos}
use cone_os.Ramfs.{data_size}
use cone_os.Vfs.{Vfs, Fd, Mount, FileSystem, ramfs_ops, no_pipe, no_fd, no_file, set_file}
use cone_os.Vfs.Tables.{lookup}
use cone_os.Vfs.Descriptors.{ensure_standard_streams, ensure_from}
use cone_os.Vfs.Mounts.{find_mount, best_mount, path_ops, behind_slash}
use cone_os.Vfs.FileSystems.{FsOps, FileSystems}
use cone_os.Vfs.Names.{ask_path}
use cone_os.Vfs.Pipes.{Read, failed, Written, written, broken}
use cone_os.Vfs.Transfers.{
  read_file, write_file, read_fd, write_fd, vfs_read, vfs_write, vfs_seek, seek_file, seek_base,
  seek_target,
}

length-behind_slash : (path : List ℕ) → length (behind_slash path) ≤ length path
length-behind_slash [] = omega arith
length-behind_slash (c ∷ cs) = ground arith

length-drop : (n : ℕ) (path : List ℕ) → length (drop n path) ≤ length path
length-drop zero path = omega arith
length-drop (suc n) [] = omega arith
length-drop (suc n) (c ∷ cs) = omega (arith, length-drop n cs)

pub length-path_ops : (path : List ℕ) (ms : List Mount) → length (path_ops path ms).1 ≤ length path
unfolding path_ops find_mount
length-path_ops path ms = go (best_mount path ms none 0)
  where
    go :
        (s : Option Mount × ℕ)
        → length
            (elim (elim s.0 as (λ x. Option (Mount × List ℕ)) [
              | none ↦ none
              | some m ↦ some (m, behind_slash (drop s.1 path))
            ])
              as (λ x. FileSystem × List ℕ) [
                | none ↦ (ramfs_ops, path)
                | some (m, relative) ↦ (m.ops, relative)
              ]).1
          ≤ length path
    go (none, k) = omega arith
    go (some m, k) = omega (arith, length-behind_slash (drop k path), length-drop k path)

-- The owner has the three standard streams.
abbrev pub HasStreams : ℕ → List Fd → Type 0
HasStreams owner fds =
    ((i : ℕ) × (lookup owner 0 fds ≡ some i))
    × (((i : ℕ) × (lookup owner 1 fds ≡ some i)) × ((i : ℕ) × (lookup owner 2 fds ≡ some i)))

-- The descriptor `number` of the owner stands in the slot and names the open file `i`.
pub record IsOpen {W : Type 0} (owner number slot i : ℕ) (v : Vfs W) : Type 0 where
  pub streams : HasStreams owner v.descriptors
  pub above : 3 ≤ number
  pub slot_of : lookup owner number v.descriptors ≡ some slot
  pub no_end : (get_or v.descriptors slot no_fd).pipe ≡ no_pipe
  pub no_device : is_device (get_or v.descriptors slot no_fd).device ≡ false
  pub file_of : (get_or v.descriptors slot no_fd).file ≡ some i
  pub in_table : i < length v.open_files

module _ {W : Type 0} (fs : FileSystems W) (owner number slot i : ℕ) where
  ensured : (v : Vfs W) → HasStreams owner v.descriptors → ensure_standard_streams owner v ≡ v
  unfolding ensure_standard_streams ensure_from
  ensured v ((a, e), ((b, e'), (c, e''))) =
      rw (e, e', e'', ensure_standard_streams, ensure_from) refl

  small : (k : ℕ) → 3 ≤ number → k < 3 → (number == k) ≡ false
  small k h l = ground arith

  -- vfs_write, vfs_read and the end of vfs_seek behind their first calls.
  abbrev write_in : List ℕ → Vfs W → Written × Vfs W
  write_in cs u = elim (lookup owner number u.descriptors) as (λ x. Written × Vfs W) [
    | none ↦ (broken, u)
    | some s ↦
        if ltb data_size (length cs)
        then (broken, u)
        else write_fd fs number (get_or u.descriptors s no_fd) cs u
  ]

  abbrev read_in : ℕ → Vfs W → Read × Vfs W
  read_in count u = elim (lookup owner number u.descriptors) as (λ x. Read × Vfs W) [
    | none ↦ (failed, u)
    | some s ↦ read_fd fs number (get_or u.descriptors s no_fd) count u
  ]

  abbrev seek_in : ℕ → Option ℕ × Vfs W → Option ℕ × Vfs W
  seek_in k r = elim r.0 as (λ x. Option ℕ × Vfs W) [
    | none ↦ (none, r.1)
    | some n ↦
        let f = get_or r.1.open_files i no_file in
        elim (seek_base 0 f.offset n) as (λ x. Option ℕ × Vfs W) [
          | none ↦ (none, r.1)
          | some base ↦ elim (seek_target base (pos k) n) as (λ x. Option ℕ × Vfs W) [
            | none ↦ (none, r.1)
            | some target ↦ (some target, set_file i (record f { offset = target }) r.1)
          ]
        ]
  ]

  vfs_write_in :
      (bytes : List ℕ) (v : Vfs W)
      → HasStreams owner v.descriptors
      → vfs_write fs owner number bytes v ≡ write_in bytes v
  unfolding vfs_write
  vfs_write_in bytes v h = ap (write_in bytes) (ensured v h)

  vfs_read_in :
      (count : ℕ) (v : Vfs W)
      → HasStreams owner v.descriptors
      → vfs_read fs owner number count v ≡ read_in count v
  unfolding vfs_read
  vfs_read_in count v h = ap (read_in count) (ensured v h)

  pub write_step :
      (bytes : List ℕ) (v : Vfs W)
      → IsOpen owner number slot i v
      → length bytes ≤ data_size
      → vfs_write fs owner number bytes v ≡ write_file fs (get_or v.descriptors slot no_fd) bytes v
  unfolding write_fd
  write_step bytes v o fits =
      let fit : ltb data_size (length bytes) ≡ false = ground (arith, fits) in
      vfs_write_in bytes v o.streams
      ∙ (rw
          (o.slot_of, fit, o.no_end, small 0 o.above (omega arith), o.no_device, write_in, write_fd)
          refl)

  pub write-fits :
      (bytes : List ℕ) (n : ℕ) (v : Vfs W)
      → IsOpen owner number slot i v
      → (vfs_write fs owner number bytes v).0 ≡ written n
      → length bytes ≤ data_size
  write-fits bytes n v o w = elim (Bool-cases (ltb data_size (length bytes))) [
    | inr e ↦ ground (arith, e)
    | inl e ↦
        let refused : write_in bytes v ≡ (broken, v) = rw (o.slot_of, e, write_in) refl in
        let first : broken ≡ written n =
          sym (ap (λ (r : Written × Vfs W). r.0) (vfs_write_in bytes v o.streams ∙ refused)) ∙ w in
        absurd (cc)
  ]

  pub read_step :
      (count : ℕ) (v : Vfs W)
      → IsOpen owner number slot i v
      → vfs_read fs owner number count v ≡ read_file fs (get_or v.descriptors slot no_fd) count v
  unfolding read_fd
  read_step count v o =
      let above : ltb number 3 ≡ false = ground (arith, o.above) in
      vfs_read_in count v o.streams
      ∙ (rw
          (
            o.slot_of,
            o.no_end,
            small 1 o.above (omega arith),
            small 2 o.above (omega arith),
            o.no_device,
            above,
            read_in,
            read_fd,
          )
          refl)

  pub seek_step :
      (k n : ℕ) (v : Vfs W)
      → IsOpen owner number slot i v
      → k ≤ n
      → ask_path fs (λ (ops : FsOps W). ops.stat) (get_or v.descriptors slot no_fd).name v
        ≡ (some n, v)
      → vfs_seek fs owner number (pos k) 0 v
        ≡ (some k, set_file i (record (get_or v.open_files i no_file) { offset = k }) v)
  unfolding vfs_seek seek_file seek_target
  seek_step k n v o inside sized =
      let above : ltb number 3 ≡ false = ground (arith, o.above) in
      let within : ltb n (0 + k) ≡ false = ground (arith, inside) in
      let here : 0 + k ≡ k = omega arith in
      let step : vfs_seek fs owner number (pos k) 0 v
          ≡ seek_file fs i (get_or v.descriptors slot no_fd) (pos k) 0 v =
        rw (o.slot_of, above, o.no_device, o.no_end, o.file_of, vfs_seek) refl in
      step ∙ ap (seek_in k) sized ∙ (rw (within, here, seek_in, seek_target) refl)
