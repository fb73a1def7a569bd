-- ===== src/Vfs/Transfers.antt =====
-- vfs_read, vfs_write and vfs_seek of src/fs/vfs.c.
use cone_os.Prelude.{
  ℕ, suc, ◌+◌, ◌-◌, ◌^◌, min, ◌||◌, Option, none, some, List, [], length, get_or, take, drop, ltb,
  leb, ◌==◌, if◌then◌else◌,
}
use cone_os.Devfs.{Device, is_device, no_input, bytes, waiting}
use cone_os.Memory.{ℤ, pos, negsuc}
use cone_os.Ramfs.{data_size}
use cone_os.Vfs.{Vfs, Fd, PipeEnd, no_pipe, read_end, write_end, no_fd, no_file, set_file}
use cone_os.Vfs.Tables.{lookup}
use cone_os.Vfs.Descriptors.{is_pipe, ensure_standard_streams}
use cone_os.Vfs.FileSystems.{FsOps, FileSystems}
use cone_os.Vfs.Names.{ask, ask_path}
use cone_os.Vfs.Pipes.{
  Read, failed, finished, blocked, Written, broken, written, read_round, write_round,
}

-- base + offset, or none where it is negative or more than the size.
unfoldable pub seek_target : ℕ → ℤ → ℕ → Option ℕ
seek_target base (pos n) size = if ltb size (base + n) then none else some (base + n)
seek_target base (negsuc n) size =
    if leb base n || ltb size (base - suc n) then none else some (base - suc n)

-- The base of a seek, which a whence other than 0, 1 and 2 does not have; a size_t from 2^63 on is
-- negative as an int64_t.
abbrev pub seek_base : ℕ → ℕ → ℕ → Option ℕ
seek_base whence offset size =
    let base = (if whence == 1 then offset else if whence == 2 then size else 0) in
    if ltb 2 whence || leb (2 ^ 63) base then none else some base

module _ {W : Type 0} where
  -- pipe_read up to the end of its first round.
  unfoldable pub pipe_read : PipeEnd → ℕ → Vfs W → Read × Vfs W
  pipe_read no_pipe count v = (failed, v)
  pipe_read (write_end i) count v = (failed, v)
  pipe_read (read_end i) count v = if count == 0 then (finished [], v) else read_round i count v

  -- pipe_write up to the end of its first round.
  unfoldable pub pipe_write : PipeEnd → List ℕ → Vfs W → Written × Vfs W
  pipe_write no_pipe cs v = (broken, v)
  pipe_write (read_end i) cs v = (broken, v)
  pipe_write (write_end i) cs v = write_round i cs 0 v

module _ {W : Type 0} where
  -- The bytes from the offset of the open file on.
  unfoldable pub take_from : ℕ → List ℕ → ℕ → Vfs W → Read × Vfs W
  take_from i all count v =
      let f = get_or v.open_files i no_file in
      let n = min (length all - f.offset) count in
      if leb (length all) f.offset then (finished [], v) else (
        finished (take n (drop f.offset all)),
        set_file i (record f { offset = f.offset + n }) v,
      )

module _ {W : Type 0} (fs : FileSystems W) where
  -- The end of vfs_read, on an open file.
  unfoldable pub read_file : Fd → ℕ → Vfs W → Read × Vfs W
  read_file fd count v = elim fd.file [
    | none ↦ (failed, v)
    | some i ↦
        let (content, after) =
          ask_path fs (λ (ops : FsOps W) (path : List ℕ). ops.read path data_size) fd.name v in
        elim content [ none ↦ (failed, after) | some all ↦ take_from i all count after ]
  ]

  unfoldable pub read_device : Device → ℕ → Vfs W → Read × Vfs W
  read_device device count v =
      let (result, after) = ask fs (fs.device_read device count) v in
      elim result [
        | no_input ↦ (failed, after)
        | bytes cs ↦ (finished cs, after)
        | waiting ↦ (blocked, after)
      ]

  unfoldable pub read_fd : ℕ → Fd → ℕ → Vfs W → Read × Vfs W
  read_fd number fd count v =
      if is_pipe fd.pipe
      then pipe_read fd.pipe count v
      else if number == 1 || number == 2
      then (failed, v)
      else if is_device fd.device
      then read_device fd.device count v
      else if ltb number 3
      then (failed, v)
      else read_file fd count v

  -- vfs_read; `buffer` is not null.
  unfoldable pub vfs_read : ℕ → ℕ → ℕ → Vfs W → Read × Vfs W
  vfs_read owner number count v =
      let u = ensure_standard_streams owner v in
      elim (lookup owner number u.descriptors) [
        | none ↦ (failed, u)
        | some i ↦ read_fd number (get_or u.descriptors i no_fd) count u
      ]

  -- The end of vfs_write, on an open file: the bytes become the whole file.
  unfoldable pub write_file : Fd → List ℕ → Vfs W → Written × Vfs W
  write_file fd cs v = elim fd.file [
    | none ↦ (broken, v)
    | some i ↦
        let (ok, after) =
          ask_path fs (λ (ops : FsOps W) (path : List ℕ). ops.write path cs) fd.name v in
        if ok
        then (
          written (length cs),
          set_file i (record (get_or after.open_files i no_file) { offset = length cs }) after,
        )
        else (broken, after)
  ]

  unfoldable pub write_device : Device → List ℕ → Vfs W → Written × Vfs W
  write_device device cs v =
      let (result, after) = ask fs (fs.device_write device cs) v in
      elim result [ none ↦ (broken, after) | some n ↦ (written n, after) ]

  unfoldable pub write_fd : ℕ → Fd → List ℕ → Vfs W → Written × Vfs W
  write_fd number fd cs v =
      if is_pipe fd.pipe
      then pipe_write fd.pipe cs v
      else if number == 0
      then (broken, v)
      else if is_device fd.device
      then write_device fd.device cs v
      else write_file fd cs v

  -- vfs_write; `buffer` is not null.
  unfoldable pub vfs_write : ℕ → ℕ → List ℕ → Vfs W → Written × Vfs W
  vfs_write owner number cs v =
      let u = ensure_standard_streams owner v in
      elim (lookup owner number u.descriptors) [
        | none ↦ (broken, u)
        | some i ↦
            if ltb data_size (length cs)
            then (broken, u)
            else write_fd number (get_or u.descriptors i no_fd) cs u
      ]

  -- vfs_seek; a result of none is -1.
  unfoldable pub seek_file : ℕ → Fd → ℤ → ℕ → Vfs W → Option ℕ × Vfs W
  seek_file i fd offset whence v =
      let (size, after) = ask_path fs (λ (ops : FsOps W). ops.stat) fd.name v in
      elim size [
        | none ↦ (none, after)
        | some n ↦
            let f = get_or after.open_files i no_file in
            elim (seek_base whence f.offset n) [
              | none ↦ (none, after)
              | some base ↦ elim (seek_target base offset n) [
                | none ↦ (none, after)
                | some target ↦ (some target, set_file i (record f { offset = target }) after)
              ]
            ]
      ]

  unfoldable pub vfs_seek : ℕ → ℕ → ℤ → ℕ → Vfs W → Option ℕ × Vfs W
  vfs_seek owner number offset whence v = elim (lookup owner number v.descriptors) [
    | none ↦ (none, v)
    | some s ↦
        let fd = get_or v.descriptors s no_fd in
        if ltb number 3 || is_device fd.device || is_pipe fd.pipe
        then (none, v)
        else elim fd.file [ none ↦ (none, v) | some i ↦ seek_file i fd offset whence v ]
  ]
