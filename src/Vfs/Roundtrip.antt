-- ===== src/Vfs/Roundtrip.antt =====
-- What vfs_write of src/fs/vfs.c writes to a file of the RAM file system, vfs_read reads back from the
-- place to which vfs_seek goes.
use cone_os.Prelude.{
  ℕ, ◌+◌, ◌-◌, ◌<◌, ◌≤◌, ◌≡◌, inl, inr, refl, sym, ◌∙◌, ap, subst, min, Bool, true, Option, some,
  List, length, get_or, length-set, set, take, drop, All, arith,
}
use cone_os.Memory.{pos}
use cone_os.Ramfs.{Buffers, data_size}
use cone_os.Ramfs.Roundtrip.{GivesRoom, HasRoom, write_lem}
use cone_os.Vfs.{
  Vfs, Fd, OpenFile, FileSystem, ramfs_ops, fat32_ops, devfs_ops, no_fd, no_file, set_file,
}
use cone_os.Vfs.Mounts.{path_ops}
use cone_os.Vfs.FileSystems.{FsOps, FileSystems, World, all_systems, ops_of}
use cone_os.Vfs.Names.{ask_path}
use cone_os.Vfs.Pipes.{Read, finished, Written, written}
use cone_os.Vfs.Transfers.{write_file, vfs_read, vfs_write, vfs_seek}
use cone_os.Vfs.Rereading.{ReadsBack, put, content, size, wrote, read_back, get_or-set_same}
use cone_os.Vfs.Opened.{length-path_ops, IsOpen, write_step, write-fits, read_step, seek_step}

module _ {B D : Type 0} (buffers : Buffers B) (disk : FsOps (World B D)) (mounted : D → Bool) where
  -- The files of the system with the RAM file system, a driver of the disk and the devices.
  abbrev pub systems_on : FileSystems (World B D)
  systems_on = all_systems buffers disk mounted

  routed :
      (kind : FileSystem) (relative bytes : List ℕ) (w : World B D)
      → kind ≡ ramfs_ops
      → GivesRoom buffers
      → All HasRoom w.ramfs_state.files
      → length relative ≤ 255
      → ((ops_of systems_on kind).write relative bytes w).0 ≡ true
      → let ops = ops_of systems_on kind in
        let after = (ops.write relative bytes w).1 in
        ((n : ℕ) → ops.read relative n after ≡ (some (take (min (length bytes) n) bytes), after))
        × (ops.stat relative after ≡ (some (length bytes), after))
  routed fat32_ops relative bytes w e gives rooms short ok = absurd (cc e)
  routed devfs_ops relative bytes w e gives rooms short ok = absurd (cc e)
  routed ramfs_ops relative bytes w e gives rooms short ok =
      elim (write_lem buffers relative bytes w.ramfs_state gives rooms short).1 [
        | inr (refused, why) ↦ absurd (cc (refused, ok))
        | inl (done, (holds, long)) ↦
            let after = ((ops_of systems_on ramfs_ops).write relative bytes w).1 in
            (
              λ n. ap (λ (r : Option (List ℕ)). (r, after)) (holds n),
              ap (λ (r : Option ℕ). (r, after)) long,
            )
      ]

  module _ (owner number slot i k n count : ℕ) (bytes : List ℕ) where
    -- What a seek owes for the read behind it.
    abbrev pub Rereads : Option ℕ × Vfs (World B D) → Type 0
    Rereads (sought, there) =
        let (result, after) = vfs_read systems_on owner number count there in
        (sought ≡ some k)
        × ((result ≡ finished (take count (drop k bytes)))
            × ((get_or after.open_files i no_file).offset ≡ k + min (length bytes - k) count))

    reread :
        (u : Vfs (World B D)) (files : List OpenFile)
        → let a : Vfs (World B D) = record u { open_files = files } in
          IsOpen owner number slot i a
          → k ≤ length bytes
          → ((fs : List OpenFile)
              → let b : Vfs (World B D) = record u { open_files = fs } in
                (ask_path systems_on
                    (λ (ops : FsOps (World B D)). ops.stat)
                    (get_or u.descriptors slot no_fd).name
                    b
                  ≡ (some (length bytes), b))
                × (ask_path systems_on
                      (λ (ops : FsOps (World B D)) (p : List ℕ). ops.read p data_size)
                      (get_or u.descriptors slot no_fd).name
                      b
                    ≡ (some bytes, b)))
          → Rereads (vfs_seek systems_on owner number (pos k) 0 a)
    unfolding set_file
    reread u files o inside known =
        let fd : Fd = get_or u.descriptors slot no_fd in
        let g : OpenFile = record (get_or files i no_file) { offset = k } in
        let moved : List OpenFile = set files i g in
        let b : Vfs (World B D) = record u { open_files = moved } in
        let bound : i < length moved = omega (arith, length-set files i g, o.in_table) in
        let o' : IsOpen owner number slot i b = record {
          streams = o.streams;
          above = o.above;
          slot_of = o.slot_of;
          no_end = o.no_end;
          no_device = o.no_device;
          file_of = o.file_of;
          in_table = bound;
        } in
        let sought : vfs_seek systems_on owner number (pos k) 0 (record u { open_files = files })
            ≡ (some k, b) =
          seek_step systems_on owner number slot i k (length bytes)
            (record u { open_files = files }) o inside (known files).0 in
        let at_k : (get_or moved i no_file).offset ≡ k =
          ap (λ (h : OpenFile). h.offset) (get_or-set_same files i g o.in_table) in
        let back =
          read_back systems_on fd i count k bytes b o.file_of at_k bound inside (known moved).1 in
        let step = read_step systems_on owner number slot i count b o' in
        subst Rereads (sym sought) (
          refl,
          (
            ap (λ (r : Read × Vfs (World B D)). r.0) step ∙ back.0,
            ap (λ (r : Read × Vfs (World B D)). (get_or r.1.open_files i no_file).offset) step
                ∙ back.1,
          ),
        )

    -- A write to a file of the RAM file system that succeeds reports all its bytes; a seek from the start
    -- to a place within them then goes there, and a read gives the bytes from there on, up to the number
    -- asked for, and stands behind them. Conditions: the descriptor, from 3 on, names an open file and a
    -- path that fits, its owner has the standard streams, and kmalloc gives RAMFS_DATA_SIZE bytes, as
    -- many as the buffers of the files have.
    pub vfs_write-vfs_read :
        (v : Vfs (World B D))
        → IsOpen owner number slot i v
        → length (get_or v.descriptors slot no_fd).name ≤ 255
        → (path_ops (get_or v.descriptors slot no_fd).name v.mounts).0 ≡ ramfs_ops
        → GivesRoom buffers
        → All HasRoom v.world.ramfs_state.files
        → k ≤ length bytes
        → (vfs_write systems_on owner number bytes v).0 ≡ written n
        → (n ≡ length bytes)
          × Rereads (
              vfs_seek systems_on owner number
                (pos k)
                0
                (vfs_write systems_on owner number bytes v).1)
    unfolding set_file
    vfs_write-vfs_read v o short route gives rooms inside w =
        let fd : Fd = get_or v.descriptors slot no_fd in
        let fits = write-fits systems_on owner number slot i bytes n v o w in
        let step = write_step systems_on owner number slot i bytes v o fits in
        let w' : (write_file systems_on fd bytes v).0 ≡ written n =
          sym (ap (λ (r : Written × Vfs (World B D)). r.0) step) ∙ w in
        let (ok, all, after) = wrote systems_on fd i n bytes v o.file_of w' in
        let u : Vfs (World B D) = (put systems_on bytes fd v).1 in
        let f : OpenFile = record (get_or u.open_files i no_file) { offset = length bytes } in
        let files : List OpenFile = set u.open_files i f in
        let back : ReadsBack systems_on fd bytes v =
          routed (path_ops fd.name v.mounts).0 (path_ops fd.name v.mounts).1 bytes v.world route
            gives rooms (omega (arith, length-path_ops fd.name v.mounts, short)) ok in
        let a : Vfs (World B D) = record u { open_files = files } in
        let there : (vfs_write systems_on owner number bytes v).1 ≡ a =
          ap (λ (r : Written × Vfs (World B D)). r.1) step ∙ after in
        let o' : IsOpen owner number slot i a = record {
          streams = o.streams;
          above = o.above;
          slot_of = o.slot_of;
          no_end = o.no_end;
          no_device = o.no_device;
          file_of = o.file_of;
          in_table = omega (arith, length-set u.open_files i f, o.in_table);
        } in
        (
          all,
          subst (λ b. Rereads (vfs_seek systems_on owner number (pos k) 0 b)) (sym there)
              (reread u files o' inside (λ fs.
                (size systems_on fd bytes v fs back, content systems_on fd bytes v fs back fits))),
        )
