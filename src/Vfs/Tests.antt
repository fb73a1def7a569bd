-- ===== src/Vfs/Tests.antt =====
-- Two tasks, eight descriptors and files, two pipes for four bytes, and a RAM file system of two files.
use cone_os.Prelude.{
  length, replicate, length-replicate, subst, ◌<◌, ◌≤◌, ◌⊎◌, arith, ℕ, true, false, none, some,
  List, [], ◌∷◌, ◌≡◌, refl,
}
use cone_os.Devfs.{unknown}
use cone_os.Ramfs.{Buffers, data_size}
use cone_os.Ramfs.Roundtrip.{GivesRoom}
use cone_os.Memory.{pos}
use cone_os.Vfs.Tables.{lookup}
use cone_os.Ramfs
use cone_os.Ramfs.Listing.{past_end}
use cone_os.Paths.{slash}
use cone_os.Vfs.{
  Vfs, Pipe, Fd, Mount, FileSystem, ramfs_ops, fat32_ops, devfs_ops, no_mount, no_file, set_file,
}
use cone_os.Vfs.Mounts.{find_mount}
use cone_os.Vfs.Pipes.{got, written}
use cone_os.Vfs.Descriptors.{ensure_standard_streams, ensure_from, stream, close_all, file_fd}
use cone_os.Vfs.Inheritance.{owned, unused, fork}
use cone_os.Vfs.Transfers.{write_file, write_fd, vfs_write, vfs_seek}
use cone_os.Vfs.Ring.{IsRing}
use cone_os.Vfs.Queue.{queue_of}
use cone_os.Vfs.Refinement.{
  Round, reading, writing, recounted, read_result, write_result, no_result, pipe_rounds,
  queue_rounds, pipe_rounds_lem,
}
use cone_os.Vfs.Routing.{Found, find_mount_lem}
use cone_os.Vfs.Forking.{Mirrors, fork_lem}
use cone_os.Vfs.Unmounting.{Unmounted, Kept, vfs_unmount_lem}
use cone_os.Vfs.Opened.{IsOpen}
use cone_os.Vfs.Roundtrip.{systems_on, Rereads, vfs_write-vfs_read}
use cone_os.Vfs.FileSystems.{FsOps, FileSystems, World, all_systems}
use cone_os.Vfs.Names.{Task, absolute_of, vfs_init, vfs_unmount}
use cone_os.Vfs.Calls.{Call, calls}
use cone_os.Vfs.Counts.Tally.{IsCounted}
use cone_os.Vfs.Counts.Start.{zeroed, calls-IsCounted_from_start}

abbrev eight : Buffers ℕ
eight = record { kmalloc = λ w. (some (0 ∷ 0 ∷ 0 ∷ 0 ∷ 0 ∷ 0 ∷ 0 ∷ 0 ∷ []), w); kfree = λ b w. w }

abbrev no_disk : FsOps (World ℕ ℕ)
no_disk = record {
  read = λ path n w. (none, w);
  write = λ path bytes w. (false, w);
  stat = λ path w. (none, w);
  create = λ path w. (false, w);
  readdir = λ path index w. (past_end, w);
  mkdir = λ path w. (false, w);
  unlink = λ path w. (false, w);
  rmdir = λ path w. (false, w);
  is_directory = λ path w. (false, w);
  sync = λ w. (true, w);
  device = λ path. unknown;
}

abbrev systems : FileSystems (World ℕ ℕ)
systems = all_systems eight no_disk (λ d. false)

abbrev world : World ℕ ℕ
world = record {
  ramfs_state = record { files = Ramfs.no_file ∷ Ramfs.no_file ∷ []; directories = []; world = 0 };
  terminal = record { keyboard = b'k' ∷ []; printed = [] };
  disk = 0;
}

abbrev shell : Task
shell = record { id = 1; cwd = b'/' ∷ [] }

abbrev child : Task
child = record { id = 2; cwd = b'/' ∷ [] }

-- The shell opens a file, makes a pipe and forks; the child takes the reading end as its input, and both
-- close their ends.
abbrev session : List (Task × Call (World ℕ ℕ))
session =
    (shell, Call.opened (b'f' ∷ []) true)
    ∷ (shell, Call.piped)
    ∷ (shell, Call.forked 2)
    ∷ (child, Call.duplicated_to 4 0)
    ∷ (child, Call.closed 4)
    ∷ (child, Call.closed 5)
    ∷ (shell, Call.wrote 5 (1 ∷ 2 ∷ []))
    ∷ (child, Call.read 0 2)
    ∷ (shell, Call.closed 5)
    ∷ (child, Call.ended 2)
    ∷ []

calls-IsCounted_from_start_example :
    IsCounted (calls systems session (vfs_init (zeroed 32 2 4 2 world)))
calls-IsCounted_from_start_example = calls-IsCounted_from_start systems 32 2 4 2 world session

abbrev ring : Pipe
ring = record {
  used = true;
  readers = 1;
  writers = 1;
  head = 3;
  tail = 1;
  count = 2;
  buffer = 8 ∷ 0 ∷ 0 ∷ 7 ∷ [];
}

ring-IsRing : IsRing ring
ring-IsRing = record { head_in = omega arith; count_in = omega arith; tail_at = refl }

-- A writer fills the ring past its end, a reader takes three bytes, and the writer is refused at last.
abbrev rounds : List Round
rounds =
    reading 1 ∷ writing (1 ∷ 2 ∷ 3 ∷ 4 ∷ []) ∷ reading 3 ∷ recounted 0 1 ∷ writing (5 ∷ []) ∷ []

pipe_rounds_lem_example :
    ((pipe_rounds rounds ring).0 ≡ (queue_rounds rounds (queue_of ring)).0)
    × (queue_of (pipe_rounds rounds ring).1 ≡ (queue_rounds rounds (queue_of ring)).1)
    × IsRing (pipe_rounds rounds ring).1
pipe_rounds_lem_example = pipe_rounds_lem rounds ring ring-IsRing

-- What the rounds give.
rounds-results :
    (queue_rounds rounds (queue_of ring)).0
    ≡ read_result (got (7 ∷ []))
      ∷ write_result (some 3)
      ∷ read_result (got (8 ∷ 1 ∷ 2 ∷ []))
      ∷ no_result
      ∷ write_result none
      ∷ []
unfolding queue_rounds cone_os.Vfs.Refinement.queue_round cone_os.Vfs.Queue.dequeue
    cone_os.Vfs.Queue.enqueue cone_os.Vfs.Queue.front cone_os.Vfs.Ring.held
    cone_os.Vfs.Ring.bytes_from
rounds-results = refl

abbrev disk : Mount
disk = record {
  used = true;
  removable = true;
  path = slash ∷ b'd' ∷ [];
  kind = [];
  ops = fat32_ops;
}

abbrev inner : Mount
inner = record {
  used = true;
  removable = true;
  path = slash ∷ b'd' ∷ slash ∷ b'e' ∷ [];
  kind = [];
  ops = devfs_ops;
}

abbrev deep : List ℕ
deep = slash ∷ b'd' ∷ slash ∷ b'e' ∷ slash ∷ b'f' ∷ []

find_mount_lem_example :
    Found deep (disk ∷ inner ∷ no_mount ∷ []) (find_mount deep (disk ∷ inner ∷ no_mount ∷ []))
find_mount_lem_example = find_mount_lem deep (disk ∷ inner ∷ no_mount ∷ [])

-- The inner mount is found.
found-inner : find_mount deep (disk ∷ inner ∷ no_mount ∷ []) ≡ some (inner, b'f' ∷ [])
unfolding find_mount cone_os.Vfs.Mounts.best_mount cone_os.Paths.path_has_prefix
found-inner = refl

abbrev running : Vfs (World ℕ ℕ)
running = calls systems session (vfs_init (zeroed 32 2 4 2 world))

fork_lem_example :
    let ready = close_all 3 (ensure_standard_streams 1 running) in
    let (ok, after) = fork 1 3 running in
    ((ok ≡ true)
      × (owned 1 ready.descriptors ≤ unused ready.descriptors)
      × Mirrors 1 3 (length ready.descriptors) ready.descriptors after.descriptors)
    ⊎ ((ok ≡ false) × (unused ready.descriptors < owned 1 ready.descriptors) × (after ≡ ready))
fork_lem_example = fork_lem 1 3 running (λ e. absurd (omega (arith, e)))

abbrev target : List ℕ
target = slash ∷ b'd' ∷ []

abbrev mounted : Vfs (World ℕ ℕ)
mounted = record (zeroed 2 1 4 2 world) { mounts = disk ∷ no_mount ∷ [] }

vfs_unmount_lem_example :
    (((vfs_unmount systems shell target [] mounted).0 ≡ true)
      × ((path : List ℕ) × (i : ℕ) × (absolute_of shell target ≡ some path)
          × Unmounted path i [] mounted (vfs_unmount systems shell target [] mounted).1))
    ⊎ Kept mounted (vfs_unmount systems shell target [] mounted)
vfs_unmount_lem_example = vfs_unmount_lem systems shell target [] mounted

-- A file of the RAM file system is open as the descriptor.
abbrev open_fd : Fd
open_fd = file_fd 1 3 (slash ∷ b'f' ∷ []) unknown 0

abbrev opened_file : Vfs (World ℕ ℕ)
opened_file = record (zeroed 2 1 4 2 world) {
  open_files = record { used = true; references = 1; offset = 0 } ∷ [];
}

abbrev zeros : Buffers ℕ
zeros = record { kmalloc = λ w. (some (replicate data_size 0), w); kfree = λ b w. w }

room-of : (n : ℕ) (old : List ℕ) → some (replicate n 0) ≡ some old → n ≤ length old
room-of n old e =
    let same : replicate n 0 ≡ old = cc e in
    subst (λ l. n ≤ length l) same (omega (arith, length-replicate {A = ℕ} n 0))

zeros-GivesRoom : GivesRoom zeros
zeros-GivesRoom w old e = room-of data_size old e

abbrev open_system : FileSystems (World ℕ ℕ)
open_system = systems_on zeros no_disk (λ d. false)

abbrev stream_fd : ℕ → Fd
stream_fd number = stream 1 number (b's' ∷ [])

abbrev opened_fd : Vfs (World ℕ ℕ)
opened_fd = record opened_file {
  descriptors = stream_fd 0 ∷ stream_fd 1 ∷ stream_fd 2 ∷ open_fd ∷ [];
}

opened_fd-IsOpen : IsOpen 1 3 3 0 opened_fd
unfolding lookup
opened_fd-IsOpen = record {
  streams = ((0, refl), ((1, refl), (2, refl)));
  above = omega arith;
  slot_of = refl;
  no_end = refl;
  no_device = refl;
  file_of = refl;
  in_table = omega arith;
}

routed_to_ramfs : (cone_os.Vfs.Mounts.path_ops (slash ∷ b'f' ∷ []) opened_fd.mounts).0 ≡ ramfs_ops
unfolding cone_os.Vfs.Mounts.path_ops find_mount cone_os.Vfs.Mounts.best_mount
routed_to_ramfs = refl

abbrev three_bytes : List ℕ
three_bytes = 1 ∷ 2 ∷ 3 ∷ []

written-three : (vfs_write open_system 1 3 three_bytes opened_fd).0 ≡ written 3
unfolding vfs_write write_fd lookup ensure_standard_streams ensure_from write_file
    cone_os.Vfs.Mounts.path_ops find_mount cone_os.Vfs.Mounts.best_mount Ramfs.write Ramfs.find_file
    Ramfs.free_slot Ramfs.store Ramfs.create cone_os.Ramfs.Names.name_equal set_file
written-three = refl

-- A read of two bytes from the offset 1.
vfs_write-vfs_read_example :
    (◌≡◌ {A = ℕ} 3 3)
    × Rereads zeros no_disk
        (λ d. false)
        1
        3
        3
        0
        1
        3
        2
        three_bytes
        (vfs_seek open_system 1 3 (pos 1) 0 (vfs_write open_system 1 3 three_bytes opened_fd).1)
vfs_write-vfs_read_example =
    vfs_write-vfs_read zeros no_disk (λ d. false) 1 3 3 0 1 3 2 three_bytes opened_fd
      opened_fd-IsOpen (omega arith) routed_to_ramfs zeros-GivesRoom
      ((λ old e. absurd (cc e)), ((λ old e. absurd (cc e)), tt)) (omega arith) written-three
