-- ===== src/Vfs/FileSystems.antt =====
-- What src/fs/vfs.c asks of the file systems and the devices behind it: struct vfs_fs_ops and the calls
-- it makes by name. The state of them all is `W`; src/fs/fat32.c is not modelled, so that its operations
-- stay a parameter.
use cone_os.Prelude.{ℕ, Bool, true, false, Option, none, some, List, []}
use cone_os.Devfs
use cone_os.Devfs.{Device, Terminal, Input, unknown}
use cone_os.Ramfs
use cone_os.Ramfs.{Ramfs, Buffers}
use cone_os.Ramfs.Directories
use cone_os.Ramfs.Directories.{has_directory}
use cone_os.Ramfs.Listing
use cone_os.Ramfs.Listing.{Entry, Listed, file_entry, not_directory, past_end, listed}
use cone_os.Vfs.{FileSystem, ramfs_ops, fat32_ops, devfs_ops}

-- `read` gives the bytes of the file, at most the number asked for. A null pointer in the table, which
-- is never called, is an operation that fails.
pub record FsOps (W : Type 0) : Type 0 where
  pub read : List ℕ → ℕ → W → Option (List ℕ) × W
  pub write : List ℕ → List ℕ → W → Bool × W
  pub stat : List ℕ → W → Option ℕ × W
  pub create : List ℕ → W → Bool × W
  pub readdir : List ℕ → ℕ → W → Listed × W
  pub mkdir : List ℕ → W → Bool × W
  pub unlink : List ℕ → W → Bool × W
  pub rmdir : List ℕ → W → Bool × W
  pub is_directory : List ℕ → W → Bool × W
  pub sync : W → Bool × W
  pub device : List ℕ → Device

pub record FileSystems (W : Type 0) : Type 0 where
  pub ramfs : FsOps W
  pub fat32 : FsOps W
  pub devfs : FsOps W
  pub fat32_mounted : W → Bool
  pub device_read : Device → ℕ → W → Input × W
  pub device_write : Device → List ℕ → W → Option ℕ × W

abbrev pub ops_of : {W : Type 0} → FileSystems W → FileSystem → FsOps W
ops_of fs ramfs_ops = fs.ramfs
ops_of fs fat32_ops = fs.fat32
ops_of fs devfs_ops = fs.devfs

-- The RAM file system, the console and the disk, with their own states.
pub record World (B D : Type 0) : Type 0 where
  pub ramfs_state : Ramfs B
  pub terminal : Terminal
  pub disk : D

module _ {B D : Type 0} where
  abbrev pub on_ramfs : {A : Type 0} → (Ramfs B → A × Ramfs B) → World B D → A × World B D
  on_ramfs f w = let (a, s) = f w.ramfs_state in (a, record w { ramfs_state = s })

  abbrev pub on_terminal : {A : Type 0} → (Terminal → A × Terminal) → World B D → A × World B D
  on_terminal f w = let (a, t) = f w.terminal in (a, record w { terminal = t })

  abbrev pub on_disk : {A : Type 0} → (D → A × D) → World B D → A × World B D
  on_disk f w = let (a, d) = f w.disk in (a, record w { disk = d })

abbrev device_entry : Option (List ℕ) → Listed
device_entry none = past_end
device_entry (some name) = listed (record { name = name; size = 0; kind = file_entry })

module _ {B D : Type 0} (buffers : Buffers B) where
  -- static const struct vfs_fs_ops ramfs_ops, with ramfs_create and ramfs_sync
  abbrev pub ramfs_table : FsOps (World B D)
  ramfs_table = record {
    read = λ path n w. (Ramfs.read buffers path n w.ramfs_state, w);
    write = λ path bytes w. on_ramfs (Ramfs.write buffers path bytes) w;
    stat = λ path w. (Ramfs.stat buffers path w.ramfs_state, w);
    create = λ path w. on_ramfs (Ramfs.write buffers path []) w;
    readdir = λ path index w. (Listing.readdir path index w.ramfs_state, w);
    mkdir = λ path w. on_ramfs (Directories.mkdir path) w;
    unlink = λ path w. on_ramfs (Ramfs.unlink buffers path) w;
    rmdir = λ path w. on_ramfs (Directories.rmdir path) w;
    is_directory = λ path w. (has_directory w.ramfs_state.directories path, w);
    sync = λ w. (true, w);
    device = λ path. unknown;
  }

  -- static const struct vfs_fs_ops devfs_ops, with devfs_reject and devfs_sync
  abbrev pub devfs_table : FsOps (World B D)
  devfs_table = record {
    read = λ path n w. (none, w);
    write = λ path bytes w. (false, w);
    stat = λ path w. (Devfs.stat path, w);
    create = λ path w. (false, w);
    readdir = λ path index w. (device_entry (Devfs.readdir path index), w);
    mkdir = λ path w. (false, w);
    unlink = λ path w. (false, w);
    rmdir = λ path w. (false, w);
    is_directory = λ path w. (Devfs.is_directory path, w);
    sync = λ w. (true, w);
    device = Devfs.device_for_path;
  }

  -- The system with a driver of the disk.
  abbrev pub all_systems : FsOps (World B D) → (D → Bool) → FileSystems (World B D)
  all_systems disk mounted = record {
    ramfs = ramfs_table;
    fat32 = disk;
    devfs = devfs_table;
    fat32_mounted = λ w. mounted w.disk;
    device_read = λ d n w. on_terminal (Devfs.read d n) w;
    device_write = λ d bytes w. on_terminal (Devfs.write d bytes) w;
  }
