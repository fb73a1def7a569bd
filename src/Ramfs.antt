-- ===== src/Ramfs.antt =====
-- src/fs/ramfs.c: the files of the RAM file system. A name is the list of its bytes without the final
-- 0, so it holds none. A buffer is the list of its bytes, and `world` the state behind kmalloc.
pub mod Names
pub mod Prefixes
pub mod Directories
pub mod Removal
pub mod Listing
pub mod Below
pub mod Entries
pub mod Children
pub mod Search
pub mod Roundtrip
mod Tests
use cone_os.Prelude.{
  ℕ, zero, suc, ◌+◌, ◌-◌, min, Bool, true, false, not, ◌&&◌, Option, none, some, List, [], ◌∷◌,
  ◌++◌, length, get_or, set, take, drop, replicate, ltb, leb, ◌==◌, if◌then◌else◌,
}
use Names.{name_equal, stored_name}

pub record File : Type 0 where
  pub used : Bool
  pub name : List ℕ
  pub buffer : Option (List ℕ)
  pub size : ℕ

pub record Ramfs (W : Type 0) : Type 0 where
  pub files : List File
  pub directories : List (List ℕ)
  pub world : W

-- kmalloc of a file's buffer, with what it holds, and kfree.
pub record Buffers (W : Type 0) : Type 0 where
  pub kmalloc : W → Option (List ℕ) × W
  pub kfree : List ℕ → W → W

-- RAMFS_DATA_SIZE
abbrev pub data_size : ℕ
data_size = 32768

abbrev pub no_file : File
no_file = record { used = false; name = []; buffer = none; size = 0 }

abbrev pub matches : List ℕ → File → Bool
matches name f = f.used && name_equal f.name name

-- A pointer into `files` is an index.
unfoldable pub find_file : List ℕ → List File → Option ℕ
find_file name [] = none
find_file name (f ∷ fs) =
    let rest = find_file name fs in
    if matches name f then some 0 else (elim rest [ none ↦ none | some i ↦ some (suc i) ])

unfoldable pub free_slot : List File → Option ℕ
free_slot [] = none
free_slot (f ∷ fs) =
    let rest = free_slot fs in
    if not f.used then some 0 else (elim rest [ none ↦ none | some i ↦ some (suc i) ])

-- file->data[i] = data[i] from the start of the buffer on. What lies behind the end of the buffer is not
-- a part of it: such a byte goes into other memory, and no read of the buffer gives it back.
unfoldable pub overwrite : List ℕ → List ℕ → List ℕ
overwrite [] old = old
overwrite (b ∷ bs) [] = []
overwrite (b ∷ bs) (o ∷ os) = b ∷ overwrite bs os

module _ {W : Type 0} (buffers : Buffers W) where
  -- The end of ramfs_write, at the file `i`: the bytes are copied over the start of the buffer.
  unfoldable pub store : ℕ → List ℕ → Ramfs W → Bool × Ramfs W
  store i bytes s =
      let f = get_or s.files i no_file in
      elim f.buffer [
        | none ↦ (false, s)
        | some old ↦ (
          true,
          record s {
            files =
                set s.files i
                  (record f { buffer = some (overwrite bytes old); size = length bytes });
          },
        )
      ]

  unfoldable pub create : ℕ → List ℕ → Ramfs W → Ramfs W
  create i name s =
      let (fresh, w) = buffers.kmalloc s.world in
      let f = get_or s.files i no_file in
      record s {
        files = set s.files i (record f { used = true; name = stored_name name; buffer = fresh });
        world = w;
      }

  -- ramfs_write; the pointers are not null.
  unfoldable pub write : List ℕ → List ℕ → Ramfs W → Bool × Ramfs W
  write name bytes s =
      if ltb data_size (length bytes) then (false, s) else elim (find_file name s.files) [
        | some i ↦ store i bytes s
        | none ↦ elim (free_slot s.files) [
          | none ↦ (false, s)
          | some i ↦ store i bytes (create i name s)
        ]
      ]

  -- ramfs_read: the bytes that are copied out, at most `capacity`.
  unfoldable pub read : List ℕ → ℕ → Ramfs W → Option (List ℕ)
  read name capacity s = elim (find_file name s.files) [
    | none ↦ none
    | some i ↦
        let f = get_or s.files i no_file in
        elim f.buffer [ none ↦ some [] | some bytes ↦ some (take (min f.size capacity) bytes) ]
  ]

  unfoldable pub stat : List ℕ → Ramfs W → Option ℕ
  stat name s = elim (find_file name s.files) [
    | none ↦ none
    | some i ↦ some (get_or s.files i no_file).size
  ]

  abbrev release_buffer : Option (List ℕ) → W → W
  release_buffer none w = w
  release_buffer (some b) w = buffers.kfree b w

  unfoldable pub unlink : List ℕ → Ramfs W → Bool × Ramfs W
  unlink name s = elim (find_file name s.files) [
    | none ↦ (false, s)
    | some i ↦
        let f = get_or s.files i no_file in
        (
          true,
          record s {
            files = set s.files i (record f { used = false; buffer = none; size = 0 });
            world = release_buffer f.buffer s.world;
          },
        )
  ]
