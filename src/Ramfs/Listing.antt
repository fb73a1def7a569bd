-- ===== src/Ramfs/Listing.antt =====
-- The start of src/fs/ramfs.c and its listings.
use cone_os.Prelude.{
  ℕ, zero, suc, min, Bool, false, not, ◌||◌, Option, none, some, List, [], ◌∷◌, length, take, map,
  ◌==◌, if◌then◌else◌,
}
use cone_os.Ramfs.{File, Ramfs, Buffers, write}
use cone_os.Ramfs.Directories.{has_directory, mkdir}

-- struct fs_dirent
pub data EntryKind : Type 0 where
  file_entry : EntryKind
  directory_entry : EntryKind

pub record Entry : Type 0 where
  pub name : List ℕ
  pub size : ℕ
  pub kind : EntryKind

-- readdir's -1, 0 and 1.
pub data Listed : Type 0 where
  not_directory : Listed
  past_end : Listed
  listed : Entry → Listed

abbrev pub cleared_file : File → File
cleared_file f = record f { used = false; buffer = none; size = 0 }

abbrev pub root_path : List ℕ
root_path = b'/' ∷ []

abbrev pub bin_path : List ℕ
bin_path = b'/' ∷ b'b' ∷ b'i' ∷ b'n' ∷ []

abbrev pub dev_path : List ℕ
dev_path = b'/' ∷ b'd' ∷ b'e' ∷ b'v' ∷ []

abbrev pub disk_path : List ℕ
disk_path = b'/' ∷ b'd' ∷ b'i' ∷ b's' ∷ b'k' ∷ []

abbrev pub hello_path : List ℕ
hello_path = b'/' ∷ b'h' ∷ b'e' ∷ b'l' ∷ b'l' ∷ b'o' ∷ b'.' ∷ b't' ∷ b'x' ∷ b't' ∷ []

-- "ConeOS ramfs\n"
abbrev pub hello : List ℕ
hello = b'C' ∷ b'o' ∷ b'n' ∷ b'e' ∷ b'O' ∷ b'S' ∷ b' ' ∷ b'r' ∷ b'a' ∷ b'm' ∷ b'f' ∷ b's' ∷ 10 ∷ []

module _ {W : Type 0} (buffers : Buffers W) where
  -- ramfs_init
  unfoldable pub init : Ramfs W → Ramfs W
  init s =
      let cleared = record s { files = map cleared_file s.files; directories = [] } in
      let made =
        (mkdir disk_path (mkdir dev_path (mkdir bin_path (mkdir root_path cleared).1).1).1).1 in
      (write buffers hello_path hello made).1

-- ramfs_list: the count of the files, and the first `capacity` of them.
unfoldable pub used_files : List File → List File
used_files [] = []
used_files (f ∷ fs) = let rest = used_files fs in if f.used then f ∷ rest else rest

abbrev pub file_info : File → List ℕ × ℕ
file_info f = (f.name, f.size)

unfoldable pub list : ℕ → List File → ℕ × List (List ℕ × ℕ)
list capacity fs = (length (used_files fs), take capacity (map file_info (used_files fs)))

-- ramfs_list_directories
unfoldable pub list_directories : ℕ → List (List ℕ) → ℕ × List (List ℕ)
list_directories capacity ds = (length ds, take (min (length ds) capacity) ds)

-- while (i < directory_length && path[i] == directory[i]) i++; the rest of the path.
unfoldable pub behind_prefix : List ℕ → List ℕ → Option (List ℕ)
behind_prefix [] path = some path
behind_prefix (d ∷ ds) [] = none
behind_prefix (d ∷ ds) (c ∷ cs) = let rest = behind_prefix ds cs in if c == d then rest else none

unfoldable pub has_slash : List ℕ → Bool
has_slash [] = false
has_slash (c ∷ cs) = c == b'/' || has_slash cs

-- path[i] != '/' || path[i + 1] == '\0', then the search for another slash.
unfoldable pub child_of : List ℕ → Option (List ℕ)
child_of [] = none
child_of (c ∷ []) = none
child_of (c ∷ d ∷ cs) = if not (c == b'/') || has_slash (d ∷ cs) then none else some (d ∷ cs)

abbrev pub is_root : List ℕ → Bool
is_root [] = false
is_root (c ∷ []) = c == b'/'
is_root (c ∷ d ∷ cs) = false

-- ramfs_direct_child
unfoldable pub direct_child : List ℕ → List ℕ → Option (List ℕ)
direct_child directory path =
    if is_root directory
    then child_of path
    else elim (behind_prefix directory path) [ none ↦ none | some rest ↦ child_of rest ]

-- copy_entry_name, into 768 bytes.
abbrev pub entry_name : List ℕ → List ℕ
entry_name name = take 767 name

-- The loop over the directories: the entry, or the index that is left for the files.
unfoldable pub find_directory : List ℕ → ℕ → List (List ℕ) → Option Entry × ℕ
find_directory path index [] = (none, index)
find_directory path index (d ∷ ds) = elim (direct_child path d) [
  | none ↦ find_directory path index ds
  | some name ↦ elim index [
    | zero ↦ (some (record { name = entry_name name; size = 0; kind = directory_entry }), 0)
    | suc i ↦ find_directory path i ds
  ]
]

unfoldable pub find_entry : List ℕ → ℕ → List File → Option Entry
find_entry path index [] = none
find_entry path index (f ∷ fs) = elim (if f.used then direct_child path f.name else none) [
  | none ↦ find_entry path index fs
  | some name ↦ elim index [
    | zero ↦ some (record { name = entry_name name; size = f.size; kind = file_entry })
    | suc i ↦ find_entry path i fs
  ]
]

module _ {W : Type 0} where
  -- ramfs_readdir; `visible` counts up to the index, which here counts down.
  unfoldable pub readdir : List ℕ → ℕ → Ramfs W → Listed
  readdir path index s =
      if not (has_directory s.directories path)
      then not_directory
      else let (entry, left) = find_directory path index s.directories in
        elim entry [
          | some e ↦ listed e
          | none ↦ elim (find_entry path left s.files) [ none ↦ past_end | some e ↦ listed e ]
        ]
