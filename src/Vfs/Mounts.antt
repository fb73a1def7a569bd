-- ===== src/Vfs/Mounts.antt =====
-- The table of mounts of src/fs/vfs.c.
use cone_os.Prelude.{
  ℕ, zero, suc, Bool, true, false, not, ◌&&◌, ◌||◌, Option, none, some, List, [], ◌∷◌, length, drop,
  set, leb, ◌==◌, if◌then◌else◌,
}
use cone_os.Paths.{slash, path_has_prefix}
use cone_os.Ramfs.Names.{name_equal}
use cone_os.Vfs.{Mount, FileSystem, ramfs_ops, no_mount}

-- The loop of find_mount: the best mount and its length.
unfoldable pub best_mount : List ℕ → List Mount → Option Mount → ℕ → Option Mount × ℕ
best_mount path [] best best_length = (best, best_length)
best_mount path (m ∷ ms) best best_length =
    let better = m.used && path_has_prefix path m.path && leb best_length (length m.path) in
    best_mount path ms (if better then some m else best)
      (if better then length m.path else best_length)

-- if (*tail == '/') tail++;
abbrev pub behind_slash : List ℕ → List ℕ
behind_slash [] = []
behind_slash (c ∷ cs) = if c == slash then cs else c ∷ cs

-- find_mount: the mount and the path relative to it.
unfoldable pub find_mount : List ℕ → List Mount → Option (Mount × List ℕ)
find_mount path ms =
    let (best, best_length) = best_mount path ms none 0 in
    elim best [ none ↦ none | some m ↦ some (m, behind_slash (drop best_length path)) ]

-- path_ops: the file system, and the path there.
unfoldable pub path_ops : List ℕ → List Mount → FileSystem × List ℕ
path_ops path ms = elim (find_mount path ms) [
  | none ↦ (ramfs_ops, path)
  | some (m, relative) ↦ (m.ops, relative)
]

unfoldable pub is_mounted : List ℕ → List Mount → Bool
is_mounted path [] = false
is_mounted path (m ∷ ms) = (m.used && name_equal m.path path) || is_mounted path ms

unfoldable pub put_mount : Mount → List Mount → Option (List Mount)
put_mount m [] = none
put_mount m (n ∷ ns) =
    let rest = put_mount m ns in
    if not n.used then some (m ∷ ns) else (elim rest [ none ↦ none | some r ↦ some (n ∷ r) ])

-- install_mount: the new table, or none.
unfoldable pub install_mount :
    List ℕ → List ℕ → FileSystem → Bool → List Mount → Option (List Mount)
install_mount path kind ops removable ms =
    if is_mounted path ms
    then none
    else put_mount
        (record { used = true; removable = removable; path = path; kind = kind; ops = ops }) ms

unfoldable pub nth_mount : ℕ → List Mount → Option Mount
nth_mount index [] = none
nth_mount zero (m ∷ ms) = let rest = nth_mount zero ms in if m.used then some m else rest
nth_mount (suc index) (m ∷ ms) = nth_mount (if m.used then index else suc index) ms

abbrev pub ramfs_name : List ℕ
ramfs_name = b'r' ∷ b'a' ∷ b'm' ∷ b'f' ∷ b's' ∷ []

abbrev pub fat32_name : List ℕ
fat32_name = b'f' ∷ b'a' ∷ b't' ∷ b'3' ∷ b'2' ∷ []

-- vfs_mount_info: the type and the path; the first entry is the RAM file system at "/".
unfoldable pub mount_info : ℕ → List Mount → Option (List ℕ × List ℕ)
mount_info zero ms = some (ramfs_name, slash ∷ [])
mount_info (suc index) ms = elim (nth_mount index ms) [
  | none ↦ none
  | some m ↦ some (m.kind, m.path)
]

-- The first used mount at the path, which vfs_unmount looks for, with its index.
unfoldable pub mount_at : List ℕ → List Mount → Option ℕ
mount_at path [] = none
mount_at path (m ∷ ms) =
    let rest = mount_at path ms in
    if m.used && name_equal m.path path
    then some 0
    else (elim rest [ none ↦ none | some i ↦ some (suc i) ])

unfoldable pub any_below : List ℕ → List Mount → Bool
any_below path [] = false
any_below path (m ∷ ms) = (m.used && path_has_prefix m.path path) || any_below path ms

-- A mount other than the one at the index `i` lies at or below the path.
unfoldable pub other_below : List ℕ → ℕ → List Mount → Bool
other_below path i ms = any_below path (set ms i no_mount)
