-- ===== src/Ramfs/Tests.antt =====
-- Two files in a table of two entries; buffers of four bytes.
use cone_os.Prelude.{
  ℕ, ◌≡◌, ◌≤◌, refl, subst, ◌⊎◌, true, false, none, some, List, [], ◌∷◌, length, replicate,
  length-replicate, All, arith,
}
use cone_os.Ramfs.{
  Ramfs, Buffers, no_file, data_size, overwrite, find_file, free_slot, store, create, write, read,
  unlink,
}
use cone_os.Ramfs.Listing.{readdir}
use cone_os.Ramfs.Prefixes.{starts_with, with_slash}
use cone_os.Ramfs.Children.{Lists, readdir_lem}
use cone_os.Ramfs.Names.{name_equal}
use cone_os.Ramfs.Directories.{directory_index, remove_at, any_file_under, any_under, rmdir}
use cone_os.Ramfs.Removal.{Removed, rmdir_lem}
use cone_os.Ramfs.Roundtrip.{GivesRoom, HasRoom, Holds, Refused, write_lem}

abbrev four : Buffers ℕ
four = record { kmalloc = λ w. (some (0 ∷ 0 ∷ 0 ∷ 0 ∷ []), w); kfree = λ b w. w }

abbrev empty : Ramfs ℕ
empty = record { files = no_file ∷ no_file ∷ []; directories = []; world = 0 }

write-read :
    read four (b'a' ∷ []) 2 (write four (b'a' ∷ []) (5 ∷ 6 ∷ 7 ∷ []) empty).1 ≡ some (5 ∷ 6 ∷ [])
unfolding write read find_file free_slot store overwrite create name_equal
write-read = refl

unlink-read :
    read four (b'a' ∷ []) 2 (unlink four (b'a' ∷ []) (write four (b'a' ∷ []) (5 ∷ []) empty).1).1
    ≡ none
unfolding write read unlink find_file free_slot store overwrite create name_equal
unlink-read = refl

abbrev zeros : Buffers ℕ
zeros = record { kmalloc = λ w. (some (replicate data_size 0), w); kfree = λ b w. w }

room-of : (n : ℕ) (old : List ℕ) → some (replicate n 0) ≡ some old → n ≤ length old
room-of n old e =
    let same : replicate n 0 ≡ old = cc e in
    subst (λ l. n ≤ length l) same (omega (arith, length-replicate {A = ℕ} n 0))

zeros-GivesRoom : GivesRoom zeros
zeros-GivesRoom w old e = room-of data_size old e

empty-HasRoom : All HasRoom empty.files
empty-HasRoom = (λ old e. absurd (cc e), (λ old e. absurd (cc e), tt))

write_lem_example :
    let (ok, s') = write zeros (b'a' ∷ []) (5 ∷ 6 ∷ 7 ∷ []) empty in
    All HasRoom s'.files
    × (((ok ≡ true) × Holds zeros (b'a' ∷ []) (5 ∷ 6 ∷ 7 ∷ []) s')
        ⊎ ((ok ≡ false) × Refused zeros (b'a' ∷ []) (5 ∷ 6 ∷ 7 ∷ []) empty))
write_lem_example =
    write_lem zeros (b'a' ∷ []) (5 ∷ 6 ∷ 7 ∷ []) empty zeros-GivesRoom empty-HasRoom (omega arith)

abbrev rooted : Ramfs ℕ
rooted = record empty { directories = (b'/' ∷ []) ∷ (b'/' ∷ b'd' ∷ []) ∷ [] }

rmdir-made : (rmdir (b'/' ∷ b'd' ∷ []) rooted).1.directories ≡ (b'/' ∷ []) ∷ []
unfolding rmdir directory_index name_equal remove_at any_file_under any_under starts_with with_slash
rmdir-made = refl

rmdir_lem_example : Removed (b'/' ∷ b'd' ∷ []) rooted (rmdir (b'/' ∷ b'd' ∷ []) rooted)
rmdir_lem_example = rmdir_lem (b'/' ∷ b'd' ∷ []) rooted

abbrev listing : Ramfs ℕ
listing = record {
  files =
      (record { used = true; name = b'/' ∷ b'd' ∷ b'/' ∷ b'f' ∷ []; buffer = none; size = 5 })
      ∷ no_file
      ∷ [];
  directories = (b'/' ∷ b'd' ∷ []) ∷ (b'/' ∷ b'd' ∷ b'/' ∷ b'e' ∷ []) ∷ [];
  world = 0;
}

-- "/d" has the directory "e" and the file "f".
readdir_lem_example :
    Lists (b'/' ∷ b'd' ∷ []) listing (λ index. readdir (b'/' ∷ b'd' ∷ []) index listing)
readdir_lem_example = readdir_lem (b'/' ∷ b'd' ∷ []) listing
