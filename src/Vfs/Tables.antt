-- ===== src/Vfs/Tables.antt =====
-- The entries of the tables of src/fs/vfs.c: their references and the search for them.
use cone_os.Prelude.{
  ℕ, zero, suc, ◌-◌, Bool, true, false, not, ◌&&◌, Option, none, some, List, [], ◌∷◌, get_or, ◌==◌,
  if◌then◌else◌,
}
use cone_os.Vfs.{
  Vfs, Fd, OpenFile, Pipe, PipeEnd, no_pipe, read_end, write_end, no_file, no_pipe_at, set_file,
  set_pipe,
}

-- if (pipe->readers == 0 && pipe->writers == 0) { … }
unfoldable pub retire : Pipe → Pipe
retire p =
    if p.readers == 0 && p.writers == 0
    then (record p { used = false; head = 0; tail = 0; count = 0 })
    else p

-- pipe_drop_reference_locked, on the pipe.
unfoldable pub drop_reader : Pipe → Pipe
drop_reader p = if p.used then retire (record p { readers = p.readers - 1 }) else p

unfoldable pub drop_writer : Pipe → Pipe
drop_writer p = if p.used then retire (record p { writers = p.writers - 1 }) else p

-- open_file_release_locked, on the file: `--file->references == 0`.
unfoldable pub release : OpenFile → OpenFile
release f =
    if f.references == 0
    then f
    else if f.references == 1
    then (record { used = false; references = 0; offset = 0 })
    else (record f { references = f.references - 1 })

unfoldable pub first_unused : List Fd → Option ℕ
first_unused [] = none
first_unused (fd ∷ fds) =
    let rest = first_unused fds in
    if not fd.used then some 0 else (elim rest [ none ↦ none | some i ↦ some (suc i) ])

-- The first unused file and pipe.
unfoldable pub first_unused_file : List OpenFile → Option ℕ
first_unused_file [] = none
first_unused_file (f ∷ fs) =
    let rest = first_unused_file fs in
    if not f.used then some 0 else (elim rest [ none ↦ none | some i ↦ some (suc i) ])

unfoldable pub first_unused_pipe : List Pipe → Option ℕ
first_unused_pipe [] = none
first_unused_pipe (p ∷ ps) =
    let rest = first_unused_pipe ps in
    if not p.used then some 0 else (elim rest [ none ↦ none | some i ↦ some (suc i) ])

abbrev pub is_descriptor : ℕ → ℕ → Fd → Bool
is_descriptor owner number fd = fd.used && fd.owner == owner && fd.number == number

-- lookup
unfoldable pub lookup : ℕ → ℕ → List Fd → Option ℕ
lookup owner number [] = none
lookup owner number (fd ∷ fds) =
    let rest = lookup owner number fds in
    if is_descriptor owner number fd
    then some 0
    else (elim rest [ none ↦ none | some i ↦ some (suc i) ])

-- The first number from `number` on, out of `left`, that no descriptor of the owner has.
unfoldable pub free_number : ℕ → ℕ → ℕ → List Fd → Option ℕ
free_number zero number owner fds = none
free_number (suc left) number owner fds =
    let rest = free_number left (suc number) owner fds in
    elim (lookup owner number fds) [ none ↦ some number | some i ↦ rest ]

module _ {W : Type 0} where
  unfoldable pub drop_reference : PipeEnd → Vfs W → Vfs W
  drop_reference no_pipe v = v
  drop_reference (read_end i) v = set_pipe i (drop_reader (get_or v.pipes i no_pipe_at)) v
  drop_reference (write_end i) v = set_pipe i (drop_writer (get_or v.pipes i no_pipe_at)) v

  -- if (target->pipe_mode == …) target->pipe->readers++; and so on.
  unfoldable pub add_reference : PipeEnd → Vfs W → Vfs W
  add_reference no_pipe v = v
  add_reference (read_end i) v =
      let p = get_or v.pipes i no_pipe_at in set_pipe i (record p { readers = suc p.readers }) v
  add_reference (write_end i) v =
      let p = get_or v.pipes i no_pipe_at in set_pipe i (record p { writers = suc p.writers }) v

  abbrev pub pipe_used : PipeEnd → Vfs W → Bool
  pipe_used no_pipe v = false
  pipe_used (read_end i) v = (get_or v.pipes i no_pipe_at).used
  pipe_used (write_end i) v = (get_or v.pipes i no_pipe_at).used

  -- pipe_retain_reference, and the same in vfs_fork: only where the pipe is used.
  unfoldable pub retain_reference : PipeEnd → Vfs W → Vfs W
  retain_reference e v = if pipe_used e v then add_reference e v else v

  unfoldable pub open_file_release : Option ℕ → Vfs W → Vfs W
  open_file_release none v = v
  open_file_release (some i) v = set_file i (release (get_or v.open_files i no_file)) v

  unfoldable pub open_file_retain : Option ℕ → Vfs W → Vfs W
  open_file_retain none v = v
  open_file_retain (some i) v =
      let f = get_or v.open_files i no_file in
      set_file i (record f { references = suc f.references }) v

  -- allocate_open_file_locked: the index of the file.
  unfoldable pub allocate_open_file : Vfs W → Option (ℕ × Vfs W)
  allocate_open_file v = elim (first_unused_file v.open_files) [
    | none ↦ none
    | some i ↦ some (i, set_file i (record { used = true; references = 1; offset = 0 }) v)
  ]
