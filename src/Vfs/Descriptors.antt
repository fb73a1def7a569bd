-- ===== src/Vfs/Descriptors.antt =====
-- The descriptor calls of src/fs/vfs.c. The current task is the `owner`; a result of none is -1. The
-- length of the table of descriptors is VFS_DESCRIPTOR_SLOTS.
use cone_os.Prelude.{
  ℕ, zero, suc, ◌+◌, ◌-◌, Bool, true, false, ◌&&◌, ◌||◌, Option, none, some, List, [], ◌∷◌, length,
  get_or, drop, ltb, leb, ◌==◌, if◌then◌else◌,
}
use cone_os.Devfs.{Device, unknown, console}
use cone_os.Vfs.{
  Vfs, Fd, Pipe, PipeEnd, no_pipe, read_end, write_end, no_fd, no_pipe_at, set_fd, set_pipe, wake,
  max_fds,
}
use cone_os.Vfs.Tables.{
  first_unused, first_unused_pipe, lookup, free_number, drop_reference, add_reference,
  open_file_release, open_file_retain, allocate_open_file,
}

abbrev pub is_pipe : PipeEnd → Bool
is_pipe no_pipe = false
is_pipe (read_end i) = true
is_pipe (write_end i) = true

abbrev pub stream : ℕ → ℕ → List ℕ → Fd
stream owner number name = record {
  used = true;
  owner = owner;
  number = number;
  name = name;
  file = none;
  device = console;
  pipe = no_pipe;
}

abbrev pub file_fd : ℕ → ℕ → List ℕ → Device → ℕ → Fd
file_fd owner number name device file = record {
  used = true;
  owner = owner;
  number = number;
  name = name;
  file = some file;
  device = device;
  pipe = no_pipe;
}

abbrev pub standard : List (ℕ × List ℕ)
standard =
    (0, b's' ∷ b't' ∷ b'd' ∷ b'i' ∷ b'n' ∷ [])
    ∷ (1, b's' ∷ b't' ∷ b'd' ∷ b'o' ∷ b'u' ∷ b't' ∷ [])
    ∷ (2, b's' ∷ b't' ∷ b'd' ∷ b'e' ∷ b'r' ∷ b'r' ∷ [])
    ∷ []

abbrev pub pipe_name : List ℕ
pipe_name = b'[' ∷ b'p' ∷ b'i' ∷ b'p' ∷ b'e' ∷ b']' ∷ []

abbrev pub fresh_pipe : Pipe → Pipe
fresh_pipe p = record p { used = true; readers = 1; writers = 1; head = 0; tail = 0; count = 0 }

abbrev pub pipe_fd : ℕ → ℕ → PipeEnd → Fd
pipe_fd owner number e = record {
  used = true;
  owner = owner;
  number = number;
  name = pipe_name;
  file = none;
  device = unknown;
  pipe = e;
}

-- The first two unused slots, and the first two numbers from 3 on that the owner does not use.
unfoldable pub two_unused : List Fd → Option (ℕ × ℕ)
two_unused fds = elim (first_unused fds) [
  | none ↦ none
  | some i ↦ elim (first_unused (drop (suc i) fds)) [ none ↦ none | some j ↦ some (i, suc i + j) ]
]

unfoldable pub two_numbers : ℕ → List Fd → Option (ℕ × ℕ)
two_numbers owner fds = elim (free_number (max_fds - 3) 3 owner fds) [
  | none ↦ none
  | some a ↦ elim (free_number (max_fds - suc a) (suc a) owner fds) [
    | none ↦ none
    | some b ↦ some (a, b)
  ]
]

abbrev pub is_owned : ℕ → Fd → Bool
is_owned owner fd = fd.used && fd.owner == owner

module _ {W : Type 0} where
  unfoldable pub ensure_from : ℕ → List (ℕ × List ℕ) → Vfs W → Vfs W
  ensure_from owner [] v = v
  ensure_from owner ((number, name) ∷ rest) v = elim (lookup owner number v.descriptors) [
    | some i ↦ ensure_from owner rest v
    | none ↦ elim (first_unused v.descriptors) [
      | none ↦ v
      | some i ↦ ensure_from owner rest (set_fd i (stream owner number name) v)
    ]
  ]

  -- ensure_standard_streams
  unfoldable pub ensure_standard_streams : ℕ → Vfs W → Vfs W
  ensure_standard_streams owner v = ensure_from owner standard v

  -- The locked part of vfs_open, for a file that is there.
  unfoldable pub open_at : ℕ → List ℕ → Device → Vfs W → Option ℕ × Vfs W
  open_at owner name device v = elim (free_number (max_fds - 3) 3 owner v.descriptors) [
    | none ↦ (none, v)
    | some number ↦ elim (allocate_open_file v) [
      | none ↦ (none, v)
      | some (file, opened) ↦ elim (first_unused v.descriptors) [
        | none ↦ (none, open_file_release (some file) opened)
        | some i ↦ (some number, set_fd i (file_fd owner number name device file) opened)
      ]
    ]
  ]

  abbrev pub make_pipe : ℕ → ℕ → ℕ × ℕ → ℕ × ℕ → Vfs W → Vfs W
  make_pipe owner p (i, j) (a, b) v = set_fd j (pipe_fd owner b (write_end p)) (
      set_fd i (pipe_fd owner a (read_end p))
        (set_pipe p (fresh_pipe (get_or v.pipes p no_pipe_at)) v))

  -- vfs_pipe, from the lock on: the two numbers.
  unfoldable pub pipe_locked : ℕ → Vfs W → Option (ℕ × ℕ) × Vfs W
  pipe_locked owner v = elim (first_unused_pipe v.pipes) [
    | none ↦ (none, v)
    | some p ↦ elim (two_numbers owner v.descriptors) [
      | none ↦ (none, v)
      | some numbers ↦ elim (two_unused v.descriptors) [
        | none ↦ (none, v)
        | some slots ↦ (some numbers, make_pipe owner p slots numbers v)
      ]
    ]
  ]

  unfoldable pub vfs_pipe : ℕ → Vfs W → Option (ℕ × ℕ) × Vfs W
  vfs_pipe owner v = pipe_locked owner (ensure_standard_streams owner v)

  -- *target = saved, with the new owner and number, and a reference more to what it names.
  unfoldable pub copy_to : ℕ → Fd → ℕ → ℕ → Vfs W → Vfs W
  copy_to i saved owner number v = add_reference saved.pipe (
      open_file_retain saved.file
        (set_fd i (record saved { owner = owner; number = number; used = true }) v))

  unfoldable pub dup_locked : ℕ → ℕ → Vfs W → Option ℕ × Vfs W
  dup_locked owner number v = elim (lookup owner number v.descriptors) [
    | none ↦ (none, v)
    | some s ↦ elim (free_number max_fds 0 owner v.descriptors) [
      | none ↦ (none, v)
      | some destination ↦ elim (first_unused v.descriptors) [
        | none ↦ (none, v)
        | some i ↦ (some destination, copy_to i (get_or v.descriptors s no_fd) owner destination v)
      ]
    ]
  ]

  unfoldable pub dup : ℕ → ℕ → Vfs W → Option ℕ × Vfs W
  dup owner number v = dup_locked owner number (ensure_standard_streams owner v)

  -- The references of a descriptor are given up.
  unfoldable pub give_up : Fd → Vfs W → Vfs W
  give_up fd v = open_file_release fd.file (drop_reference fd.pipe v)

  -- The slot of dup2: the one of the destination, whose references are given up, or an unused one.
  unfoldable pub dup2_slot : ℕ → ℕ → Vfs W → Option (ℕ × Vfs W)
  dup2_slot owner destination v = elim (lookup owner destination v.descriptors) [
    | some i ↦ some (i, give_up (get_or v.descriptors i no_fd) v)
    | none ↦ elim (first_unused v.descriptors) [ none ↦ none | some i ↦ some (i, v) ]
  ]

  unfoldable pub dup2_locked : ℕ → ℕ → ℕ → Vfs W → Option ℕ × Vfs W
  dup2_locked owner source destination v = elim (lookup owner source v.descriptors) [
    | none ↦ (none, v)
    | some s ↦
        if source == destination
        then (some destination, v)
        else elim (dup2_slot owner destination v) [
          | none ↦ (none, v)
          | some (i, cleared) ↦ (
            some destination,
            wake (copy_to i (get_or v.descriptors s no_fd) owner destination cleared),
          )
        ]
  ]

  unfoldable pub dup2 : ℕ → ℕ → ℕ → Vfs W → Option ℕ × Vfs W
  dup2 owner source destination v =
      if leb max_fds destination
      then (none, v)
      else dup2_locked owner source destination (ensure_standard_streams owner v)

  -- The references are given up and the slot is free.
  unfoldable pub close_slot : ℕ → Vfs W → Vfs W
  close_slot i v =
      let fd = get_or v.descriptors i no_fd in
      set_fd i (record fd { used = false; file = none; pipe = no_pipe }) (give_up fd v)

  -- vfs_close: whether it returns 0.
  unfoldable pub close : ℕ → ℕ → Vfs W → Bool × Vfs W
  close owner number v = elim (lookup owner number v.descriptors) [
    | none ↦ (false, v)
    | some i ↦
        if ltb number 3
        then (false, v)
        else if is_pipe (get_or v.descriptors i no_fd).pipe
        then (true, wake (close_slot i v))
        else (true, close_slot i v)
  ]

  unfoldable pub close_one : ℕ → ℕ → Bool × Vfs W → Bool × Vfs W
  close_one owner i (closed_pipe, v) =
      let fd = get_or v.descriptors i no_fd in
      if is_owned owner fd
      then (closed_pipe || is_pipe fd.pipe, close_slot i v)
      else (closed_pipe, v)

  -- for (i = …), `left` rounds.
  unfoldable pub close_from : ℕ → ℕ → ℕ → Bool × Vfs W → Bool × Vfs W
  close_from zero i owner s = s
  close_from (suc left) i owner s = close_from left (suc i) owner (close_one owner i s)

  unfoldable pub close_all : ℕ → Vfs W → Vfs W
  close_all owner v =
      let (closed_pipe, after) = close_from (length v.descriptors) 0 owner (false, v) in
      if closed_pipe then wake after else after
