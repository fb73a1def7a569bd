-- ===== src/Vfs/Inheritance.antt =====
-- vfs_inherit_standard and vfs_fork of src/fs/vfs.c.
use cone_os.Prelude.{
  ℕ, zero, suc, ◌+◌, Bool, true, false, not, ◌||◌, Option, none, some, List, [], ◌∷◌, length,
  get_or, ltb, if◌then◌else◌,
}
use cone_os.Vfs.{Vfs, Fd, no_fd, set_fd, wake}
use cone_os.Vfs.Tables.{first_unused, lookup, retain_reference, pipe_used, open_file_retain}
use cone_os.Vfs.Descriptors.{ensure_standard_streams, is_owned, close_all}

unfoldable pub owned : ℕ → List Fd → ℕ
owned owner [] = 0
owned owner (fd ∷ fds) = (if is_owned owner fd then 1 else 0) + owned owner fds

unfoldable pub unused : List Fd → ℕ
unused [] = 0
unused (fd ∷ fds) = (if fd.used then 0 else 1) + unused fds

module _ {W : Type 0} where
  -- *target = *source for the child, and the references.
  unfoldable pub inherit_to : ℕ → Fd → ℕ → Vfs W → Vfs W
  inherit_to i source child v =
      retain_reference source.pipe
        (open_file_retain source.file (set_fd i (record source { owner = child }) v))

  unfoldable pub inherit_from : ℕ → ℕ → ℕ → ℕ → Vfs W → Bool × Vfs W
  inherit_from zero number parent child v = (true, v)
  inherit_from (suc left) number parent child v = elim (lookup parent number v.descriptors) [
    | none ↦ (false, close_all child v)
    | some s ↦ elim (first_unused v.descriptors) [
      | none ↦ (false, close_all child v)
      | some i ↦
          inherit_from left (suc number) parent child
            (inherit_to i (get_or v.descriptors s no_fd) child v)
    ]
  ]

  -- vfs_inherit_standard
  unfoldable pub inherit_standard : ℕ → ℕ → Vfs W → Bool × Vfs W
  inherit_standard parent child v =
      inherit_from 3 0 parent child (close_all child (ensure_standard_streams parent v))

  -- One round of the loop of vfs_fork; none is its return of 0.
  unfoldable pub fork_one : ℕ → ℕ → ℕ → Bool × Vfs W → Option (Bool × Vfs W)
  fork_one i parent child (inherited_pipe, v) =
      let source = get_or v.descriptors i no_fd in
      if not (is_owned parent source)
      then some (inherited_pipe, v)
      else elim (first_unused v.descriptors) [
        | none ↦ none
        | some t ↦ some (inherited_pipe || pipe_used source.pipe v, inherit_to t source child v)
      ]

  unfoldable pub fork_from : ℕ → ℕ → ℕ → ℕ → Bool × Vfs W → Bool × Vfs W
  fork_from zero i parent child (inherited_pipe, v) = (true, if inherited_pipe then wake v else v)
  fork_from (suc left) i parent child (inherited_pipe, v) =
      elim (fork_one i parent child (inherited_pipe, v)) [
        | none ↦ (false, close_all child v)
        | some s ↦ fork_from left (suc i) parent child s
      ]

  unfoldable pub fork_locked : ℕ → ℕ → Vfs W → Bool × Vfs W
  fork_locked parent child v =
      if ltb (unused v.descriptors) (owned parent v.descriptors)
      then (false, v)
      else fork_from (length v.descriptors) 0 parent child (false, v)

  -- vfs_fork
  unfoldable pub fork : ℕ → ℕ → Vfs W → Bool × Vfs W
  fork parent child v =
      fork_locked parent child (close_all child (ensure_standard_streams parent v))
