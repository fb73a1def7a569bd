-- ===== src/Vfs/Counts/Slots.antt =====
-- The references of src/fs/vfs.c stay counted where a slot is filled or closed.
use cone_os.Prelude.{
  ℕ, ◌+◌, ◌-◌, ◌<◌, ◌≡◌, refl, sym, ◌∙◌, ap, Bool, true, false, Option, none, some, List, length,
  get_or, set, set-set, arith, if◌then◌else◌,
}
use cone_os.Vfs.{
  Vfs, Fd, PipeEnd, no_pipe, read_end, write_end, no_fd, no_pipe_at, set_fd, set_file,
}
use cone_os.Vfs.Tables.{
  drop_reference, add_reference, open_file_retain, retain_reference, pipe_used,
}
use cone_os.Vfs.Descriptors.{copy_to, close_slot, give_up}
use cone_os.Vfs.Inheritance.{inherit_to}
use cone_os.Vfs.Counts.{
  points, reads_of, writes_of, LiveFile, LivePipe, IsCountedBy, retain_counted, release_counted,
  add_reference_counted, drop_reference_counted,
}
use cone_os.Vfs.Counts.Tally.{
  tally, to_file, reads, writes, tally-set, IsCounted, recount, open_file_retain-descriptors,
  open_file_release-descriptors, add_reference-descriptors, drop_reference-descriptors,
  LiveFile-get_or, LivePipe-get_or,
}

module _ {W : Type 0} where
  -- A descriptor without a file or a pipe is written to an unused slot.
  pub put_idle :
      (v : Vfs W) (i : ℕ) (fd : Fd)
      → i < length v.descriptors
      → (get_or v.descriptors i no_fd).used ≡ false
      → fd.file ≡ none
      → fd.pipe ≡ no_pipe
      → IsCounted v
      → IsCounted (set_fd i fd v)
  unfolding set_fd IsCounted
  put_idle v i fd b u ef ep c =
      recount _ _ _ _ _ _ v (set_fd i fd v)
        (λ k. ground (arith, tally-set (to_file k) v.descriptors i fd b))
        (λ k. ground (arith, tally-set (reads k) v.descriptors i fd b))
        (λ k. ground (arith, tally-set (writes k) v.descriptors i fd b)) refl refl c

  -- A descriptor is written to an unused slot before its references are counted.
  pub put-IsCountedBy :
      (n r w : ℕ → ℕ) (v : Vfs W) (i : ℕ) (fd : Fd)
      → IsCountedBy n r w v
      → IsCountedBy n r w (set_fd i fd v)
  unfolding set_fd
  put-IsCountedBy n r w v i fd c =
      recount n n r r w w v (set_fd i fd v) (λ k. refl) (λ k. refl) (λ k. refl) refl refl c

  -- With the references of the new descriptor the counts are right again.
  pub filled :
      (v v' : Vfs W) (i : ℕ) (fd : Fd)
      → i < length v.descriptors
      → (get_or v.descriptors i no_fd).used ≡ false
      → fd.used ≡ true
      → v'.descriptors ≡ set v.descriptors i fd
      → IsCountedBy
          (λ k. tally (to_file k) v.descriptors + points fd.file k)
          (λ k. tally (reads k) v.descriptors + reads_of fd.pipe k)
          (λ k. tally (writes k) v.descriptors + writes_of fd.pipe k)
          v'
      → IsCounted v'
  unfolding IsCounted
  filled v v' i fd b u t e c =
      recount _ _ _ _ _ _ v' v'
        (λ k. rw e (ground (arith, tally-set (to_file k) v.descriptors i fd b)))
        (λ k. rw e (ground (arith, tally-set (reads k) v.descriptors i fd b)))
        (λ k. rw e (ground (arith, tally-set (writes k) v.descriptors i fd b))) refl refl c

  pub copy_to-descriptors :
      (i : ℕ) (saved : Fd) (owner number : ℕ) (v : Vfs W)
      → (copy_to i saved owner number v).descriptors
        ≡ set v.descriptors i (record saved { owner = owner; number = number; used = true })
  unfolding copy_to set_fd
  copy_to-descriptors i saved owner number v =
      let fd : Fd = record saved { owner = owner; number = number; used = true } in
      add_reference-descriptors saved.pipe (open_file_retain saved.file (set_fd i fd v))
      ∙ open_file_retain-descriptors saved.file (set_fd i fd v)

  -- dup: the copy of a live descriptor in an unused slot.
  pub copy_to-IsCounted :
      (i : ℕ) (saved : Fd) (owner number : ℕ) (v : Vfs W)
      → i < length v.descriptors
      → (get_or v.descriptors i no_fd).used ≡ false
      → LiveFile (λ k. tally (to_file k) v.descriptors) saved.file
      → LivePipe
          (λ k. tally (reads k) v.descriptors)
          (λ k. tally (writes k) v.descriptors)
          saved.pipe
      → IsCounted v
      → IsCounted (copy_to i saved owner number v)
  unfolding copy_to IsCounted
  copy_to-IsCounted i saved owner number v b u lf lp c =
      let fd : Fd = record saved { owner = owner; number = number; used = true } in
      filled v (copy_to i saved owner number v) i fd b u refl
        (copy_to-descriptors i saved owner number v) (counted fd)
    where
      counted :
          (fd : Fd)
          → IsCountedBy
              (λ k. tally (to_file k) v.descriptors + points saved.file k)
              (λ k. tally (reads k) v.descriptors + reads_of saved.pipe k)
              (λ k. tally (writes k) v.descriptors + writes_of saved.pipe k)
              (add_reference saved.pipe (open_file_retain saved.file (set_fd i fd v)))
      counted fd =
          add_reference_counted _ _ _ saved.pipe (open_file_retain saved.file (set_fd i fd v)) lp
            (retain_counted _ _ _ saved.file (set_fd i fd v) lf (put-IsCountedBy _ _ _ v i fd c))

  pub give_up-descriptors : (fd : Fd) (v : Vfs W) → (give_up fd v).descriptors ≡ v.descriptors
  unfolding give_up
  give_up-descriptors fd v =
      open_file_release-descriptors fd.file (drop_reference fd.pipe v)
      ∙ drop_reference-descriptors fd.pipe v

  give_up-IsCountedBy :
      (n r w : ℕ → ℕ) (fd : Fd) (v : Vfs W)
      → LiveFile n fd.file
      → LivePipe r w fd.pipe
      → IsCountedBy n r w v
      → IsCountedBy
          (λ k. n k - points fd.file k)
          (λ k. r k - reads_of fd.pipe k)
          (λ k. w k - writes_of fd.pipe k)
          (give_up fd v)
  unfolding give_up
  give_up-IsCountedBy n r w fd v lf lp c =
      release_counted n _ _ fd.file (drop_reference fd.pipe v) lf
        (drop_reference_counted n r w fd.pipe v lp c)

  pub close_slot-descriptors :
      (i : ℕ) (v : Vfs W)
      → (close_slot i v).descriptors
        ≡ set v.descriptors i
            (record (get_or v.descriptors i no_fd) { used = false; file = none; pipe = no_pipe })
  unfolding close_slot set_fd
  close_slot-descriptors i v =
      let fd : Fd = get_or v.descriptors i no_fd in
      ap (λ (fds : List Fd). set fds i (record fd { used = false; file = none; pipe = no_pipe }))
        (give_up-descriptors fd v)

  pub close_slot-IsCounted :
      (i : ℕ) (v : Vfs W)
      → i < length v.descriptors
      → (get_or v.descriptors i no_fd).used ≡ true
      → IsCounted v
      → IsCounted (close_slot i v)
  unfolding close_slot IsCounted
  close_slot-IsCounted i v b u c =
      let fd : Fd = get_or v.descriptors i no_fd in
      let closed : Fd = record fd { used = false; file = none; pipe = no_pipe } in
      let e = close_slot-descriptors i v in
      recount _ _ _ _ _ _ (close_slot i v) (close_slot i v)
        (λ k. rw e (ground (arith, tally-set (to_file k) v.descriptors i closed b, u)))
        (λ k. rw e (ground (arith, tally-set (reads k) v.descriptors i closed b, u)))
        (λ k. rw e (ground (arith, tally-set (writes k) v.descriptors i closed b, u))) refl refl
        given_up
    where
      given_up :
          IsCountedBy
            (λ k. tally (to_file k) v.descriptors - points (get_or v.descriptors i no_fd).file k)
            (λ k. tally (reads k) v.descriptors - reads_of (get_or v.descriptors i no_fd).pipe k)
            (λ k. tally (writes k) v.descriptors - writes_of (get_or v.descriptors i no_fd).pipe k)
            (close_slot i v)
      given_up =
          let fd : Fd = get_or v.descriptors i no_fd in
          put-IsCountedBy _ _ _ (give_up fd v) i
            (record fd { used = false; file = none; pipe = no_pipe })
            (give_up-IsCountedBy _ _ _ fd v (LiveFile-get_or v.descriptors i u)
              (LivePipe-get_or v.descriptors i u) c)

  -- dup2 on the slot of the destination is dup after the slot is closed.
  pub copy_to-give_up :
      (i : ℕ) (saved : Fd) (owner number : ℕ) (v : Vfs W)
      → copy_to i saved owner number (give_up (get_or v.descriptors i no_fd) v)
        ≡ copy_to i saved owner number (close_slot i v)
  unfolding copy_to close_slot set_fd
  copy_to-give_up i saved owner number v =
      let fd : Fd = get_or v.descriptors i no_fd in
      let u : Vfs W = give_up fd v in
      ap
        (λ (fds : List Fd).
          add_reference saved.pipe (open_file_retain saved.file (record u { descriptors = fds })))
        (sym (
          set-set u.descriptors i (record fd { used = false; file = none; pipe = no_pipe })
            (record saved { owner = owner; number = number; used = true })))

  -- The pipe of a used descriptor is used, so that the test in vfs_fork is true.
  pub pipe_used-get_or :
      (v v' : Vfs W) (s : ℕ)
      → (get_or v.descriptors s no_fd).used ≡ true
      → v'.pipes ≡ v.pipes
      → IsCounted v
      → retain_reference (get_or v.descriptors s no_fd).pipe v'
        ≡ add_reference (get_or v.descriptors s no_fd).pipe v'
  unfolding retain_reference IsCounted
  pipe_used-get_or v v' s u e c =
      go (get_or v.descriptors s no_fd).pipe (LivePipe-get_or v.descriptors s u)
    where
      go :
          (p : PipeEnd)
          → LivePipe (λ k. tally (reads k) v.descriptors) (λ k. tally (writes k) v.descriptors) p
          → (if pipe_used p v' then add_reference p v' else v') ≡ add_reference p v'
      go no_pipe l = unfold add_reference in refl
      go (read_end k) l =
          let used : (get_or v'.pipes k no_pipe_at).used ≡ true =
            rw e (ground (arith, c.pipes_used k)) in
          rw used refl
      go (write_end k) l =
          let used : (get_or v'.pipes k no_pipe_at).used ≡ true =
            rw e (ground (arith, c.pipes_used k)) in
          rw used refl

  open_file_retain-pipes : (o : Option ℕ) (v : Vfs W) → (open_file_retain o v).pipes ≡ v.pipes
  unfolding open_file_retain set_file
  open_file_retain-pipes none v = refl
  open_file_retain-pipes (some k) v = refl

  pub inherit_to_lem :
      (i s child : ℕ) (v : Vfs W)
      → (get_or v.descriptors s no_fd).used ≡ true
      → IsCounted v
      → inherit_to i (get_or v.descriptors s no_fd) child v
        ≡ copy_to i (get_or v.descriptors s no_fd) child (get_or v.descriptors s no_fd).number v
  unfolding inherit_to copy_to set_fd
  inherit_to_lem i s child v u c =
      let source : Fd = get_or v.descriptors s no_fd in
      let at : Vfs W = set_fd i (record source { owner = child }) v in
      pipe_used-get_or v (open_file_retain source.file at) s u
        (open_file_retain-pipes source.file at) c
      ∙ ap
          (λ (b : Bool).
            add_reference source.pipe (
              open_file_retain source.file
                (set_fd i (record source { owner = child; used = b }) v)))
          u
