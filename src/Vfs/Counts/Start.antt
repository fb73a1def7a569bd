-- ===== src/Vfs/Counts/Start.antt =====
-- The references of src/fs/vfs.c from the start on.
use cone_os.Prelude.{
  ℕ, zero, suc, ◌≡◌, refl, ap, sym, ◌∙◌, false, not, List, [], ◌∷◌, map, get_or, replicate, arith,
  ◌==◌,
}
use cone_os.Vfs.{Vfs, Fd, OpenFile, no_fd, no_file, no_pipe_at, no_mount}
use cone_os.Vfs.FileSystems.{FileSystems}
use cone_os.Vfs.Names.{Task, vfs_init, unused_fd, unused_file, unused_pipe}
use cone_os.Vfs.Calls.{Call, calls}
use cone_os.Vfs.Counts.Tally.{tally, to_file, reads, writes, IsCounted}
use cone_os.Vfs.Counts.Calls.{ensure-IsCounted}
use cone_os.Vfs.Counts.Runs.{calls-IsCounted}

-- The tables as they lie in memory at first, all zero: `slots` descriptors and files, and `streams`
-- pipes for `room` bytes.
abbrev pub zeroed : {W : Type 0} → ℕ → ℕ → ℕ → ℕ → W → Vfs W
zeroed slots streams room mounts w = record {
  descriptors = replicate slots no_fd;
  open_files = replicate slots no_file;
  pipes = replicate streams (record no_pipe_at { buffer = replicate room 0 });
  mounts = replicate mounts no_mount;
  world = w;
  woken = 0;
}

tally-unused :
    (g : Fd → ℕ) (fds : List Fd)
    → ((fd : Fd) → fd.used ≡ false → g fd ≡ 0)
    → tally g (map unused_fd fds) ≡ 0
unfolding tally
tally-unused g [] h = refl
tally-unused g (fd ∷ fds) h =
    omega (arith, tally-unused g fds h, h (record fd { used = false }) refl)

unused_files : (n i : ℕ) → get_or (map unused_file (replicate n no_file)) i no_file ≡ no_file
unused_files zero i = refl
unused_files (suc n) zero = refl
unused_files (suc n) (suc i) = unused_files n i

unused_pipes :
    (n i room : ℕ)
    → let p =
        get_or
          (map unused_pipe (replicate n (record no_pipe_at { buffer = replicate room 0 })))
          i
          no_pipe_at in
      (p.readers ≡ 0) × (p.writers ≡ 0) × (p.used ≡ false)
unused_pipes zero i room = (refl, refl, refl)
unused_pipes (suc n) zero room = (refl, refl, refl)
unused_pipes (suc n) (suc i) room = unused_pipes n i room

module _ {W : Type 0} where
  at_rest :
      (v : Vfs W)
      → ((g : Fd → ℕ) → ((fd : Fd) → fd.used ≡ false → g fd ≡ 0) → tally g v.descriptors ≡ 0)
      → ((i : ℕ) → get_or v.open_files i no_file ≡ no_file)
      → ((i : ℕ)
          → let p = get_or v.pipes i no_pipe_at in
            (p.readers ≡ 0) × (p.writers ≡ 0) × (p.used ≡ false))
      → IsCounted v
  unfolding IsCounted
  at_rest v ht hf hp =
      let none_to = λ (i : ℕ). ht (to_file i) (λ fd u. rw u refl) in
      let none_read = λ (i : ℕ). ht (reads i) (λ fd u. rw u refl) in
      let none_write = λ (i : ℕ). ht (writes i) (λ fd u. rw u refl) in
      record {
        files = λ i. ap (λ (f : OpenFile). f.references) (hf i) ∙ sym (none_to i);
        files_used = λ i.
            ap (λ (f : OpenFile). f.used) (hf i) ∙ sym (ap (λ (n : ℕ). not (n == 0)) (none_to i));
        readers = λ i. (hp i).0 ∙ sym (none_read i);
        writers = λ i. (hp i).1 ∙ sym (none_write i);
        pipes_used = λ i. (hp i).2 ∙ (rw (none_read i, none_write i) refl);
      }

  -- The state that vfs_init leaves is counted.
  vfs_init-IsCounted :
      (slots streams room mounts : ℕ) (w : W)
      → IsCounted (vfs_init (zeroed slots streams room mounts w))
  unfolding vfs_init
  vfs_init-IsCounted slots streams room mounts w = ensure-IsCounted 0 _ (
      at_rest _ (λ g h. tally-unused g (replicate slots no_fd) h) (λ i. unused_files slots i)
        (λ i. unused_pipes streams i room))

-- From vfs_init on, over any sequence of calls of any tasks and whatever the file systems do, each open
-- file's reference count is the number of the used descriptors that name it, each pipe's counts of
-- readers and writers are those of the used descriptors at its ends, and a file or a pipe is used exactly
-- if its counts are not all 0.
pub calls-IsCounted_from_start :
    {W : Type 0} (fs : FileSystems W) (slots streams room mounts : ℕ) (w : W)
    (cs : List (Task × Call W))
    → IsCounted (calls fs cs (vfs_init (zeroed slots streams room mounts w)))
calls-IsCounted_from_start fs slots streams room mounts w cs =
    calls-IsCounted fs cs (vfs_init (zeroed slots streams room mounts w))
      (vfs_init-IsCounted slots streams room mounts w)
