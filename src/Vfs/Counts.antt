-- ===== src/Vfs/Counts.antt =====
-- The reference counts of src/fs/vfs.c, told apart from the descriptors: what the open files and the
-- pipes record, as functions of the index.
pub mod Tally
pub mod Slots
pub mod Calls
pub mod Pairs
pub mod Loops
pub mod Uncounted
pub mod Named
pub mod Runs
pub mod Start
use cone_os.Prelude.{
  ℕ, zero, suc, ◌+◌, ◌-◌, ◌<◌, ◌≤◌, ◌≡◌, refl, Bool, true, false, not, ◌&&◌, Option, none, some,
  List, [], ◌∷◌, length, get_or, set, get_or-set, arith, ◌==◌, if◌then◌else◌,
}
use cone_os.Vfs.{
  Vfs, Fd, OpenFile, Pipe, PipeEnd, no_pipe, read_end, write_end, no_file, no_pipe_at, set_file,
  set_pipe,
}
use cone_os.Vfs.Tables.{
  retire, drop_reader, drop_writer, release, drop_reference, add_reference, open_file_release,
  open_file_retain,
}

-- How often a pointer of a descriptor leads to the entry `i`.
abbrev pub points : Option ℕ → ℕ → ℕ
points none i = 0
points (some k) i = if k == i then 1 else 0

abbrev pub reads_of : PipeEnd → ℕ → ℕ
reads_of no_pipe i = 0
reads_of (read_end k) i = if k == i then 1 else 0
reads_of (write_end k) i = 0

abbrev pub writes_of : PipeEnd → ℕ → ℕ
writes_of no_pipe i = 0
writes_of (read_end k) i = 0
writes_of (write_end k) i = if k == i then 1 else 0

-- What is counted is in the table.
pub in_files : (fs : List OpenFile) (k : ℕ) → 0 < (get_or fs k no_file).references → k < length fs
in_files [] k h = absurd (omega arith)
in_files (f ∷ fs) zero h = omega arith
in_files (f ∷ fs) (suc k) h = omega (arith, in_files fs k h)

pub in_readers : (ps : List Pipe) (k : ℕ) → 0 < (get_or ps k no_pipe_at).readers → k < length ps
in_readers [] k h = absurd (omega arith)
in_readers (p ∷ ps) zero h = omega arith
in_readers (p ∷ ps) (suc k) h = omega (arith, in_readers ps k h)

pub in_writers : (ps : List Pipe) (k : ℕ) → 0 < (get_or ps k no_pipe_at).writers → k < length ps
in_writers [] k h = absurd (omega arith)
in_writers (p ∷ ps) zero h = omega arith
in_writers (p ∷ ps) (suc k) h = omega (arith, in_writers ps k h)

-- The entry that a pointer leads to is counted.
abbrev pub LiveFile : (ℕ → ℕ) → Option ℕ → Type 0
LiveFile n none = Unit
LiveFile n (some k) = 0 < n k

abbrev pub LivePipe : (ℕ → ℕ) → (ℕ → ℕ) → PipeEnd → Type 0
LivePipe r w no_pipe = Unit
LivePipe r w (read_end k) = 0 < r k
LivePipe r w (write_end k) = 0 < w k

module _ {W : Type 0} where
  -- The counts are the given ones, and an entry is used exactly if it is referred to.
  pub record IsCountedBy (n r w : ℕ → ℕ) (v : Vfs W) : Type 0 where
    pub files : (i : ℕ) → (get_or v.open_files i no_file).references ≡ n i
    pub files_used : (i : ℕ) → (get_or v.open_files i no_file).used ≡ not (n i == 0)
    pub readers : (i : ℕ) → (get_or v.pipes i no_pipe_at).readers ≡ r i
    pub writers : (i : ℕ) → (get_or v.pipes i no_pipe_at).writers ≡ w i
    pub pipes_used : (i : ℕ) → (get_or v.pipes i no_pipe_at).used ≡ not (r i == 0 && w i == 0)

  pub retain_counted :
      (n r w : ℕ → ℕ) (o : Option ℕ) (v : Vfs W)
      → LiveFile n o
      → IsCountedBy n r w v
      → IsCountedBy (λ i. n i + points o i) r w (open_file_retain o v)
  unfolding open_file_retain set_file
  retain_counted n r w none v h c = record {
    files = λ i. omega (arith, c.files i);
    files_used = λ i. ground (arith, c.files_used i);
    readers = c.readers;
    writers = c.writers;
    pipes_used = c.pipes_used;
  }
  retain_counted n r w (some k) v h c =
      let f : OpenFile = record (get_or v.open_files k no_file) {
        references = suc (get_or v.open_files k no_file).references;
      } in
      let bound : k < length v.open_files = in_files v.open_files k (omega (arith, h, c.files k)) in
      record {
        files =
            λ i. ground (arith, get_or-set v.open_files k i f no_file bound, c.files i, c.files k);
        files_used = λ i.
            ground (
              arith,
              get_or-set v.open_files k i f no_file bound,
              c.files_used i,
              c.files_used k,
              h,
            );
        readers = c.readers;
        writers = c.writers;
        pipes_used = c.pipes_used;
      }

  pub release_counted :
      (n r w : ℕ → ℕ) (o : Option ℕ) (v : Vfs W)
      → LiveFile n o
      → IsCountedBy n r w v
      → IsCountedBy (λ i. n i - points o i) r w (open_file_release o v)
  unfolding open_file_release set_file release
  release_counted n r w none v h c = record {
    files = λ i. omega (arith, c.files i);
    files_used = λ i. ground (arith, c.files_used i);
    readers = c.readers;
    writers = c.writers;
    pipes_used = c.pipes_used;
  }
  release_counted n r w (some k) v h c =
      let f : OpenFile = release (get_or v.open_files k no_file) in
      let bound : k < length v.open_files = in_files v.open_files k (omega (arith, h, c.files k)) in
      record {
        files =
            λ i. ground (arith, get_or-set v.open_files k i f no_file bound, c.files i, c.files k);
        files_used = λ i. ground (
          arith,
          get_or-set v.open_files k i f no_file bound,
          c.files_used i,
          c.files_used k,
          c.files k,
        );
        readers = c.readers;
        writers = c.writers;
        pipes_used = c.pipes_used;
      }

  pub add_reference_counted :
      (n r w : ℕ → ℕ) (e : PipeEnd) (v : Vfs W)
      → LivePipe r w e
      → IsCountedBy n r w v
      → IsCountedBy n (λ i. r i + reads_of e i) (λ i. w i + writes_of e i) (add_reference e v)
  unfolding add_reference set_pipe
  add_reference_counted n r w no_pipe v h c = record {
    files = c.files;
    files_used = c.files_used;
    readers = λ i. omega (arith, c.readers i);
    writers = λ i. omega (arith, c.writers i);
    pipes_used = λ i. ground (arith, c.pipes_used i);
  }
  add_reference_counted n r w (read_end k) v h c =
      let p : Pipe = record (get_or v.pipes k no_pipe_at) {
        readers = suc (get_or v.pipes k no_pipe_at).readers;
      } in
      let bound : k < length v.pipes = in_readers v.pipes k (omega (arith, h, c.readers k)) in
      record {
        files = c.files;
        files_used = c.files_used;
        readers = λ i. ground (
          arith,
          get_or-set v.pipes k i p no_pipe_at bound,
          c.readers i,
          c.readers k,
          c.writers k,
          c.pipes_used k,
          h,
        );
        writers = λ i. ground (
          arith,
          get_or-set v.pipes k i p no_pipe_at bound,
          c.writers i,
          c.writers k,
          c.readers k,
          c.pipes_used k,
          h,
        );
        pipes_used = λ i. ground (
          arith,
          get_or-set v.pipes k i p no_pipe_at bound,
          c.pipes_used i,
          c.pipes_used k,
          c.readers k,
          c.writers k,
          h,
        );
      }
  add_reference_counted n r w (write_end k) v h c =
      let p : Pipe = record (get_or v.pipes k no_pipe_at) {
        writers = suc (get_or v.pipes k no_pipe_at).writers;
      } in
      let bound : k < length v.pipes = in_writers v.pipes k (omega (arith, h, c.writers k)) in
      record {
        files = c.files;
        files_used = c.files_used;
        readers = λ i. ground (
          arith,
          get_or-set v.pipes k i p no_pipe_at bound,
          c.readers i,
          c.readers k,
          c.writers k,
          c.pipes_used k,
          h,
        );
        writers = λ i. ground (
          arith,
          get_or-set v.pipes k i p no_pipe_at bound,
          c.writers i,
          c.writers k,
          c.readers k,
          c.pipes_used k,
          h,
        );
        pipes_used = λ i. ground (
          arith,
          get_or-set v.pipes k i p no_pipe_at bound,
          c.pipes_used i,
          c.pipes_used k,
          c.readers k,
          c.writers k,
          h,
        );
      }

  pub drop_reference_counted :
      (n r w : ℕ → ℕ) (e : PipeEnd) (v : Vfs W)
      → LivePipe r w e
      → IsCountedBy n r w v
      → IsCountedBy n (λ i. r i - reads_of e i) (λ i. w i - writes_of e i) (drop_reference e v)
  unfolding drop_reference drop_reader drop_writer retire set_pipe
  drop_reference_counted n r w no_pipe v h c = record {
    files = c.files;
    files_used = c.files_used;
    readers = λ i. omega (arith, c.readers i);
    writers = λ i. omega (arith, c.writers i);
    pipes_used = λ i. ground (arith, c.pipes_used i);
  }
  drop_reference_counted n r w (read_end k) v h c =
      let p : Pipe = drop_reader (get_or v.pipes k no_pipe_at) in
      let bound : k < length v.pipes = in_readers v.pipes k (omega (arith, h, c.readers k)) in
      record {
        files = c.files;
        files_used = c.files_used;
        readers = λ i. ground (
          arith,
          get_or-set v.pipes k i p no_pipe_at bound,
          c.readers i,
          c.readers k,
          c.writers k,
          c.pipes_used k,
          h,
        );
        writers = λ i. ground (
          arith,
          get_or-set v.pipes k i p no_pipe_at bound,
          c.writers i,
          c.writers k,
          c.readers k,
          c.pipes_used k,
          h,
        );
        pipes_used = λ i. ground (
          arith,
          get_or-set v.pipes k i p no_pipe_at bound,
          c.pipes_used i,
          c.pipes_used k,
          c.readers k,
          c.writers k,
          h,
        );
      }
  drop_reference_counted n r w (write_end k) v h c =
      let p : Pipe = drop_writer (get_or v.pipes k no_pipe_at) in
      let bound : k < length v.pipes = in_writers v.pipes k (omega (arith, h, c.writers k)) in
      record {
        files = c.files;
        files_used = c.files_used;
        readers = λ i. ground (
          arith,
          get_or-set v.pipes k i p no_pipe_at bound,
          c.readers i,
          c.readers k,
          c.writers k,
          c.pipes_used k,
          h,
        );
        writers = λ i. ground (
          arith,
          get_or-set v.pipes k i p no_pipe_at bound,
          c.writers i,
          c.writers k,
          c.readers k,
          c.pipes_used k,
          h,
        );
        pipes_used = λ i. ground (
          arith,
          get_or-set v.pipes k i p no_pipe_at bound,
          c.pipes_used i,
          c.pipes_used k,
          c.readers k,
          c.writers k,
          h,
        );
      }
