-- ===== src/Vfs/Counts/Uncounted.antt =====
-- The references of src/fs/vfs.c stay counted in the calls that do not touch them.
use cone_os.Prelude.{
  ℕ, zero, suc, ◌+◌, ◌-◌, ◌%◌, ◌≡◌, refl, ◌∙◌, Option, none, some, List, [], ◌∷◌, length, get_or,
  set, min, take, arith, inl, inr, Bool-cases, ◌==◌,
}
use cone_os.Vfs.{Vfs, OpenFile, Pipe, Mount, no_file, no_pipe_at, set_file, set_pipe}
use cone_os.Vfs.Pipes.{
  take_bytes, put_bytes, read_pipe, write_pipe, read_round, write_round, ReadRound, got, ended,
  must_wait,
}
use cone_os.Vfs.Counts.Tally.{IsCounted, recount}
use cone_os.Vfs.Counts.Calls.{wake-IsCounted}

module _ {W : Type 0} where
  pub world-IsCounted : (v : Vfs W) (w : W) → IsCounted v → IsCounted (record v { world = w })
  unfolding IsCounted
  world-IsCounted v w c =
      recount _ _ _ _ _ _ v (record v { world = w }) (λ k. refl) (λ k. refl) (λ k. refl) refl refl c

  pub mounts-IsCounted :
      (v : Vfs W) (w : W) (ms : List Mount)
      → IsCounted v
      → IsCounted (record v { world = w; mounts = ms })
  unfolding IsCounted
  mounts-IsCounted v w ms c =
      recount _ _ _ _ _ _ v (record v { world = w; mounts = ms }) (λ k. refl) (λ k. refl)
        (λ k. refl) refl refl c

-- A write of an entry whose counts stay.
references-set :
    (fs : List OpenFile) (i j n : ℕ)
    → (get_or (set fs i (record (get_or fs i no_file) { offset = n })) j no_file).references
      ≡ (get_or fs j no_file).references
references-set [] i j n = refl
references-set (f ∷ fs) zero zero n = refl
references-set (f ∷ fs) zero (suc j) n = refl
references-set (f ∷ fs) (suc i) zero n = refl
references-set (f ∷ fs) (suc i) (suc j) n = references-set fs i j n

used-set :
    (fs : List OpenFile) (i j n : ℕ)
    → (get_or (set fs i (record (get_or fs i no_file) { offset = n })) j no_file).used
      ≡ (get_or fs j no_file).used
used-set [] i j n = refl
used-set (f ∷ fs) zero zero n = refl
used-set (f ∷ fs) zero (suc j) n = refl
used-set (f ∷ fs) (suc i) zero n = refl
used-set (f ∷ fs) (suc i) (suc j) n = used-set fs i j n

-- Two pipes with the same ends.
record SameEnds (p q : Pipe) : Type 0 where
  used : p.used ≡ q.used
  readers : p.readers ≡ q.readers
  writers : p.writers ≡ q.writers

SameEnds-set :
    (ps : List Pipe) (i j : ℕ) (p : Pipe)
    → SameEnds p (get_or ps i no_pipe_at)
    → SameEnds (get_or (set ps i p) j no_pipe_at) (get_or ps j no_pipe_at)
SameEnds-set [] i j p h = record { used = refl; readers = refl; writers = refl }
SameEnds-set (q ∷ qs) zero zero p h = h
SameEnds-set (q ∷ qs) zero (suc j) p h = record { used = refl; readers = refl; writers = refl }
SameEnds-set (q ∷ qs) (suc i) zero p h = record { used = refl; readers = refl; writers = refl }
SameEnds-set (q ∷ qs) (suc i) (suc j) p h = SameEnds-set qs i j p h

module _ {W : Type 0} where
  pub offset-IsCounted :
      (v : Vfs W) (i n : ℕ)
      → IsCounted v
      → IsCounted (set_file i (record (get_or v.open_files i no_file) { offset = n }) v)
  unfolding IsCounted set_file
  offset-IsCounted v i n c = record {
    files = λ k. references-set v.open_files i k n ∙ c.files k;
    files_used = λ k. used-set v.open_files i k n ∙ c.files_used k;
    readers = c.readers;
    writers = c.writers;
    pipes_used = c.pipes_used;
  }

  set_pipe-IsCounted :
      (v : Vfs W) (i : ℕ) (p : Pipe)
      → SameEnds p (get_or v.pipes i no_pipe_at)
      → IsCounted v
      → IsCounted (set_pipe i p v)
  unfolding IsCounted set_pipe
  set_pipe-IsCounted v i p h c =
      let same = λ (k : ℕ). SameEnds-set v.pipes i k p h in
      record {
        files = c.files;
        files_used = c.files_used;
        readers = λ k. (same k).readers ∙ c.readers k;
        writers = λ k. (same k).writers ∙ c.writers k;
        pipes_used = λ k. (same k).used ∙ c.pipes_used k;
      }

take_bytes-SameEnds : (n : ℕ) (p : Pipe) → SameEnds (take_bytes n p).1 p
unfolding take_bytes
take_bytes-SameEnds zero p = record { used = refl; readers = refl; writers = refl }
take_bytes-SameEnds (suc n) p =
    let ih = take_bytes-SameEnds n (record p { head = (p.head + 1) % length p.buffer }) in
    record { used = ih.used; readers = ih.readers; writers = ih.writers }

put_bytes-SameEnds : (cs : List ℕ) (p : Pipe) → SameEnds (put_bytes cs p) p
unfolding put_bytes
put_bytes-SameEnds [] p = record { used = refl; readers = refl; writers = refl }
put_bytes-SameEnds (c ∷ cs) p =
    let ih =
      put_bytes-SameEnds cs
        (record p { buffer = set p.buffer p.tail c; tail = (p.tail + 1) % length p.buffer }) in
    record { used = ih.used; readers = ih.readers; writers = ih.writers }

read_pipe-SameEnds : (n : ℕ) (p : Pipe) → SameEnds (read_pipe n p).1 p
unfolding read_pipe
read_pipe-SameEnds n p =
    let h = take_bytes-SameEnds (min p.count n) p in
    record {
      used = ground (arith, h.used);
      readers = ground (arith, h.readers);
      writers = ground (arith, h.writers);
    }

write_pipe-SameEnds : (cs : List ℕ) (p : Pipe) → SameEnds (write_pipe cs p).1 p
unfolding write_pipe
write_pipe-SameEnds cs p =
    let h = put_bytes-SameEnds (take (min (length cs) (length p.buffer - p.count)) cs) p in
    record {
      used = ground (arith, h.used);
      readers = ground (arith, h.readers);
      writers = ground (arith, h.writers);
    }

module _ {W : Type 0} where
  pub read_round-IsCounted : (i n : ℕ) (v : Vfs W) → IsCounted v → IsCounted (read_round i n v).1
  unfolding read_round
  read_round-IsCounted i n v c = go (read_pipe n (get_or v.pipes i no_pipe_at)).0 refl
    where
      after : IsCounted (set_pipe i (read_pipe n (get_or v.pipes i no_pipe_at)).1 v)
      after =
          set_pipe-IsCounted v i (read_pipe n (get_or v.pipes i no_pipe_at)).1
            (read_pipe-SameEnds n (get_or v.pipes i no_pipe_at)) c

      go :
          (r : ReadRound)
          → (read_pipe n (get_or v.pipes i no_pipe_at)).0 ≡ r
          → IsCounted (read_round i n v).1
      go (got bytes) e = rw (e, read_round) (wake-IsCounted _ after)
      go ended e = rw (e, read_round) c
      go must_wait e = rw (e, read_round) c

  pub write_round-IsCounted :
      (i : ℕ) (cs : List ℕ) (total : ℕ) (v : Vfs W)
      → IsCounted v
      → IsCounted (write_round i cs total v).1
  unfolding write_round
  write_round-IsCounted i [] total v c = c
  write_round-IsCounted i (x ∷ xs) total v c =
      go (write_pipe (x ∷ xs) (get_or v.pipes i no_pipe_at)).0 refl
    where
      after : IsCounted (set_pipe i (write_pipe (x ∷ xs) (get_or v.pipes i no_pipe_at)).1 v)
      after =
          set_pipe-IsCounted v i (write_pipe (x ∷ xs) (get_or v.pipes i no_pipe_at)).1
            (write_pipe-SameEnds (x ∷ xs) (get_or v.pipes i no_pipe_at)) c

      go :
          (r : Option ℕ)
          → (write_pipe (x ∷ xs) (get_or v.pipes i no_pipe_at)).0 ≡ r
          → IsCounted (write_round i (x ∷ xs) total v).1
      go none e = rw (e, write_round) c
      go (some amount) e = elim (Bool-cases (amount == 0)) [
        | inl z ↦ rw (e, write_round, z) c
        | inr z ↦ rw (e, write_round, z) (wake-IsCounted _ after)
      ]
