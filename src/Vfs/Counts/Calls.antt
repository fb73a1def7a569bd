-- ===== src/Vfs/Counts/Calls.antt =====
-- The references of src/fs/vfs.c stay counted in the calls on one descriptor.
use cone_os.Prelude.{
  ℕ, zero, suc, ◌+◌, ◌-◌, ◌<◌, ◌≡◌, refl, true, false, some, List, [], ◌∷◌, length, get_or, set,
  get_or-set, arith, inl, inr, Bool-cases, Option-cases,
}
use cone_os.Devfs.{Device}
use cone_os.Vfs.{
  Vfs, Fd, OpenFile, Pipe, no_fd, no_file, no_pipe_at, set_fd, set_file, wake, max_fds,
}
use cone_os.Vfs.Tables.{
  first_unused, first_unused_file, first_unused_pipe, lookup, free_number, open_file_release,
  allocate_open_file,
}
use cone_os.Vfs.Descriptors.{
  stream, file_fd, standard, ensure_from, ensure_standard_streams, open_at, copy_to, dup_locked,
}
use cone_os.Vfs.Counts.{points, IsCountedBy, release_counted}
use cone_os.Vfs.Counts.Tally.{
  tally, to_file, first_unused_lem, lookup_lem, IsCounted, recount, LiveFile-get_or,
  LivePipe-get_or,
}
use cone_os.Vfs.Counts.Slots.{put_idle, put-IsCountedBy, filled, copy_to-IsCounted}

module _ {W : Type 0} where
  pub wake-IsCounted : (v : Vfs W) → IsCounted v → IsCounted (wake v)
  unfolding wake IsCounted
  wake-IsCounted v c =
      recount _ _ _ _ _ _ v (wake v) (λ k. refl) (λ k. refl) (λ k. refl) refl refl c

  pub ensure_from-IsCounted :
      (owner : ℕ) (names : List (ℕ × List ℕ)) (v : Vfs W)
      → IsCounted v
      → IsCounted (ensure_from owner names v)
  unfolding ensure_from
  ensure_from-IsCounted owner [] v c = c
  ensure_from-IsCounted owner ((number, name) ∷ rest) v c =
      elim (Option-cases (lookup owner number v.descriptors)) [
        | inr (s, e) ↦ rw (e, ensure_from) (ensure_from-IsCounted owner rest v c)
        | inl e ↦ elim (Option-cases (first_unused v.descriptors)) [
          | inl e' ↦ rw (e, ensure_from, e') c
          | inr (i, e') ↦
              let (b, u) = first_unused_lem v.descriptors i e' in
              rw (e, ensure_from, e')
                (ensure_from-IsCounted owner rest (set_fd i (stream owner number name) v)
                  (put_idle v i (stream owner number name) b u refl refl c))
        ]
      ]

  pub ensure-IsCounted :
      (owner : ℕ) (v : Vfs W) → IsCounted v → IsCounted (ensure_standard_streams owner v)
  unfolding ensure_standard_streams
  ensure-IsCounted owner v c = ensure_from-IsCounted owner standard v c

pub first_unused_file_lem :
    (fs : List OpenFile) (i : ℕ)
    → first_unused_file fs ≡ some i
    → (i < length fs) × ((get_or fs i no_file).used ≡ false)
unfolding first_unused_file
first_unused_file_lem [] i h = absurd (cc)
first_unused_file_lem (f ∷ fs) zero h = elim (Bool-cases f.used) [
  | inl e ↦ absurd (ground arith)
  | inr e ↦ (omega arith, e)
]
first_unused_file_lem (f ∷ fs) (suc i) h =
    let below : first_unused_file fs ≡ some i = ground arith in
    let (b, e) = first_unused_file_lem fs i below in (omega arith, e)

pub first_unused_pipe_lem :
    (ps : List Pipe) (i : ℕ)
    → first_unused_pipe ps ≡ some i
    → (i < length ps) × ((get_or ps i no_pipe_at).used ≡ false)
unfolding first_unused_pipe
first_unused_pipe_lem [] i h = absurd (cc)
first_unused_pipe_lem (p ∷ ps) zero h = elim (Bool-cases p.used) [
  | inl e ↦ absurd (ground arith)
  | inr e ↦ (omega arith, e)
]
first_unused_pipe_lem (p ∷ ps) (suc i) h =
    let below : first_unused_pipe ps ≡ some i = ground arith in
    let (b, e) = first_unused_pipe_lem ps i below in (omega arith, e)

abbrev pub first_reference : OpenFile
first_reference = record { used = true; references = 1; offset = 0 }

module _ {W : Type 0} where
  allocated :
      (n r w : ℕ → ℕ) (v : Vfs W) (k : ℕ)
      → first_unused_file v.open_files ≡ some k
      → IsCountedBy n r w v
      → IsCountedBy (λ i. n i + points (some k) i) r w (set_file k first_reference v)
  unfolding set_file
  allocated n r w v k e c =
      let (b, u) = first_unused_file_lem v.open_files k e in
      record {
        files = λ i. ground (
          arith,
          get_or-set v.open_files k i first_reference no_file b,
          c.files i,
          c.files_used k,
        );
        files_used = λ i. ground (
          arith,
          get_or-set v.open_files k i first_reference no_file b,
          c.files_used i,
          c.files_used k,
        );
        readers = c.readers;
        writers = c.writers;
        pipes_used = c.pipes_used;
      }

  released :
      (v : Vfs W) (k : ℕ)
      → first_unused_file v.open_files ≡ some k
      → IsCounted v
      → IsCounted (open_file_release (some k) (set_file k first_reference v))
  unfolding IsCounted set_file open_file_release
  released v k e c =
      let v' : Vfs W = set_file k first_reference v in
      recount _ _ _ _ _ _ (open_file_release (some k) v') (open_file_release (some k) v')
        (λ i. omega arith) (λ i. refl) (λ i. refl) refl refl
        (release_counted (λ i. tally (to_file i) v.descriptors + points (some k) i) _ _ (some k) v'
          (ground arith) (allocated _ _ _ v k e c))

  opened :
      (v : Vfs W) (owner number : ℕ) (name : List ℕ) (device : Device) (k i : ℕ)
      → first_unused_file v.open_files ≡ some k
      → first_unused v.descriptors ≡ some i
      → IsCounted v
      → IsCounted (set_fd i (file_fd owner number name device k) (set_file k first_reference v))
  unfolding IsCounted
  opened v owner number name device k i e e' c =
      let (b, free) = first_unused_lem v.descriptors i e' in
      let fd : Fd = file_fd owner number name device k in
      let v' : Vfs W = set_fd i fd (set_file k first_reference v) in
      filled v v' i fd b free refl (same fd) (
        recount _ _ _ _ _ _ v' v' (λ j. refl) (λ j. omega arith) (λ j. omega arith) refl refl
          (put-IsCountedBy _ _ _ (set_file k first_reference v) i fd (allocated _ _ _ v k e c)))
    where
      same :
          (fd : Fd)
          → (set_fd i fd (set_file k first_reference v)).descriptors ≡ set v.descriptors i fd
      same fd = unfold set_fd set_file in refl

  pub open_at-IsCounted :
      (owner : ℕ) (name : List ℕ) (device : Device) (v : Vfs W)
      → IsCounted v
      → IsCounted (open_at owner name device v).1
  unfolding open_at allocate_open_file
  open_at-IsCounted owner name device v c =
      elim (Option-cases (free_number (max_fds - 3) 3 owner v.descriptors)) [
        | inl e ↦ rw (e, open_at) c
        | inr (number, e) ↦ elim (Option-cases (first_unused_file v.open_files)) [
          | inl e' ↦ rw (e, open_at, allocate_open_file, e') c
          | inr (k, e') ↦ elim (Option-cases (first_unused v.descriptors)) [
            | inl e'' ↦ rw (e, open_at, allocate_open_file, e', e'') (released v k e' c)
            | inr (i, e'') ↦
                rw (e, open_at, allocate_open_file, e', e'')
                  (opened v owner number name device k i e' e'' c)
          ]
        ]
      ]

  pub dup_locked-IsCounted :
      (owner number : ℕ) (v : Vfs W) → IsCounted v → IsCounted (dup_locked owner number v).1
  unfolding dup_locked
  dup_locked-IsCounted owner number v c = elim (Option-cases (lookup owner number v.descriptors)) [
    | inl e ↦ rw (e, dup_locked) c
    | inr (s, e) ↦ elim (Option-cases (free_number max_fds 0 owner v.descriptors)) [
      | inl e' ↦ rw (e, dup_locked, e') c
      | inr (destination, e') ↦ elim (Option-cases (first_unused v.descriptors)) [
        | inl e'' ↦ rw (e, dup_locked, e', e'') c
        | inr (i, e'') ↦ rw (e, dup_locked, e', e'') (copied owner s destination i number e e'')
      ]
    ]
  ]
    where
      copied :
          (owner s destination i number : ℕ)
          → lookup owner number v.descriptors ≡ some s
          → first_unused v.descriptors ≡ some i
          → IsCounted (copy_to i (get_or v.descriptors s no_fd) owner destination v)
      copied owner s destination i number e e' =
          let (b, d) = lookup_lem owner number v.descriptors s e in
          let (bi, u) = first_unused_lem v.descriptors i e' in
          let used : (get_or v.descriptors s no_fd).used ≡ true = ground arith in
          copy_to-IsCounted i (get_or v.descriptors s no_fd) owner destination v bi u
            (LiveFile-get_or v.descriptors s used) (LivePipe-get_or v.descriptors s used) c
