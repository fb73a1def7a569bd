-- ===== src/Vfs/Counts/Tally.antt =====
-- The references that the descriptors of src/fs/vfs.c hold, and the entries that searches find.
use cone_os.Prelude.{
  ℕ, zero, suc, ◌+◌, ◌<◌, ◌≤◌, ◌≡◌, refl, sym, ◌∙◌, true, false, Option, none, some, List, [], ◌∷◌,
  length, get_or, set, arith, inl, inr, Bool-cases, if◌then◌else◌,
}
use cone_os.Vfs.{Vfs, Fd, PipeEnd, no_pipe, read_end, write_end, no_fd, set_file, set_pipe}
use cone_os.Vfs.Tables.{
  first_unused, lookup, is_descriptor, drop_reference, add_reference, open_file_release,
  open_file_retain,
}
use cone_os.Vfs.Counts.{points, reads_of, writes_of, LiveFile, LivePipe, IsCountedBy}

unfoldable pub tally : (Fd → ℕ) → List Fd → ℕ
tally g [] = 0
tally g (fd ∷ fds) = g fd + tally g fds

-- What a used descriptor refers to.
abbrev pub to_file : ℕ → Fd → ℕ
to_file i fd = if fd.used then points fd.file i else 0

abbrev pub reads : ℕ → Fd → ℕ
reads i fd = if fd.used then reads_of fd.pipe i else 0

abbrev pub writes : ℕ → Fd → ℕ
writes i fd = if fd.used then writes_of fd.pipe i else 0

pub tally-set :
    (g : Fd → ℕ) (fds : List Fd) (j : ℕ) (fd : Fd)
    → j < length fds
    → tally g (set fds j fd) + g (get_or fds j no_fd) ≡ tally g fds + g fd
unfolding tally
tally-set g [] j fd h = absurd (omega arith)
tally-set g (x ∷ xs) zero fd h = omega arith
tally-set g (x ∷ xs) (suc j) fd h = omega (arith, tally-set g xs j fd (omega arith))

pub tally-get_or :
    (g : Fd → ℕ) (fds : List Fd) (j : ℕ) → g no_fd ≡ 0 → g (get_or fds j no_fd) ≤ tally g fds
unfolding tally
tally-get_or g [] j z = omega (arith, z)
tally-get_or g (x ∷ xs) zero z = omega arith
tally-get_or g (x ∷ xs) (suc j) z = omega (arith, tally-get_or g xs j z)

pub first_unused_lem :
    (fds : List Fd) (i : ℕ)
    → first_unused fds ≡ some i
    → (i < length fds) × ((get_or fds i no_fd).used ≡ false)
unfolding first_unused
first_unused_lem [] i h = absurd (cc)
first_unused_lem (fd ∷ fds) zero h = elim (Bool-cases fd.used) [
  | inl e ↦ absurd (ground arith)
  | inr e ↦ (omega arith, e)
]
first_unused_lem (fd ∷ fds) (suc i) h =
    let below : first_unused fds ≡ some i = ground arith in
    let (b, e) = first_unused_lem fds i below in (omega arith, e)

pub lookup_lem :
    (owner number : ℕ) (fds : List Fd) (i : ℕ)
    → lookup owner number fds ≡ some i
    → (i < length fds) × (is_descriptor owner number (get_or fds i no_fd) ≡ true)
unfolding lookup
lookup_lem owner number [] i h = absurd (cc)
lookup_lem owner number (fd ∷ fds) zero h = elim (Bool-cases (is_descriptor owner number fd)) [
  | inl e ↦ (omega arith, e)
  | inr e ↦ absurd (ground arith)
]
lookup_lem owner number (fd ∷ fds) (suc i) h =
    let below : lookup owner number fds ≡ some i = ground arith in
    let (b, e) = lookup_lem owner number fds i below in (omega arith, e)

module _ {W : Type 0} where
  -- Every count is the number of the descriptors that refer to the entry.
  unfoldable pub IsCounted : Vfs W → Type 0
  IsCounted v =
      IsCountedBy (λ i. tally (to_file i) v.descriptors) (λ i. tally (reads i) v.descriptors)
        (λ i. tally (writes i) v.descriptors) v

  pub recount :
      (n n' r r' w w' : ℕ → ℕ) (v v' : Vfs W)
      → ((i : ℕ) → n i ≡ n' i)
      → ((i : ℕ) → r i ≡ r' i)
      → ((i : ℕ) → w i ≡ w' i)
      → v'.open_files ≡ v.open_files
      → v'.pipes ≡ v.pipes
      → IsCountedBy n r w v
      → IsCountedBy n' r' w' v'
  recount n n' r r' w w' v v' en er ew ef ep c = record {
    files = λ i. rw ef (c.files i ∙ en i);
    files_used = λ i. rw (ef, sym (en i)) (c.files_used i);
    readers = λ i. rw ep (c.readers i ∙ er i);
    writers = λ i. rw ep (c.writers i ∙ ew i);
    pipes_used = λ i. rw (ep, sym (er i), sym (ew i)) (c.pipes_used i);
  }

  pub open_file_retain-descriptors :
      (o : Option ℕ) (v : Vfs W) → (open_file_retain o v).descriptors ≡ v.descriptors
  unfolding open_file_retain set_file
  open_file_retain-descriptors none v = refl
  open_file_retain-descriptors (some k) v = refl

  pub open_file_release-descriptors :
      (o : Option ℕ) (v : Vfs W) → (open_file_release o v).descriptors ≡ v.descriptors
  unfolding open_file_release set_file
  open_file_release-descriptors none v = refl
  open_file_release-descriptors (some k) v = refl

  pub add_reference-descriptors :
      (e : PipeEnd) (v : Vfs W) → (add_reference e v).descriptors ≡ v.descriptors
  unfolding add_reference set_pipe
  add_reference-descriptors no_pipe v = refl
  add_reference-descriptors (read_end k) v = refl
  add_reference-descriptors (write_end k) v = refl

  pub drop_reference-descriptors :
      (e : PipeEnd) (v : Vfs W) → (drop_reference e v).descriptors ≡ v.descriptors
  unfolding drop_reference set_pipe
  drop_reference-descriptors no_pipe v = refl
  drop_reference-descriptors (read_end k) v = refl
  drop_reference-descriptors (write_end k) v = refl

-- What a used descriptor refers to is counted.
pub LiveFile-get_or :
    (fds : List Fd) (s : ℕ)
    → (get_or fds s no_fd).used ≡ true
    → LiveFile (λ i. tally (to_file i) fds) (get_or fds s no_fd).file
LiveFile-get_or fds s u = go (get_or fds s no_fd).file refl
  where
    go : (o : Option ℕ) → (get_or fds s no_fd).file ≡ o → LiveFile (λ i. tally (to_file i) fds) o
    go none e = tt
    go (some k) e =
        let one : to_file k (get_or fds s no_fd) ≡ 1 = rw (u, e) (ground arith) in
        omega (arith, tally-get_or (to_file k) fds s refl, one)

pub LivePipe-get_or :
    (fds : List Fd) (s : ℕ)
    → (get_or fds s no_fd).used ≡ true
    → LivePipe (λ i. tally (reads i) fds) (λ i. tally (writes i) fds) (get_or fds s no_fd).pipe
LivePipe-get_or fds s u = go (get_or fds s no_fd).pipe refl
  where
    go :
        (e : PipeEnd)
        → (get_or fds s no_fd).pipe ≡ e
        → LivePipe (λ i. tally (reads i) fds) (λ i. tally (writes i) fds) e
    go no_pipe e = tt
    go (read_end k) e =
        let one : reads k (get_or fds s no_fd) ≡ 1 = rw (u, e) (ground arith) in
        omega (arith, tally-get_or (reads k) fds s refl, one)
    go (write_end k) e =
        let one : writes k (get_or fds s no_fd) ≡ 1 = rw (u, e) (ground arith) in
        omega (arith, tally-get_or (writes k) fds s refl, one)
