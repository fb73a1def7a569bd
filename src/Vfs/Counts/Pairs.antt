-- ===== src/Vfs/Counts/Pairs.antt =====
-- The references of src/fs/vfs.c stay counted in vfs_dup2, vfs_close and vfs_pipe.
use cone_os.Prelude.{
  length-drop, ℕ, zero, suc, ◌+◌, ◌<◌, ◌≡◌, ◌≢◌, refl, sym, ◌∙◌, ap, subst, true, false, ◌&&◌, none,
  some, List, [], ◌∷◌, length, get_or, set, drop, get_or-set, get_or-set_ne, length-set, arith, inl,
  inr, Bool-cases, Option-cases, ltb, ◌==◌,
}
use cone_os.Vfs.{Vfs, Fd, Pipe, no_pipe, read_end, write_end, no_fd, no_pipe_at, set_fd, set_pipe}
use cone_os.Vfs.Tables.{first_unused, first_unused_pipe, lookup}
use cone_os.Vfs.Descriptors.{
  pipe_fd, fresh_pipe, is_pipe, two_unused, two_numbers, make_pipe, pipe_locked, copy_to, give_up,
  dup2_slot, dup2_locked, close_slot, close,
}
use cone_os.Vfs.Counts.Tally.{
  tally, to_file, reads, writes, tally-set, first_unused_lem, lookup_lem, IsCounted,
  LiveFile-get_or, LivePipe-get_or,
}
use cone_os.Vfs.Counts.Slots.{
  copy_to-IsCounted, close_slot-IsCounted, close_slot-descriptors, copy_to-give_up,
}
use cone_os.Vfs.Counts.Calls.{wake-IsCounted, first_unused_pipe_lem}

module _ {W : Type 0} where
  -- The destination's slot is closed, and the source is copied there.
  replaced :
      (owner s source i destination : ℕ) (v : Vfs W)
      → source ≢ destination
      → lookup owner source v.descriptors ≡ some s
      → lookup owner destination v.descriptors ≡ some i
      → IsCounted v
      → IsCounted (
          copy_to i
            (get_or v.descriptors s no_fd)
            owner
            destination
            (give_up (get_or v.descriptors i no_fd) v))
  replaced owner s source i destination v ne e e' c =
      let (bs, ds) = lookup_lem owner source v.descriptors s e in
      let (bi, di) = lookup_lem owner destination v.descriptors i e' in
      let apart : i ≢ s = λ (q : i ≡ s). ne (numbers q ds di) in
      let used : (get_or v.descriptors s no_fd).used ≡ true = ground arith in
      let used_i : (get_or v.descriptors i no_fd).used ≡ true = ground arith in
      let closed : Vfs W = close_slot i v in
      let fds = close_slot-descriptors i v in
      let gap : Fd = record (get_or v.descriptors i no_fd) {
        used = false;
        file = none;
        pipe = no_pipe;
      } in
      let same : get_or closed.descriptors s no_fd ≡ get_or v.descriptors s no_fd =
        ap (λ (l : List Fd). get_or l s no_fd) fds
        ∙ get_or-set_ne v.descriptors i s gap no_fd apart in
      let still : (get_or closed.descriptors s no_fd).used ≡ true =
        ap (λ (fd : Fd). fd.used) same ∙ used in
      let free : get_or closed.descriptors i no_fd ≡ gap =
        ap (λ (l : List Fd). get_or l i no_fd) fds
        ∙ (rw (get_or-set v.descriptors i i gap no_fd bi) (ground arith)) in
      subst IsCounted (sym (copy_to-give_up i (get_or v.descriptors s no_fd) owner destination v)) (
        subst (λ (fd : Fd). IsCounted (copy_to i fd owner destination closed)) same
          (copy_to-IsCounted i (get_or closed.descriptors s no_fd) owner destination closed
            (omega (arith, ap (λ (l : List Fd). length l) fds, length-set v.descriptors i gap, bi))
            (ap (λ (fd : Fd). fd.used) free) (LiveFile-get_or closed.descriptors s still)
            (LivePipe-get_or closed.descriptors s still) (close_slot-IsCounted i v bi used_i c)))
    where
      numbers :
          i ≡ s
          → (get_or v.descriptors s no_fd).used
              && (get_or v.descriptors s no_fd).owner == owner
              && (get_or v.descriptors s no_fd).number == source
            ≡ true
          → (get_or v.descriptors i no_fd).used
              && (get_or v.descriptors i no_fd).owner == owner
              && (get_or v.descriptors i no_fd).number == destination
            ≡ true
          → source ≡ destination
      numbers q ds di = ground (arith, ap (λ (k : ℕ). (get_or v.descriptors k no_fd).number) q)

  copied :
      (owner number s i destination : ℕ) (v : Vfs W)
      → lookup owner number v.descriptors ≡ some s
      → first_unused v.descriptors ≡ some i
      → IsCounted v
      → IsCounted (copy_to i (get_or v.descriptors s no_fd) owner destination v)
  copied owner number s i destination v e e' c =
      let (b, d) = lookup_lem owner number v.descriptors s e in
      let (bi, u) = first_unused_lem v.descriptors i e' in
      let used : (get_or v.descriptors s no_fd).used ≡ true = ground arith in
      copy_to-IsCounted i (get_or v.descriptors s no_fd) owner destination v bi u
        (LiveFile-get_or v.descriptors s used) (LivePipe-get_or v.descriptors s used) c

  pub dup2_locked-IsCounted :
      (owner source destination : ℕ) (v : Vfs W)
      → IsCounted v
      → IsCounted (dup2_locked owner source destination v).1
  unfolding dup2_locked dup2_slot
  dup2_locked-IsCounted owner source destination v c =
      elim (Option-cases (lookup owner source v.descriptors)) [
        | inl e ↦ rw (e, dup2_locked) c
        | inr (s, e) ↦ elim (Bool-cases (source == destination)) [
          | inl q ↦ rw (e, dup2_locked, q) c
          | inr q ↦ elim (Option-cases (lookup owner destination v.descriptors)) [
            | inr (i, e') ↦
                rw (e, dup2_locked, q, dup2_slot, e')
                  (wake-IsCounted _ (replaced owner s source i destination v (ground arith) e e' c))
            | inl e' ↦ elim (Option-cases (first_unused v.descriptors)) [
              | inl e'' ↦ rw (e, dup2_locked, q, dup2_slot, e', e'') c
              | inr (i, e'') ↦
                  rw (e, dup2_locked, q, dup2_slot, e', e'')
                    (wake-IsCounted _ (copied owner source s i destination v e e'' c))
            ]
          ]
        ]
      ]

  pub close-IsCounted :
      (owner number : ℕ) (v : Vfs W) → IsCounted v → IsCounted (close owner number v).1
  unfolding close
  close-IsCounted owner number v c = elim (Option-cases (lookup owner number v.descriptors)) [
    | inl e ↦ rw (e, close) c
    | inr (i, e) ↦ elim (Bool-cases (ltb number 3)) [
      | inl q ↦ rw (e, close, q) c
      | inr q ↦ elim (Bool-cases (is_pipe (get_or v.descriptors i no_fd).pipe)) [
        | inl p ↦ rw (e, close, q, p) (wake-IsCounted _ (closed i e))
        | inr p ↦ rw (e, close, q, p) (closed i e)
      ]
    ]
  ]
    where
      closed : (i : ℕ) → lookup owner number v.descriptors ≡ some i → IsCounted (close_slot i v)
      closed i e =
          let (b, d) = lookup_lem owner number v.descriptors i e in
          close_slot-IsCounted i v b (ground arith) c

zero_add : (i : ℕ) → 0 + i ≡ i
zero_add i = omega arith

suc_add : (n i : ℕ) → suc n + i ≡ suc (n + i)
suc_add n i = omega arith

get_or-drop : (n i : ℕ) (fds : List Fd) → get_or (drop n fds) i no_fd ≡ get_or fds (n + i) no_fd
get_or-drop zero i fds = rw (zero_add i) refl
get_or-drop (suc n) i [] = refl
get_or-drop (suc n) i (fd ∷ fds) = rw (suc_add n i) (get_or-drop n i fds)

pub two_unused_lem :
    (fds : List Fd) (i j : ℕ)
    → two_unused fds ≡ some (i, j)
    → (i < length fds)
      × ((get_or fds i no_fd).used ≡ false)
      × (j < length fds)
      × ((get_or fds j no_fd).used ≡ false)
      × (i < j)
unfolding two_unused
two_unused_lem fds i j h = elim (Option-cases (first_unused fds)) [
  | inl e ↦ absurd (ground arith)
  | inr (a, e) ↦ elim (Option-cases (first_unused (drop (suc a) fds))) [
    | inl e' ↦ absurd (ground arith)
    | inr (b, e') ↦
        let (ba, ua) = first_unused_lem fds a e in
        let (bb, ub) = first_unused_lem (drop (suc a) fds) b e' in
        let ei : i ≡ a = ground arith in
        let ej : j ≡ suc a + b = ground arith in
        rw (ei, ej)
          (
            ba,
            ua,
            omega (arith, length-drop (suc a) fds),
            ap (λ (fd : Fd). fd.used) (sym (get_or-drop (suc a) b fds)) ∙ ub,
            omega arith,
          )
  ]
]

tally-two :
    (g : Fd → ℕ) (fds : List Fd) (i j : ℕ) (a b : Fd)
    → i < length fds
    → j < length fds
    → i < j
    → g (get_or fds i no_fd) ≡ 0
    → g (get_or fds j no_fd) ≡ 0
    → tally g (set (set fds i a) j b) ≡ tally g fds + g a + g b
tally-two g fds i j a b bi bj lt zi zj =
    let keep : g (get_or (set fds i a) j no_fd) ≡ g (get_or fds j no_fd) =
      ap g (get_or-set_ne fds i j a no_fd (λ q. absurd (omega (arith, q)))) in
    omega (
      arith,
      keep,
      tally-set g fds i a bi,
      tally-set g (set fds i a) j b (omega (arith, length-set fds i a)),
    )

module _ {W : Type 0} where
  -- The two descriptors of a new pipe are one reader and one writer.
  made :
      (owner p i j a b : ℕ) (v : Vfs W)
      → first_unused_pipe v.pipes ≡ some p
      → two_unused v.descriptors ≡ some (i, j)
      → IsCounted v
      → IsCounted (make_pipe owner p (i, j) (a, b) v)
  unfolding IsCounted set_fd set_pipe
  made owner p i j a b v e e' c =
      let (bp, up) = first_unused_pipe_lem v.pipes p e in
      let (bi, ui, bj, uj, lt) = two_unused_lem v.descriptors i j e' in
      let A : Fd = pipe_fd owner a (read_end p) in
      let B : Fd = pipe_fd owner b (write_end p) in
      let P : Pipe = fresh_pipe (get_or v.pipes p no_pipe_at) in
      let files = λ (k : ℕ).
        tally-two (to_file k) v.descriptors i j A B bi bj lt (ground arith) (ground arith) in
      let ends = λ (k : ℕ).
        tally-two (reads k) v.descriptors i j A B bi bj lt (ground arith) (ground arith) in
      let starts = λ (k : ℕ).
        tally-two (writes k) v.descriptors i j A B bi bj lt (ground arith) (ground arith) in
      record {
        files = λ k. ground (arith, c.files k, files k);
        files_used = λ k. ground (arith, c.files_used k, files k);
        readers = λ k.
            ground
              (arith, get_or-set v.pipes p k P no_pipe_at bp, c.readers k, c.pipes_used p, ends k);
        writers = λ k.
            ground (
              arith,
              get_or-set v.pipes p k P no_pipe_at bp,
              c.writers k,
              c.pipes_used p,
              starts k,
            );
        pipes_used = λ k. ground (
          arith,
          get_or-set v.pipes p k P no_pipe_at bp,
          c.pipes_used k,
          c.pipes_used p,
          ends k,
          starts k,
        );
      }

  pub pipe_locked-IsCounted :
      (owner : ℕ) (v : Vfs W) → IsCounted v → IsCounted (pipe_locked owner v).1
  unfolding pipe_locked
  pipe_locked-IsCounted owner v c = elim (Option-cases (first_unused_pipe v.pipes)) [
    | inl e ↦ rw (e, pipe_locked) c
    | inr (p, e) ↦ elim (Option-cases (two_numbers owner v.descriptors)) [
      | inl e' ↦ rw (e, pipe_locked, e') c
      | inr ((a, b), e') ↦ elim (Option-cases (two_unused v.descriptors)) [
        | inl e'' ↦ rw (e, pipe_locked, e', e'') c
        | inr ((i, j), e'') ↦ rw (e, pipe_locked, e', e'') (made owner p i j a b v e e'' c)
      ]
    ]
  ]
