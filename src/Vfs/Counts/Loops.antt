-- ===== src/Vfs/Counts/Loops.antt =====
-- The references of src/fs/vfs.c stay counted in vfs_close_all, vfs_inherit_standard and vfs_fork.
use cone_os.Prelude.{
  ℕ, zero, suc, ◌<◌, ◌≡◌, sym, subst, Bool, true, false, ◌||◌, some, List, [], ◌∷◌, length, get_or,
  arith, inl, inr, Bool-cases, Option-cases, ltb,
}
use cone_os.Vfs.{Vfs, Fd, no_fd}
use cone_os.Vfs.Tables.{first_unused, lookup, pipe_used}
use cone_os.Vfs.Descriptors.{is_owned, ensure_standard_streams, close_one, close_from, close_all}
use cone_os.Vfs.Inheritance.{
  owned, unused, inherit_to, inherit_from, inherit_standard, fork_one, fork_from, fork_locked, fork,
}
use cone_os.Vfs.Counts.Tally.{
  first_unused_lem, lookup_lem, IsCounted, LiveFile-get_or, LivePipe-get_or,
}
use cone_os.Vfs.Counts.Slots.{copy_to-IsCounted, close_slot-IsCounted, inherit_to_lem}
use cone_os.Vfs.Counts.Calls.{wake-IsCounted, ensure-IsCounted}

-- A used slot is in the table.
pub in_descriptors : (fds : List Fd) (i : ℕ) → (get_or fds i no_fd).used ≡ true → i < length fds
in_descriptors [] i u = absurd (cc)
in_descriptors (fd ∷ fds) zero u = omega arith
in_descriptors (fd ∷ fds) (suc i) u = omega (arith, in_descriptors fds i u)

module _ {W : Type 0} where
  close_one-IsCounted :
      (owner i : ℕ) (closed_pipe : Bool) (v : Vfs W)
      → IsCounted v
      → IsCounted (close_one owner i (closed_pipe, v)).1
  unfolding close_one
  close_one-IsCounted owner i closed_pipe v c =
      elim (Bool-cases (is_owned owner (get_or v.descriptors i no_fd))) [
        | inl e ↦
            let used : (get_or v.descriptors i no_fd).used ≡ true = ground arith in
            rw (e, close_one)
              (close_slot-IsCounted i v (in_descriptors v.descriptors i used) used c)
        | inr e ↦ rw (e, close_one) c
      ]

  close_from-IsCounted :
      (left i owner : ℕ) (s : Bool × Vfs W)
      → IsCounted s.1
      → IsCounted (close_from left i owner s).1
  unfolding close_from
  close_from-IsCounted zero i owner s c = c
  close_from-IsCounted (suc left) i owner (closed_pipe, v) c =
      close_from-IsCounted left (suc i) owner (close_one owner i (closed_pipe, v))
        (close_one-IsCounted owner i closed_pipe v c)

  pub close_all-IsCounted : (owner : ℕ) (v : Vfs W) → IsCounted v → IsCounted (close_all owner v)
  unfolding close_all
  close_all-IsCounted owner v c =
      let s : Bool × Vfs W = close_from (length v.descriptors) 0 owner (false, v) in
      let k : IsCounted s.1 = close_from-IsCounted (length v.descriptors) 0 owner (false, v) c in
      elim (Bool-cases s.0) [ inl e ↦ rw e (wake-IsCounted s.1 k) | inr e ↦ rw e k ]

  pub inherit_to-IsCounted :
      (i s child : ℕ) (v : Vfs W)
      → first_unused v.descriptors ≡ some i
      → (get_or v.descriptors s no_fd).used ≡ true
      → IsCounted v
      → IsCounted (inherit_to i (get_or v.descriptors s no_fd) child v)
  inherit_to-IsCounted i s child v e used c =
      let (b, u) = first_unused_lem v.descriptors i e in
      subst IsCounted (sym (inherit_to_lem i s child v used c)) (
        copy_to-IsCounted i (get_or v.descriptors s no_fd) child
          (get_or v.descriptors s no_fd).number v b u (LiveFile-get_or v.descriptors s used)
          (LivePipe-get_or v.descriptors s used) c)

  inherit_from-IsCounted :
      (left number parent child : ℕ) (v : Vfs W)
      → IsCounted v
      → IsCounted (inherit_from left number parent child v).1
  unfolding inherit_from
  inherit_from-IsCounted zero number parent child v c = c
  inherit_from-IsCounted (suc left) number parent child v c =
      elim (Option-cases (lookup parent number v.descriptors)) [
        | inl e ↦ rw (e, inherit_from) (close_all-IsCounted child v c)
        | inr (s, e) ↦ elim (Option-cases (first_unused v.descriptors)) [
          | inl e' ↦ rw (e, inherit_from, e') (close_all-IsCounted child v c)
          | inr (i, e') ↦
              let (b, d) = lookup_lem parent number v.descriptors s e in
              rw (e, inherit_from, e')
                (inherit_from-IsCounted left (suc number) parent child
                  (inherit_to i (get_or v.descriptors s no_fd) child v)
                  (inherit_to-IsCounted i s child v e' (ground arith) c))
        ]
      ]

  pub inherit_standard-IsCounted :
      (parent child : ℕ) (v : Vfs W) → IsCounted v → IsCounted (inherit_standard parent child v).1
  unfolding inherit_standard
  inherit_standard-IsCounted parent child v c =
      inherit_from-IsCounted 3 0 parent child (close_all child (ensure_standard_streams parent v))
        (close_all-IsCounted child (ensure_standard_streams parent v) (ensure-IsCounted parent v c))

  fork_one-IsCounted :
      (i parent child : ℕ) (s t : Bool × Vfs W)
      → fork_one i parent child s ≡ some t
      → IsCounted s.1
      → IsCounted t.1
  unfolding fork_one
  fork_one-IsCounted i parent child (inherited, v) t h c =
      elim (Bool-cases (is_owned parent (get_or v.descriptors i no_fd))) [
        | inr e ↦
            let same : t ≡ (inherited, v) = ground arith in
            subst (λ (t : Bool × Vfs W). IsCounted t.1) (sym same) c
        | inl e ↦ elim (Option-cases (first_unused v.descriptors)) [
          | inl e' ↦ absurd (ground arith)
          | inr (k, e') ↦
              let source : Fd = get_or v.descriptors i no_fd in
              let next : t ≡ (inherited || pipe_used source.pipe v, inherit_to k source child v) =
                ground arith in
              subst (λ (t : Bool × Vfs W). IsCounted t.1) (sym next)
                (inherit_to-IsCounted k i child v e' (ground arith) c)
        ]
      ]

  fork_from-IsCounted :
      (left i parent child : ℕ) (s : Bool × Vfs W)
      → IsCounted s.1
      → IsCounted (fork_from left i parent child s).1
  unfolding fork_from
  fork_from-IsCounted zero i parent child (true, v) c = wake-IsCounted v c
  fork_from-IsCounted zero i parent child (false, v) c = c
  fork_from-IsCounted (suc left) i parent child (inherited, v) c =
      elim (Option-cases (fork_one i parent child (inherited, v))) [
        | inl e ↦ rw (e, fork_from) (close_all-IsCounted child v c)
        | inr (t, e) ↦
            rw (e, fork_from)
              (fork_from-IsCounted left (suc i) parent child t
                (fork_one-IsCounted i parent child (inherited, v) t e c))
      ]

  pub fork-IsCounted :
      (parent child : ℕ) (v : Vfs W) → IsCounted v → IsCounted (fork parent child v).1
  unfolding fork fork_locked
  fork-IsCounted parent child v c =
      let u : Vfs W = close_all child (ensure_standard_streams parent v) in
      let k : IsCounted u =
        close_all-IsCounted child (ensure_standard_streams parent v)
          (ensure-IsCounted parent v c) in
      elim (Bool-cases (ltb (unused u.descriptors) (owned parent u.descriptors))) [
        | inl e ↦ rw e k
        | inr e ↦ rw e (fork_from-IsCounted (length u.descriptors) 0 parent child (false, u) k)
      ]
