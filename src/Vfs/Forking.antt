-- ===== src/Vfs/Forking.antt =====
-- vfs_fork of src/fs/vfs.c gives the child a copy of every descriptor of its parent.
use cone_os.Prelude.{
  ℕ, zero, suc, ◌+◌, ◌<◌, ◌≤◌, ◌≡◌, ◌≢◌, ◌⊎◌, inl, inr, refl, sym, ◌∙◌, ap, subst, Bool, true,
  false, ◌||◌, some, List, [], ◌∷◌, length, get_or, get_or-set, get_or-set_ne, set, drop, arith,
  ltb, ◌==◌, ==→eq, ==_false, if◌then◌else◌, Bool-cases,
}
use cone_os.Vfs.{Vfs, Fd, PipeEnd, no_fd, set_fd, wake}
use cone_os.Vfs.Tables.{first_unused, retain_reference, pipe_used, open_file_retain}
use cone_os.Vfs.Descriptors.{ensure_standard_streams, is_owned, close_all}
use cone_os.Vfs.Inheritance.{owned, unused, inherit_to, fork_one, fork_from, fork_locked, fork}
use cone_os.Vfs.Counts.Tally.{
  first_unused_lem, open_file_retain-descriptors, add_reference-descriptors,
}

-- Counting over the slots from `i` on.
owned-drop :
    (p i : ℕ) (fds : List Fd)
    → owned p (drop i fds)
      ≡ (if is_owned p (get_or fds i no_fd) then 1 else 0) + owned p (drop (suc i) fds)
unfolding owned
owned-drop p zero [] = refl
owned-drop p zero (fd ∷ fds) = refl
owned-drop p (suc i) [] = refl
owned-drop p (suc i) (fd ∷ fds) = owned-drop p i fds

owned-set :
    (p t : ℕ) (x : Fd) (fds : List Fd)
    → is_owned p (get_or fds t no_fd) ≡ false
    → is_owned p x ≡ false
    → owned p (set fds t x) ≡ owned p fds
unfolding owned
owned-set p t x [] h k = refl
owned-set p zero x (fd ∷ fds) h k = rw (h, k) refl
owned-set p (suc t) x (fd ∷ fds) h k =
    ap (λ (n : ℕ). (if is_owned p fd then 1 else 0) + n) (owned-set p t x fds h k)

owned-drop-set :
    (p i t : ℕ) (x : Fd) (fds : List Fd)
    → is_owned p (get_or fds t no_fd) ≡ false
    → is_owned p x ≡ false
    → owned p (drop i (set fds t x)) ≡ owned p (drop i fds)
owned-drop-set p zero t x fds h k = owned-set p t x fds h k
owned-drop-set p (suc i) t x [] h k = refl
owned-drop-set p (suc i) zero x (fd ∷ fds) h k = refl
owned-drop-set p (suc i) (suc t) x (fd ∷ fds) h k = owned-drop-set p i t x fds h k

unused-set :
    (t : ℕ) (x : Fd) (fds : List Fd)
    → t < length fds
    → (get_or fds t no_fd).used ≡ false
    → x.used ≡ true
    → suc (unused (set fds t x)) ≡ unused fds
unfolding unused
unused-set t x [] b u k = absurd (omega arith)
unused-set zero x (fd ∷ fds) b u k = rw (u, k) (omega arith)
unused-set (suc t) x (fd ∷ fds) b u k = omega (arith, unused-set t x fds (omega arith) u k)

first_unused_exists : (fds : List Fd) → 0 < unused fds → (t : ℕ) × (first_unused fds ≡ some t)
unfolding unused first_unused
first_unused_exists [] h = absurd (omega arith)
first_unused_exists (fd ∷ fds) h = elim (Bool-cases fd.used) [
  | inr e ↦ (0, rw e refl)
  | inl e ↦ let (t, k) = first_unused_exists fds (ground arith) in (suc t, ground (arith, e, k))
]

module _ {W : Type 0} where
  retain_reference-descriptors :
      (e : PipeEnd) (v : Vfs W) → (retain_reference e v).descriptors ≡ v.descriptors
  unfolding retain_reference
  retain_reference-descriptors e v = elim (Bool-cases (pipe_used e v)) [
    | inl u ↦ rw u (add_reference-descriptors e v)
    | inr u ↦ rw u refl
  ]

  inherit_to-descriptors :
      (i : ℕ) (source : Fd) (child : ℕ) (v : Vfs W)
      → (inherit_to i source child v).descriptors
        ≡ set v.descriptors i (record source { owner = child })
  unfolding inherit_to set_fd
  inherit_to-descriptors i source child v =
      let at : Vfs W = set_fd i (record source { owner = child }) v in
      retain_reference-descriptors source.pipe (open_file_retain source.file at)
      ∙ open_file_retain-descriptors source.file at

-- What was in use stays, and each descriptor of the parent in a slot before `i` has a copy.
pub record Mirrors (parent child i : ℕ) (before now : List Fd) : Type 0 where
  pub kept :
      (j : ℕ) → (get_or before j no_fd).used ≡ true → get_or now j no_fd ≡ get_or before j no_fd
  pub copied :
      (j : ℕ)
      → j < i
      → is_owned parent (get_or before j no_fd) ≡ true
      → (k : ℕ) × (get_or now k no_fd ≡ record (get_or before j no_fd) { owner = child })

-- A slot of the parent that the loop comes to is as it was.
record Going (parent child i : ℕ) (before now : List Fd) : Type 0 where
  mirrors : Mirrors parent child i before now
  ours : (j : ℕ) → is_owned parent (get_or now j no_fd) ≡ is_owned parent (get_or before j no_fd)
  enough : owned parent (drop i now) ≤ unused now

-- The loop passes a slot that is not the parent's.
passed_by :
    (p c i : ℕ) (before now : List Fd)
    → is_owned p (get_or now i no_fd) ≡ false
    → Going p c i before now
    → Going p c (suc i) before now
passed_by p c i before now e g = record {
  mirrors = record {
    kept = g.mirrors.kept;
    copied = λ j l o. elim (Bool-cases (j == i)) [
      | inl q ↦ absurd (not_ours j (ground (arith, q)) o)
      | inr q ↦ g.mirrors.copied j (ground (arith, q)) o
    ];
  };
  ours = g.ours;
  enough = ground (arith, owned-drop p i now, g.enough, e);
}
  where
    not_ours : (j : ℕ) → j ≡ i → is_owned p (get_or before j no_fd) ≡ true → ⊥
    not_ours j q o =
        let a : is_owned p (get_or now j no_fd) ≡ true = g.ours j ∙ o in
        let b : is_owned p (get_or now j no_fd) ≡ false =
          ap (λ (k : ℕ). is_owned p (get_or now k no_fd)) q ∙ e in
        absurd (cc)

module _ (p c i t : ℕ) (before now : List Fd) (apart : p ≢ c)
    (source : is_owned p (get_or now i no_fd) ≡ true) (slot : first_unused now ≡ some t)
    (g : Going p c i before now) where
  there : (t < length now) × ((get_or now t no_fd).used ≡ false)
  there = first_unused_lem now t slot

  abbrev copy : Fd
  copy = record (get_or now i no_fd) { owner = c }

  -- A slot in use is another one than that of the copy.
  elsewhere :
      (j : ℕ)
      → (get_or now j no_fd).used ≡ true
      → get_or (set now t copy) j no_fd ≡ get_or now j no_fd
  elsewhere j u = get_or-set_ne now t j copy no_fd (λ q. absurd (clash q))
    where
      clash : t ≡ j → ⊥
      clash q =
          let e : false ≡ true = sym there.1 ∙ ap (λ (k : ℕ). (get_or now k no_fd).used) q ∙ u in
          absurd (cc)

  at_copy : get_or (set now t copy) t no_fd ≡ copy
  at_copy = get_or-set now t t copy no_fd there.0 ∙ (ground arith)

  used_source : (get_or now i no_fd).used ≡ true
  used_source = ground (arith, source)

  kept_before :
      (j : ℕ)
      → (get_or before j no_fd).used ≡ true
      → get_or (set now t copy) j no_fd ≡ get_or before j no_fd
  kept_before j u =
      let same = g.mirrors.kept j u in elsewhere j (ap (λ (fd : Fd). fd.used) same ∙ u) ∙ same

  copied_one :
      (j : ℕ)
      → j < suc i
      → is_owned p (get_or before j no_fd) ≡ true
      → (k : ℕ) × (get_or (set now t copy) k no_fd ≡ record (get_or before j no_fd) { owner = c })
  copied_one j l o = elim (Bool-cases (j == i)) [
    | inl q ↦
        let same : get_or now i no_fd ≡ get_or before j no_fd =
          ap (λ (k : ℕ). get_or now k no_fd) (sym (==→eq j i q))
          ∙ g.mirrors.kept j (ground (arith, o)) in
        (t, at_copy ∙ ap (λ (fd : Fd). record fd { owner = c }) same)
    | inr q ↦
        let (k, e) = g.mirrors.copied j (ground (arith, q)) o in
        let u : (get_or now k no_fd).used ≡ true =
          ap (λ (fd : Fd). fd.used) e ∙ (ground (arith, o)) in
        (k, elsewhere k u ∙ e)
  ]

  not_ours : is_owned p copy ≡ false
  not_ours = ground (arith, apart)

  free : is_owned p (get_or now t no_fd) ≡ false
  free = ground (arith, there.1)

  ours_still :
      (j : ℕ) → is_owned p (get_or (set now t copy) j no_fd) ≡ is_owned p (get_or before j no_fd)
  ours_still j = elim (Bool-cases (t == j)) [
    | inl q ↦
        let e : t ≡ j = ==→eq t j q in
        ap (λ (k : ℕ). is_owned p (get_or (set now t copy) k no_fd)) (sym e)
        ∙ ap (is_owned p) at_copy
        ∙ not_ours
        ∙ sym free
        ∙ ap (λ (k : ℕ). is_owned p (get_or now k no_fd)) e
        ∙ g.ours j
    | inr q ↦ ap (is_owned p) (get_or-set_ne now t j copy no_fd (==_false t j q)) ∙ g.ours j
  ]

  copied_by : Going p c (suc i) before (set now t copy)
  copied_by = record {
    mirrors = record { kept = kept_before; copied = copied_one };
    ours = ours_still;
    enough = ground (
      arith,
      owned-drop p i now,
      g.enough,
      source,
      owned-drop-set p (suc i) t copy now free not_ours,
      unused-set t copy now there.0 there.1 used_source,
    );
  }

add_zero : (i : ℕ) → i + 0 ≡ i
add_zero i = omega arith

add_suc : (i n : ℕ) → suc i + n ≡ i + suc n
add_suc i n = omega arith

owned_at :
    (p i : ℕ) (fds : List Fd) → is_owned p (get_or fds i no_fd) ≡ true → 0 < owned p (drop i fds)
owned_at p i fds o = ground (arith, owned-drop p i fds, o)

module _ {W : Type 0} (p c : ℕ) (apart : p ≢ c) where
  -- Every round finds a slot.
  fork_one-Going :
      (i : ℕ) (before : List Fd) (inherited : Bool) (v : Vfs W)
      → Going p c i before v.descriptors
      → (s : Bool × Vfs W) × (fork_one i p c (inherited, v) ≡ some s)
        × Going p c (suc i) before s.1.descriptors
  unfolding fork_one
  fork_one-Going i before inherited v g =
      elim (Bool-cases (is_owned p (get_or v.descriptors i no_fd))) [
        | inr e ↦ ((inherited, v), rw e refl, passed_by p c i before v.descriptors e g)
        | inl e ↦
            let source : Fd = get_or v.descriptors i no_fd in
            let (t, slot) =
              first_unused_exists v.descriptors
                (omega (arith, g.enough, owned_at p i v.descriptors e)) in
            (
              (inherited || pipe_used source.pipe v, inherit_to t source c v),
              rw (e, slot) refl,
              subst (Going p c (suc i) before) (sym (inherit_to-descriptors t source c v))
                  (copied_by p c i t before v.descriptors apart e slot g),
            )
      ]

  fork_from-suc :
      (left i : ℕ) (s t : Bool × Vfs W)
      → fork_one i p c s ≡ some t
      → fork_from (suc left) i p c s ≡ fork_from left (suc i) p c t
  unfolding fork_from
  fork_from-suc left i (inherited, v) t e = rw (e, fork_from) refl

  abbrev Done : ℕ → List Fd → Bool × Vfs W → Type 0
  Done i before s = (s.0 ≡ true) × Mirrors p c i before s.1.descriptors

  fork_from-Going :
      (left i : ℕ) (before : List Fd) (s : Bool × Vfs W)
      → Going p c i before s.1.descriptors
      → Done (i + left) before (fork_from left i p c s)
  unfolding fork_from wake
  fork_from-Going zero i before (true, v) g = (refl, rw (add_zero i) g.mirrors)
  fork_from-Going zero i before (false, v) g = (refl, rw (add_zero i) g.mirrors)
  fork_from-Going (suc left) i before (inherited, v) g =
      let (t, e, h) = fork_one-Going i before inherited v g in
      subst (Done (i + suc left) before) (sym (fork_from-suc left i (inherited, v) t e)) (
        subst (λ (n : ℕ). Done n before (fork_from left (suc i) p c t)) (add_suc i left)
          (fork_from-Going left (suc i) before t h))

zero_add : (n : ℕ) → 0 + n ≡ n
zero_add n = omega arith

begun : (p c : ℕ) (fds : List Fd) → owned p fds ≤ unused fds → Going p c 0 fds fds
begun p c fds h = record {
  mirrors = record { kept = λ j u. refl; copied = λ j l o. absurd (omega arith) };
  ours = λ j. refl;
  enough = h;
}

-- vfs_fork, after it has made the parent's streams and closed the child's descriptors, returns 0 and
-- changes nothing if there are fewer unused slots than descriptors of the parent. Otherwise it returns 1,
-- every descriptor in use stays, and each descriptor of the parent has a copy that differs from it in the
-- owner only. Condition: the child is another task than the parent.
pub fork_lem :
    {W : Type 0} (parent child : ℕ) (v : Vfs W)
    → parent ≢ child
    → let ready = close_all child (ensure_standard_streams parent v) in
      let (ok, after) = fork parent child v in
      ((ok ≡ true)
        × (owned parent ready.descriptors ≤ unused ready.descriptors)
        × Mirrors parent child (length ready.descriptors) ready.descriptors after.descriptors)
      ⊎ ((ok ≡ false)
          × (unused ready.descriptors < owned parent ready.descriptors)
          × (after ≡ ready))
unfolding fork fork_locked
fork_lem parent child v apart =
    let ready = close_all child (ensure_standard_streams parent v) in
    elim (Bool-cases (ltb (unused ready.descriptors) (owned parent ready.descriptors))) [
      | inl e ↦ rw e (inr (refl, ground (arith, e), refl))
      | inr e ↦
          let (ok, m) =
            fork_from-Going parent child apart (length ready.descriptors) 0 ready.descriptors
              (false, ready) (begun parent child ready.descriptors (ground (arith, e))) in
          rw e (
            inl (
              ok,
              ground (arith, e),
              subst
                  (λ (n : ℕ).
                    Mirrors parent child n ready.descriptors
                      (fork_from (length ready.descriptors) 0 parent child
                        (false, ready)).1.descriptors)
                  (zero_add (length ready.descriptors)) m,
            ))
    ]
