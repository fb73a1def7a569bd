-- ===== src/Scheduling/Rotation.antt =====
-- The order in which next_ready_task of src/kernel/task.c looks at the tasks.
use cone_os.Prelude.{
  ℕ, ◌≡◌, ◌≢◌, sym, ◌∙◌, true, false, inl, inr, none, some, List, [], ◌∷◌, ◌++◌, ◌==◌, Bool-cases,
  All, All-map, Pairwise, ==→eq, ==_false,
}
use cone_os.Scheduling.Tasks.{Task, is_ready, rest_of, up_to, first_ready}
use cone_os.Scheduling.Invariant.{Differ}

module _ (P : Task → Type 0) where
  All-append : (xs ys : List Task) → All P xs → All P ys → All P (xs ++ ys)
  All-append [] ys h k = k
  All-append (x ∷ xs) ys h k = (h.0, All-append xs ys h.1 k)

  All-rest_of : (id : ℕ) (ts : List Task) → All P ts → All P (rest_of id ts)
  unfolding rest_of
  All-rest_of id [] h = tt
  All-rest_of id (t ∷ ts) h = elim (Bool-cases (t.id == id)) [
    | inl e ↦ rw e h.1
    | inr e ↦ rw e (All-rest_of id ts h.1)
  ]

  All-up_to : (id : ℕ) (ts : List Task) → All P ts → All P (up_to id ts)
  unfolding up_to
  All-up_to id [] h = tt
  All-up_to id (t ∷ ts) h = elim (Bool-cases (t.id == id)) [
    | inl e ↦ rw e tt
    | inr e ↦ rw e (h.0, All-up_to id ts h.1)
  ]

  pub All-rotation : (id : ℕ) (ts : List Task) → All P ts → All P (rest_of id ts ++ up_to id ts)
  All-rotation id ts h =
      All-append (rest_of id ts) (up_to id ts) (All-rest_of id ts h) (All-up_to id ts h)

  -- All the tasks but the current one satisfy `P` if its rotation does.
  pub rotation-All :
      (id : ℕ) (ts : List Task)
      → All P (rest_of id ts ++ up_to id ts)
      → All (λ t. t.id ≢ id → P t) ts
  unfolding rest_of up_to
  rotation-All id [] h = tt
  rotation-All id (t ∷ ts) h = elim (Bool-cases (t.id == id)) [
    | inl e ↦
        let rest : All P (ts ++ []) = rw e at h in
        (λ ne. absurd (ne (==→eq t.id id e)), weaken ts [] rest)
    | inr e ↦
        let rest : All P (rest_of id ts ++ (t ∷ up_to id ts)) = rw e at h in
        let (here, others) = take_out (rest_of id ts) rest in
        (λ ne. here, rotation-All id ts others)
  ]
    where
      weaken : (xs ys : List Task) → All P (xs ++ ys) → All (λ t. t.id ≢ id → P t) xs
      weaken [] ys k = tt
      weaken (x ∷ xs) ys k = (λ ne. k.0, weaken xs ys k.1)

      take_out :
          (xs : List Task) → All P (xs ++ (t ∷ up_to id ts)) → P t × All P (xs ++ up_to id ts)
      take_out [] k = k
      take_out (x ∷ xs) k = let (p, r) = take_out xs k.1 in (p, (k.0, r))

  -- What holds of each task holds of the one chosen.
  pub first_ready-All : (ts : List Task) (t : Task) → All P ts → first_ready ts ≡ some t → P t
  unfolding first_ready
  first_ready-All [] t h e = absurd (cc)
  first_ready-All (u ∷ ts) t h e = elim (Bool-cases (is_ready u.state)) [
    | inl b ↦ subst_some (rw b at e)
    | inr b ↦ first_ready-All ts t h.1 (rw b at e)
  ]
    where
      subst_some : some u ≡ some t → P t
      subst_some e' = let same : u ≡ t = cc in rw (← same) h.0

pub first_ready-ready :
    (ts : List Task) (t : Task) → first_ready ts ≡ some t → is_ready t.state ≡ true
unfolding first_ready
first_ready-ready [] t e = absurd (cc)
first_ready-ready (u ∷ ts) t e = elim (Bool-cases (is_ready u.state)) [
  | inl b ↦ let same : u ≡ t = cc (rw b at e) in rw (← same) b
  | inr b ↦ first_ready-ready ts t (rw b at e)
]

pub first_ready-none :
    (ts : List Task) → first_ready ts ≡ none → All (λ t. is_ready t.state ≡ false) ts
unfolding first_ready
first_ready-none [] e = tt
first_ready-none (u ∷ ts) e = elim (Bool-cases (is_ready u.state)) [
  | inl b ↦ absurd (cc (rw b at e))
  | inr b ↦ (b, first_ready-none ts (rw b at e))
]

-- The rotation from the current task on leaves the current task out.
pub rotation-others :
    (id : ℕ) (ts : List Task)
    → Pairwise Differ ts
    → All (λ t. t.id ≢ id) (rest_of id ts ++ up_to id ts)
unfolding rest_of up_to
rotation-others id ts h =
    All-append (λ t. t.id ≢ id) (rest_of id ts) (up_to id ts) (after ts h) (before ts)
  where
    after : (ts : List Task) → Pairwise Differ ts → All (λ t. t.id ≢ id) (rest_of id ts)
    after [] h = tt
    after (t ∷ ts) h = elim (Bool-cases (t.id == id)) [
      | inl e ↦
          rw e
            (All-map (Differ t) (λ u. u.id ≢ id) (λ u ne e'. ne (==→eq t.id id e ∙ sym e')) ts h.0)
      | inr e ↦ rw e (after ts h.1)
    ]

    before : (ts : List Task) → All (λ t. t.id ≢ id) (up_to id ts)
    before [] = tt
    before (t ∷ ts) = elim (Bool-cases (t.id == id)) [
      | inl e ↦ rw e tt
      | inr e ↦ rw e (==_false t.id id e, before ts)
    ]
