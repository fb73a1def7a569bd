-- ===== src/Process/Pids.antt =====
-- The process ids in the table of src/kernel/process.c.
use cone_os.Process.{Process, is_unused, find_process, free_process_record}
use cone_os.Prelude.{
  ℕ, zero, suc, ◌+◌, ◌<◌, ◌≤◌, ◌≡◌, ◌≢◌, true, false, Option-cases, inl, inr, some, List, [], ◌∷◌,
  length, get_or, set, All, All-set, Pairwise, arith, sym, ◌∙◌,
}

All_at :
    (P : Process → Type 0) (ps : List Process) (i : ℕ) (d : Process)
    → All P ps
    → i < length ps
    → P (get_or ps i d)
All_at P [] i d a h = absurd (omega arith)
All_at P (p ∷ ps) zero d a h = a.0
All_at P (p ∷ ps) (suc i) d a h = All_at P ps i d a.1 (omega arith)

-- Two records in use have different ids.
abbrev pub Differ : Process → Process → Type 0
Differ p q = is_unused p.state ≡ false → is_unused q.state ≡ false → p.pid ≢ q.pid

abbrev pub IsBelow : ℕ → Process → Type 0
IsBelow n p = is_unused p.state ≡ false → p.pid < n

-- Records in use have ids of their own, below those of the tasks to come.
abbrev pub IsTable : ℕ → List Process → Type 0
IsTable n ps = All (IsBelow n) ps × Pairwise Differ ps

pub find_process_lem :
    (pid : ℕ) (ps : List Process) (i : ℕ) (d : Process)
    → find_process pid ps ≡ some i
    → (i < length ps) × (((get_or ps i d).pid ≡ pid) × (is_unused (get_or ps i d).state ≡ false))
unfolding find_process
find_process_lem pid [] i d e = ground arith
find_process_lem pid (p ∷ ps) zero d e = elim (Option-cases (find_process pid ps)) [
  | inl k ↦ ground (arith, k, e)
  | inr (j, k) ↦ ground (arith, k, e)
]
find_process_lem pid (p ∷ ps) (suc i) d e = elim (Option-cases (find_process pid ps)) [
  | inl k ↦ ground (arith, k, e)
  | inr (j, k) ↦ ground (arith, k, e, find_process_lem pid ps i d)
]

pub free_process_record_lem :
    (ps : List Process) (i : ℕ) (d : Process)
    → free_process_record ps ≡ some i
    → (i < length ps) × (is_unused (get_or ps i d).state ≡ true)
unfolding free_process_record
free_process_record_lem [] i d e = ground arith
free_process_record_lem (p ∷ ps) zero d e = elim (Option-cases (free_process_record ps)) [
  | inl k ↦ ground (arith, k, e)
  | inr (j, k) ↦ ground (arith, k, e)
]
free_process_record_lem (p ∷ ps) (suc i) d e = elim (Option-cases (free_process_record ps)) [
  | inl k ↦ ground (arith, k, e)
  | inr (j, k) ↦ ground (arith, k, e, free_process_record_lem ps i d)
]

-- The search finds the record that has the id.
pub find_process_at :
    (n : ℕ) (ps : List Process) (i : ℕ) (d : Process)
    → IsTable n ps
    → i < length ps
    → is_unused (get_or ps i d).state ≡ false
    → find_process (get_or ps i d).pid ps ≡ some i
unfolding find_process
find_process_at n [] i d t h u = absurd (omega arith)
find_process_at n (p ∷ ps) zero d t h u = ground arith
find_process_at n (p ∷ ps) (suc i) d ((_, bs), (a, t)) h u =
    let ih = find_process_at n ps i d (bs, t) (omega arith) u in
    let other = All_at (Differ p) ps i d a (omega arith) in rw (ih) (ground (arith, other, u))

pub All-IsBelow : (n m : ℕ) (ps : List Process) → n ≤ m → All (IsBelow n) ps → All (IsBelow m) ps
All-IsBelow n m [] h a = tt
All-IsBelow n m (p ∷ ps) h (b, a) = (λ u. omega (arith, b u, h), All-IsBelow n m ps h a)

pub Differ-sym : (p q : Process) → Differ p q → Differ q p
Differ-sym p q h u v e = h v u (sym e)

Pairwise-set :
    (ps : List Process) (i : ℕ) (q : Process)
    → Pairwise Differ ps
    → All (Differ q) ps
    → Pairwise Differ (set ps i q)
Pairwise-set [] i q t a = t
Pairwise-set (p ∷ ps) zero q t a = (a.1, t.1)
Pairwise-set (p ∷ ps) (suc i) q t a =
    (All-set (Differ p) ps i q t.0 (Differ-sym q p a.0), Pairwise-set ps i q t.1 a.1)

-- A new id is none of those in use.
below-Differ :
    (n : ℕ) (q : Process) (ps : List Process) → q.pid ≡ n → All (IsBelow n) ps → All (Differ q) ps
below-Differ n q [] h a = tt
below-Differ n q (p ∷ ps) h (b, a) = (λ u v e. omega (arith, b v, h, e), below-Differ n q ps h a)

pub add-IsTable :
    (n : ℕ) (ps : List Process) (i : ℕ) (q : Process)
    → q.pid ≡ n
    → IsTable n ps
    → IsTable (n + 1) (set ps i q)
add-IsTable n ps i q h (a, t) = (
  All-set (IsBelow (n + 1)) ps i q (All-IsBelow n (n + 1) ps (omega arith) a)
      (λ u. omega (arith, h)),
  Pairwise-set ps i q t (below-Differ n q ps h a),
)

-- A record that keeps its id, or is given up.
abbrev pub Same : Process → Process → Type 0
Same p q = (q.pid ≡ p.pid) × (is_unused q.state ≡ false → is_unused p.state ≡ false)

Same-Differ : (p q r : Process) → Same p q → Differ r p → Differ r q
Same-Differ p q r s h u v e = h u (s.1 v) (e ∙ s.0)

head-Differ : (p q : Process) (ps : List Process) → Same p q → All (Differ p) ps → All (Differ q) ps
head-Differ p q [] s a = tt
head-Differ p q (r ∷ ps) s (e, a) =
    (Differ-sym r q (Same-Differ p q r s (Differ-sym p r e)), head-Differ p q ps s a)

Same-All :
    (P : Process → Type 0) (ps : List Process) (i : ℕ) (d q : Process)
    → ((p : Process) → Same p q → P p → P q)
    → i < length ps
    → Same (get_or ps i d) q
    → All P ps
    → All P (set ps i q)
Same-All P ps i d q f h s a = All-set P ps i q a (f (get_or ps i d) s (All_at P ps i d a h))

pub change-IsTable :
    (n : ℕ) (ps : List Process) (i : ℕ) (d q : Process)
    → i < length ps
    → Same (get_or ps i d) q
    → IsTable n ps
    → IsTable n (set ps i q)
change-IsTable n [] i d q h s t = absurd (omega arith)
change-IsTable n (p ∷ ps) zero d q h s ((b, a), (e, t)) =
    ((λ u. omega (arith, b (s.1 u), s.0), a), (head-Differ p q ps s e, t))
change-IsTable n (p ∷ ps) (suc i) d q h s ((b, a), (e, t)) =
    let (c, r) = change-IsTable n ps i d q (omega arith) s (a, t) in
    ((b, c), (Same-All (Differ p) ps i d q (λ o k g. Same-Differ o q p k g) (omega arith) s e, r))
