-- ===== src/Memory/Comparisons.antt =====
-- What memcmp of src/lib/memory.c returns.
use cone_os.Prelude.{
  ℕ, zero, suc, ◌+◌, ◌<◌, ◌≡◌, ◌≢◌, refl, ◌⊎◌, inl, inr, List, get_or, arith, Bool-cases, ◌==◌,
  ==→eq, ==_false,
}
use cone_os.Memory.{pos, byte_difference, memcmp}

abbrev Agree : List ℕ → ℕ → ℕ → ℕ → Type 0
Agree memory l r n = (i : ℕ) → i < n → get_or memory (l + i) 0 ≡ get_or memory (r + i) 0

Agree-suc :
    (memory : List ℕ) (l r n : ℕ)
    → get_or memory l 0 ≡ get_or memory r 0
    → Agree memory (l + 1) (r + 1) n
    → Agree memory l r (suc n)
Agree-suc memory l r n e h zero lt =
    let left : l + 0 ≡ l = omega arith in let right : r + 0 ≡ r = omega arith in rw (left, right) e
Agree-suc memory l r n e h (suc i) lt =
    let left : l + suc i ≡ l + 1 + i = omega arith in
    let right : r + suc i ≡ r + 1 + i = omega arith in rw (left, right) (h i (omega arith))

-- memcmp returns 0 if all bytes of the two ranges are equal, and otherwise the difference of the
-- first two bytes that differ.
pub memcmp_lem :
    (memory : List ℕ) (l r count : ℕ)
    → ((memcmp memory l r count ≡ pos 0)
        × ((i : ℕ) → i < count → get_or memory (l + i) 0 ≡ get_or memory (r + i) 0))
      ⊎ ((n : ℕ) × (n < count)
          × ((i : ℕ) → i < n → get_or memory (l + i) 0 ≡ get_or memory (r + i) 0)
          × (get_or memory (l + n) 0 ≢ get_or memory (r + n) 0)
          × (memcmp memory l r count
              ≡ byte_difference (get_or memory (l + n) 0) (get_or memory (r + n) 0)))
unfolding memcmp
memcmp_lem memory l r zero = inl (refl, λ i lt. absurd (omega arith))
memcmp_lem memory l r (suc count) = elim (Bool-cases (get_or memory l 0 == get_or memory r 0)) [
  | inl e ↦
      let same : get_or memory l 0 ≡ get_or memory r 0 = ==→eq _ _ e in
      rw (e, memcmp)
        (elim (memcmp_lem memory (l + 1) (r + 1) count) [
          | inl (zero_result, agree) ↦ inl (zero_result, Agree-suc memory l r count same agree)
          | inr (n, lt, agree, differ, result) ↦
              let left : l + suc n ≡ l + 1 + n = omega arith in
              let right : r + suc n ≡ r + 1 + n = omega arith in
              inr (
                suc n,
                omega arith,
                Agree-suc memory l r n same agree,
                rw (left, right) differ,
                rw (left, right) result,
              )
        ])
  | inr e ↦
      let left : l + 0 ≡ l = omega arith in
      let right : r + 0 ≡ r = omega arith in
      inr (
        0,
        omega arith,
        λ i lt. absurd (omega arith),
        rw (left, right) (==_false _ _ e),
        rw (left, right, e, memcmp) refl,
      )
]
