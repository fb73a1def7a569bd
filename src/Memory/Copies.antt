-- ===== src/Memory/Copies.antt =====
-- What the copies of src/lib/memory.c leave at each address.
use cone_os.Prelude.{
  ℕ, zero, suc, ◌+◌, ◌%◌, ◌<◌, ◌≤◌, ◌≡◌, ◌≢◌, refl, ◌∙◌, ◌⊎◌, inl, inr, List, get_or, set, length,
  length-set, get_or-set, get_or-set_ne, arith, Bool-cases, ltb, ◌==◌, ℕ_discrete,
}
use cone_os.Memory.{memset, memcpy, memmove, copy_down}

memcpy-outside :
    (memory : List ℕ) (d s count i : ℕ)
    → (i < d) ⊎ (d + count ≤ i)
    → get_or (memcpy memory d s count) i 0 ≡ get_or memory i 0
unfolding memcpy
memcpy-outside memory d s zero i away = refl
memcpy-outside memory d s (suc count) i away =
    memcpy-outside _ (d + 1) (s + 1) count i (further away)
    ∙ get_or-set_ne memory d i _ 0 (differs away)
  where
    further : (i < d) ⊎ (d + suc count ≤ i) → (i < d + 1) ⊎ (d + 1 + count ≤ i)
    further (inl h) = inl (omega arith)
    further (inr h) = inr (omega arith)

    differs : (i < d) ⊎ (d + suc count ≤ i) → d ≢ i
    differs (inl h) e = omega arith
    differs (inr h) e = omega arith

set-here : (memory : List ℕ) (d v : ℕ) → d < length memory → get_or (set memory d v) d 0 ≡ v
set-here memory d v bound = ground (arith, get_or-set memory d d v 0 bound)

memcpy-inside :
    (memory : List ℕ) (d s count j : ℕ)
    → j < count
    → d + count ≤ length memory
    → (d ≤ s) ⊎ (s + count ≤ d)
    → get_or (memcpy memory d s count) (d + j) 0 ≡ get_or memory (s + j) 0
unfolding memcpy
memcpy-inside memory d s zero j lt fit apart = absurd (omega arith)
memcpy-inside memory d s (suc count) zero lt fit apart =
    let here : d + 0 ≡ d = omega arith in
    let there : s + 0 ≡ s = omega arith in
    rw (here, there)
      (memcpy-outside _ (d + 1) (s + 1) count d (inl (omega arith))
        ∙ set-here memory d (get_or memory s 0) (omega arith))
memcpy-inside memory d s (suc count) (suc j) lt fit apart =
    let here : d + suc j ≡ d + 1 + j = omega arith in
    let there : s + suc j ≡ s + 1 + j = omega arith in
    rw (here, there)
      (memcpy-inside (set memory d (get_or memory s 0)) (d + 1) (s + 1) count j (omega arith)
          (omega (arith, length-set memory d (get_or memory s 0))) (closer apart)
        ∙ get_or-set_ne memory d (s + 1 + j) _ 0 (differs apart))
  where
    closer : (d ≤ s) ⊎ (s + suc count ≤ d) → (d + 1 ≤ s + 1) ⊎ (s + 1 + count ≤ d + 1)
    closer (inl h) = inl (omega arith)
    closer (inr h) = inr (omega arith)

    differs : (d ≤ s) ⊎ (s + suc count ≤ d) → d ≢ s + 1 + j
    differs (inl h) e = omega arith
    differs (inr h) e = omega arith

copy_down-outside :
    (memory : List ℕ) (d s count i : ℕ)
    → (i < d) ⊎ (d + count ≤ i)
    → get_or (copy_down memory d s count) i 0 ≡ get_or memory i 0
unfolding copy_down
copy_down-outside memory d s zero i away = refl
copy_down-outside memory d s (suc count) i away =
    copy_down-outside (set memory (d + count) (get_or memory (s + count) 0)) d s count i
      (further away)
    ∙ get_or-set_ne memory (d + count) i _ 0 (differs away)
  where
    further : (i < d) ⊎ (d + suc count ≤ i) → (i < d) ⊎ (d + count ≤ i)
    further (inl h) = inl h
    further (inr h) = inr (omega arith)

    differs : (i < d) ⊎ (d + suc count ≤ i) → d + count ≢ i
    differs (inl h) e = omega arith
    differs (inr h) e = omega arith

copy_down-inside :
    (memory : List ℕ) (d s count j : ℕ)
    → j < count
    → d + count ≤ length memory
    → s ≤ d
    → get_or (copy_down memory d s count) (d + j) 0 ≡ get_or memory (s + j) 0
unfolding copy_down
copy_down-inside memory d s zero j lt fit below = absurd (omega arith)
copy_down-inside memory d s (suc count) j lt fit below = elim (ℕ_discrete j count) [
  | yes e ↦ rw e (
      copy_down-outside (set memory (d + count) (get_or memory (s + count) 0)) d s count (d + count)
        (inr (omega arith))
      ∙ set-here memory (d + count) (get_or memory (s + count) 0) (omega arith))
  | no ne ↦
      copy_down-inside (set memory (d + count) (get_or memory (s + count) 0)) d s count j
        (omega arith) (omega (arith, length-set memory (d + count) (get_or memory (s + count) 0)))
        below
      ∙ get_or-set_ne memory (d + count) (s + j) _ 0 (λ e. omega arith)
]

-- The destination holds what the source held before, and every other byte is as it was.
abbrev pub Copied : List ℕ → ℕ → ℕ → ℕ → List ℕ → Type 0
Copied memory d s count after =
    ((j : ℕ) → j < count → get_or after (d + j) 0 ≡ get_or memory (s + j) 0)
    × ((i : ℕ) → (i < d) ⊎ (d + count ≤ i) → get_or after i 0 ≡ get_or memory i 0)

-- memmove copies the bytes that the source held before the call, however the two ranges overlap, and
-- writes nowhere else, if the destination lies in the memory.
pub memmove_lem :
    (memory : List ℕ) (d s count : ℕ)
    → d + count ≤ length memory
    → Copied memory d s count (memmove memory d s count)
unfolding memmove
memmove_lem memory d s count fit = elim (Bool-cases (d == s)) [
  | inl same ↦ rw same (λ j lt. ground arith, λ i away. refl)
  | inr other ↦ rw other (elim (Bool-cases (ltb d s)) [
    | inl up ↦ rw up (
      λ j lt. memcpy-inside memory d s count j lt fit (inl (ground arith)),
      λ i away. memcpy-outside memory d s count i away,
    )
    | inr down ↦ rw down (
      λ j lt. copy_down-inside memory d s count j lt fit (ground arith),
      λ i away. copy_down-outside memory d s count i away,
    )
  ])
]

-- memcpy does the same when the ranges do not overlap, or when the destination is the lower one.
pub memcpy_lem :
    (memory : List ℕ) (d s count : ℕ)
    → d + count ≤ length memory
    → (d ≤ s) ⊎ (s + count ≤ d)
    → Copied memory d s count (memcpy memory d s count)
memcpy_lem memory d s count fit apart = (
  λ j lt. memcpy-inside memory d s count j lt fit apart,
  λ i away. memcpy-outside memory d s count i away,
)

-- memset fills the range with the low byte of the value and writes nowhere else, if the range lies in
-- the memory.
pub memset_lem :
    (memory : List ℕ) (d value count i : ℕ)
    → d + count ≤ length memory
    → ((d ≤ i) × (i < d + count) × (get_or (memset memory d value count) i 0 ≡ value % 256))
      ⊎ (((i < d) ⊎ (d + count ≤ i))
          × (get_or (memset memory d value count) i 0 ≡ get_or memory i 0))
unfolding memset
memset_lem memory d value zero i fit = inr (ground arith, refl)
memset_lem memory d value (suc count) i fit =
    elim (memset_lem (set memory d (value % 256)) (d + 1) value count i
      (omega (arith, length-set memory d (value % 256)))) [
        | inl (low, high, e) ↦ inl (omega arith, omega arith, e)
        | inr (away, e) ↦ elim (ℕ_discrete d i) [
          | yes same ↦ inl (omega arith, omega arith, e ∙ written same)
          | no other ↦
              inr (elsewhere other away, e ∙ get_or-set_ne memory d i (value % 256) 0 other)
        ]
      ]
  where
    written : d ≡ i → get_or (set memory d (value % 256)) i 0 ≡ value % 256
    written same = ground (arith, get_or-set memory d i (value % 256) 0 (omega arith))

    elsewhere : d ≢ i → (i < d + 1) ⊎ (d + 1 + count ≤ i) → (i < d) ⊎ (d + suc count ≤ i)
    elsewhere ne (inl h) = inl (omega arith)
    elsewhere ne (inr h) = inr (omega arith)
