-- ===== src/Process/Regions/Room.antt =====
-- A free place of src/kernel/process.c in terms of its addresses and pages.
use cone_os.Process.Regions.{Region, covers, meets, any_mapped, mmap_limit}
use cone_os.Process.Regions.Coverage.{view, IsRegion}
use cone_os.Process.Regions.Choosing.{IsFree, Misses}
use cone_os.Prelude.{
  ℕ, zero, suc, ◌+◌, ◌*◌, ◌/◌, ◌%◌, ◌<◌, ◌≤◌, ◌≡◌, refl, subst, max, Bool, true, false, Bool-cases,
  inl, inr, none, List, [], ◌∷◌, All, arith, page_size,
}

-- From the address on there are so many bytes of whole pages within the bounds that no region covers,
-- and no page of which is mapped.
abbrev pub IsRoom : (ℕ → Bool) → List Region → ℕ → ℕ → Type 0
IsRoom mapped rs length a =
    (a + length ≤ mmap_limit)
    × ((a % 4096 ≡ 0)
        × (((x : ℕ) → a ≤ x → x < a + length → view rs x ≡ none)
            × ((k : ℕ) → k * 4096 < length → mapped (a + k * 4096) ≡ false)))

Misses-view :
    (low high x : ℕ) (rs : List Region)
    → All (Misses low high) rs
    → low ≤ x
    → x < high
    → view rs x ≡ none
Misses-view low high x [] m h l = refl
Misses-view low high x (r ∷ rs) m h l = ground (arith, m.0, h, l, Misses-view low high x rs m.1 h l)

view-tail : (r : Region) (rs : List Region) (x : ℕ) → view (r ∷ rs) x ≡ none → view rs x ≡ none
view-tail r rs x e = elim (Bool-cases (covers x r)) [
  | inl c ↦ absurd (ground (arith, c, e))
  | inr c ↦ ground (arith, c, e)
]

view-Misses :
    (low high : ℕ) (rs : List Region)
    → All IsRegion rs
    → low < high
    → ((x : ℕ) → low ≤ x → x < high → view rs x ≡ none)
    → All (Misses low high) rs
view-Misses low high [] g h bare = tt
view-Misses low high (r ∷ rs) g h bare = (
  elim (Bool-cases (meets low high r)) [
    | inr e ↦ e
    | inl e ↦
        let used : r.used ≡ true = ground (arith, e) in
        let (_, (proper, _)) = g.0 used in
        let x = max low r.start in
        let inside : covers x r ≡ true = ground (arith, e, proper, used) in
        absurd (ground (arith, inside, bare x (omega arith) (ground (arith, e, h))))
  ],
  view-Misses low high rs g.1 h (λ x k l. view-tail r rs x (bare x k l)),
)

any_mapped-false :
    (mapped : ℕ → Bool) (n a k : ℕ)
    → any_mapped mapped n a ≡ false
    → k < n
    → mapped (a + k * 4096) ≡ false
unfolding any_mapped
any_mapped-false mapped zero a k e h = absurd (omega arith)
any_mapped-false mapped (suc n) a zero e h =
    let here : a ≡ a + 0 * 4096 = omega arith in
    subst (λ b. mapped b ≡ false) here (ground (arith, e))
any_mapped-false mapped (suc n) a (suc k) e h =
    let there : a + 4096 + k * 4096 ≡ a + suc k * 4096 = omega arith in
    subst (λ b. mapped b ≡ false) there
      (any_mapped-false mapped n (a + 4096) k (ground (arith, e)) (omega arith))

any_mapped_none :
    (mapped : ℕ → Bool) (n a : ℕ)
    → ((k : ℕ) → k < n → mapped (a + k * 4096) ≡ false)
    → any_mapped mapped n a ≡ false
unfolding any_mapped
any_mapped_none mapped zero a h = refl
any_mapped_none mapped (suc n) a h =
    let here : a + 0 * 4096 ≡ a = omega arith in
    let first : mapped a ≡ false = subst (λ b. mapped b ≡ false) here (h 0 (omega arith)) in
    let rest = any_mapped_none mapped n (a + 4096) (λ k l.
      let there : a + suc k * 4096 ≡ a + 4096 + k * 4096 = omega arith in
      subst (λ b. mapped b ≡ false) there (h (suc k) (omega arith))) in
    ground (arith, first, rest)

module _ (mapped : ℕ → Bool) (rs : List Region) (length a : ℕ) where
  pub IsFree-IsRoom : length % 4096 ≡ 0 → IsFree mapped rs length a → IsRoom mapped rs length a
  IsFree-IsRoom whole (high, (aligned, (misses, free))) = (
    high,
    (
      aligned,
      (
        λ x k l. Misses-view a (a + length) x rs misses k l,
        λ k l. any_mapped-false mapped (length / page_size) a k free (omega (arith, l, whole)),
      ),
    ),
  )

  pub IsRoom-IsFree :
      All IsRegion rs
      → (length % 4096 ≡ 0) × (0 < length)
      → IsRoom mapped rs length a
      → IsFree mapped rs length a
  IsRoom-IsFree g (whole, some_length) (high, (aligned, (bare, free))) = (
    high,
    (
      aligned,
      (
        view-Misses a (a + length) rs g (omega (arith, some_length)) bare,
        any_mapped_none mapped (length / page_size) a (λ k l. free k (omega (arith, l, whole))),
      ),
    ),
  )
