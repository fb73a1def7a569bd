-- ===== src/Process/Regions/Coverage.antt =====
-- The regions of src/kernel/process.c as a map from addresses to protections, and when a table of
-- regions is in order.
use cone_os.Process.Regions.{
  Region, covers, mapping_covering, mmap_start, mmap_limit, find_free_mapping_slot,
}
use cone_os.Prelude.{
  ℕ, zero, suc, ◌%◌, ◌<◌, ◌≤◌, ◌≡◌, ◌≢◌, ◌⊎◌, subst, sym, refl, true, false, Bool-cases,
  Option-cases, inl, inr, Option, none, some, List, [], ◌∷◌, set, get_or, length, All, All-set,
  Pairwise, if◌then◌else◌, arith,
}

-- The protection at an address, if a region covers it.
abbrev pub view : List Region → ℕ → Option ℕ
view [] address = none
view (r ∷ rs) address = if covers address r then some r.protection else view rs address

pub mapping_covering-view :
    (rs : List Region) (address : ℕ)
    → (elim (mapping_covering rs address) [ none ↦ none | some r ↦ some r.protection ])
      ≡ view rs address
unfolding mapping_covering
mapping_covering-view [] address = refl
mapping_covering-view (r ∷ rs) address = ground (arith, mapping_covering-view rs address)

pub view-none : (rs : List Region) (x : ℕ) → mapping_covering rs x ≡ none → view rs x ≡ none
unfolding mapping_covering
view-none [] x e = refl
view-none (r ∷ rs) x e = ground (arith, view-none rs x, e)

-- The region that covers an address covers what follows, up to its end.
pub view-some :
    (rs : List Region) (low x : ℕ) (r : Region)
    → mapping_covering rs low ≡ some r
    → low ≤ x
    → x < r.end
    → view rs x ≢ none
unfolding mapping_covering
view-some [] low x r e h k = ground arith
view-some (s ∷ rs) low x r e h k = elim (Bool-cases (covers low s)) [
  | inl c ↦
      let same : s ≡ r = ground (arith, c, e) in
      let fits : x < s.end = subst (λ t. x < t.end) (sym same) k in ground (arith, c, fits)
  | inr c ↦ ground (arith, c, view-some rs low x r, e)
]

-- A region in use is made of whole pages between the bounds.
abbrev pub IsRegion : Region → Type 0
IsRegion r =
    r.used ≡ true
    → (mmap_start ≤ r.start)
      × ((r.start < r.end) × ((r.end ≤ mmap_limit) × ((r.start % 4096 ≡ 0) × (r.end % 4096 ≡ 0))))

abbrev pub Apart : Region → Region → Type 0
Apart r s = r.used ≡ true → s.used ≡ true → (r.end ≤ s.start) ⊎ (s.end ≤ r.start)

abbrev pub IsTable : List Region → Type 0
IsTable rs = All IsRegion rs × Pairwise Apart rs

pub Apart-sym : (r s : Region) → Apart r s → Apart s r
Apart-sym r s h u v = elim (h v u) [ inl e ↦ inr e | inr e ↦ inl e ]

-- What lies apart from a region that covers the address does not cover it.
pub view-Apart :
    (r : Region) (rs : List Region) (address : ℕ)
    → All (Apart r) rs
    → covers address r ≡ true
    → view rs address ≡ none
view-Apart r [] address h e = refl
view-Apart r (s ∷ rs) address h e = ground (arith, h.0, view-Apart r rs address h.1)

-- A region put into an unused slot.
pub view-set :
    (rs : List Region) (i : ℕ) (u : Region) (address : ℕ)
    → i < length rs
    → (get_or rs i u).used ≡ false
    → All (Apart u) rs
    → view (set rs i u) address ≡ (if covers address u then some u.protection else view rs address)
view-set [] i u address h free a = absurd (omega arith)
view-set (r ∷ rs) zero u address h free a = ground (arith, view-Apart u rs address)
view-set (r ∷ rs) (suc i) u address h free a =
    ground (arith, view-set rs i u address (omega arith) free a.1, a.0)

pub Pairwise-set :
    (rs : List Region) (i : ℕ) (u : Region)
    → Pairwise Apart rs
    → All (Apart u) rs
    → Pairwise Apart (set rs i u)
Pairwise-set [] i u p a = p
Pairwise-set (r ∷ rs) zero u p a = (a.1, p.1)
Pairwise-set (r ∷ rs) (suc i) u p a =
    (All-set (Apart r) rs i u p.0 (Apart-sym u r a.0), Pairwise-set rs i u p.1 a.1)

pub find_free_mapping_slot_lem :
    (rs : List Region) (i : ℕ) (d : Region)
    → find_free_mapping_slot rs ≡ some i
    → (i < length rs) × ((get_or rs i d).used ≡ false)
unfolding find_free_mapping_slot
find_free_mapping_slot_lem [] i d e = ground arith
find_free_mapping_slot_lem (r ∷ rs) zero d e = elim (Option-cases (find_free_mapping_slot rs)) [
  | inl k ↦ ground (arith, k)
  | inr (j, k) ↦ ground (arith, k)
]
find_free_mapping_slot_lem (r ∷ rs) (suc i) d e = elim (Option-cases (find_free_mapping_slot rs)) [
  | inl k ↦ ground (arith, k)
  | inr (j, k) ↦ ground (arith, k, find_free_mapping_slot_lem rs i d)
]
