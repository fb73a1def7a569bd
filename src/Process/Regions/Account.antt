-- ===== src/Process/Regions/Account.antt =====
-- The memory that the regions of src/kernel/process.c reserve, in bytes and in pages.
use cone_os.Process.Regions.{Region, region_pages}
use cone_os.Process.Regions.Coverage.{IsRegion, Apart}
use cone_os.Prelude.{
  ℕ, zero, suc, ◌+◌, ◌-◌, ◌*◌, ◌<◌, ◌≤◌, ◌≡◌, refl, true, false, ltb, List, [], ◌∷◌, set, get_or,
  length, All, if◌then◌else◌, arith,
}

abbrev pub size : Region → ℕ
size r = if r.used then r.end - r.start else 0

unfoldable pub bytes : List Region → ℕ
bytes [] = 0
bytes (r ∷ rs) = size r + bytes rs

-- What of a region lies from `low` to `high`.
abbrev pub overlap : ℕ → ℕ → Region → ℕ
overlap low high r =
    if r.used
    then (if ltb r.end high then r.end else high) - (if ltb r.start low then low else r.start)
    else 0

unfoldable pub overlaps : ℕ → ℕ → List Region → ℕ
overlaps low high [] = 0
overlaps low high (r ∷ rs) = overlap low high r + overlaps low high rs

pub region_pages-bytes : (rs : List Region) → All IsRegion rs → region_pages rs * 4096 ≡ bytes rs
unfolding region_pages bytes
region_pages-bytes [] h = refl
region_pages-bytes (r ∷ rs) h = ground (arith, region_pages-bytes rs h.1, h.0)

pub overlaps_add :
    (low middle high : ℕ) (rs : List Region)
    → low ≤ middle
    → middle ≤ high
    → All IsRegion rs
    → overlaps low middle rs + overlaps middle high rs ≡ overlaps low high rs
unfolding overlaps
overlaps_add low middle high [] h k a = refl
overlaps_add low middle high (r ∷ rs) h k a =
    ground (arith, overlaps_add low middle high rs h k a.1, a.0)

pub overlaps-Apart :
    (low high : ℕ) (r : Region) (rs : List Region)
    → All (Apart r) rs
    → All IsRegion rs
    → r.used ≡ true
    → r.start ≤ low
    → high ≤ r.end
    → overlaps low high rs ≡ 0
unfolding overlaps
overlaps-Apart low high r [] a b u h k = refl
overlaps-Apart low high r (s ∷ rs) a b u h k =
    ground (arith, overlaps-Apart low high r rs a.1 b.1 u h k, a.0, b.0)

pub bytes-set :
    (rs : List Region) (i : ℕ) (u : Region)
    → i < length rs
    → (get_or rs i u).used ≡ false
    → bytes (set rs i u) ≡ bytes rs + size u
unfolding bytes
bytes-set [] i u h f = absurd (omega arith)
bytes-set (r ∷ rs) zero u h f = ground (arith, f)
bytes-set (r ∷ rs) (suc i) u h f = omega (arith, bytes-set rs i u (omega arith) f)
