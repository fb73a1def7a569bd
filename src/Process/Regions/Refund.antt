-- ===== src/Process/Regions/Refund.antt =====
-- What process_munmap of src/kernel/process.c walks along is what the cut gives back.
use cone_os.Process.Regions.{Region, splits, trim, upper_part, cut_regions, covered_from}
use cone_os.Process.Regions.Coverage.{IsRegion, IsTable}
use cone_os.Process.Regions.Cutting.{
  HasSlot, cut_regions-whole, cut_regions-split, length-trim, trim-free,
}
use cone_os.Prelude.{
  ℕ, ◌+◌, ◌-◌, ◌%◌, ◌<◌, ◌≡◌, refl, true, false, Bool-cases, Option-cases, inl, inr, none, some,
  List, [], ◌∷◌, map, All, arith, ap,
}
use cone_os.Process.Regions.Account.{bytes, bytes-set, size, overlap, overlaps}
use cone_os.Process.Regions.Walk.{covered_from-overlaps}
use cone_os.Process.Regions.Trimming.{upper_part-Apart-none}

trim_size :
    (low high : ℕ) (r : Region)
    → low < high
    → splits low high r ≡ false
    → IsRegion r
    → size (trim low high r) + overlap low high r ≡ size r
trim_size low high r h e a = ground (arith, a)

split_size :
    (low high : ℕ) (r : Region)
    → low < high
    → splits low high r ≡ true
    → size (trim low high r) + (overlap low high r + (r.end - high)) ≡ size r
split_size low high r h e = ground arith

bytes-trim :
    (low high : ℕ) (rs : List Region)
    → low < high
    → All IsRegion rs
    → upper_part low high rs ≡ none
    → bytes (map (trim low high) rs) + overlaps low high rs ≡ bytes rs
unfolding bytes overlaps upper_part
bytes-trim low high [] h a e = refl
bytes-trim low high (r ∷ rs) h a e = elim (Option-cases (upper_part low high rs)) [
  | inl k ↦
      let s : splits low high r ≡ false = ground (arith, k, e) in
      omega (arith, trim_size low high r h s a.0, bytes-trim low high rs h a.1 k)
  | inr (u, k) ↦ ground (arith, k, e)
]

bytes-split :
    (low high : ℕ) (rs : List Region) (u : Region)
    → low < high
    → IsTable rs
    → upper_part low high rs ≡ some u
    → bytes (map (trim low high) rs) + (overlaps low high rs + size u) ≡ bytes rs
unfolding bytes overlaps upper_part
bytes-split low high [] u h a e = ground arith
bytes-split low high (r ∷ rs) u h ((a, bs), (p, ps)) e =
    elim (Option-cases (upper_part low high rs)) [
      | inl k ↦
          let s : splits low high r ≡ true = ground (arith, k, e) in
          let same : u ≡ record r { start = high } = ground (arith, k, e) in
          let used : size u ≡ r.end - high = ground (arith, same, s) in
          omega (arith, split_size low high r h s, bytes-trim low high rs h bs k, used)
      | inr (v, k) ↦
          let same : u ≡ v = ground (arith, k, e) in
          let s : splits low high r ≡ false = elim (Bool-cases (splits low high r)) [
            | inl t ↦ ground (arith, k, upper_part-Apart-none low high h r rs p t)
            | inr t ↦ t
          ] in
          let ih = bytes-split low high rs v h (bs, ps) k in
          omega (arith, trim_size low high r h s a, ih, ap size same)
    ]

-- The cut gives back just what the walk has passed over.
pub cut_regions-bytes :
    (slot low high fuel : ℕ) (rs : List Region) (h : low < high)
    (aligned : (low % 4096 ≡ 0) × (high % 4096 ≡ 0))
    → IsTable rs
    → HasSlot low high h aligned slot rs
    → covered_from fuel rs low high ≡ some true
    → bytes (cut_regions slot low high rs) + (high - low) ≡ bytes rs
cut_regions-bytes slot low high fuel rs h aligned t free e =
    let part = covered_from-overlaps fuel rs low high t (omega arith) e in
    elim (Option-cases (upper_part low high rs)) [
      | inl k ↦
          rw (cut_regions-whole low high h aligned slot rs k)
            (omega (arith, part, bytes-trim low high rs h t.0 k))
      | inr (u, k) ↦
          let (room, unused) = free u k in
          let ts = map (trim low high) rs in
          let put =
            bytes-set ts slot u (omega (arith, length-trim low high h aligned rs, room))
              (trim-free low high h aligned rs slot u unused) in
          rw (cut_regions-split low high h aligned slot rs u k)
            (omega (arith, part, put, bytes-split low high rs u h t k))
    ]
