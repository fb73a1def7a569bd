-- ===== src/Process/Image/Bytes.antt =====
-- The bytes that create_process_image of src/kernel/process.c writes.
use cone_os.Process.Image.{store_bytes}
use cone_os.Prelude.{
  ℕ, zero, suc, ◌+◌, ◌<◌, ◌≤◌, ◌≡◌, ◌⊎◌, refl, true, ◌==◌, inl, List, [], ◌∷◌, length, length-set,
  get_or, get_or-set, get_or-set_ne, set, arith, ◌∙◌,
}

pub length-store_bytes :
    (page : List ℕ) (offset : ℕ) (bs : List ℕ) → length (store_bytes page offset bs) ≡ length page
unfolding store_bytes
length-store_bytes page offset [] = refl
length-store_bytes page offset (b ∷ bs) =
    length-store_bytes (set page offset b) (offset + 1) bs ∙ length-set page offset b

pub store_bytes_outside :
    (page : List ℕ) (offset : ℕ) (bs : List ℕ) (j : ℕ)
    → (j < offset) ⊎ (offset + length bs ≤ j)
    → get_or (store_bytes page offset bs) j 0 ≡ get_or page j 0
unfolding store_bytes
store_bytes_outside page offset [] j h = refl
store_bytes_outside page offset (b ∷ bs) j h =
    store_bytes_outside (set page offset b) (offset + 1) bs j (ground (arith, h))
    ∙ get_or-set_ne page offset j b 0 (λ e. ground (arith, e, h))

-- The bytes stand in the page from the offset on.
abbrev pub HasBytes : List ℕ → ℕ → List ℕ → Type 0
HasBytes page offset bs = (j : ℕ) → j < length bs → get_or page (offset + j) 0 ≡ get_or bs j 0

pub store_bytes-HasBytes :
    (page : List ℕ) (offset : ℕ) (bs : List ℕ)
    → offset + length bs ≤ length page
    → HasBytes (store_bytes page offset bs) offset bs
unfolding store_bytes
store_bytes-HasBytes page offset [] h j k = absurd (omega arith)
store_bytes-HasBytes page offset (b ∷ bs) h zero k =
    let e : offset + 0 ≡ offset = omega arith in
    let same : (offset == offset) ≡ true = ground arith in
    rw (e) (
      store_bytes_outside (set page offset b) (offset + 1) bs offset (inl (omega arith))
      ∙ get_or-set page offset offset b 0 (omega (arith, h))
      ∙ rw (same) refl)
store_bytes-HasBytes page offset (b ∷ bs) h (suc j) k =
    let e : offset + suc j ≡ (offset + 1) + j = omega arith in
    rw (e) (
      store_bytes-HasBytes (set page offset b) (offset + 1) bs
        (omega (arith, h, length-set page offset b)) j (omega (arith, k)))

-- Bytes elsewhere stay.
pub store_bytes-keeps :
    (page : List ℕ) (offset at : ℕ) (bs cs : List ℕ)
    → (at + length cs ≤ offset) ⊎ (offset + length bs ≤ at)
    → HasBytes page at cs
    → HasBytes (store_bytes page offset bs) at cs
store_bytes-keeps page offset at bs cs h k j l =
    store_bytes_outside page offset bs (at + j) (ground (arith, h, l)) ∙ k j l
