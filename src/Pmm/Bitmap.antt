-- ===== src/Pmm/Bitmap.antt =====
-- The page bitmap of src/mm/pmm.c: bitmap_test, bitmap_set and bitmap_clear on an array of bytes.
-- A set bit is a page that is in use.
use cone_os.Prelude.{
  ℕ, zero, suc, ◌+◌, ◌*◌, ◌/◌, ◌%◌, ◌≤◌, ◌<◌, ◌≡◌, refl, ◌≢◌, Bool, true, false, List, arith, ◌==◌,
  if◌then◌else◌, length, get_or, set, length-set, get_or-set, All, All-set, All-get_or, Bool-cases,
  inl, inr,
}
use cone_os.Prelude.Bytes.{
  test_bit, set_bit, clear_bit, set_bit-lt, clear_bit-lt, test_bit-set_bit, test_bit-clear_bit,
}

unfoldable pub bitmap_test : List ℕ → ℕ → Bool
bitmap_test bitmap page = test_bit (get_or bitmap (page / 8) 0) (page % 8)

unfoldable pub bitmap_set : List ℕ → ℕ → List ℕ
bitmap_set bitmap page = set bitmap (page / 8) (set_bit (get_or bitmap (page / 8) 0) (page % 8))

unfoldable pub bitmap_clear : List ℕ → ℕ → List ℕ
bitmap_clear bitmap page = set bitmap (page / 8) (clear_bit (get_or bitmap (page / 8) 0) (page % 8))

abbrev pub IsByte : ℕ → Type 0
IsByte b = b < 256

module _ (bm : List ℕ) (page : ℕ) where
  pub length-bitmap_set : length (bitmap_set bm page) ≡ length bm
  unfolding bitmap_set
  length-bitmap_set = length-set bm (page / 8) _

  pub length-bitmap_clear : length (bitmap_clear bm page) ≡ length bm
  unfolding bitmap_clear
  length-bitmap_clear = length-set bm (page / 8) _

  byte-lt : All IsByte bm → get_or bm (page / 8) 0 < 256
  byte-lt h = All-get_or IsByte bm (page / 8) 0 h (omega arith)

  pub bitmap_set-IsByte : All IsByte bm → All IsByte (bitmap_set bm page)
  unfolding bitmap_set
  bitmap_set-IsByte h =
      All-set IsByte bm (page / 8) _ h
        (set_bit-lt _ (page % 8) 0 (byte-lt h) (omega arith) (omega arith))

  pub bitmap_clear-IsByte : All IsByte bm → All IsByte (bitmap_clear bm page)
  unfolding bitmap_clear
  bitmap_clear-IsByte h =
      All-set IsByte bm (page / 8) _ h
        (clear_bit-lt _ (page % 8) 0 (byte-lt h) (omega arith) (omega arith))

-- Page `q` is in use after `page` is marked, if it was before or is `page`.
pub bitmap_test-set :
    (bm : List ℕ) (page q : ℕ)
    → All IsByte bm
    → page < 8 * length bm
    → bitmap_test (bitmap_set bm page) q ≡ (if page == q then true else bitmap_test bm q)
unfolding bitmap_test bitmap_set
bitmap_test-set bm page q h lt = ground (
  arith,
  get_or-set bm (page / 8) (q / 8) (set_bit (get_or bm (page / 8) 0) (page % 8)) 0,
  test_bit-set_bit (get_or bm (page / 8) 0) (page % 8) (q % 8) (byte-lt bm page h),
)

pub bitmap_test-clear :
    (bm : List ℕ) (page q : ℕ)
    → All IsByte bm
    → page < 8 * length bm
    → bitmap_test (bitmap_clear bm page) q ≡ (if page == q then false else bitmap_test bm q)
unfolding bitmap_test bitmap_clear
bitmap_test-clear bm page q h lt = ground (
  arith,
  get_or-set bm (page / 8) (q / 8) (clear_bit (get_or bm (page / 8) 0) (page % 8)) 0,
  test_bit-clear_bit (get_or bm (page / 8) 0) (page % 8) (q % 8) (byte-lt bm page h),
)

-- How many of the pages below `n` are free, by any test of use.
abbrev pub free_below : (ℕ → Bool) → ℕ → ℕ
free_below used zero = 0
free_below used (suc n) = free_below used n + (if used n then 0 else 1)

pub free_below_cong :
    (f g : ℕ → Bool) (n : ℕ) → ((p : ℕ) → p < n → f p ≡ g p) → free_below f n ≡ free_below g n
free_below_cong f g zero h = refl
free_below_cong f g (suc n) h =
    ground (arith, h n, free_below_cong f g n (λ p lt. h p (omega arith)))

-- Marking a free page takes one from the count.
pub free_below_use :
    (f g : ℕ → Bool) (page n : ℕ)
    → f page ≡ false
    → g page ≡ true
    → ((q : ℕ) → q ≢ page → g q ≡ f q)
    → page < n
    → free_below g n + 1 ≡ free_below f n
free_below_use f g page zero off on other lt = absurd (omega arith)
free_below_use f g page (suc n) off on other lt = elim (Bool-cases (page == n)) [
  | inl e ↦ ground (arith, free_below_cong g f n (λ p l. other p (ground arith)))
  | inr e ↦ ground (arith, other n, free_below_use f g page n off on other)
]

abbrev pub free_count : List ℕ → ℕ → ℕ
free_count bm n = free_below (bitmap_test bm) n

module _ (bm : List ℕ) (page n : ℕ) (bytes : All IsByte bm) (room : page < 8 * length bm) where
  pub free_count-set :
      page < n
      → bitmap_test bm page ≡ false
      → free_count (bitmap_set bm page) n + 1 ≡ free_count bm n
  free_count-set lt off =
      free_below_use (bitmap_test bm) (bitmap_test (bitmap_set bm page)) page n off
        (ground (arith, bitmap_test-set bm page page bytes room))
        (λ q ne. ground (arith, bitmap_test-set bm page q bytes room)) lt

  pub free_count-clear :
      page < n
      → bitmap_test bm page ≡ true
      → free_count (bitmap_clear bm page) n ≡ free_count bm n + 1
  free_count-clear lt on = sym_count (
      free_below_use (bitmap_test (bitmap_clear bm page)) (bitmap_test bm) page n
        (ground (arith, bitmap_test-clear bm page page bytes room)) on
        (λ q ne. ground (arith, bitmap_test-clear bm page q bytes room)) lt)
    where
      sym_count :
          free_count bm n + 1 ≡ free_count (bitmap_clear bm page) n
          → free_count (bitmap_clear bm page) n ≡ free_count bm n + 1
      sym_count e = omega arith

-- A count that is positive has a free page behind it.
pub free_below-le : (f : ℕ → Bool) (m n : ℕ) → m ≤ n → free_below f m ≤ free_below f n
free_below-le f zero n h = omega arith
free_below-le f (suc m) zero h = absurd (omega arith)
free_below-le f (suc m) (suc n) h = elim (Bool-cases (m == n)) [
  | inl e ↦ ground arith
  | inr e ↦ ground (arith, free_below-le f (suc m) n)
]

pub free_below_none : (f : ℕ → Bool) (n : ℕ) → ((p : ℕ) → p < n → f p ≡ true) → free_below f n ≡ 0
free_below_none f zero h = refl
free_below_none f (suc n) h = ground (arith, h n, free_below_none f n (λ p lt. h p (omega arith)))
