-- ===== src/Prelude/Bytes.antt =====
-- Single bits of a byte: `b & (1u << k)`, `b | (1u << k)` and `b & ~(1u << k)`, with their laws,
-- which are proved by checking every byte.
use mathlib.Core.Logic.{inl, inr}
use Prim.Native.Nat.{ℕ, zero, suc, ◌+◌, ◌≤◌, ◌-◌, ◌^◌, ◌<◌, bit_and, bit_or}
use mathlib.Core.Path.{◌≡◌, refl}
use mathlib.Core.Bool.{Bool, true, false, not, ◌&&◌, ◌||◌}
use native.Mathlib.Omega.{arith}
use cone_os.Prelude.Tests.{◌==◌, ltb, Bool-cases}

unfoldable pub test_bit : ℕ → ℕ → Bool
test_bit b k = not (bit_and b (2 ^ k) == 0)

unfoldable pub set_bit : ℕ → ℕ → ℕ
set_bit b k = bit_or b (2 ^ k)

-- `~` is taken at `unsigned int`, and the result is stored in a byte.
unfoldable pub clear_bit : ℕ → ℕ → ℕ
clear_bit b k = bit_and b (2 ^ 32 - 1 - 2 ^ k)

-- Does the test hold of each of the `count` numbers from `first` on?
check_from : ℕ → ℕ → (ℕ → Bool) → Bool
check_from first zero test = true
check_from first (suc count) test = test first && check_from (first + 1) count test

check_from-holds :
    (first count : ℕ) (test : ℕ → Bool) (n : ℕ)
    → first ≤ n
    → n < first + count
    → check_from first count test ≡ true
    → test n ≡ true
unfolding check_from
check_from-holds first zero test n low high ok = absurd (omega arith)
check_from-holds first (suc count) test n low high ok = elim (Bool-cases (first == n)) [
  | inl here ↦ let e : first ≡ n = ground arith in rw (← e) (ground arith)
  | inr there ↦
      check_from-holds (first + 1) count test n (ground arith) (omega arith) (ground arith)
]

abbrev checked : ℕ → (ℕ → Bool) → Bool
checked count test = check_from 0 count test

holds_below :
    (count : ℕ) (test : ℕ → Bool) (n : ℕ) → checked count test ≡ true → n < count → test n ≡ true
holds_below count test n ok high = check_from-holds 0 count test n (omega arith) (omega arith) ok

same : Bool → Bool → Bool
same true b = b
same false b = not b

same_sound : (a b : Bool) → same a b ≡ true → a ≡ b
unfolding same
same_sound true b h = ground arith
same_sound false b h = ground arith

abbrev bit_laws : ℕ → ℕ → ℕ → Bool
bit_laws b j k =
    ltb (set_bit b j) 256
    && ltb (clear_bit b j) 256
    && same (test_bit (set_bit b j) k) (j == k || test_bit b k)
    && same (test_bit (clear_bit b j) k) (not (j == k) && test_bit b k)

bit_table : checked 256 (λ b. checked 8 (λ j. checked 8 (λ k. bit_laws b j k))) ≡ true
unfolding check_from test_bit set_bit clear_bit same
bit_table = refl

bit_laws_hold : (b j k : ℕ) → b < 256 → j < 8 → k < 8 → bit_laws b j k ≡ true
bit_laws_hold b j k hb hj hk =
    holds_below 8 _ k (holds_below 8 _ j (holds_below 256 _ b bit_table hb) hj) hk

module _ (b j k : ℕ) (hb : b < 256) (hj : j < 8) (hk : k < 8) where
  pub set_bit-lt : set_bit b j < 256
  set_bit-lt = ground (arith, bit_laws_hold b j k hb hj hk)

  pub clear_bit-lt : clear_bit b j < 256
  clear_bit-lt = ground (arith, bit_laws_hold b j k hb hj hk)

  pub test_bit-set_bit : test_bit (set_bit b j) k ≡ (j == k || test_bit b k)
  test_bit-set_bit = same_sound _ _ (ground (arith, bit_laws_hold b j k hb hj hk))

  pub test_bit-clear_bit : test_bit (clear_bit b j) k ≡ (not (j == k) && test_bit b k)
  test_bit-clear_bit = same_sound _ _ (ground (arith, bit_laws_hold b j k hb hj hk))

-- The byte with every bit set.
abbrev full_laws : ℕ → Bool
full_laws k = test_bit 255 k

full_table : checked 8 full_laws ≡ true
unfolding check_from test_bit
full_table = refl

pub test_bit-full : (k : ℕ) → k < 8 → test_bit 255 k ≡ true
test_bit-full k h = holds_below 8 full_laws k full_table h
