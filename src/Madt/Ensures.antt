-- ===== src/Madt/Ensures.antt =====
-- What an accepted run of the parser of src/firmware/madt.c guarantees, and the runs that cannot
-- fault. The rules are those of the calls it is made of.
use cone_os.Prelude.{ℕ, ◌+◌, ◌<◌, ◌≡◌, refl, Bool, true, false, List, length}
use cone_os.Madt.Monad.{
  Result, fault, out_of_fuel, reject, ok, ◌>>=◌, ◌>>◌, guard, byte, read16, read32, read64, byte-ok,
  read16-ok, read32-ok, read64-ok,
}

-- The run rejects or accepts, and what it accepts satisfies `P`.
abbrev pub Ensures {ℓ} : {A : Type ℓ} → (A → Type 0) → Result A → Type 0
Ensures P fault = ⊥
Ensures P out_of_fuel = ⊥
Ensures P reject = Unit
Ensures P (ok a) = P a

pub Ensures-bind {ℓ κ} :
    {A : Type ℓ} {B : Type κ} (P : A → Type 0) (Q : B → Type 0) (m : Result A) (f : A → Result B)
    → Ensures P m
    → ((a : A) → P a → Ensures Q (f a))
    → Ensures Q (m >>= f)
Ensures-bind P Q fault f h k = absurd h
Ensures-bind P Q out_of_fuel f h k = absurd h
Ensures-bind P Q reject f h k = tt
Ensures-bind P Q (ok a) f h k = k a h

module _ {ℓ} {B : Type ℓ} (Q : B → Type 0) where
  pub Ensures-guard :
      (b : Bool) (k : Result B) → (b ≡ true → Ensures Q k) → Ensures Q (guard b >> k)
  Ensures-guard true k h = h refl
  Ensures-guard false k h = tt

  Ensures-known :
      (m : Result ℕ) (f : ℕ → Result B)
      → (v : ℕ) × (m ≡ ok v)
      → ((v : ℕ) → Ensures Q (f v))
      → Ensures Q (m >>= f)
  Ensures-known m f (v, e) h = rw e (h v)

  module _ (bytes : List ℕ) (p : ℕ) (f : ℕ → Result B) where
    pub Ensures-byte :
        p < length bytes → ((v : ℕ) → Ensures Q (f v)) → Ensures Q (byte bytes p >>= f)
    Ensures-byte lt = Ensures-known (byte bytes p) f (byte-ok bytes p lt)

    pub Ensures-read16 :
        p + 1 < length bytes → ((v : ℕ) → Ensures Q (f v)) → Ensures Q (read16 bytes p >>= f)
    Ensures-read16 lt = Ensures-known (read16 bytes p) f (read16-ok bytes p lt)

    pub Ensures-read32 :
        p + 3 < length bytes → ((v : ℕ) → Ensures Q (f v)) → Ensures Q (read32 bytes p >>= f)
    Ensures-read32 lt = Ensures-known (read32 bytes p) f (read32-ok bytes p lt)

    pub Ensures-read64 :
        p + 7 < length bytes → ((v : ℕ) → Ensures Q (f v)) → Ensures Q (read64 bytes p >>= f)
    Ensures-read64 lt = Ensures-known (read64 bytes p) f (read64-ok bytes p lt)
