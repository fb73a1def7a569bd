-- ===== src/Madt/Monad.antt =====
-- Results of the parser of src/firmware/madt.c, and its reads of little-endian numbers.
use cone_os.Prelude.{
  ℕ, zero, suc, ◌+◌, ◌*◌, ◌<◌, ◌≡◌, refl, Bool, true, false, Option, none, some, List, [], ◌∷◌,
  arith, length, get_elem?,
}

-- `reject` is the return of 0; `fault` is a read outside the bytes.
pub data Result {ℓ} (A : Type ℓ) : Type ℓ where
  fault : Result A
  out_of_fuel : Result A
  reject : Result A
  ok : A → Result A

infixl 5 ◌>>=◌ ◌>>◌
abbrev pub ◌>>=◌ {ℓ κ} : {A : Type ℓ} {B : Type κ} → Result A → (A → Result B) → Result B
ok a >>= f = f a
fault >>= f = fault
out_of_fuel >>= f = out_of_fuel
reject >>= f = reject

abbrev pub ◌>>◌ {ℓ} : {B : Type ℓ} → Result (Unit {0}) → Result B → Result B
m >> k = m >>= λ _. k

abbrev pub guard : Bool → Result (Unit {0})
guard true = ok tt
guard false = reject

abbrev from_option : Option ℕ → Result ℕ
from_option none = fault
from_option (some b) = ok b

unfoldable pub byte : List ℕ → ℕ → Result ℕ
byte bytes i = from_option (get_elem? bytes i)

unfoldable pub read16 : List ℕ → ℕ → Result ℕ
read16 bytes p = do low ← byte bytes p; high ← byte bytes (p + 1); ok (low + high * 256)

unfoldable pub read32 : List ℕ → ℕ → Result ℕ
read32 bytes p = do low ← read16 bytes p; high ← read16 bytes (p + 2); ok (low + high * 65536)

unfoldable pub read64 : List ℕ → ℕ → Result ℕ
read64 bytes p = do low ← read32 bytes p; high ← read32 bytes (p + 4); ok (low + high * 4294967296)

get_elem?-some : (xs : List ℕ) (i : ℕ) → i < length xs → (v : ℕ) × (get_elem? xs i ≡ some v)
get_elem?-some [] i h = absurd (elim h [ ])
get_elem?-some (x ∷ xs) zero h = (x, refl)
get_elem?-some (x ∷ xs) (suc i) h = get_elem?-some xs i (omega arith)

module _ (bytes : List ℕ) (p : ℕ) where
  pub byte-ok : p < length bytes → (v : ℕ) × (byte bytes p ≡ ok v)
  unfolding byte
  byte-ok h = let (v, e) = get_elem?-some bytes p h in (v, rw e)

module _ (bytes : List ℕ) (p : ℕ) where
  pub read16-ok : p + 1 < length bytes → (v : ℕ) × (read16 bytes p ≡ ok v)
  unfolding read16
  read16-ok h =
      let (low, e) = byte-ok bytes p (omega arith) in
      let (high, e') = byte-ok bytes (p + 1) h in (low + high * 256, rw (e, e'))

module _ (bytes : List ℕ) (p : ℕ) where
  pub read32-ok : p + 3 < length bytes → (v : ℕ) × (read32 bytes p ≡ ok v)
  unfolding read32
  read32-ok h =
      let (low, e) = read16-ok bytes p (omega arith) in
      let (high, e') = read16-ok bytes (p + 2) (omega arith) in (low + high * 65536, rw (e, e'))

module _ (bytes : List ℕ) (p : ℕ) where
  pub read64-ok : p + 7 < length bytes → (v : ℕ) × (read64 bytes p ≡ ok v)
  unfolding read64
  read64-ok h =
      let (low, e) = read32-ok bytes p (omega arith) in
      let (high, e') = read32-ok bytes (p + 4) (omega arith) in
      (low + high * 4294967296, rw (e, e'))
