-- ===== src/Usercopy/Copy.antt =====
-- copy_to_user and copy_from_user of src/mm/usercopy.c.
use cone_os.Prelude.{
  ℕ, zero, suc, ◌+◌, ◌-◌, ◌%◌, ◌<◌, ◌≤◌, ◌≡◌, ◌≢◌, refl, true, Option, none, some, List, [], ◌∷◌,
  arith, length, take, drop, ◌==◌, if◌then◌else◌, Bool-cases, inl, inr,
}
use cone_os.Usercopy.{
  Entry, UserMemory, Answer, out_of_fuel, refused, permits, chunk, resolve, copy_out, copy_to_user,
  user_range_valid, address_limit,
}

take-fits : (n : ℕ) (xs : List ℕ) → length (take n xs) ≤ n
take-fits zero xs = omega arith
take-fits (suc n) [] = omega arith
take-fits (suc n) (x ∷ xs) = omega (arith, take-fits n xs)

drop-rest : (n : ℕ) (xs : List ℕ) → length (drop n xs) ≡ length xs - n
drop-rest zero xs = omega arith
drop-rest (suc n) [] = omega arith
drop-rest (suc n) (x ∷ xs) = omega (arith, drop-rest n xs)

-- The services keep `Inv`, where bytes are written only within one page of the user half that the
-- loaded space maps as the user's and writable.
pub record KeepsUser {S : Type 0} (memory : UserMemory S) (Inv : S → Type 0) : Type 0 where
  pub resolve_keeps : (address : ℕ) (s : S) → Inv s → Inv (memory.resolve_cow address s).1
  pub write_keeps :
      (address : ℕ) (e : Entry) (bytes : List ℕ) (s : S)
      → memory.query s address ≡ some e
      → e.user ≡ true
      → e.writable ≡ true
      → address < address_limit
      → address % 4096 + length bytes ≤ 4096
      → Inv s
      → Inv (memory.write_bytes e.physical bytes s)

module _ {S : Type 0} (memory : UserMemory S) (Inv : S → Type 0)
    (keeps : KeepsUser memory Inv) where
  -- What `resolve` found stands in the state that it leaves.
  abbrev Resolved : ℕ → Option Entry × S → Type 0
  Resolved address r = Inv r.1 × ((e : Entry) → r.0 ≡ some e → memory.query r.1 address ≡ some e)

  resolve-Resolved :
      (address : ℕ) (s : S) → Inv s → Resolved address (resolve memory true address s)
  unfolding resolve
  resolve-Resolved address s h = found (memory.query s address) refl
    where
      found :
          (o : Option Entry)
          → memory.query s address ≡ o
          → Resolved address (resolve memory true address s)
      found none e = rw (e, resolve) (h, λ x e'. absurd (cc))
      found (some x) e = elim (Bool-cases x.copy_on_write) [
        | inr b ↦ rw (e, b, resolve) (h, λ y e'. cc (e, e'))
        | inl b ↦ elim (Bool-cases (memory.resolve_cow address s).0) [
          | inl ok ↦ rw (e, b, ok, resolve) (keeps.resolve_keeps address s h, λ y e'. e')
          | inr failed ↦
              rw (e, b, failed, resolve) (keeps.resolve_keeps address s h, λ y e'. absurd (cc))
        ]
      ]

  abbrev Safe : Answer × S → Type 0
  Safe r = (r.0 ≢ out_of_fuel) × Inv r.1

  copy_out-Safe :
      (fuel address : ℕ) (bytes : List ℕ) (s : S)
      → address + length bytes ≤ address_limit
      → length bytes < fuel
      → Inv s
      → Safe (copy_out memory fuel address bytes s)
  unfolding copy_out
  copy_out-Safe zero address bytes s low enough h = absurd (omega arith)
  copy_out-Safe (suc fuel) address bytes s low enough h = elim (Bool-cases (length bytes == 0)) [
    | inl e ↦ rw (e, copy_out) (λ e'. cc, h)
    | inr e ↦
        rw (e, copy_out)
          (go (ground arith) (resolve memory true address s) (resolve-Resolved address s h) (λ t k.
            let n = chunk memory address (length bytes) in
            copy_out-Safe fuel (address + n) (drop n bytes) t (ground (arith, drop-rest n bytes))
              (ground (arith, drop-rest n bytes)) k))
  ]
    where
      n : ℕ
      n = chunk memory address (length bytes)

      go :
          0 < length bytes
          → (r : Option Entry × S) → Resolved address r
          → ((t : S) → Inv t → Safe (copy_out memory fuel (address + n) (drop n bytes) t))
          → Safe (elim r.0 [
            | none ↦ (refused, r.1)
            | some e ↦
                if permits memory true e
                then copy_out memory fuel
                    (address + n)
                    (drop n bytes)
                    (memory.write_bytes e.physical (take n bytes) r.1)
                else (refused, r.1)
          ])
      go some_byte (none, t) k rest = (λ e'. cc, k.0)
      go some_byte (some e, t) k rest = elim (Bool-cases (permits memory true e)) [
        | inr b ↦ rw b (λ e'. cc, k.0)
        | inl b ↦ rw b (
            rest _ (
              keeps.write_keeps address e (take n bytes) t (k.1 e refl) (ground arith)
                (ground arith) (omega arith) (ground (arith, take-fits n bytes)) k.0))
      ]

-- copy_to_user always ends. It keeps every property of memory that the services keep when they are
-- asked to write only within single pages of the user half that are mapped as the user's and writable,
-- after a page to be copied on a write has been resolved.
pub copy_to_user_lem :
    {S : Type 0} (memory : UserMemory S) (Inv : S → Type 0) (destination : ℕ) (bytes : List ℕ)
    (s : S)
    → KeepsUser memory Inv
    → Inv s
    → let (answer, t) = copy_to_user memory destination bytes s in (answer ≢ out_of_fuel) × Inv t
unfolding copy_to_user
copy_to_user_lem memory Inv destination bytes s keeps h = elim (Bool-cases (length bytes == 0)) [
  | inl e ↦ rw e (λ e'. cc, h)
  | inr e ↦ elim (Bool-cases (user_range_valid destination (length bytes))) [
    | inr b ↦ rw (e, b, copy_to_user) (λ e'. cc, h)
    | inl b ↦
        rw (e, b, copy_to_user)
          (copy_out-Safe memory Inv keeps (suc (length bytes)) destination bytes s (ground arith)
            (omega arith) h)
  ]
]
