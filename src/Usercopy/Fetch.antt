-- ===== src/Usercopy/Fetch.antt =====
-- copy_from_user of src/mm/usercopy.c.
use cone_os.Prelude.{
  ℕ, zero, suc, ◌+◌, ◌-◌, ◌<◌, ◌≡◌, refl, false, Option, none, some, List, arith, length,
  length-append, ◌==◌, Bool-cases, inl, inr, ◌⊎◌,
}
use cone_os.Usercopy.{
  Entry, UserMemory, Answer, refused, done, permits, chunk, copy_in, copy_from_user,
  user_range_valid,
}

-- All bytes were read, or the call was refused.
abbrev pub Fetched : ℕ → Answer × List ℕ → Type 0
Fetched size r = ((r.0 ≡ done) × (length r.1 ≡ size)) ⊎ (r.0 ≡ refused)

module _ {S : Type 0} (memory : UserMemory S) (s : S)
    (reads : (p n : ℕ) → length (memory.read_bytes p n s) ≡ n) where
  copy_in-Fetched :
      (fuel address left : ℕ) → left < fuel → Fetched left (copy_in memory fuel address left s)
  unfolding copy_in
  copy_in-Fetched zero address left enough = absurd (omega arith)
  copy_in-Fetched (suc fuel) address left enough = elim (Bool-cases (left == 0)) [
    | inl e ↦ rw (e, copy_in) (inl (refl, ground arith))
    | inr e ↦
        let n = chunk memory address left in
        go e (copy_in-Fetched fuel (address + n) (left - n) (ground arith)) (memory.query s address)
          refl
  ]
    where
      n : ℕ
      n = chunk memory address left

      go :
          (left == 0) ≡ false
          → Fetched (left - n) (copy_in memory fuel (address + n) (left - n) s)
          → (o : Option Entry) → memory.query s address ≡ o
          → Fetched left (copy_in memory (suc fuel) address left s)
      go e rest none e' = rw (e, e', copy_in) (inr refl)
      go e rest (some x) e' = elim (Bool-cases (permits memory false x)) [
        | inr b ↦ rw (e, e', b, copy_in) (inr refl)
        | inl b ↦
            rw (e, e', b, copy_in)
              (elim rest [
                | inr no_more ↦ inr no_more
                | inl (ok, long) ↦ inl (
                  ok,
                  ground (
                    arith,
                    length-append (memory.read_bytes x.physical n s)
                        (copy_in memory fuel (address + n) (left - n) s).1,
                    reads x.physical n,
                    long,
                  ),
                )
              ])
      ]

copy_in-refused :
    {S : Type 0} (memory : UserMemory S) (s : S) (fuel address left : ℕ)
    → (left == 0) ≡ false
    → memory.query s address ≡ none
    → (copy_in memory (suc fuel) address left s).0 ≡ refused
unfolding copy_in
copy_in-refused memory s fuel address left e v = rw (e, v, copy_in) refl

-- copy_from_user always ends: it is refused, or it has read as many bytes as were asked for. It is
-- refused if the range leaves the user half or, for a range that is not empty, if its first page is
-- not mapped for the user.
pub copy_from_user_lem :
    {S : Type 0} (memory : UserMemory S) (source size : ℕ) (s : S)
    → ((p n : ℕ) → length (memory.read_bytes p n s) ≡ n)
    → let (answer, bytes) = copy_from_user memory source size s in
      (((answer ≡ done) × (length bytes ≡ size)) ⊎ (answer ≡ refused))
      × (0 < size → user_range_valid source size ≡ false → answer ≡ refused)
      × (0 < size → memory.query s source ≡ none → answer ≡ refused)
unfolding copy_from_user
copy_from_user_lem memory source size s reads = elim (Bool-cases (size == 0)) [
  | inl e ↦ rw e (
    inl (refl, ground arith),
    λ some_byte v. absurd (ground arith),
    λ some_byte v. absurd (ground arith),
  )
  | inr e ↦ elim (Bool-cases (user_range_valid source size)) [
    | inr b ↦ rw (e, b, copy_from_user) (inr refl, λ some_byte v. refl, λ some_byte v. refl)
    | inl b ↦
        rw (e, b, copy_from_user)
          (
            copy_in-Fetched memory s reads (suc size) source size (omega arith),
            λ some_byte v. absurd (cc),
            λ some_byte v. copy_in-refused memory s size source size e v,
          )
  ]
]
