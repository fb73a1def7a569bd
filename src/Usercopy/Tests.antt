-- ===== src/Usercopy/Tests.antt =====
-- A user memory of two pages, the second of which is read-only. The state records what is written.
use cone_os.Prelude.{
  ℕ, ◌+◌, ◌<◌, ◌≡◌, ◌≢◌, refl, true, false, Option, none, some, List, [], ◌∷◌, arith, replicate,
  All, ltb, if◌then◌else◌,
}
use cone_os.Usercopy.{Entry, UserMemory, out_of_fuel, refused, copy_to_user, copy_out, resolve}
use cone_os.Usercopy.Copy.{KeepsUser, copy_to_user_lem}

abbrev entry_at : ℕ → Option Entry
entry_at address =
    if ltb address 4096
    then none
    else if ltb address 8192
    then some
        (record { physical = address + 65536; user = true; writable = true; copy_on_write = false })
    else if ltb address 12288
    then some (record {
      physical = address + 65536;
      user = true;
      writable = false;
      copy_on_write = false;
    })
    else none

-- The physical addresses that were written.
abbrev recorded : UserMemory (List ℕ)
recorded = record {
  query = λ s address. entry_at address;
  resolve_cow = λ address s. (false, s);
  read_bytes = λ p n s. replicate n 7;
  write_bytes = λ p bytes s. p ∷ s;
}

abbrev InFirstPage : List ℕ → Type 0
InFirstPage s = All (λ p. p < 73728) s

recorded-KeepsUser : KeepsUser recorded InFirstPage
recorded-KeepsUser = record {
  resolve_keeps = λ address s h. h;
  write_keeps =
      λ address e bytes s found user writable low inside h. (first address e found writable, h);
}
  where
    first :
        (address : ℕ) (e : Entry)
        → entry_at address ≡ some e
        → e.writable ≡ true
        → e.physical < 73728
    first address e found writable = ground arith

copy_to_user-two : copy_to_user recorded 8190 (1 ∷ 2 ∷ 3 ∷ []) [] ≡ (refused, 73726 ∷ [])
unfolding copy_to_user copy_out resolve
copy_to_user-two = refl

copy_to_user_lem_example :
    let (answer, t) = copy_to_user recorded 8190 (1 ∷ 2 ∷ 3 ∷ []) [] in
    (answer ≢ out_of_fuel) × InFirstPage t
copy_to_user_lem_example =
    copy_to_user_lem recorded InFirstPage 8190 (1 ∷ 2 ∷ 3 ∷ []) [] recorded-KeepsUser tt
