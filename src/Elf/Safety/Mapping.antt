-- ===== src/Elf/Safety/Mapping.antt =====
-- The first loop of load_segment of src/kernel/elf.c maps only pages of the segment.
use cone_os.Prelude.{
  ℕ, zero, suc, ◌+◌, ◌*◌, ◌%◌, ◌<◌, ◌≤◌, ◌≡◌, refl, Bool, true, false, not, ◌&&◌, Option, none,
  some, arith, ltb, if◌then◌else◌, Bool-cases, inl, inr,
}
use cone_os.Elf.Services.{
  SpaceServices, Keeps, PageFlags, LoadResult, fault, out_of_fuel, invalid, out_of_memory, success,
}
use cone_os.Elf.Segments.{map_segment, user_address_limit}

-- The run ends within the image, and what it hands on satisfies `P`.
abbrev pub Accepts : {A : Type 0} → (A → Type 0) → LoadResult A → Type 0
Accepts P fault = ⊥
Accepts P out_of_fuel = ⊥
Accepts P invalid = Unit
Accepts P out_of_memory = Unit
Accepts P (success a) = P a

abbrev pub Fine : {S A : Type 0} → (S → Type 0) → (A → Type 0) → LoadResult A × S → Type 0
Fine Inv P r = Inv r.1 × Accepts P r.0

abbrev pub Anything : Unit {0} → Type 0
Anything u = Unit

module _ {S : Type 0} (services : SpaceServices S) (Inv : S → Type 0) (keeps : Keeps services Inv)
    (end : ℕ) (flags : PageFlags) where
  pub map_segment-Fine :
      (fuel page : ℕ) (s : S)
      → end ≤ user_address_limit
      → (flags.writable && not flags.no_execute) ≡ false
      → page % 4096 ≡ 0
      → page < end + 4096
      → end + 4096 ≤ page + fuel * 4096
      → Inv s
      → Fine Inv Anything (map_segment services fuel page end flags s)
  unfolding map_segment
  map_segment-Fine zero page s low exclusive aligned near enough h = absurd (omega arith)
  map_segment-Fine (suc fuel) page s low exclusive aligned near enough h =
      elim (Bool-cases (ltb page end)) [
        | inr e ↦ rw (e, map_segment) (h, tt)
        | inl e ↦
            translated e
              (λ u k.
                map_segment-Fine fuel (page + 4096) u low exclusive (omega arith) (ground arith)
                  (omega arith) k)
              (services.translate s page) refl
      ]
    where
      t : S
      t = (services.alloc_user_page s).1

      translated :
          ltb page end ≡ true
          → ((u : S)
              → Inv u
              → Fine Inv Anything (map_segment services fuel (page + 4096) end flags u))
          → (o : Option ℕ) → services.translate s page ≡ o
          → Fine Inv Anything (map_segment services (suc fuel) page end flags s)
      translated e rest (some p) e' = rw (e, e', map_segment) (h, tt)
      translated e rest none e' = allocated (services.alloc_user_page s).0 refl
        where
          allocated :
              (o : Option ℕ)
              → (services.alloc_user_page s).0 ≡ o
              → Fine Inv Anything (map_segment services (suc fuel) page end flags s)
          allocated none e'' = rw (e, e', e'', map_segment) (keeps.alloc_keeps s h, tt)
          allocated (some p) e'' =
              rw (e, e', e'', map_segment)
                (mapped (services.map_page page p flags (services.zero_page p t)).0 refl)
            where
              u : S
              u = (services.map_page page p flags (services.zero_page p t)).1

              kept : Inv u
              kept =
                  keeps.map_keeps page p flags _ (ground arith) aligned exclusive
                    (keeps.zero_keeps p t (keeps.alloc_keeps s h))

              mapped :
                  (b : Bool)
                  → (services.map_page page p flags (services.zero_page p t)).0 ≡ b
                  → Fine Inv Anything (
                      if (services.map_page page p flags (services.zero_page p t)).0
                      then map_segment services fuel (page + 4096) end flags u
                      else (out_of_memory, services.free_page p u))
              mapped true b = rw b (rest u kept)
              mapped false b = rw b (keeps.free_keeps p u kept, tt)
