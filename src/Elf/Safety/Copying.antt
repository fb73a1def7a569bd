-- ===== src/Elf/Safety/Copying.antt =====
-- The second loop of load_segment of src/kernel/elf.c copies only bytes of the image.
use cone_os.Prelude.{
  ℕ, zero, suc, ◌+◌, ◌/◌, ◌<◌, ◌≤◌, ◌≡◌, refl, true, Option, none, some, List, arith, length, leb,
  ltb, ◌==◌, Bool-cases, inl, inr,
}
use cone_os.Elf.Image.{ProgramHeader}
use cone_os.Elf.Services.{
  SpaceServices, Keeps, LoadResult, fault, out_of_fuel, invalid, out_of_memory, success,
}
use cone_os.Elf.Segments.{
  copy_segment, chunk_of, load_segment, segment_valid, page_floor, page_flags,
}
use cone_os.Elf.Safety.Mapping.{Fine, Anything, map_segment-Fine}

module _ {S : Type 0} (services : SpaceServices S) (Inv : S → Type 0) (keeps : Keeps services Inv)
    (image : List ℕ) (p : ProgramHeader) where
  chunk-positive : (copied : ℕ) → copied < p.file_size → 0 < chunk_of services p copied
  chunk-positive copied lt = ground arith

  chunk-within :
      (copied : ℕ) → copied < p.file_size → copied + chunk_of services p copied ≤ p.file_size
  chunk-within copied lt = ground arith

  chunk-inside :
      (copied : ℕ)
      → copied < p.file_size
      → p.offset + p.file_size ≤ length image
      → leb (p.offset + copied + chunk_of services p copied) (length image) ≡ true
  chunk-inside copied lt fit = ground arith

  copy_segment-Fine :
      (fuel copied : ℕ) (s : S)
      → p.offset + p.file_size ≤ length image
      → p.file_size < fuel + copied
      → copied ≤ p.file_size
      → Inv s
      → Fine Inv Anything (copy_segment services fuel image p copied s)
  unfolding copy_segment
  copy_segment-Fine zero copied s fit enough within h = absurd (omega arith)
  copy_segment-Fine (suc fuel) copied s fit enough within h =
      elim (Bool-cases (ltb copied p.file_size)) [
        | inr e ↦ rw (e, copy_segment) (h, tt)
        | inl e ↦
            let lt : copied < p.file_size = ground arith in
            translated e lt
              (λ u k.
                copy_segment-Fine fuel (copied + chunk_of services p copied) u fit
                  (omega (arith, chunk-positive copied lt)) (chunk-within copied lt) k)
              (services.translate s (p.virtual_address + copied)) refl
      ]
    where
      translated :
          ltb copied p.file_size ≡ true
          → copied < p.file_size
          → ((u : S)
              → Inv u
              → Fine Inv Anything
                  (copy_segment services fuel image p (copied + chunk_of services p copied) u))
          → (o : Option ℕ) → services.translate s (p.virtual_address + copied) ≡ o
          → Fine Inv Anything (copy_segment services (suc fuel) image p copied s)
      translated e lt rest none e' = rw (e, e', copy_segment) (h, tt)
      translated e lt rest (some physical) e' =
          let inside : leb (p.offset + copied + chunk_of services p copied) (length image) ≡ true =
            chunk-inside copied lt fit in
          rw (e, e', inside, copy_segment) (rest _ (keeps.copy_keeps physical _ s h))

  pub load_segment-Fine :
      (image_size : ℕ) (s : S)
      → image_size ≤ length image
      → Inv s
      → Fine Inv Anything (load_segment services image image_size p s)
  unfolding load_segment
  load_segment-Fine image_size s fit h = elim (Bool-cases (segment_valid services p image_size)) [
    | inr e ↦ rw e (h, tt)
    | inl e ↦ rw e (elim (Bool-cases (p.memory_size == 0)) [
      | inl e' ↦ rw e' (h, tt)
      | inr e' ↦ rw e' (
          copied (ground arith) _ (
            map_segment-Fine services Inv keeps (p.virtual_address + p.memory_size)
              (page_flags p.flags) (p.memory_size / 4096 + 3) (page_floor p.virtual_address) s
              (ground arith) (ground arith) (omega arith) (omega arith) (ground arith) h))
    ])
  ]
    where
      copied :
          p.offset + p.file_size ≤ length image
          → (r : LoadResult (Unit {0}) × S) → Fine Inv Anything r
          → Fine Inv Anything (elim r.0 [
            | success u ↦ copy_segment services (suc p.file_size) image p 0 r.1
            | fault ↦ (fault, r.1)
            | out_of_fuel ↦ (out_of_fuel, r.1)
            | invalid ↦ (invalid, r.1)
            | out_of_memory ↦ (out_of_memory, r.1)
          ])
      copied inside (success u, t) k =
          copy_segment-Fine (suc p.file_size) 0 t inside (omega arith) (omega arith) k.0
      copied inside (fault, t) k = k
      copied inside (out_of_fuel, t) k = k
      copied inside (invalid, t) k = k
      copied inside (out_of_memory, t) k = k
