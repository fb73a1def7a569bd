-- ===== src/Elf/Safety/Programs.antt =====
-- The loop of elf_load of src/kernel/elf.c over the program headers.
use cone_os.Prelude.{
  ℕ, zero, suc, ◌+◌, ◌*◌, ◌^◌, ◌<◌, ◌≤◌, ◌≡◌, false, List, arith, length, ltb, ◌==◌, Bool-cases,
  inl, inr, sub64,
}
use cone_os.Elf.{Totals, count_segment, with_totals, load_program, load_programs, segment_pages}
use cone_os.Elf.Image.{ProgramHeader, program_header_bytes, program_header-some}
use cone_os.Elf.Services.{
  SpaceServices, Keeps, LoadResult, fault, out_of_fuel, invalid, out_of_memory, success,
}
use cone_os.Elf.Segments.{range_valid, user_address_limit}
use cone_os.Elf.Safety.Mapping.{Accepts, Fine, Anything}
use cone_os.Elf.Safety.Copying.{load_segment-Fine}

abbrev pub TotalsWithin : ℕ → Totals → Type 0
TotalsWithin page_limit t = t.total_pages ≤ page_limit

module _ {S : Type 0} (services : SpaceServices S) (Inv : S → Type 0) (keeps : Keeps services Inv)
    (image : List ℕ) (image_size page_limit : ℕ) (fit : image_size ≤ length image)
    (bound : page_limit < 2 ^ 64) (entry : ℕ) where
  abbrev Run : ℕ → ℕ → Totals → S → Type 0
  Run offset left t s =
      Fine Inv (TotalsWithin page_limit)
        (load_programs services image image_size page_limit entry offset left t s)

  with_totals-Accepts :
      (r : LoadResult (Unit {0})) (t : Totals)
      → t.total_pages ≤ page_limit
      → Accepts Anything r
      → Accepts (TotalsWithin page_limit) (with_totals r t)
  with_totals-Accepts fault t within k = k
  with_totals-Accepts out_of_fuel t within k = k
  with_totals-Accepts invalid t within k = k
  with_totals-Accepts out_of_memory t within k = k
  with_totals-Accepts (success u) t within k = within

  load_program-Fine :
      (p : ProgramHeader) (t : Totals) (s : S)
      → t.total_pages ≤ page_limit
      → Inv s
      → Fine Inv
          (TotalsWithin page_limit)
          (load_program services image image_size page_limit entry p t s)
  unfolding load_program
  load_program-Fine p t s within h = elim (Bool-cases (p.type == 1)) [
    | inr e ↦ rw e (h, within)
    | inl e ↦
        rw e (elim (Bool-cases (range_valid p.virtual_address p.memory_size user_address_limit)) [
          | inr e' ↦ rw e' (h, tt)
          | inl e' ↦
              rw e' (elim (Bool-cases (ltb (sub64 page_limit t.total_pages) (segment_pages p))) [
                | inl e'' ↦ rw e'' (h, tt)
                | inr e'' ↦
                    let (kept, ended) =
                      load_segment-Fine services Inv keeps image p image_size s fit h in
                    rw e'' (
                      kept,
                      with_totals-Accepts _ (count_segment entry p t)
                          (within_limit (segment_pages p) e'') ended,
                    )
              ])
        ])
  ]
    where
      within_limit :
          (n : ℕ) → ltb (sub64 page_limit t.total_pages) n ≡ false → t.total_pages + n ≤ page_limit
      within_limit n e = ground arith

  pub load_programs-Fine :
      (offset left : ℕ) (t : Totals) (s : S)
      → offset + left * program_header_bytes ≤ length image
      → t.total_pages ≤ page_limit
      → Inv s
      → Run offset left t s
  unfolding load_programs
  load_programs-Fine offset zero t s room within h = (h, within)
  load_programs-Fine offset (suc left) t s room within h =
      let (p, read) = program_header-some image offset (omega arith) in
      rw (read, load_programs)
        (onward (load_program services image image_size page_limit entry p t s)
          (load_program-Fine p t s within h)
          (λ t' s' within' k.
            load_programs-Fine (offset + program_header_bytes) left t' s' (omega arith) within' k))
    where
      next : ℕ
      next = offset + program_header_bytes

      onward :
          (r : LoadResult Totals × S)
          → Fine Inv (TotalsWithin page_limit) r
          → ((t' : Totals) (s' : S) → t'.total_pages ≤ page_limit → Inv s' → Run next left t' s')
          → Fine Inv (TotalsWithin page_limit) (elim r.0 [
            | fault ↦ (fault, r.1)
            | out_of_fuel ↦ (out_of_fuel, r.1)
            | invalid ↦ (invalid, r.1)
            | out_of_memory ↦ (out_of_memory, r.1)
            | success t' ↦ load_programs services image image_size page_limit entry next left t' r.1
          ])
      onward (success t', s') k rest = rest t' s' k.1 k.0
      onward (fault, s') k rest = k
      onward (out_of_fuel, s') k rest = k
      onward (invalid, s') k rest = k
      onward (out_of_memory, s') k rest = k
