-- ===== src/Pager/Sample.antt =====
-- A supply of pages that meets the laws of the page services: pages are handed out in order, and the
-- mappings are a function.
use cone_os.Prelude.{
  ℕ, ◌+◌, ◌*◌, ◌≡◌, ◌≢◌, refl, true, false, Option, none, some, ◌==◌, if◌then◌else◌, arith,
  page_size, ◌<◌, ltb, ◌⊎◌,
}
use cone_os.Pager.{Pager, map_pages}
use cone_os.Pager.AllOrNothing.{PagerLaws, map_pages_lem}

pub record Supply : Type 0 where
  pub next_page : ℕ
  pub limit : ℕ
  pub maps : ℕ → Option ℕ

abbrev pub mapping : Supply → ℕ → Option ℕ
mapping s v = s.maps v

abbrev update : (ℕ → Option ℕ) → ℕ → Option ℕ → ℕ → Option ℕ
update f v o w = if v == w then o else f w

abbrev pub supply : Pager Supply
supply = record {
  alloc_page = λ s.
      if ltb s.next_page s.limit
      then (some (s.next_page * page_size), record s { next_page = s.next_page + 1 })
      else (none, s);
  free_page = λ s p. (true, s);
  map_page = λ s v p. (true, record s { maps = update s.maps v (some p) });
  unmap_page = λ s v. (s.maps v, record s { maps = update s.maps v none });
}

pub supply-PagerLaws : PagerLaws supply mapping
supply-PagerLaws = record {
  alloc_keeps = λ s v. ground arith;
  free_keeps = λ s p v. refl;
  map_here = λ s v p h. ground arith;
  map_elsewhere = λ s v p w ne. ground arith;
  map_fails = λ s v p h. ground arith;
  unmap_here = λ s v. ground arith;
  unmap_elsewhere = λ s v w ne. ground arith;
}

-- Two pages are left of the three that are wanted.
abbrev pub short : Supply
short = record { next_page = 0; limit = 2; maps = λ v. none }

map_pages_lem_example :
    let (ok, t) = map_pages supply 4096 0 3 short in
    ((ok ≡ true)
      × ((i : ℕ) → i < 3 → mapping t (4096 + i * page_size) ≢ none)
      × ((v : ℕ) → ((i : ℕ) → i < 3 → v ≢ 4096 + i * page_size) → mapping t v ≡ none))
    ⊎ ((ok ≡ false) × ((v : ℕ) → mapping t v ≡ none))
map_pages_lem_example = map_pages_lem 4096 3 short supply-PagerLaws (λ i lt. refl)
