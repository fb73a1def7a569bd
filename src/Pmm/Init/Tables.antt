-- ===== src/Pmm/Init/Tables.antt =====
-- The tables that pmm_init of src/mm/pmm.c leaves behind: it sets up the allocator's invariant.
use cone_os.Prelude.{
  ℕ, zero, suc, ◌+◌, ◌-◌, ◌*◌, ◌/◌, ◌%◌, ◌≤◌, ◌<◌, ◌≡◌, ◌≢◌, true, false, ◌&&◌, ◌⊎◌, inl, inr, List,
  [], ◌∷◌, arith, ltb, ◌==◌, if◌then◌else◌, add64, page_size, Bool-cases, length, All,
}
use cone_os.Pmm.Bitmap.{
  bitmap_test, bitmap_set, bitmap_clear, IsByte, length-bitmap_set, length-bitmap_clear,
  bitmap_set-IsByte, bitmap_clear-IsByte, bitmap_test-set, bitmap_test-clear, free_count,
  free_count-set, free_count-clear,
}
use cone_os.Pmm.{MemmapEntry, page_is_usable, entry_covers}
use cone_os.Pmm.Init.{
  Tally, clear_pages, clear_entries, claim_pages, highest_address, entry_start, entry_pages,
}
use cone_os.Pmm.Init.Sane.{IsSane, IsSaneEntry, after_entry, highest-le}

-- The loop over the entries has reached page `low`: pages from there on are still marked, and each
-- page that is not satisfies `Good`.
pub record Cleared (Good : ℕ → Type 0) (n low : ℕ) (t : Tally) : Type 0 where
  pub bytes : All IsByte t.bits
  pub room : n ≤ 8 * length t.bits
  pub counted : t.free ≡ free_count t.bits n
  pub marked : (p : ℕ) → low ≤ p → p < n → bitmap_test t.bits p ≡ true
  pub good : (p : ℕ) → p < n → bitmap_test t.bits p ≡ false → Good p

module _ {Good : ℕ → Type 0} (n : ℕ) where
  clear_page-Cleared :
      (page : ℕ) (t : Tally)
      → page < n
      → Good page
      → Cleared Good n page t
      → Cleared Good n
          (page + 1)
          (record t { bits = bitmap_clear t.bits page; total = t.total + 1; free = t.free + 1 })
  clear_page-Cleared page t lt fine c = record {
    bytes = bitmap_clear-IsByte t.bits page c.bytes;
    room = omega (arith, c.room, length-bitmap_clear t.bits page);
    counted = omega (
      arith,
      c.counted,
      free_count-clear t.bits page n c.bytes (omega (arith, c.room)) lt
          (c.marked page (omega arith) lt),
    );
    marked = λ p le l. ground (arith, bitmap_test-clear t.bits page p c.bytes, c.room, c.marked p);
    good = λ p l off. elim (Bool-cases (page == p)) [
      | inl same ↦ let e : page ≡ p = ground arith in rw (← e) fine
      | inr other ↦ c.good p l (ground (arith, bitmap_test-clear t.bits page p c.bytes, c.room))
    ];
  }

  clear_pages-Cleared :
      (rounds page : ℕ) (t : Tally)
      → page + rounds ≤ n
      → ((p : ℕ) → page ≤ p → p < page + rounds → Good p)
      → Cleared Good n page t
      → Cleared Good n (page + rounds) (clear_pages page rounds t)
  unfolding clear_pages
  clear_pages-Cleared zero page t fits fine c = let e : page + 0 ≡ page = omega arith in rw e c
  clear_pages-Cleared (suc rounds) page t fits fine c =
      let e : page + suc rounds ≡ page + 1 + rounds = omega arith in
      rw e (
        clear_pages-Cleared rounds (page + 1) _ (omega arith)
          (λ p le lt. fine p (omega arith) (omega arith))
          (clear_page-Cleared page t (omega arith) (fine page (omega arith) (omega arith)) c))

  Cleared-mono :
      {low low' : ℕ} {t : Tally} → low ≤ low' → Cleared Good n low t → Cleared Good n low' t
  Cleared-mono le c = record {
    bytes = c.bytes;
    room = c.room;
    counted = c.counted;
    marked = λ p l lt. c.marked p (omega arith) lt;
    good = c.good;
  }

Cleared-map :
    {P Q : ℕ → Type 0} {n low : ℕ} {t : Tally}
    → ((p : ℕ) → P p → Q p)
    → Cleared P n low t
    → Cleared Q n low t
Cleared-map f c = record {
  bytes = c.bytes;
  room = c.room;
  counted = c.counted;
  marked = c.marked;
  good = λ p l off. f p (c.good p l off);
}

module _ (Good : ℕ → Type 0) (n page : ℕ) (t : Tally) where
  claim_page-Cleared :
      page < n
      → Cleared Good n n t
      → Cleared
          (λ p. Good p × (p ≢ page))
          n
          n
          (if bitmap_test t.bits page
            then t
            else (record t { bits = bitmap_set t.bits page; free = t.free - 1 }))
  claim_page-Cleared lt c = elim (Bool-cases (bitmap_test t.bits page)) [
    | inl on ↦ rw on record {
      bytes = c.bytes;
      room = c.room;
      counted = c.counted;
      marked = c.marked;
      good = λ p l off. (c.good p l off, λ e. cc);
    }
    | inr off ↦ rw off record {
      bytes = bitmap_set-IsByte t.bits page c.bytes;
      room = omega (arith, c.room, length-bitmap_set t.bits page);
      counted =
          omega
            (arith, c.counted, free_count-set t.bits page n c.bytes (omega (arith, c.room)) lt off);
      marked = λ p le l. absurd (omega arith);
      good = λ p l clear. (
        c.good p l (ground (arith, bitmap_test-set t.bits page p c.bytes, c.room)),
        ground (arith, bitmap_test-set t.bits page p c.bytes, c.room),
      );
    }
  ]

-- Claiming the pages of the tables keeps the count, and leaves none of them free.
pub claim_pages-Cleared :
    (Good : ℕ → Type 0) (n rounds page : ℕ) (t : Tally)
    → page + rounds ≤ n
    → Cleared Good n n t
    → Cleared (λ p. Good p × ((p < page) ⊎ (page + rounds ≤ p))) n n (claim_pages page rounds t)
unfolding claim_pages
claim_pages-Cleared Good n zero page t fits c = Cleared-map (λ p g. (g, ground arith)) c
claim_pages-Cleared Good n (suc rounds) page t fits c =
    Cleared-map (λ p g. (g.0.0, outside p g.0.1 g.1))
      (claim_pages-Cleared (λ p. Good p × (p ≢ page)) n rounds (page + 1) _ (omega arith)
        (claim_page-Cleared Good n page t (omega arith) c))
  where
    outside :
        (p : ℕ)
        → p ≢ page
        → ((p < page + 1) ⊎ (page + 1 + rounds ≤ p))
        → (p < page) ⊎ (page + suc rounds ≤ p)
    outside p ne (inl l) = inl (omega arith)
    outside p ne (inr r) = inr (omega arith)

-- An entry's pages are usable, by the test of pmm_free_page.
abbrev pub Usable : List MemmapEntry → ℕ → Type 0
Usable all p = page_is_usable all (p * page_size) ≡ true

-- The pages of a usable entry are cleared, and the loop goes on from its end.
clear_entry-Cleared :
    (all : List MemmapEntry) (n low : ℕ) (e : MemmapEntry) (t : Tally)
    → low % page_size ≡ 0
    → e.usable ≡ true
    → IsSaneEntry low e
    → e.base + e.size ≤ n * page_size
    → ((a : ℕ) → entry_covers e a ≡ true → page_is_usable all a ≡ true)
    → Cleared (Usable all) n (low / page_size) t
    → Cleared
        (Usable all)
        n
        ((e.base + e.size) / page_size)
        (clear_pages (entry_start e / page_size) (entry_pages e) t)
clear_entry-Cleared all n low e t whole on sane below sub c =
    let last : entry_start e / page_size + entry_pages e ≡ (e.base + e.size) / page_size =
      omega arith in
    rw (← last) (
      clear_pages-Cleared n (entry_pages e) (entry_start e / page_size) t (omega arith)
        (λ p le lt. sub (p * page_size) (ground arith)) (Cleared-mono n (omega arith) c))

pub clear_entries-Cleared :
    (all : List MemmapEntry) (n low h : ℕ) (es : List MemmapEntry) (t : Tally)
    → low % page_size ≡ 0
    → IsSane low es
    → ((a : ℕ) → page_is_usable es a ≡ true → page_is_usable all a ≡ true)
    → highest_address es h ≤ n * page_size
    → Cleared (Usable all) n (low / page_size) t
    → Cleared (Usable all) n n (clear_entries es t)
unfolding clear_entries highest_address page_is_usable
clear_entries-Cleared all n low h [] t whole sane sub below c = record {
  bytes = c.bytes;
  room = c.room;
  counted = c.counted;
  marked = λ p le lt. absurd (omega arith);
  good = c.good;
}
clear_entries-Cleared all n low h (e ∷ rest) t whole sane sub below c =
    let h' : ℕ = if e.usable && ltb h (add64 e.base e.size) then add64 e.base e.size else h in
    let above : h' ≤ highest_address rest h' = highest-le low h' rest in
    let sub_rest : (a : ℕ) → page_is_usable rest a ≡ true → page_is_usable all a ≡ true =
      λ a u. sub a (ground (arith, Bool-cases (entry_covers e a))) in
    elim (Bool-cases e.usable) [
      | inl on ↦
          let entry : IsSaneEntry low e = sane.0 on in
          clear_entries-Cleared all n (after_entry low e) h' rest _ (ground arith) sane.1 sub_rest
            below
            (rw on (
              clear_entry-Cleared all n low e t whole on entry (ground arith)
                (λ a covers. sub a (rw covers)) c))
      | inr off ↦
          clear_entries-Cleared all n (after_entry low e) h' rest _ (ground arith) sane.1 sub_rest
            below (rw off c)
    ]
