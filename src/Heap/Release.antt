-- ===== src/Heap/Release.antt =====
-- Freeing and growth in the chain of blocks of src/mm/kmalloc.c.
use cone_os.Prelude.{
  ℕ, ◌+◌, ◌≡◌, ◌≢◌, refl, Bool, true, false, ◌&&◌, inl, inr, some, List, [], ◌∷◌, ◌++◌, ◌==◌,
  if◌then◌else◌, arith, Bool-cases,
}
use cone_os.Heap.Blocks.{
  Block, free, header_size, payload, is_free, is_used, find_block, merge_with_next, release_after,
  release,
}
use cone_os.Heap.Invariant.{Tiles, Coalesced, allocations, Tiles-at}

-- A block found by its pointer, as a derivation.
pub data Found (p : ℕ) : List Block → Block → Type 0 where
  at : {b : Block} {rest : List Block} → payload b ≡ p → Found p (b ∷ rest) b
  past : {b x : Block} {rest : List Block} → payload b ≢ p → Found p rest x → Found p (b ∷ rest) x

pub find_block-Found :
    (p : ℕ) (bs : List Block) {x : Block} → find_block p bs ≡ some x → Found p bs x
unfolding find_block
find_block-Found p [] h = absurd (cc)
find_block-Found p (b ∷ rest) {x} h = elim (Bool-cases (payload b == p)) [
  | inl hit ↦ let e : b ≡ x = ground arith in rw (← e) (at (ground arith))
  | inr miss ↦ past (ground arith) (find_block-Found p rest (ground arith))
]

merge_with_next-Tiles :
    (b : Block) (rest : List Block) (low high : ℕ)
    → Tiles low (b ∷ rest) high
    → Tiles low (merge_with_next b rest) high
unfolding merge_with_next
merge_with_next-Tiles b [] low high t = t
merge_with_next-Tiles b (n ∷ rest) low high t = elim (Bool-cases (is_free n)) [
  | inl idle ↦ rw idle (
    t.0,
    (t.1.0, omega (arith, t.1.1), omega (arith, t.1.2, t.2.1.2)),
    Tiles-at rest _ _ high (omega arith) t.2.2,
  )
  | inr live ↦ rw live t
]

merge_with_next-Coalesced :
    (after_free : Bool) (b : Block) (rest : List Block)
    → (after_free && is_free b) ≡ false
    → is_free b ≡ true
    → Coalesced false rest
    → Coalesced after_free (merge_with_next b rest)
unfolding merge_with_next
merge_with_next-Coalesced after_free b [] f idle c = (f, tt)
merge_with_next-Coalesced after_free b (n ∷ rest) f idle c = ground arith

merge_with_next-allocations :
    (b : Block) (rest : List Block)
    → is_free b ≡ true
    → allocations (merge_with_next b rest) ≡ allocations rest
unfolding merge_with_next allocations
merge_with_next-allocations b [] idle = ground arith
merge_with_next-allocations b (n ∷ rest) idle = ground arith

abbrev freed : Block → Block
freed b = record b { state = free }

-- One step of the walk past a block that is not the one.
release_after-past :
    (p : ℕ) (previous b : Block) (rest : List Block)
    → payload b ≢ p
    → release_after p previous (b ∷ rest) ≡ previous ∷ release_after p b rest
unfolding release_after
release_after-past p previous b rest miss = ground arith

release_after-at :
    (p : ℕ) (previous b : Block) (rest : List Block)
    → payload b ≡ p
    → release_after p previous (b ∷ rest) ≡ (
        if is_free previous
        then merge_with_next previous (merge_with_next (freed b) rest)
        else previous ∷ merge_with_next (freed b) rest)
unfolding release_after
release_after-at p previous b rest hit = ground arith

release_after-Tiles :
    (p : ℕ) {rest : List Block} {x : Block} (previous : Block) (low high : ℕ)
    → Found p rest x
    → Tiles low (previous ∷ rest) high
    → Tiles low (release_after p previous rest) high
release_after-Tiles p previous low high (past {b} {rest = rest} miss f) t =
    rw (release_after-past p previous b rest miss) (t.0, t.1, release_after-Tiles p b _ high f t.2)
release_after-Tiles p previous low high (at {b} {rest} hit) t =
    let tail : Tiles (low + header_size + previous.size) (merge_with_next (freed b) rest) high =
      merge_with_next-Tiles (freed b) rest _ high t.2 in
    rw (release_after-at p previous b rest hit) (elim (Bool-cases (is_free previous)) [
      | inl idle ↦ rw idle (
          merge_with_next-Tiles previous (merge_with_next (freed b) rest) low high (t.0, t.1, tail))
      | inr live ↦ rw live (t.0, t.1, tail)
    ])

pub release-Tiles :
    (p : ℕ) {bs : List Block} {x : Block} (low high : ℕ)
    → Found p bs x
    → Tiles low bs high
    → Tiles low (release p bs) high
unfolding release
release-Tiles p low high (past {b} {rest = rest} miss f) t =
    let e : (payload b == p) ≡ false = ground arith in rw e (release_after-Tiles p b low high f t)
release-Tiles p low high (at {b} {rest} hit) t =
    let e : (payload b == p) ≡ true = ground arith in
    rw e (merge_with_next-Tiles (freed b) rest low high t)

merge_with_next-previous :
    (after_free : Bool) (previous : Block) (rest : List Block)
    → (after_free && is_free previous) ≡ false
    → Coalesced false rest
    → Coalesced after_free
        (if is_free previous then merge_with_next previous rest else previous ∷ rest)
merge_with_next-previous after_free previous rest f c = elim (Bool-cases (is_free previous)) [
  | inl idle ↦ rw idle (merge_with_next-Coalesced after_free previous rest f idle c)
  | inr live ↦ rw live (f, rw live c)
]

release_after-Coalesced :
    (p : ℕ) {rest : List Block} {x : Block} (after_free : Bool) (previous : Block)
    → Found p rest x
    → is_used x ≡ true
    → Coalesced after_free (previous ∷ rest)
    → Coalesced after_free (release_after p previous rest)
release_after-Coalesced p after_free previous (past {b} {rest = rest} miss f) live c =
    rw (release_after-past p previous b rest miss)
      (c.0, release_after-Coalesced p (is_free previous) b f live c.1)
release_after-Coalesced p after_free previous (at {b} {rest} hit) live c =
    rw (release_after-at p previous b rest hit) (
      merge_with_next-previous after_free previous (merge_with_next (freed b) rest) c.0
        (merge_with_next-Coalesced false (freed b) rest refl refl (ground (arith, c.1.1))))

pub release-Coalesced :
    (p : ℕ) {bs : List Block} {x : Block}
    → Found p bs x
    → is_used x ≡ true
    → Coalesced false bs
    → Coalesced false (release p bs)
unfolding release
release-Coalesced p (past {b} {rest = rest} miss f) live c =
    let e : (payload b == p) ≡ false = ground arith in
    rw e (release_after-Coalesced p false b f live c)
release-Coalesced p (at {b} {rest} hit) live c =
    let e : (payload b == p) ≡ true = ground arith in
    rw e (merge_with_next-Coalesced false (freed b) rest refl refl (ground (arith, c.1)))

-- The allocation at `p`, of `n` bytes, is among the first and no longer among the second.
abbrev pub Removed : ℕ → ℕ → List (ℕ × ℕ) → List (ℕ × ℕ) → Type 0
Removed p n was is =
    (before : List (ℕ × ℕ)) × (after : List (ℕ × ℕ)) × (was ≡ before ++ ((p, n) ∷ after))
    × (is ≡ before ++ after)

Removed-cons :
    {p n : ℕ} {was is : List (ℕ × ℕ)} (a : ℕ × ℕ)
    → Removed p n was is
    → Removed p n (a ∷ was) (a ∷ is)
Removed-cons a (before, after, e, e') = (a ∷ before, after, rw e, rw e')

Removed-skip :
    {p n : ℕ} (b : Block) (bs cs : List Block)
    → Removed p n (allocations bs) (allocations cs)
    → Removed p n (allocations (b ∷ bs)) (allocations (b ∷ cs))
unfolding allocations
Removed-skip b bs cs r = elim (Bool-cases (is_used b)) [
  | inl live ↦ rw live (Removed-cons (payload b, b.size) r)
  | inr idle ↦ rw idle r
]

allocations_idle :
    (b : Block) (rest : List Block) → is_free b ≡ true → allocations (b ∷ rest) ≡ allocations rest
unfolding allocations
allocations_idle b rest idle = ground arith

freed-Removed :
    (p : ℕ) (b : Block) (rest : List Block)
    → payload b ≡ p
    → is_used b ≡ true
    → Removed p b.size (allocations (b ∷ rest)) (allocations (merge_with_next (freed b) rest))
freed-Removed p b rest hit live = (
  [],
  allocations rest,
  unfold allocations in rw (live, hit),
  merge_with_next-allocations (freed b) rest refl,
)

release_after-Removed :
    (p : ℕ) {rest : List Block} {x : Block} (previous : Block)
    → Found p rest x
    → is_used x ≡ true
    → Removed p x.size (allocations (previous ∷ rest)) (allocations (release_after p previous rest))
release_after-Removed p previous (past {b} {rest = rest} miss f) live =
    rw (release_after-past p previous b rest miss)
      (Removed-skip previous (b ∷ rest) (release_after p b rest) (release_after-Removed p b f live))
release_after-Removed p previous (at {b} {rest} hit) live =
    rw (release_after-at p previous b rest hit) (elim (Bool-cases (is_free previous)) [
      | inl idle ↦
          rw (idle, merge_with_next-allocations previous (merge_with_next (freed b) rest) idle)
            (skip idle (freed-Removed p b rest hit live))
      | inr busy ↦ rw busy (
          Removed-skip previous (b ∷ rest) (merge_with_next (freed b) rest)
            (freed-Removed p b rest hit live))
    ])
  where
    skip :
        is_free previous ≡ true
        → Removed p b.size (allocations (b ∷ rest)) (allocations (merge_with_next (freed b) rest))
        → Removed p b.size
            (allocations (previous ∷ b ∷ rest))
            (allocations (merge_with_next (freed b) rest))
    skip idle r = rw (allocations_idle previous (b ∷ rest) idle) r

pub release-Removed :
    (p : ℕ) {bs : List Block} {x : Block}
    → Found p bs x
    → is_used x ≡ true
    → Removed p x.size (allocations bs) (allocations (release p bs))
unfolding release
release-Removed p (past {b} {rest = rest} miss f) live =
    let e : (payload b == p) ≡ false = ground arith in rw e (release_after-Removed p b f live)
release-Removed p (at {b} {rest} hit) live =
    let e : (payload b == p) ≡ true = ground arith in rw e (freed-Removed p b rest hit live)
