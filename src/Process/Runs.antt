-- ===== src/Process/Runs.antt =====
-- Runs of the calls of src/kernel/process.c that change the memory of a process.
use cone_os.Process.{Process, CallResult, stuck, einval, enomem, value, memory_limit_pages}
use cone_os.Process.Heap.{brk, heap_pages, user_stack, over_heap_limit}
use cone_os.Process.Regions.Coverage.{view}
use cone_os.Process.Regions.{region_pages}
use cone_os.Process.Mappings.{mmap, munmap, writable, executable, mmap_refuses}
use cone_os.Process.Reserving.{IsSound, Reserves, mmap_lem}
use cone_os.Process.Unmapping.{Gives, munmap_lem}
use cone_os.Prelude.{
  ℕ, ◌+◌, ◌-◌, ◌%◌, ◌≤◌, ◌≡◌, refl, Bool, false, ◌&&◌, ◌||◌, ◌==◌, ltb, leb, Bool-cases, inl, inr,
  some, List, [], ◌∷◌, if◌then◌else◌, arith, page_size, sub64, add64, sym, subst, ap, ap₂, ◌∙◌,
}

-- The heap is between its base and the stack.
abbrev pub HasHeap : Process → Type 0
HasHeap p =
    (p.heap_base % 4096 ≡ 0)
    × ((p.heap_base ≤ p.program_break) × (p.program_break + 4096 ≤ user_stack))

-- No region is both writable and executable.
abbrev pub IsGuarded : Process → Type 0
IsGuarded p =
    (x protection : ℕ)
    → view p.mappings x ≡ some protection
    → (writable protection && executable protection) ≡ false

-- The memory of a process whose image has so many pages.
pub record IsOrderly (image : ℕ) (p : Process) : Type 0 where
  pub heap : HasHeap p
  pub sound : IsSound (image + heap_pages p.heap_base p.program_break) p
  pub guarded : IsGuarded p

pub data MemoryCall : Type 0 where
  map_call : (ℕ → Bool) → ℕ → ℕ → ℕ → ℕ → MemoryCall
  unmap_call : ℕ → ℕ → MemoryCall
  break_call : ℕ → MemoryCall

-- The process after a call; each process_mmap sees the pages mapped at its time.
abbrev pub memory_call : MemoryCall → Process → CallResult × Process
memory_call (map_call mapped hint length protection flags) p =
    mmap mapped hint length protection flags p
memory_call (unmap_call address length) p = munmap address length p
memory_call (break_call requested) p = brk requested p

unfoldable pub memory_run : List MemoryCall → Process → Process
memory_run [] p = p
memory_run (c ∷ cs) p = memory_run cs (memory_call c p).1

abbrev moved_pages : ℕ → ℕ → ℕ → ℕ
moved_pages committed old new =
    if leb old new then add64 committed (new - old) else sub64 committed (old - new)

moved_pages_lem :
    (committed fixed rest old new : ℕ)
    → committed ≡ fixed + old + rest
    → committed ≤ memory_limit_pages
    → over_heap_limit committed old new ≡ false
    → (moved_pages committed old new ≡ fixed + new + rest)
      × (moved_pages committed old new ≤ memory_limit_pages)
moved_pages_lem committed fixed rest old new h k l = ground (arith, h, k, l)

brk_account :
    (image requested : ℕ) (p : Process)
    → HasHeap p
    → IsSound (image + heap_pages p.heap_base p.program_break) p
    → p.heap_base ≤ requested
    → requested + 4096 ≤ user_stack
    → over_heap_limit p.committed_pages
        (heap_pages p.heap_base p.program_break)
        (heap_pages p.heap_base requested)
      ≡ false
    → IsSound (image + heap_pages p.heap_base requested) (record p {
      program_break = requested;
      committed_pages =
          moved_pages p.committed_pages
            (heap_pages p.heap_base p.program_break)
            (heap_pages p.heap_base requested);
    })
brk_account image requested p h s low high l =
    let (account, limited) =
      moved_pages_lem p.committed_pages image (region_pages p.mappings)
        (heap_pages p.heap_base p.program_break) (heap_pages p.heap_base requested) s.account
        s.limited l in
    record { table = s.table; account = account; limited = limited }

-- process_brk keeps the account.
pub brk-IsSound :
    (image requested : ℕ) (p : Process)
    → HasHeap p
    → IsSound (image + heap_pages p.heap_base p.program_break) p
    → let p' = (brk requested p).1 in
      HasHeap p' × IsSound (image + heap_pages p'.heap_base p'.program_break) p'
unfolding brk
brk-IsSound image requested p h s = elim (Bool-cases (requested == 0)) [
  | inl z ↦ rw (z, brk) (h, s)
  | inr z ↦
      elim (Bool-cases (ltb requested p.heap_base || ltb (user_stack - page_size) requested)) [
        | inl o ↦ rw (z, o, brk) (h, s)
        | inr o ↦
            elim (Bool-cases (
              over_heap_limit p.committed_pages (heap_pages p.heap_base p.program_break)
                (heap_pages p.heap_base requested))) [
                  | inl l ↦ rw (z, o, l, brk) (h, s)
                  | inr l ↦
                      rw (z, o, l, brk)
                        (
                          (h.0, ground (arith, o, h)),
                          brk_account image requested p h s (ground (arith, o)) (ground (arith, o))
                              l,
                        )
                ]
      ]
]

abbrev SameHeap : Process → Process → Type 0
SameHeap p p' = (p'.heap_base ≡ p.heap_base) × (p'.program_break ≡ p.program_break)

mmap-SameHeap :
    (mapped : ℕ → Bool) (hint length protection flags : ℕ) (p : Process)
    → SameHeap p (mmap mapped hint length protection flags p).1
unfolding mmap
mmap-SameHeap mapped hint length protection flags p = ground arith

munmap-SameHeap : (address length : ℕ) (p : Process) → SameHeap p (munmap address length p).1
unfolding munmap
munmap-SameHeap address length p = ground arith

mmap_accepts :
    (mapped : ℕ → Bool) (hint length protection flags a : ℕ) (p : Process)
    → (mmap mapped hint length protection flags p).0 ≡ value a
    → mmap_refuses hint protection flags ≡ false
unfolding mmap
mmap_accepts mapped hint length protection flags a p e =
    elim (Bool-cases (mmap_refuses hint protection flags)) [
      | inl c ↦ ground (arith, c, e)
      | inr c ↦ c
    ]

-- A process as it was, or with regions that keep the account and have no other protection.
keep-IsOrderly :
    (image : ℕ) (p p' : Process)
    → SameHeap p p'
    → IsOrderly image p
    → IsSound (image + heap_pages p.heap_base p.program_break) p'
    → IsGuarded p'
    → IsOrderly image p'
keep-IsOrderly image p p' (base, break) o s g = record {
  heap = omega (arith, base, break, o.heap);
  sound = subst (λ n. IsSound (image + n) p') (sym (ap₂ heap_pages base break)) s;
  guarded = g;
}

Reserves-IsOrderly :
    (mapped : ℕ → Bool) (image hint length protection flags : ℕ) (p : Process)
    (r : CallResult × Process)
    → Reserves mapped
        (image + heap_pages p.heap_base p.program_break)
        hint
        length
        protection
        flags
        p
        r
    → SameHeap p r.1
    → ((a : ℕ) → r.0 ≡ value a → (writable protection && executable protection) ≡ false)
    → IsOrderly image p
    → IsOrderly image r.1
Reserves-IsOrderly mapped image hint length protection flags p (stuck, p') h s g o = absurd h
Reserves-IsOrderly mapped image hint length protection flags p (einval, p') h s g o =
    subst (IsOrderly image) (sym h.0) o
Reserves-IsOrderly mapped image hint length protection flags p (enomem, p') h s g o =
    subst (IsOrderly image) (sym h.0) o
Reserves-IsOrderly mapped image hint length protection flags p (value a, p')
      (_, (_, (_, (sound, seen)))) s g o =
    keep-IsOrderly image p p' s o sound
      (λ x q e. let k = sym (seen x) ∙ e in ground (arith, k, g a refl, o.guarded x q))

Gives-IsOrderly :
    (image address length : ℕ) (p : Process) (r : CallResult × Process)
    → Gives (image + heap_pages p.heap_base p.program_break) address length p r
    → SameHeap p r.1
    → IsOrderly image p
    → IsOrderly image r.1
Gives-IsOrderly image address length p (stuck, p') h s o = absurd h
Gives-IsOrderly image address length p (einval, p') h s o = subst (IsOrderly image) (sym h.0) o
Gives-IsOrderly image address length p (enomem, p') h s o = subst (IsOrderly image) (sym h.0) o
Gives-IsOrderly image address length p (value n, p') (_, (sound, (_, seen))) s o =
    keep-IsOrderly image p p' s o sound
      (λ x q e. let k = sym (seen x) ∙ e in ground (arith, k, o.guarded x q))

brk_mappings : (requested : ℕ) (p : Process) → (brk requested p).1.mappings ≡ p.mappings
unfolding brk
brk_mappings requested p = ground arith

-- Any run of process_mmap, process_munmap and process_brk keeps the memory of a process in order:
-- the regions are whole pages within the bounds and apart from each other, none of them is both
-- writable and executable, the heap ends below the stack, and the committed pages are those of the
-- image, the heap and the regions, and within the limit.
pub memory_run-IsOrderly :
    (image : ℕ) (cs : List MemoryCall) (p : Process)
    → IsOrderly image p
    → IsOrderly image (memory_run cs p)
unfolding memory_run
memory_run-IsOrderly image [] p o = o
memory_run-IsOrderly image (map_call mapped hint length protection flags ∷ cs) p o =
    memory_run-IsOrderly image cs _ (
      Reserves-IsOrderly mapped image hint length protection flags p
        (mmap mapped hint length protection flags p)
        (mmap_lem mapped _ hint length protection flags p o.sound)
        (mmap-SameHeap mapped hint length protection flags p)
        (λ a e. ground (arith, mmap_accepts mapped hint length protection flags a p e)) o)
memory_run-IsOrderly image (unmap_call address length ∷ cs) p o = memory_run-IsOrderly image cs _ (
    Gives-IsOrderly image address length p (munmap address length p)
      (munmap_lem _ address length p o.sound) (munmap-SameHeap address length p) o)
memory_run-IsOrderly image (break_call requested ∷ cs) p o =
    let (heap, sound) = brk-IsSound image requested p o.heap o.sound in
    memory_run-IsOrderly image cs _ (record {
      heap = heap;
      sound = sound;
      guarded = λ x q e. o.guarded x q (sym (ap (λ rs. view rs x) (brk_mappings requested p)) ∙ e);
    })
