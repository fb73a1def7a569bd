-- ===== src/Vfs/Ring.antt =====
-- The ring of bytes of a pipe of src/fs/vfs.c.
use cone_os.Prelude.{
  ℕ, zero, suc, ◌+◌, ◌-◌, ◌%◌, ◌<◌, ◌≤◌, ◌≡◌, ◌≢◌, refl, sym, ◌∙◌, ap, ap₂, subst, List, [], ◌∷◌,
  ◌++◌, append-nil, append_assoc, length, get_or, get_or-set, get_or-set_ne, length-set, set, arith,
  ltb, if◌then◌else◌,
}
use cone_os.Vfs.{Pipe}
use cone_os.Vfs.Pipes.{take_bytes, put_bytes}

-- The position `n` places after `i` in a ring of `room`.
abbrev pub after : ℕ → ℕ → ℕ → ℕ
after room i n = if ltb (i + n) room then i + n else (i + n - room)

-- The bytes at `n` positions from `i` on.
unfoldable pub bytes_from : List ℕ → ℕ → ℕ → List ℕ
bytes_from buffer i zero = []
bytes_from buffer i (suc n) = get_or buffer i 0 ∷ bytes_from buffer ((i + 1) % length buffer) n

-- What a pipe holds, the oldest byte first.
unfoldable pub held : Pipe → List ℕ
held p = bytes_from p.buffer p.head p.count

pub record IsRing (p : Pipe) : Type 0 where
  pub head_in : p.head < length p.buffer
  pub count_in : p.count ≤ length p.buffer
  pub tail_at : p.tail ≡ after (length p.buffer) p.head p.count

next_lem : (room i : ℕ) → i < room → (i + 1) % room ≡ after room i 1
next_lem room i h = grind arith

module _ (room i n : ℕ) (h : i < room) where
  after_next : n < room → after room ((i + 1) % room) n ≡ after room i (suc n)
  after_next l = rw (next_lem room i h) (ground arith)

  next_after : n < room → (after room i n + 1) % room ≡ after room i (suc n)
  next_after l = rw (next_lem room (after room i n) (ground arith)) (ground arith)

  next_in : (i + 1) % room < room
  next_in = rw (next_lem room i h) (ground arith)

pub after_in : (room i n : ℕ) → i < room → n ≤ room → after room i n < room
after_in room i n h l = ground arith

after_zero : (room i : ℕ) → i < room → after room i 0 ≡ i
after_zero room i h = ground arith

pub length-bytes_from : (buffer : List ℕ) (i n : ℕ) → length (bytes_from buffer i n) ≡ n
unfolding bytes_from
length-bytes_from buffer i zero = refl
length-bytes_from buffer i (suc n) = ap suc (length-bytes_from buffer ((i + 1) % length buffer) n)

-- One position more at the end.
bytes_from-suc :
    (buffer : List ℕ) (i n : ℕ)
    → i < length buffer
    → n < length buffer
    → bytes_from buffer i (suc n)
      ≡ bytes_from buffer i n ++ (get_or buffer (after (length buffer) i n) 0 ∷ [])
unfolding bytes_from
bytes_from-suc buffer i zero h l = rw (after_zero (length buffer) i h) refl
bytes_from-suc buffer i (suc n) h l =
    let room : ℕ = length buffer in
    let ih = bytes_from-suc buffer ((i + 1) % room) n (next_in room i n h) (omega arith) in
    ap (◌∷◌ (get_or buffer i 0)) (
      subst
        (λ (t : ℕ).
          bytes_from buffer ((i + 1) % room) (suc n)
          ≡ bytes_from buffer ((i + 1) % room) n ++ (get_or buffer t 0 ∷ []))
        (after_next room i n h (omega arith)) ih)

-- The bytes before a position are not changed by a write there.
bytes_from-set :
    (buffer : List ℕ) (i n k c : ℕ)
    → i < length buffer
    → n ≤ k
    → k < length buffer
    → bytes_from (set buffer (after (length buffer) i k) c) i n ≡ bytes_from buffer i n
unfolding bytes_from
bytes_from-set buffer i zero k c h l m = refl
bytes_from-set buffer i (suc n) zero c h l m = absurd (omega arith)
bytes_from-set buffer i (suc n) (suc k) c h l m =
    let room : ℕ = length buffer in
    let t : ℕ = after room i (suc k) in
    let apart : t ≢ i = λ (e : t ≡ i). absurd (ground arith) in
    let ih : bytes_from (set buffer (after room ((i + 1) % room) k) c) ((i + 1) % room) n
        ≡ bytes_from buffer ((i + 1) % room) n =
      bytes_from-set buffer ((i + 1) % room) n k c (next_in room i k h) (omega arith)
        (omega arith) in
    ap₂ ◌∷◌ (get_or-set_ne buffer t i c 0 apart) (
      ap (λ (r : ℕ). bytes_from (set buffer t c) ((i + 1) % r) n) (length-set buffer t c)
      ∙ subst
          (λ (q : ℕ).
            bytes_from (set buffer q c) ((i + 1) % room) n ≡ bytes_from buffer ((i + 1) % room) n)
          (after_next room i k h (omega arith)) ih)

-- A byte written behind the last position.
bytes_from-put :
    (buffer : List ℕ) (i k c : ℕ)
    → i < length buffer
    → k < length buffer
    → bytes_from (set buffer (after (length buffer) i k) c) i (suc k)
      ≡ bytes_from buffer i k ++ (c ∷ [])
bytes_from-put buffer i k c h l =
    let room : ℕ = length buffer in
    let t : ℕ = after room i k in
    let buffer' : List ℕ = set buffer t c in
    let same : length buffer' ≡ room = length-set buffer t c in
    let there : get_or buffer' t 0 ≡ c =
      get_or-set buffer t t c 0 (after_in room i k h (omega arith)) ∙ (ground arith) in
    bytes_from-suc buffer' i k (omega (arith, same)) (omega (arith, same))
    ∙ ap (λ (n : ℕ). bytes_from buffer' i k ++ (get_or buffer' (after n i k) 0 ∷ [])) same
    ∙ ap₂ ◌++◌ (bytes_from-set buffer i k k c h (omega arith) l) (ap (λ (x : ℕ). x ∷ []) there)

pub take_bytes_lem :
    (n : ℕ) (p : Pipe)
    → p.head < length p.buffer
    → n ≤ length p.buffer
    → take_bytes n p
      ≡ (bytes_from p.buffer p.head n, record p { head = after (length p.buffer) p.head n })
unfolding take_bytes bytes_from
take_bytes_lem zero p h l = rw (after_zero (length p.buffer) p.head h) refl
take_bytes_lem (suc n) p h l =
    let room : ℕ = length p.buffer in
    let first : ℕ = get_or p.buffer p.head 0 in
    let p' : Pipe = record p { head = (p.head + 1) % room } in
    ap (λ (s : List ℕ × Pipe). (first ∷ s.0, s.1))
      (take_bytes_lem n p' (next_in room p.head n h) (omega arith))
    ∙ ap (λ (i : ℕ). (first ∷ bytes_from p.buffer p'.head n, record p { head = i }))
        (after_next room p.head n h (omega arith))

-- Bytes at the end of the ring.
pub record Puts (k : ℕ) (cs : List ℕ) (p : Pipe) : Type 0 where
  pub ring : IsRing (record (put_bytes cs p) { count = k + length cs })
  pub bytes :
      held (record (put_bytes cs p) { count = k + length cs }) ≡ held (record p { count = k }) ++ cs
  pub room : length (put_bytes cs p).buffer ≡ length p.buffer
  pub readers : (put_bytes cs p).readers ≡ p.readers
  pub writers : (put_bytes cs p).writers ≡ p.writers

pub put_bytes_lem :
    (cs : List ℕ) (p : Pipe) (k : ℕ)
    → IsRing (record p { count = k })
    → k + length cs ≤ length p.buffer
    → Puts k cs p
unfolding put_bytes
put_bytes_lem [] p k r l =
    let same : k + 0 ≡ k = omega arith in
    record {
      ring = rw same r;
      bytes = rw (same, append-nil (held (record p { count = k }))) refl;
      room = refl;
      readers = refl;
      writers = refl;
    }
put_bytes_lem (c ∷ cs) p k r l =
    let size : ℕ = length p.buffer in
    let p' : Pipe = record p { buffer = set p.buffer p.tail c; tail = (p.tail + 1) % size } in
    let same : length p'.buffer ≡ size = length-set p.buffer p.tail c in
    let next : (p.tail + 1) % size ≡ after size p.head (suc k) =
      rw r.tail_at (next_after size p.head k r.head_in (omega arith)) in
    let ring' : IsRing (record p' { count = suc k }) = record {
      head_in = omega (arith, r.head_in, same);
      count_in = omega (arith, same);
      tail_at = next ∙ ap (λ (n : ℕ). after n p.head (suc k)) (sym same);
    } in
    let ih : Puts (suc k) cs p' = put_bytes_lem cs p' (suc k) ring' (omega (arith, same)) in
    let shift : suc k + length cs ≡ k + suc (length cs) = omega arith in
    record {
      ring = subst (λ (n : ℕ). IsRing (record (put_bytes cs p') { count = n })) shift ih.ring;
      bytes =
          subst
            (λ (n : ℕ).
              held (record (put_bytes cs p') { count = n })
              ≡ held (record p { count = k }) ++ (c ∷ cs))
            shift
            (ih.bytes
              ∙ ap (λ (l : List ℕ). l ++ cs) one
              ∙ append_assoc (held (record p { count = k })) (c ∷ []) cs);
      room = ih.room ∙ same;
      readers = ih.readers;
      writers = ih.writers;
    }
  where
    one :
        held (record p {
          buffer = set p.buffer p.tail c;
          tail = (p.tail + 1) % length p.buffer;
          count = suc k;
        })
        ≡ held (record p { count = k }) ++ (c ∷ [])
    one =
        unfold held in
        subst
          (λ (t : ℕ).
            bytes_from (set p.buffer t c) p.head (suc k) ≡ bytes_from p.buffer p.head k ++ (c ∷ []))
          (sym r.tail_at) (bytes_from-put p.buffer p.head k c r.head_in (omega arith))

pub length-held : (p : Pipe) → length (held p) ≡ p.count
unfolding held
length-held p = length-bytes_from p.buffer p.head p.count

zero_add : (m : ℕ) → 0 + m ≡ m
zero_add m = omega arith

suc_add : (n m : ℕ) → suc n + m ≡ suc (n + m)
suc_add n m = omega arith

pub bytes_from-append :
    (buffer : List ℕ) (i n m : ℕ)
    → i < length buffer
    → n + m ≤ length buffer
    → bytes_from buffer i (n + m)
      ≡ bytes_from buffer i n ++ bytes_from buffer (after (length buffer) i n) m
unfolding bytes_from
bytes_from-append buffer i zero m h l =
    ap₂ (bytes_from buffer) (sym (after_zero (length buffer) i h)) (zero_add m)
bytes_from-append buffer i (suc n) m h l =
    let room : ℕ = length buffer in
    let ih = bytes_from-append buffer ((i + 1) % room) n m (next_in room i n h) (omega arith) in
    ap (bytes_from buffer i) (suc_add n m)
    ∙ ap (◌∷◌ (get_or buffer i 0)) (
        subst
          (λ (j : ℕ).
            bytes_from buffer ((i + 1) % room) (n + m)
            ≡ bytes_from buffer ((i + 1) % room) n ++ bytes_from buffer j m)
          (after_next room i n h (omega arith)) ih)
