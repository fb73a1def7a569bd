-- ===== src/Vfs/Queue.antt =====
-- A pipe of src/fs/vfs.c implements a queue of bytes.
use cone_os.Prelude.{
  ℕ, zero, suc, ◌+◌, ◌-◌, ◌<◌, ◌≤◌, ◌≡◌, refl, sym, ◌∙◌, ap, subst, min, false, Option, none, some,
  List, [], ◌∷◌, ◌++◌, length, take, drop, arith, inl, inr, ◌==◌, ==→eq, if◌then◌else◌, Bool-cases,
}
use cone_os.Vfs.{Pipe}
use cone_os.Vfs.Pipes.{
  take_bytes, put_bytes, read_pipe, write_pipe, ReadRound, got, ended, must_wait,
}
use cone_os.Vfs.Ring.{
  after, bytes_from, held, IsRing, length-bytes_from, take_bytes_lem, Puts, put_bytes_lem,
  length-held, bytes_from-append,
}

-- The queue that a pipe implements: at most `room` bytes, the oldest one first.
pub record PipeQueue : Type 0 where
  pub readers : ℕ
  pub writers : ℕ
  pub room : ℕ
  pub queue : List ℕ

abbrev pub queue_of : Pipe → PipeQueue
queue_of p = record {
  readers = p.readers;
  writers = p.writers;
  room = length p.buffer;
  queue = held p;
}

-- The end of the input, a wait, or the first `n` bytes; and the bytes that are left.
unfoldable pub front : ℕ → ℕ → List ℕ → ReadRound × List ℕ
front n writers [] = ((if writers == 0 then ended else must_wait), [])
front n writers (c ∷ cs) = (got (take n (c ∷ cs)), drop n (c ∷ cs))

unfoldable pub dequeue : ℕ → PipeQueue → ReadRound × PipeQueue
dequeue n q = let (result, left) = front n q.writers q.queue in (result, record q { queue = left })

unfoldable pub enqueue : List ℕ → PipeQueue → Option ℕ × PipeQueue
enqueue bytes q =
    if q.readers == 0
    then (none, q)
    else let space = q.room - length q.queue in
      (some (min (length bytes) space), record q { queue = q.queue ++ take space bytes })

take-append :
    (xs ys : List ℕ) (n : ℕ)
    → length xs ≡ min (length xs + length ys) n
    → (take n (xs ++ ys) ≡ xs) × (drop n (xs ++ ys) ≡ ys)
take-append [] [] zero h = (refl, refl)
take-append [] [] (suc n) h = (refl, refl)
take-append [] (y ∷ ys) zero h = (refl, refl)
take-append [] (y ∷ ys) (suc n) h = absurd (omega arith)
take-append (x ∷ xs) ys zero h = absurd (omega arith)
take-append (x ∷ xs) ys (suc n) h =
    let (t, d) = take-append xs ys n (omega arith) in (ap (◌∷◌ x) t, d)

held-split :
    (p : Pipe) (n : ℕ)
    → IsRing p
    → n ≤ p.count
    → held p
      ≡ bytes_from p.buffer p.head n
        ++ bytes_from p.buffer (after (length p.buffer) p.head n) (p.count - n)
unfolding held
held-split p n r l =
    let whole : n + (p.count - n) ≡ p.count = omega arith in
    ap (bytes_from p.buffer p.head) (sym whole)
    ∙ bytes_from-append p.buffer p.head n (p.count - n) r.head_in (omega (arith, r.count_in))

-- A round of reading takes the front of the queue.
pub record Reads (n : ℕ) (p : Pipe) : Type 0 where
  pub result : (read_pipe n p).0 ≡ (dequeue n (queue_of p)).0
  pub state : queue_of (read_pipe n p).1 ≡ (dequeue n (queue_of p)).1
  pub ring : IsRing (read_pipe n p).1

Reads-by :
    (n : ℕ) (p : Pipe) (s : ReadRound × Pipe) (t : ReadRound × PipeQueue)
    → read_pipe n p ≡ s
    → dequeue n (queue_of p) ≡ t
    → s.0 ≡ t.0
    → queue_of s.1 ≡ t.1
    → IsRing s.1
    → Reads n p
Reads-by n p s t e f same state ring = record {
  result =
      ap (λ (a : ReadRound × Pipe). a.0) e ∙ same ∙ sym (ap (λ (a : ReadRound × PipeQueue). a.0) f);
  state =
      ap (λ (a : ReadRound × Pipe). queue_of a.1) e
      ∙ state
      ∙ sym (ap (λ (a : ReadRound × PipeQueue). a.1) f);
  ring = subst (λ (a : ReadRound × Pipe). IsRing a.1) (sym e) ring;
}

front-empty :
    (n writers : ℕ) (l : List ℕ)
    → length l ≡ 0
    → front n writers l ≡ ((if writers == 0 then ended else must_wait), l)
unfolding front
front-empty n writers [] z = refl
front-empty n writers (c ∷ cs) z = absurd (omega arith)

front-some :
    (n writers : ℕ) (l : List ℕ) → 0 < length l → front n writers l ≡ (got (take n l), drop n l)
unfolding front
front-some n writers [] z = absurd (omega arith)
front-some n writers (c ∷ cs) z = refl

dequeue-front :
    (n : ℕ) (q : PipeQueue) (s : ReadRound × List ℕ)
    → front n q.writers q.queue ≡ s
    → dequeue n q ≡ (s.0, record q { queue = s.1 })
unfolding dequeue
dequeue-front n q s e = ap (λ (a : ReadRound × List ℕ). (a.0, record q { queue = a.1 })) e

read_empty : (n : ℕ) (p : Pipe) → p.count ≡ 0 → IsRing p → Reads n p
unfolding read_pipe
read_empty n p z r =
    Reads-by n p ((if p.writers == 0 then ended else must_wait), p)
      ((if p.writers == 0 then ended else must_wait), queue_of p) (ground (arith, z))
      (dequeue-front n (queue_of p) _ (front-empty n p.writers (held p) (length-held p ∙ z))) refl
      refl r

read_some : (n : ℕ) (p : Pipe) → (p.count == 0) ≡ false → IsRing p → Reads n p
unfolding read_pipe
read_some n p z r =
    let room : ℕ = length p.buffer in
    let amount : ℕ = min p.count n in
    let first : List ℕ = bytes_from p.buffer p.head amount in
    let rest : List ℕ = bytes_from p.buffer (after room p.head amount) (p.count - amount) in
    let p' : Pipe = record p { head = after room p.head amount; count = p.count - amount } in
    let taken = take_bytes_lem amount p r.head_in (omega (arith, r.count_in)) in
    let lengths : length first ≡ min (length first + length rest) n = omega (
      arith,
      length-bytes_from p.buffer p.head amount,
      length-bytes_from p.buffer (after room p.head amount) (p.count - amount),
    ) in
    let parts : held p ≡ first ++ rest = held-split p amount r (omega arith) in
    let (t, d) = take-append first rest n lengths in
    Reads-by n p (got first, p')
      (got (take n (held p)), record (queue_of p) { queue = drop n (held p) })
      (start amount
        ∙ ap (λ (s : List ℕ × Pipe). (got s.0, record s.1 { count = p.count - amount })) taken)
      (dequeue-front n (queue_of p) _
        (front-some n p.writers (held p) (ground (arith, length-held p, z))))
      (ap got (sym (ap (take n) parts ∙ t)))
      (ap (λ (l : List ℕ). record (queue_of p) { queue = l })
        (held-moved amount ∙ sym (ap (drop n) parts ∙ d)))
      (ring (min p.count n) (omega arith))
  where
    ring :
        (amount : ℕ)
        → amount ≤ p.count
        → IsRing
            (record p { head = after (length p.buffer) p.head amount; count = p.count - amount })
    ring amount l = record {
      head_in = ground (arith, r.head_in, r.count_in);
      count_in = omega (arith, r.count_in);
      tail_at = r.tail_at ∙ (ground (arith, r.head_in, r.count_in));
    }

    held-moved :
        (amount : ℕ)
        → held (record p { head = after (length p.buffer) p.head amount; count = p.count - amount })
          ≡ bytes_from p.buffer (after (length p.buffer) p.head amount) (p.count - amount)
    held-moved amount = unfold held in refl

    start :
        (amount : ℕ)
        → read_pipe n p ≡ (
          got (take_bytes (min p.count n) p).0,
          record (take_bytes (min p.count n) p).1 { count = p.count - min p.count n },
        )
    start amount = unfold read_pipe in rw z refl

pub read_pipe-Reads : (n : ℕ) (p : Pipe) → IsRing p → Reads n p
read_pipe-Reads n p r = elim (Bool-cases (p.count == 0)) [
  | inl e ↦ read_empty n p (==→eq p.count 0 e) r
  | inr e ↦ read_some n p e r
]

-- A round of writing puts what fits behind the queue.
pub record Writes (bytes : List ℕ) (p : Pipe) : Type 0 where
  pub result : (write_pipe bytes p).0 ≡ (enqueue bytes (queue_of p)).0
  pub state : queue_of (write_pipe bytes p).1 ≡ (enqueue bytes (queue_of p)).1
  pub ring : IsRing (write_pipe bytes p).1

pub take-nil : (n : ℕ) → take {A = ℕ} n [] ≡ []
take-nil zero = refl
take-nil (suc n) = refl

pub take-min : (l : List ℕ) (n : ℕ) → take (min (length l) n) l ≡ take n l
take-min [] n = take-nil (min (length {A = ℕ} []) n) ∙ sym (take-nil n)
take-min (x ∷ xs) zero = subst (λ (k : ℕ). take k (x ∷ xs) ≡ []) (none_left (length xs)) refl
  where
    none_left : (a : ℕ) → 0 ≡ min (suc a) 0
    none_left a = omega arith
take-min (x ∷ xs) (suc n) =
    subst (λ (k : ℕ). take k (x ∷ xs) ≡ x ∷ take n xs) (min_suc (length xs) n)
      (ap (◌∷◌ x) (take-min xs n))
  where
    min_suc : (a b : ℕ) → suc (min a b) ≡ min (suc a) (suc b)
    min_suc a b = omega arith

pub PipeQueue-path :
    (a b : PipeQueue)
    → a.readers ≡ b.readers
    → a.writers ≡ b.writers
    → a.room ≡ b.room
    → a.queue ≡ b.queue
    → a ≡ b
PipeQueue-path a b er ew em eq =
    λ i. record { readers = er i; writers = ew i; room = em i; queue = eq i }

length-take : (n : ℕ) (l : List ℕ) → n ≤ length l → length (take n l) ≡ n
length-take zero l h = refl
length-take (suc n) [] h = absurd (omega arith)
length-take (suc n) (x ∷ xs) h = ap suc (length-take n xs (omega arith))

wrote :
    (bytes : List ℕ) (p : Pipe) (amount : ℕ)
    → amount ≡ min (length bytes) (length p.buffer - p.count)
    → (p.readers == 0) ≡ false
    → Puts p.count (take amount bytes) p
    → length (take amount bytes) ≡ amount
    → Writes bytes p
unfolding write_pipe enqueue
wrote bytes p amount size e puts fits =
    let n : ℕ = min (length bytes) (length p.buffer - p.count) in
    let q : Pipe = record (put_bytes (take amount bytes) p) { count = p.count + amount } in
    let ring : IsRing q =
      subst (λ (k : ℕ). IsRing (record (put_bytes (take amount bytes) p) { count = p.count + k }))
        fits puts.ring in
    let holds : held q ≡ held p ++ take amount bytes =
      subst
        (λ (k : ℕ).
          held (record (put_bytes (take amount bytes) p) { count = p.count + k })
          ≡ held p ++ take amount bytes)
        fits puts.bytes in
    let space : length p.buffer - length (held p) ≡ length p.buffer - p.count =
      ap (λ (k : ℕ). length p.buffer - k) (length-held p) in
    let queued : held p ++ take amount bytes
        ≡ held p ++ take (length p.buffer - length (held p)) bytes =
      ap (λ (l : List ℕ). held p ++ l)
        (ap (λ (k : ℕ). take k bytes) size
          ∙ take-min bytes (length p.buffer - p.count)
          ∙ ap (λ (k : ℕ). take k bytes) (sym space)) in
    let done : write_pipe bytes p ≡ (some amount, q) =
      started
      ∙ ap (λ (k : ℕ). (some k, record (put_bytes (take k bytes) p) { count = p.count + k }))
          (sym size) in
    let spec : enqueue bytes (queue_of p) ≡ (
      some (min (length bytes) (length p.buffer - length (held p))),
      record (queue_of p) { queue = held p ++ take (length p.buffer - length (held p)) bytes },
    ) =
      rw e refl in
    record {
      result =
          ap (λ (s : Option ℕ × Pipe). s.0) done
          ∙ ap some (size ∙ ap (λ (k : ℕ). min (length bytes) k) (sym space))
          ∙ sym (ap (λ (s : Option ℕ × PipeQueue). s.0) spec);
      state =
          ap (λ (s : Option ℕ × Pipe). queue_of s.1) done
          ∙ PipeQueue-path (queue_of q)
              (record (queue_of p) {
                queue = held p ++ take (length p.buffer - length (held p)) bytes;
              })
              puts.readers puts.writers puts.room (holds ∙ queued)
          ∙ sym (ap (λ (s : Option ℕ × PipeQueue). s.1) spec);
      ring = subst (λ (s : Option ℕ × Pipe). IsRing s.1) (sym done) ring;
    }
  where
    started : write_pipe bytes p ≡ (
      some (min (length bytes) (length p.buffer - p.count)),
      record (put_bytes (take (min (length bytes) (length p.buffer - p.count)) bytes) p) {
        count = p.count + min (length bytes) (length p.buffer - p.count);
      },
    )
    started = unfold write_pipe in rw e refl

pub write_pipe-Writes : (bytes : List ℕ) (p : Pipe) → IsRing p → Writes bytes p
unfolding write_pipe enqueue
write_pipe-Writes bytes p r =
    let amount : ℕ = min (length bytes) (length p.buffer - p.count) in
    let fits : length (take amount bytes) ≡ amount = length-take amount bytes (omega arith) in
    elim (Bool-cases (p.readers == 0)) [
      | inl e ↦ record { result = rw e refl; state = rw e refl; ring = rw e r }
      | inr e ↦
          wrote bytes p amount refl e
            (put_bytes_lem (take amount bytes) p p.count r (omega (arith, r.count_in, fits))) fits
    ]
