-- ===== src/Vfs/Refinement.antt =====
-- Any rounds of reading and writing on a pipe of src/fs/vfs.c are those of a queue.
use cone_os.Prelude.{ℕ, ◌≡◌, refl, ◌∙◌, ap, ap₂, Option, List, [], ◌∷◌}
use cone_os.Vfs.{Pipe}
use cone_os.Vfs.Pipes.{read_pipe, write_pipe, ReadRound}
use cone_os.Vfs.Ring.{IsRing, held}
use cone_os.Vfs.Queue.{
  PipeQueue, queue_of, dequeue, enqueue, Reads, read_pipe-Reads, Writes, write_pipe-Writes,
}

-- A round of a reader or a writer, or a change of the numbers of both by other calls.
pub data Round : Type 0 where
  reading : ℕ → Round
  writing : List ℕ → Round
  recounted : ℕ → ℕ → Round

pub data Outcome : Type 0 where
  read_result : ReadRound → Outcome
  write_result : Option ℕ → Outcome
  no_result : Outcome

unfoldable pub pipe_round : Round → Pipe → Outcome × Pipe
pipe_round (reading n) p = let (r, q) = read_pipe n p in (read_result r, q)
pipe_round (writing bytes) p = let (r, q) = write_pipe bytes p in (write_result r, q)
pipe_round (recounted readers writers) p =
    (no_result, record p { readers = readers; writers = writers })

unfoldable pub queue_round : Round → PipeQueue → Outcome × PipeQueue
queue_round (reading n) p = let (r, q) = dequeue n p in (read_result r, q)
queue_round (writing bytes) p = let (r, q) = enqueue bytes p in (write_result r, q)
queue_round (recounted readers writers) p =
    (no_result, record p { readers = readers; writers = writers })

unfoldable pub pipe_rounds : List Round → Pipe → List Outcome × Pipe
pipe_rounds [] p = ([], p)
pipe_rounds (r ∷ rs) p =
    let (o, q) = pipe_round r p in let (os, after) = pipe_rounds rs q in (o ∷ os, after)

unfoldable pub queue_rounds : List Round → PipeQueue → List Outcome × PipeQueue
queue_rounds [] p = ([], p)
queue_rounds (r ∷ rs) p =
    let (o, q) = queue_round r p in let (os, after) = queue_rounds rs q in (o ∷ os, after)

record Refines (r : Round) (p : Pipe) : Type 0 where
  result : (pipe_round r p).0 ≡ (queue_round r (queue_of p)).0
  state : queue_of (pipe_round r p).1 ≡ (queue_round r (queue_of p)).1
  ring : IsRing (pipe_round r p).1

pipe_round-Refines : (r : Round) (p : Pipe) → IsRing p → Refines r p
unfolding pipe_round queue_round
pipe_round-Refines (reading n) p k =
    let h : Reads n p = read_pipe-Reads n p k in
    record { result = ap read_result h.result; state = h.state; ring = h.ring }
pipe_round-Refines (writing bytes) p k =
    let h : Writes bytes p = write_pipe-Writes bytes p k in
    record { result = ap write_result h.result; state = h.state; ring = h.ring }
pipe_round-Refines (recounted readers writers) p k = record {
  result = refl;
  state = unfold held in refl;
  ring = record { head_in = k.head_in; count_in = k.count_in; tail_at = k.tail_at };
}

-- Over any rounds of readers and writers, in any order, a pipe gives the results of a queue and holds
-- what the queue holds: bytes come out in the order they went in, once each, a writer puts in as many as
-- there is room for, a reader waits or ends exactly if the queue is empty, and the ring stays well
-- formed. Condition: the ring is well formed at the start.
pub pipe_rounds_lem :
    (rs : List Round) (p : Pipe)
    → IsRing p
    → ((pipe_rounds rs p).0 ≡ (queue_rounds rs (queue_of p)).0)
      × (queue_of (pipe_rounds rs p).1 ≡ (queue_rounds rs (queue_of p)).1)
      × IsRing (pipe_rounds rs p).1
unfolding pipe_rounds queue_rounds
pipe_rounds_lem [] p k = (refl, refl, k)
pipe_rounds_lem (r ∷ rs) p k =
    let h : Refines r p = pipe_round-Refines r p k in
    let (os, state, ring) = pipe_rounds_lem rs (pipe_round r p).1 h.ring in
    (
      ap₂ ◌∷◌ h.result (os ∙ ap (λ (q : PipeQueue). (queue_rounds rs q).0) h.state),
      state ∙ ap (λ (q : PipeQueue). (queue_rounds rs q).1) h.state,
      ring,
    )
