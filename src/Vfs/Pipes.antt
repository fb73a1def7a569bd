-- ===== src/Vfs/Pipes.antt =====
-- pipe_read and pipe_write of src/fs/vfs.c. Each round of their loops runs with interrupts off; between
-- rounds the task is blocked and others run, so that a round is a step of its own.
use cone_os.Prelude.{
  ℕ, zero, suc, ◌+◌, ◌-◌, ◌%◌, min, not, Option, none, some, List, [], ◌∷◌, length, get_or, set,
  take, drop, ◌==◌, if◌then◌else◌,
}
use cone_os.Vfs.{Vfs, Pipe, no_pipe_at, set_pipe, wake}

-- buffer[i] = pipe->data[pipe->head]; pipe->head = (pipe->head + 1) % VFS_PIPE_CAPACITY; the capacity is
-- the length of the buffer.
unfoldable pub take_bytes : ℕ → Pipe → List ℕ × Pipe
take_bytes zero p = ([], p)
take_bytes (suc n) p =
    let (bytes, q) = take_bytes n (record p { head = (p.head + 1) % length p.buffer }) in
    (get_or p.buffer p.head 0 ∷ bytes, q)

unfoldable pub put_bytes : List ℕ → Pipe → Pipe
put_bytes [] p = p
put_bytes (c ∷ cs) p =
    put_bytes cs
      (record p { buffer = set p.buffer p.tail c; tail = (p.tail + 1) % length p.buffer })

-- A round of pipe_read, for a length other than 0: the bytes, the end of the input, or a wait.
pub data ReadRound : Type 0 where
  got : List ℕ → ReadRound
  ended : ReadRound
  must_wait : ReadRound

unfoldable pub read_pipe : ℕ → Pipe → ReadRound × Pipe
read_pipe count p =
    let amount = min p.count count in
    let (bytes, q) = take_bytes amount p in
    if not (p.count == 0)
    then (got bytes, record q { count = p.count - amount })
    else if p.writers == 0
    then (ended, p)
    else (must_wait, p)

-- A round of pipe_write with the bytes that are left: how many are taken, and none without a reader.
unfoldable pub write_pipe : List ℕ → Pipe → Option ℕ × Pipe
write_pipe bytes p =
    let amount = min (length bytes) (length p.buffer - p.count) in
    let q = put_bytes (take amount bytes) p in
    if p.readers == 0 then (none, p) else (some amount, record q { count = p.count + amount })

-- What a call comes to: -1, a number of bytes or the bytes, or the rest of the call, which goes on in
-- another round.
pub data Written : Type 0 where
  broken : Written
  written : ℕ → Written
  left_over : List ℕ → ℕ → Written

pub data Read : Type 0 where
  failed : Read
  finished : List ℕ → Read
  blocked : Read

module _ {W : Type 0} where
  unfoldable pub read_round : ℕ → ℕ → Vfs W → Read × Vfs W
  read_round i count v =
      let (result, p) = read_pipe count (get_or v.pipes i no_pipe_at) in
      elim result [
        | got bytes ↦ (finished bytes, wake (set_pipe i p v))
        | ended ↦ (finished [], v)
        | must_wait ↦ (blocked, v)
      ]

  -- A round of pipe_write, with `total` bytes written before; without room the task is blocked.
  unfoldable pub write_round : ℕ → List ℕ → ℕ → Vfs W → Written × Vfs W
  write_round i [] total v = (written total, v)
  write_round i (c ∷ cs) total v =
      let (result, p) = write_pipe (c ∷ cs) (get_or v.pipes i no_pipe_at) in
      elim result [
        | none ↦ ((if total == 0 then broken else written total), v)
        | some amount ↦
            if amount == 0
            then (left_over (c ∷ cs) total, v)
            else (left_over (drop amount (c ∷ cs)) (total + amount), wake (set_pipe i p v))
      ]
