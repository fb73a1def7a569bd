-- ===== src/Block/Tests.antt =====
-- A disk that carries out a request as soon as it is notified.
use cone_os.Block.{DiskDevice, Driver, Memory}
use cone_os.Block.Contract.{Disk, write_disk}
use cone_os.Block.Spec.{Request, read, write, View}
use cone_os.Prelude.{
  ℕ, zero, suc, ◌+◌, ◌≤◌, ◌%◌, ◌^◌, ◌≡◌, refl, true, false, ◌==◌, List, [], ◌∷◌, ◌++◌, take, drop,
  set, length, replicate, if◌then◌else◌, arith, length-append, length-replicate, Bool-cases, inl,
  inr,
}

-- Every sector has 512 bytes.
abbrev Store : Type 0
Store = (disk : Disk) × ((i : ℕ) → length (disk i) ≡ 512)

abbrev sector_of : List ℕ → List ℕ
sector_of payload = take 512 (payload ++ replicate 512 0)

length-take : (n : ℕ) (xs : List ℕ) → n ≤ length xs → length (take n xs) ≡ n
length-take zero xs h = refl
length-take (suc n) [] h = absurd (omega arith)
length-take (suc n) (x ∷ xs) h = omega (arith, length-take n xs (omega arith))

length-sector_of : (payload : List ℕ) → length (sector_of payload) ≡ 512
length-sector_of payload =
    length-take 512 (payload ++ replicate 512 0)
      (omega (arith, length-append payload (replicate 512 0), length-replicate {A = ℕ} 512 0))

abbrev written_store : ℕ → List ℕ → Store → Store
written_store sector payload (disk, whole) = (
  write_disk sector (sector_of payload) disk,
  λ i. elim (Bool-cases (i == sector)) [
    | inl e ↦ rw (e) (length-sector_of payload)
    | inr e ↦ rw (e) (whole i)
  ],
)

abbrev answered : Memory → List ℕ → Memory
answered m payload = record m { used_index = (m.used_index + 1) % 2 ^ 16; payload = payload }

abbrev device : DiskDevice Store
device = record {
  notify = λ m w.
      if m.request_type == 1
      then (answered m (set m.payload 512 0), written_store m.sector m.payload w)
      else (answered m (w.0 m.sector ++ (0 ∷ drop 513 m.payload)), w);
  poll = λ m w. (m, w);
}

abbrev blank : Store
blank = (λ i. replicate 512 0, λ i. length-replicate {A = ℕ} 512 0)

abbrev empty_memory : Memory
empty_memory = record {
  descriptors = replicate 3 (record { address = 0; length = 0; flags = 0; next = 0 });
  ring = replicate 8 0;
  available_index = 65534;
  used_index = 65534;
  request_type = 0;
  reserved = 0;
  sector = 0;
  payload = replicate 4080 0;
}

abbrev driver : Driver Store
driver = record {
  initialized = true;
  flush_supported = false;
  sectors = 4;
  request_physical = 4096;
  memory = empty_memory;
  world = blank;
}

abbrev at_start : View
at_start = record { disk = λ i. replicate 512 0; count = 65534 }

-- A write, a read whose index wraps around, a read of what was written, and a read out of range.
abbrev requests : List Request
requests = write 1 (replicate 512 7) ∷ read 1 ∷ read 1 ∷ read 9 ∷ []
