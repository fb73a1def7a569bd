-- ===== src/Vfs/Rereading.antt =====
-- A file of src/fs/vfs.c between the write of its bytes and a read from an offset.
use cone_os.Prelude.{
  ℕ, zero, suc, ◌+◌, ◌-◌, ◌<◌, ◌≤◌, ◌≡◌, inl, inr, refl, sym, ◌∙◌, ap, min, Bool, true, Option,
  none, some, List, [], ◌∷◌, length, get_or, get_or-set, set, take, drop, arith, leb, ◌==◌, ==_refl,
  if◌then◌else◌, Bool-cases,
}
use cone_os.Ramfs.{data_size}
use cone_os.Ramfs.Names.{take-all}
use cone_os.Vfs.{Vfs, Fd, OpenFile, no_file, set_file}
use cone_os.Vfs.Mounts.{path_ops}
use cone_os.Vfs.FileSystems.{FsOps, FileSystems, ops_of}
use cone_os.Vfs.Names.{ask_path}
use cone_os.Vfs.Pipes.{Read, failed, finished, Written, written, broken}
use cone_os.Vfs.Transfers.{take_from, read_file, write_file}
use cone_os.Vfs.Queue.{take-min, take-nil}

drop-all : (k : ℕ) (xs : List ℕ) → length xs ≤ k → drop k xs ≡ []
drop-all zero [] h = refl
drop-all zero (x ∷ xs) h = absurd (omega arith)
drop-all (suc k) [] h = refl
drop-all (suc k) (x ∷ xs) h = drop-all k xs (omega arith)

length-drop_lem : (k : ℕ) (xs : List ℕ) → length (drop k xs) ≡ length xs - k
length-drop_lem zero xs = omega arith
length-drop_lem (suc k) [] = omega arith
length-drop_lem (suc k) (x ∷ xs) = omega (arith, length-drop_lem k xs)

at_end : (k n count : ℕ) → n ≤ k → min (n - k) count ≡ 0
at_end k n count h = omega arith

pub get_or-set_same :
    (fs : List OpenFile) (i : ℕ) (f : OpenFile) → i < length fs → get_or (set fs i f) i no_file ≡ f
get_or-set_same fs i f h =
    let e : get_or (set fs i f) i no_file ≡ (if i == i then f else get_or fs i no_file) =
      get_or-set fs i i f no_file h in
    e ∙ (rw (==_refl i) refl)

module _ {W : Type 0} (fs : FileSystems W) where
  abbrev pub put : List ℕ → Fd → Vfs W → Bool × Vfs W
  put bytes fd v = ask_path fs (λ (ops : FsOps W) (p : List ℕ). ops.write p bytes) fd.name v

  -- The file system behind the descriptor reads back what it has just written.
  abbrev pub ReadsBack : Fd → List ℕ → Vfs W → Type 0
  ReadsBack fd bytes v =
      let route = path_ops fd.name v.mounts in
      let ops = ops_of fs route.0 in
      let w = (ops.write route.1 bytes v.world).1 in
      ((n : ℕ) → ops.read route.1 n w ≡ (some (take (min (length bytes) n) bytes), w))
      × (ops.stat route.1 w ≡ (some (length bytes), w))

  -- The bytes are the content of the file, whatever becomes of the offsets.
  pub content :
      (fd : Fd) (bytes : List ℕ) (v : Vfs W) (files : List OpenFile)
      → ReadsBack fd bytes v
      → length bytes ≤ data_size
      → let u : Vfs W = record (put bytes fd v).1 { open_files = files } in
        ask_path fs (λ (ops : FsOps W) (p : List ℕ). ops.read p data_size) fd.name u
        ≡ (some bytes, u)
  content fd bytes v files back fits =
      let route = path_ops fd.name v.mounts in
      ap (λ (r : Option (List ℕ) × W). (r.0, record v { open_files = files; world = r.1 }))
        (back.0 data_size)
      ∙ ap
          (λ (l : List ℕ). (
            some l,
            record v {
              open_files = files;
              world = ((ops_of fs route.0).write route.1 bytes v.world).1;
            },
          ))
          (take-min bytes data_size ∙ take-all data_size bytes fits)

  pub size :
      (fd : Fd) (bytes : List ℕ) (v : Vfs W) (files : List OpenFile)
      → ReadsBack fd bytes v
      → let u : Vfs W = record (put bytes fd v).1 { open_files = files } in
        ask_path fs (λ (ops : FsOps W). ops.stat) fd.name u ≡ (some (length bytes), u)
  size fd bytes v files back =
      ap (λ (r : Option ℕ × W). (r.0, record v { open_files = files; world = r.1 })) back.1

  pub wrote :
      (fd : Fd) (i n : ℕ) (bytes : List ℕ) (v : Vfs W)
      → fd.file ≡ some i
      → (write_file fs fd bytes v).0 ≡ written n
      → ((put bytes fd v).0 ≡ true)
        × (n ≡ length bytes)
        × ((write_file fs fd bytes v).1
            ≡ set_file i
                (record (get_or (put bytes fd v).1.open_files i no_file) { offset = length bytes })
                (put bytes fd v).1)
  unfolding write_file
  wrote fd i n bytes v e w = elim (Bool-cases (put bytes fd v).0) [
    | inl ok ↦
        let all : write_file fs fd bytes v ≡ (
          written (length bytes),
          set_file i
              (record (get_or (put bytes fd v).1.open_files i no_file) { offset = length bytes })
              (put bytes fd v).1,
        ) =
          rw (e, write_file, ok) refl in
        let first : written (length bytes) ≡ written n =
          sym (ap (λ (r : Written × Vfs W). r.0) all) ∙ w in
        (ok, (cc), ap (λ (r : Written × Vfs W). r.1) all)
    | inr no_room ↦
        let all : write_file fs fd bytes v ≡ (broken, (put bytes fd v).1) =
          rw (e, write_file, no_room) refl in
        let first : broken ≡ written n = sym (ap (λ (r : Written × Vfs W). r.0) all) ∙ w in
        absurd (cc)
  ]

  read_at :
      (i count k : ℕ) (bytes : List ℕ) (u : Vfs W)
      → (get_or u.open_files i no_file).offset ≡ k
      → i < length u.open_files
      → k ≤ length bytes
      → ((take_from i bytes count u).0 ≡ finished (take count (drop k bytes)))
        × ((get_or (take_from i bytes count u).1.open_files i no_file).offset
            ≡ k + min (length bytes - k) count)
  unfolding take_from set_file
  read_at i count k bytes u start bound inside =
      let f : OpenFile = get_or u.open_files i no_file in
      elim (Bool-cases (leb (length bytes) f.offset)) [
        | inl past ↦
            let all : take_from i bytes count u ≡ (finished [], u) = rw past refl in
            let nothing : drop k bytes ≡ [] = drop-all k bytes (ground (arith, past, start)) in
            (
              ap (λ (r : Read × Vfs W). r.0) all
                  ∙ ap finished (sym (ap (take count) nothing ∙ take-nil count)),
              ap (λ (r : Read × Vfs W). (get_or r.1.open_files i no_file).offset) all
                  ∙ start
                  ∙ (omega (arith, at_end k (length bytes) count (ground (arith, past, start)))),
            )
        | inr more ↦
            let n : ℕ = min (length bytes - f.offset) count in
            let g : OpenFile = record f { offset = f.offset + n } in
            let all : take_from i bytes count u
                ≡ (finished (take n (drop f.offset bytes)), set_file i g u) =
              rw more refl in
            (
              ap (λ (r : Read × Vfs W). r.0) all
                  ∙ ap finished (
                      ap (λ (o : ℕ). take (min (length bytes - o) count) (drop o bytes)) start
                      ∙ ap (λ (m : ℕ). take (min m count) (drop k bytes))
                          (sym (length-drop_lem k bytes))
                      ∙ take-min (drop k bytes) count),
              ap (λ (r : Read × Vfs W). (get_or r.1.open_files i no_file).offset) all
                  ∙ ap (λ (h : OpenFile). h.offset) (get_or-set_same u.open_files i g bound)
                  ∙ ap (λ (o : ℕ). o + min (length bytes - o) count) start,
            )
      ]

  reads :
      (fd : Fd) (i count : ℕ) (bytes : List ℕ) (u : Vfs W)
      → fd.file ≡ some i
      → ask_path fs (λ (ops : FsOps W) (p : List ℕ). ops.read p data_size) fd.name u
        ≡ (some bytes, u)
      → read_file fs fd count u ≡ take_from i bytes count u
  unfolding read_file
  reads fd i count bytes u e back =
      rw (e, read_file)
        (ap
          (λ (r : Option (List ℕ) × Vfs W). elim r.0 as (λ x. Read × Vfs W) [
            | none ↦ (failed, r.1)
            | some all ↦ take_from i all count r.1
          ])
          back)

  pub read_back :
      (fd : Fd) (i count k : ℕ) (bytes : List ℕ) (u : Vfs W)
      → fd.file ≡ some i
      → (get_or u.open_files i no_file).offset ≡ k
      → i < length u.open_files
      → k ≤ length bytes
      → ask_path fs (λ (ops : FsOps W) (p : List ℕ). ops.read p data_size) fd.name u
        ≡ (some bytes, u)
      → ((read_file fs fd count u).0 ≡ finished (take count (drop k bytes)))
        × ((get_or (read_file fs fd count u).1.open_files i no_file).offset
            ≡ k + min (length bytes - k) count)
  read_back fd i count k bytes u e start bound inside back =
      let taken = read_at i count k bytes u start bound inside in
      let all : read_file fs fd count u ≡ take_from i bytes count u =
        reads fd i count bytes u e back in
      (
        ap (λ (r : Read × Vfs W). r.0) all ∙ taken.0,
        ap (λ (r : Read × Vfs W). (get_or r.1.open_files i no_file).offset) all ∙ taken.1,
      )
