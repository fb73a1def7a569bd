-- ===== src/Ramfs/Roundtrip.antt =====
-- What ramfs_write of src/fs/ramfs.c leaves for ramfs_read and ramfs_stat.
use cone_os.Prelude.{
  subst, sym, ℕ, zero, suc, ◌<◌, ◌≤◌, ◌≡◌, refl, ap, ◌∙◌, min, Bool, true, false, ◌⊎◌, inl, inr,
  Option, none, some, List, [], ◌∷◌, arith, All, All-set, All-get_or, Option-cases, length, get_or,
  get_or-set, set, take, ltb, Bool-cases,
}
use cone_os.Ramfs.{
  File, Ramfs, Buffers, no_file, data_size, find_file, free_slot, overwrite, store, create, write,
  read, stat,
}
use cone_os.Ramfs.Names.{name_equal, name_equal_refl, stored_name, take-all}
use cone_os.Ramfs.Search.{find_file-set, find_file-put, free_slot-bound, find_file-matches}

take-overwrite :
    (k : ℕ) (bytes old : List ℕ)
    → k ≤ length bytes
    → length bytes ≤ length old
    → take k (overwrite bytes old) ≡ take k bytes
unfolding overwrite
take-overwrite zero bytes old h fits = refl
take-overwrite (suc k) [] old h fits = absurd (omega arith)
take-overwrite (suc k) (b ∷ bs) [] h fits = absurd (omega arith)
take-overwrite (suc k) (b ∷ bs) (o ∷ os) h fits =
    ap (◌∷◌ b) (take-overwrite k bs os (omega arith) (omega arith))

length-overwrite : (bytes old : List ℕ) → length (overwrite bytes old) ≡ length old
unfolding overwrite
length-overwrite [] old = refl
length-overwrite (b ∷ bs) [] = refl
length-overwrite (b ∷ bs) (o ∷ os) = ap suc (length-overwrite bs os)

-- A buffer has RAMFS_DATA_SIZE bytes at least, as kmalloc gives one.
abbrev pub HasRoom : File → Type 0
HasRoom f = (old : List ℕ) → f.buffer ≡ some old → data_size ≤ length old

abbrev pub GivesRoom : {W : Type 0} → Buffers W → Type 0
GivesRoom {W} buffers =
    (w : W) (old : List ℕ) → (buffers.kmalloc w).0 ≡ some old → data_size ≤ length old

-- The file has exactly these bytes.
abbrev pub Holds : {W : Type 0} → Buffers W → List ℕ → List ℕ → Ramfs W → Type 0
Holds buffers name bytes s =
    ((capacity : ℕ)
      → read buffers name capacity s ≡ some (take (min (length bytes) capacity) bytes))
    × (stat buffers name s ≡ some (length bytes))

read-found :
    {W : Type 0} (buffers : Buffers W) (name : List ℕ) (s : Ramfs W) (i capacity n : ℕ)
    (old : List ℕ)
    → find_file name s.files ≡ some i
    → (get_or s.files i no_file).buffer ≡ some old
    → (get_or s.files i no_file).size ≡ n
    → read buffers name capacity s ≡ some (take (min n capacity) old)
unfolding read
read-found buffers name s i capacity n old found there long = rw (found, there, long, read) refl

module _ {W : Type 0} (buffers : Buffers W) (name bytes : List ℕ) where
  abbrev stored : File → List ℕ → File
  stored f old = record f { buffer = some (overwrite bytes old); size = length bytes }

  stored-Holds :
      (i : ℕ) (old : List ℕ) (s : Ramfs W)
      → find_file name s.files ≡ some i
      → length bytes ≤ length old
      → Holds buffers name bytes
          (record s { files = set s.files i (stored (get_or s.files i no_file) old) })
  unfolding read stat
  stored-Holds i old s found fits =
      let f = get_or s.files i no_file in
      let (again, bound) =
        find_file-set name s.files i (stored f old) found
          (find_file-matches name s.files i found) in
      let here : get_or (set s.files i (stored f old)) i no_file ≡ stored f old =
        ground (arith, get_or-set s.files i i (stored f old) no_file bound) in
      (
        λ capacity.
            read-found buffers name
              (record s { files = set s.files i (stored (get_or s.files i no_file) old) }) i
              capacity (length bytes) (overwrite bytes old) again (ap (λ g. g.buffer) here)
              (ap (λ g. g.size) here)
            ∙ ap some (take-overwrite (min (length bytes) capacity) bytes old (ground arith) fits),
        rw (again, stat) (ap (λ g. some g.size) here),
      )

  store_lem :
      (i : ℕ) (s : Ramfs W)
      → find_file name s.files ≡ some i
      → length bytes ≤ data_size
      → HasRoom (get_or s.files i no_file)
      → let (ok, s') = store buffers i bytes s in
        ((ok ≡ true) × Holds buffers name bytes s')
        ⊎ ((ok ≡ false) × ((get_or s.files i no_file).buffer ≡ none))
  unfolding store
  store_lem i s found fits room = go (get_or s.files i no_file).buffer refl
    where
      go :
          (o : Option (List ℕ))
          → (get_or s.files i no_file).buffer ≡ o
          → let (ok, s') = store buffers i bytes s in
            ((ok ≡ true) × Holds buffers name bytes s')
            ⊎ ((ok ≡ false) × ((get_or s.files i no_file).buffer ≡ none))
      go none e = rw (e, store) (inr (refl, refl))
      go (some old) e =
          rw (e, store) (inl (refl, stored-Holds i old s found (omega (arith, fits, room old e))))

  created-found :
      (i : ℕ) (s : Ramfs W)
      → length name ≤ 255
      → find_file name s.files ≡ none
      → free_slot s.files ≡ some i
      → (find_file name (create buffers i name s).files ≡ some i)
        × ((get_or (create buffers i name s).files i no_file).buffer ≡ (buffers.kmalloc s.world).0)
  unfolding create
  created-found i s short absent slot =
      let whole : stored_name name ≡ name = take-all 255 name short in
      let same : name_equal (stored_name name) name ≡ true = rw whole (name_equal_refl name) in
      let bound : i < length s.files = free_slot-bound s.files i slot in
      (find_file-put name s.files i _ absent bound same, ap (λ g. g.buffer) (put_here _ bound))
    where
      put_here : (g : File) → i < length s.files → get_or (set s.files i g) i no_file ≡ g
      put_here g bound = ground (arith, get_or-set s.files i i g no_file bound)

  -- Why a write fails: too many bytes, no slot for a new file, or no buffer.
  abbrev pub Refused : Ramfs W → Type 0
  Refused s =
      (data_size < length bytes)
      ⊎ ((find_file name s.files ≡ none) × (free_slot s.files ≡ none))
      ⊎ ((find_file name s.files ≡ none) × ((buffers.kmalloc s.world).0 ≡ none))
      ⊎ ((i : ℕ) × (find_file name s.files ≡ some i) × ((get_or s.files i no_file).buffer ≡ none))

  -- What write does once its size is accepted.
  abbrev Outcome : Ramfs W → Bool × Ramfs W → Type 0
  Outcome s r = ((r.0 ≡ true) × Holds buffers name bytes r.1) ⊎ ((r.0 ≡ false) × Refused s)

  room_at : (i : ℕ) (s : Ramfs W) → All HasRoom s.files → HasRoom (get_or s.files i no_file)
  room_at i s rooms = All-get_or HasRoom s.files i no_file rooms (λ old e. absurd (cc))

  found-Outcome :
      (i : ℕ) (s : Ramfs W)
      → find_file name s.files ≡ some i
      → length bytes ≤ data_size
      → All HasRoom s.files
      → Outcome s (store buffers i bytes s)
  found-Outcome i s found fits rooms = elim (store_lem i s found fits (room_at i s rooms)) [
    | inl k ↦ inl k
    | inr (failed, bare) ↦ inr (failed, inr (inr (inr (i, found, bare))))
  ]

  new-Outcome :
      (i : ℕ) (s : Ramfs W)
      → length name ≤ 255
      → find_file name s.files ≡ none
      → free_slot s.files ≡ some i
      → length bytes ≤ data_size
      → GivesRoom buffers
      → Outcome s (store buffers i bytes (create buffers i name s))
  new-Outcome i s short absent slot fits gives =
      let (there, bare) = created-found i s short absent slot in
      elim (store_lem i (create buffers i name s) there fits
        (λ old e. gives s.world old (sym bare ∙ e))) [
          | inl k ↦ inl k
          | inr (failed, empty) ↦ inr (failed, inr (inr (inl (absent, cc (bare, empty)))))
        ]

  store-HasRoom :
      (i : ℕ) (s : Ramfs W) → All HasRoom s.files → All HasRoom (store buffers i bytes s).1.files
  unfolding store
  store-HasRoom i s rooms = go (get_or s.files i no_file).buffer refl
    where
      go :
          (o : Option (List ℕ))
          → (get_or s.files i no_file).buffer ≡ o
          → All HasRoom (store buffers i bytes s).1.files
      go none e = rw (e, store) rooms
      go (some old) e =
          rw (e, store)
            (All-set HasRoom s.files i (stored (get_or s.files i no_file) old) rooms (λ new same.
              let long = length-overwrite bytes old in
              let there : overwrite bytes old ≡ new = cc same in
              subst (λ l. data_size ≤ length l) there
                (omega (arith, long, room_at i s rooms old e))))

  create-HasRoom :
      (i : ℕ) (s : Ramfs W)
      → All HasRoom s.files
      → GivesRoom buffers
      → All HasRoom (create buffers i name s).files
  unfolding create
  create-HasRoom i s rooms gives = All-set HasRoom s.files i _ rooms (λ old e. gives s.world old e)

-- ramfs_write, of a name that fits an entry, succeeds and the file then holds exactly the bytes that
-- were written, which ramfs_read returns up to its capacity and ramfs_stat counts; or it fails, since
-- there are too many bytes, or the file is new and there is no free slot or no memory for its buffer,
-- or since the file was left without a buffer by such a failure. Every buffer, if kmalloc gives
-- RAMFS_DATA_SIZE bytes and the buffers have had as many, still has them.
pub write_lem :
    {W : Type 0} (buffers : Buffers W) (name bytes : List ℕ) (s : Ramfs W)
    → GivesRoom buffers
    → All HasRoom s.files
    → length name ≤ 255
    → let (ok, s') = write buffers name bytes s in
      All HasRoom s'.files
      × (((ok ≡ true) × Holds buffers name bytes s')
          ⊎ ((ok ≡ false) × Refused buffers name bytes s))
unfolding write
write_lem {W} buffers name bytes s gives rooms short =
    elim (Bool-cases (ltb data_size (length bytes))) [
      | inl e ↦
          let step : write buffers name bytes s ≡ (false, s) = rw (e, write) refl in
          subst Goal (sym step) (rooms, inr (refl, inl (ground arith)))
      | inr e ↦ elim (Option-cases (find_file name s.files)) [
        | inr (i, e') ↦
            let step : write buffers name bytes s ≡ store buffers i bytes s =
              rw (e, e', write) refl in
            subst Goal (sym step) (
              store-HasRoom buffers name bytes i s rooms,
              found-Outcome buffers name bytes i s e' (ground (arith, e)) rooms,
            )
        | inl e' ↦ elim (Option-cases (free_slot s.files)) [
          | inl k ↦
              let step : write buffers name bytes s ≡ (false, s) = rw (e, e', k, write) refl in
              subst Goal (sym step) (rooms, inr (refl, inr (inl (e', k))))
          | inr (i, k) ↦
              let step : write buffers name bytes s
                  ≡ store buffers i bytes (create buffers i name s) =
                rw (e, e', k, write) refl in
              subst Goal (sym step) (
                store-HasRoom buffers name bytes i (create buffers i name s)
                    (create-HasRoom buffers name bytes i s rooms gives),
                new-Outcome buffers name bytes i s short e' k (ground (arith, e)) gives,
              )
        ]
      ]
    ]
  where
    Goal : Bool × Ramfs W → Type 0
    Goal r = All HasRoom r.1.files × Outcome buffers name bytes s r
