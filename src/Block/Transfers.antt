-- ===== src/Block/Transfers.antt =====
-- One transfer of src/drivers/block.c beside the view of Block/Spec.
use cone_os.Block.{
  DiskDevice, Driver, Memory, rounds, transfer_request, wait_for, transfer, chain, Descriptor,
}
use cone_os.Block.Contract.{polls, Disk, write_disk, Asks, Done, Answered, Serves}
use cone_os.Block.Spec.{View, moved}
use cone_os.Block.Waiting.{wait_for-polls, wait_for-timeout}
use cone_os.Prelude.{
  ℕ, zero, suc, ◌+◌, ◌<◌, ◌≤◌, ◌%◌, ◌^◌, ◌≡◌, ◌≢◌, refl, Bool, true, false, not, ◌==◌, leb,
  Bool-cases, inl, inr, arith, sym, subst, ap, List, [], ◌∷◌, ◌++◌, take, drop, set, length, none,
  some, if◌then◌else◌, length-set, length-append, length-drop, ◌∙◌, dec_lt,
}

-- The driver has no request under way, and its disk and its count are those of the view.
pub record IsReady {ℓ} {W : Type ℓ} (disk : W → Disk) (sectors : ℕ) (v : View) (s : Driver W)
    : Type ℓ where
  pub initialized : s.initialized ≡ true
  pub size : s.sectors ≡ sectors
  pub contents : disk s.world ≡ v.disk
  pub available : s.memory.available_index ≡ v.count
  pub used : s.memory.used_index ≡ v.count
  pub bounded : v.count < 2 ^ 16
  pub room : 3 ≤ length s.memory.descriptors
  pub space : 512 < length s.memory.payload

length-chain :
    (base : ℕ) (is_write : Bool) (ds : List Descriptor)
    → length (chain base is_write ds) ≡ length ds
length-chain base is_write ds =
    length-set (set (set ds 0 _) 1 _) 2 _ ∙ length-set (set ds 0 _) 1 _ ∙ length-set ds 0 _

take-set : (n : ℕ) (xs ys : List ℕ) (v : ℕ) → length xs ≡ n → take n (set (xs ++ ys) n v) ≡ xs
take-set zero [] ys v h = refl
take-set zero (x ∷ xs) ys v h = absurd (omega arith)
take-set (suc n) [] ys v h = absurd (omega arith)
take-set (suc n) (x ∷ xs) ys v h = ap (◌∷◌ x) (take-set n xs ys v (omega arith))

take-all : (n : ℕ) (xs : List ℕ) → length xs ≡ n → take n xs ≡ xs
take-all zero [] h = refl
take-all zero (x ∷ xs) h = absurd (omega arith)
take-all (suc n) [] h = absurd (omega arith)
take-all (suc n) (x ∷ xs) h = ap (◌∷◌ x) (take-all n xs (omega arith))

abbrev sent : Bool → List ℕ → List ℕ → List ℕ
sent is_write buffer payload =
    take 512 (set (if is_write then take 512 buffer ++ drop 512 payload else payload) 512 255)

sent_lem : (buffer payload : List ℕ) → length buffer ≡ 512 → sent true buffer payload ≡ buffer
sent_lem buffer payload h =
    rw (take-all 512 buffer h) (take-set 512 buffer (drop 512 payload) 255 h)

length-request :
    (base sector : ℕ) (is_write : Bool) (buffer : List ℕ) (m : Memory)
    → (is_write ≡ true → length buffer ≡ 512)
    → 512 < length m.payload
    → length (transfer_request base sector buffer is_write m).payload ≡ length m.payload
length-request base sector false buffer m full h = length-set m.payload 512 255
length-request base sector true buffer m full h =
    let whole = take-all 512 buffer (full refl) in
    omega (
      arith,
      length-set (take 512 buffer ++ drop 512 m.payload) 512 255,
      length-append (take 512 buffer) (drop 512 m.payload),
      ap length whole,
      full refl,
      length-drop 512 m.payload,
    )

-- The disk holds the buffer that was copied into the page.
new_disk :
    (is_write : Bool) (sector : ℕ) (buffer payload : List ℕ) (old view new : Disk)
    → (is_write ≡ true → length buffer ≡ 512)
    → old ≡ view
    → new ≡ (if is_write then write_disk sector (sent is_write buffer payload) old else old)
    → new ≡ (if is_write then write_disk sector buffer view else view)
new_disk false sector buffer payload old view new full e h = h ∙ e
new_disk true sector buffer payload old view new full e h =
    h
    ∙ ap (λ b. write_disk sector b old) (sent_lem buffer payload (full refl))
    ∙ ap (write_disk sector buffer) e

-- What `transfer` gives once the loop has ended.
transfer-ended {ℓ} :
    {W : Type ℓ} (device : DiskDevice W) (sector : ℕ) (buffer : List ℕ) (is_write b : Bool)
    (s : Driver W) (m : Memory) (w : W)
    → s.initialized ≡ true
    → leb s.sectors sector ≡ false
    → (let (m', w') =
          device.notify
            (transfer_request s.request_physical sector buffer is_write s.memory)
            s.world in
        wait_for device rounds s.memory.available_index 512 m' w' ≡ (not b, (m, w)))
    → transfer device sector (some buffer) is_write s ≡ (
      if b then none else some (if is_write then buffer else take 512 m.payload),
      record s { memory = m; world = w },
    )
unfolding transfer
transfer-ended device sector buffer is_write false s m w h k e = rw (e, h, k) refl
transfer-ended device sector buffer is_write true s m w h k e = rw (e, h, k) refl

inside_size :
    (sectors size sector : ℕ) → size ≡ sectors → sector < sectors → leb size sector ≡ false
inside_size sectors size sector e h = ground arith

got :
    (b is_write : Bool) (buffer payload old view : List ℕ)
    → (is_write ≡ false → payload ≡ old)
    → old ≡ view
    → (if b then none else some (if is_write then buffer else payload))
      ≡ (if b then none else some (if is_write then buffer else view))
got true is_write buffer payload old view h e = refl
got false true buffer payload old view h e = refl
got false false buffer payload old view h e = ap some (h refl ∙ e)

-- The index goes back to 0, and `index + 1` does not.
wraps : (c u : ℕ) → (c == 65535) ≡ true → u ≡ (c + 1) % 2 ^ 16 → u ≢ c + 1
wraps c u e h k = ground arith

goes_on : (c u : ℕ) → c < 2 ^ 16 → (c == 65535) ≡ false → u ≡ (c + 1) % 2 ^ 16 → u ≡ c + 1
goes_on c u b e h = ground arith

module _ {ℓ} {W : Type ℓ} (device : DiskDevice W) (disk : W → Disk) where
  -- What the loop finds: the request carried out, and a failure if the count is about to wrap.
  wait_for-Done :
      (is_write : Bool) (sector : ℕ) (m : Memory) (w : W)
      → m.used_index < 2 ^ 16
      → Answered device disk is_write sector m w
      → let (m', w') = device.notify m w in
        (k : ℕ) × ((wait_for device rounds m.used_index 512 m' w'
            ≡ (not (m.used_index == 65535), polls device k m' w'))
          × Done is_write sector m
              (disk w)
              (disk (polls device k m' w').1)
              (polls device k m' w').0)
  wait_for-Done is_write sector m w h (n, (near, (before, after))) =
      let (m', w') = device.notify m w in
      elim (Bool-cases (m.used_index == 65535)) [
        | inl e ↦ (
          rounds,
          (
            rw (e) (
                wait_for-timeout device rounds m.used_index 512 m' w' (λ j b k. elim (dec_lt j n) [
                  | yes c ↦ omega (arith, before j c, k)
                  | no c ↦ wraps m.used_index _ e (after j (omega arith) (omega arith)).used k
                ])),
            after rounds (omega arith) (omega arith),
          ),
        )
        | inr e ↦
            let d = after n (omega arith) (omega arith) in
            (
              n,
              (
                rw (e) (
                    subst
                      (λ x.
                        wait_for device rounds m.used_index 512 m' w'
                        ≡ (x == 0, polls device n m' w'))
                      d.status
                      (wait_for-polls device n rounds m.used_index 512 m' w' near
                        (λ j b k. omega (arith, before j b, k))
                        (goes_on m.used_index _ h e d.used))),
                d,
              ),
            )
      ]

  module _ (sectors : ℕ) (serves : Serves device disk sectors) where
    -- The state after a transfer that has been carried out.
    Done-IsReady :
        (sector : ℕ) (is_write : Bool) (buffer : List ℕ) (v : View) (s : Driver W) (m' : Memory)
        (w' : W)
        → (is_write ≡ true → length buffer ≡ 512)
        → IsReady disk sectors v s
        → Done is_write sector
            (transfer_request s.request_physical sector buffer is_write s.memory)
            (disk s.world)
            (disk w')
            m'
        → IsReady disk sectors
            (record {
              disk = if is_write then write_disk sector buffer v.disk else v.disk;
              count = moved v.count;
            })
            (record s { memory = m'; world = w' })
    Done-IsReady sector is_write buffer v s m' w' full r d = record {
      initialized = r.initialized;
      size = r.size;
      contents =
          new_disk is_write sector buffer s.memory.payload (disk s.world) v.disk (disk w') full
            r.contents d.disk;
      available = d.available ∙ ap moved r.available;
      used = d.used ∙ ap moved r.used;
      bounded = omega arith;
      room =
          subst (λ n. 3 ≤ n)
            (sym (
              ap length d.descriptors
              ∙ length-chain s.request_physical is_write s.memory.descriptors))
            r.room;
      space = omega (
        arith,
        d.space,
        length-request s.request_physical sector is_write buffer s.memory full r.space,
        r.space,
      );
    }

    transfer_request-Asks :
        (sector : ℕ) (is_write : Bool) (buffer : List ℕ) (v : View) (s : Driver W)
        → (is_write ≡ true → length buffer ≡ 512)
        → IsReady disk sectors v s
        → Asks s.request_physical is_write sector
            (transfer_request s.request_physical sector buffer is_write s.memory)
    transfer_request-Asks sector is_write buffer v s full r = record {
      kind = refl;
      place = refl;
      table = s.memory.descriptors;
      room = r.room;
      descriptors = refl;
      space = omega (
        arith,
        length-request s.request_physical sector is_write buffer s.memory full r.space,
        r.space,
      );
      one = ap moved (r.available ∙ sym r.used);
      bounded = omega (arith, r.used, r.bounded);
    }

    pub transfer_lem :
        (sector : ℕ) (is_write : Bool) (buffer : List ℕ) (v : View) (s : Driver W)
        → sector < sectors
        → (is_write ≡ true → length buffer ≡ 512)
        → IsReady disk sectors v s
        → let (answer, s') = transfer device sector (some buffer) is_write s in
          (answer ≡ (
            if v.count == 65535 then none else some (if is_write then buffer else v.disk sector)))
          × IsReady disk sectors
              (record {
                disk = if is_write then write_disk sector buffer v.disk else v.disk;
                count = moved v.count;
              })
              s'
    unfolding transfer
    transfer_lem sector is_write buffer v s h full r =
        let m = transfer_request s.request_physical sector buffer is_write s.memory in
        let (m', w') = device.notify m s.world in
        let asks = transfer_request-Asks sector is_write buffer v s full r in
        let (k, (e, d)) =
          wait_for-Done is_write sector m s.world asks.bounded
            (serves s.request_physical sector is_write m s.world h asks) in
        let (m'', w'') = polls device k m' w' in
        let waited =
          subst (λ i. wait_for device rounds i 512 m' w' ≡ (not (i == 65535), (m'', w'')))
            (r.used ∙ sym r.available) e in
        let ended =
          transfer-ended device sector buffer is_write (v.count == 65535) s m'' w'' r.initialized
            (inside_size sectors s.sectors sector r.size h)
            (subst
              (λ c.
                wait_for device rounds s.memory.available_index 512 m' w'
                ≡ (not (c == 65535), (m'', w'')))
              r.available waited) in
        (
          ap (λ p. p.0) ended
              ∙ got (v.count == 65535) is_write buffer (take 512 m''.payload) (disk s.world sector)
                  (v.disk sector) d.bytes (ap (λ f. f sector) r.contents),
          subst
              (λ s'.
                IsReady disk sectors
                  (record {
                    disk = if is_write then write_disk sector buffer v.disk else v.disk;
                    count = moved v.count;
                  })
                  s')
              (sym (ap (λ p. p.1) ended))
              (Done-IsReady sector is_write buffer v s m'' w'' full r d),
        )
