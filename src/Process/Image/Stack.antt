-- ===== src/Process/Image/Stack.antt =====
-- What create_process_image of src/kernel/process.c leaves in the stack page.
use cone_os.Process.Image.Bytes.{
  HasBytes, length-store_bytes, store_bytes-HasBytes, store_bytes-keeps,
}
use cone_os.Process.Heap.{user_stack}
use cone_os.Process.Image.{
  store_bytes, Pushed, push_strings, push_arguments, word_bytes, words_bytes,
}
use cone_os.Prelude.{
  ℕ, zero, suc, ◌+◌, ◌-◌, ◌*◌, ◌/◌, ◌%◌, ◌<◌, ◌≤◌, ◌≡◌, refl, false, ◌||◌, ltb, leb, Bool-cases,
  Option-cases, inl, inr, Option, none, some, List, [], ◌∷◌, ◌++◌, length, length-append,
  align_down, page_size, arith, sym, subst, ap, ◌∙◌,
}

-- Each argument stands at its address, with its final 0, between the bounds.
abbrev pub HasStrings : List ℕ → ℕ → ℕ → List (List ℕ) → List ℕ → Type 0
HasStrings page low high [] [] = Unit
HasStrings page low high [] (q ∷ qs) = ⊥
HasStrings page low high (a ∷ rest) [] = ⊥
HasStrings page low high (a ∷ rest) (q ∷ qs) =
    ((offset : ℕ) × ((q ≡ user_stack + offset)
        × ((low ≤ offset) × ((offset + length a < high) × HasBytes page offset (a ++ (0 ∷ []))))))
    × HasStrings page low high rest qs

length-string : (a : List ℕ) → length (a ++ (0 ∷ [])) ≡ length a + 1
length-string a = length-append a (0 ∷ [])

-- Bytes written below all strings.
store_bytes-HasStrings :
    (page : List ℕ) (offset low new high : ℕ) (bs : List ℕ) (arguments : List (List ℕ))
    (qs : List ℕ)
    → offset + length bs ≤ low
    → new ≤ low
    → HasStrings page low high arguments qs
    → HasStrings (store_bytes page offset bs) new high arguments qs
store_bytes-HasStrings page offset low new high bs [] [] h l k = k
store_bytes-HasStrings page offset low new high bs [] (q ∷ qs) h l k = k
store_bytes-HasStrings page offset low new high bs (a ∷ rest) [] h l k = k
store_bytes-HasStrings page offset low new high bs (a ∷ rest) (q ∷ qs) h l
      ((o, (e, (b, (c, d)))), k) =
    (
      (
        o,
        (
          e,
          (
            omega (arith, b, l),
            (c, store_bytes-keeps page offset o bs (a ++ (0 ∷ [])) (inr (omega (arith, h, b))) d),
          ),
        ),
      ),
      store_bytes-HasStrings page offset low new high bs rest qs h l k,
    )

abbrev Placed : List (List ℕ) → ℕ → List ℕ → Pushed → Type 0
Placed arguments cursor page p =
    (p.cursor ≤ cursor)
    × ((length p.page ≡ length page)
        × ((length p.addresses ≡ length arguments)
            × HasStrings p.page p.cursor cursor arguments p.addresses))

some_same : (p q : Pushed) → some p ≡ some q → p ≡ q
some_same p q e = ap (λ (o : Option Pushed). elim o [ none ↦ p | some x ↦ x ]) e

push_strings-step :
    (a : List ℕ) (rest : List (List ℕ)) (cursor : ℕ) (page : List ℕ) (q : Pushed)
    → push_strings rest cursor page ≡ some q
    → (leb page_size (length a) || ltb q.cursor (length a + 1)) ≡ false
    → push_strings (a ∷ rest) cursor page
      ≡ some (record {
        addresses = (user_stack + (q.cursor - (length a + 1))) ∷ q.addresses;
        cursor = q.cursor - (length a + 1);
        page = store_bytes q.page (q.cursor - (length a + 1)) (a ++ (0 ∷ []));
      })
unfolding push_strings
push_strings-step a rest cursor page q k c = rw (k, c, push_strings) refl

push_strings-Placed :
    (arguments : List (List ℕ)) (cursor : ℕ) (page : List ℕ) (p : Pushed)
    → cursor ≤ length page
    → push_strings arguments cursor page ≡ some p
    → Placed arguments cursor page p
unfolding push_strings
push_strings-Placed [] cursor page p h e =
    subst (Placed [] cursor page) (some_same _ p e) (omega arith, (refl, (refl, tt)))
push_strings-Placed (a ∷ rest) cursor page p h e =
    elim (Option-cases (push_strings rest cursor page)) [
      | inl k ↦ ground (arith, k, e)
      | inr (q, k) ↦ elim (Bool-cases (leb page_size (length a) || ltb q.cursor (length a + 1))) [
        | inl c ↦ ground (arith, k, c, e)
        | inr c ↦
            let (below, (long, (count, strings))) = push_strings-Placed rest cursor page q h k in
            let low = q.cursor - (length a + 1) in
            let bs = a ++ (0 ∷ []) in
            let room : length a + 1 ≤ q.cursor = ground (arith, c) in
            let fits : low + length bs ≤ length q.page =
              omega (arith, length-string a, room, below, long, h) in
            let built : Pushed = record {
              addresses = (user_stack + low) ∷ q.addresses;
              cursor = low;
              page = store_bytes q.page low bs;
            } in
            let same : some built ≡ some p = sym (push_strings-step a rest cursor page q k c) ∙ e in
            subst (Placed (a ∷ rest) cursor page) (some_same built p same) (
              omega (arith, below),
              (
                length-store_bytes q.page low bs ∙ long,
                (
                  ap suc count,
                  (
                    (
                      low,
                      (
                        refl,
                        (
                          omega arith,
                          (omega (arith, room, below), store_bytes-HasBytes q.page low bs fits),
                        ),
                      ),
                    ),
                    store_bytes-HasStrings q.page low q.cursor low cursor bs rest q.addresses
                        (omega (arith, length-string a, room)) (omega arith) strings,
                  ),
                ),
              ),
            )
      ]
    ]

length-word_bytes : (k n : ℕ) → length (word_bytes k n) ≡ k
unfolding word_bytes
length-word_bytes zero n = refl
length-word_bytes (suc k) n = ap suc (length-word_bytes k (n / 256))

length-words_bytes : (ns : List ℕ) → length (words_bytes ns) ≡ 8 * length ns
unfolding words_bytes
length-words_bytes [] = refl
length-words_bytes (n ∷ ns) = omega (
  arith,
  length-append (word_bytes 8 n) (words_bytes ns),
  length-word_bytes 8 n,
  length-words_bytes ns,
)

abbrev pub HasArguments : List (List ℕ) → ℕ × List ℕ → Type 0
HasArguments arguments (cursor, after) =
    (cursor % 8 ≡ 0)
    × ((length after ≡ page_size)
        × ((addresses : List ℕ) × ((length addresses ≡ length arguments)
              × (HasBytes after cursor (words_bytes (addresses ++ (0 ∷ [])))
                  × HasStrings after (cursor + (length arguments + 1) * 8) page_size arguments
                      addresses))))

some_pair : (p q : ℕ × List ℕ) → some p ≡ some q → p ≡ q
some_pair p q e = ap (λ (o : Option (ℕ × List ℕ)). elim o [ none ↦ p | some x ↦ x ]) e

push_arguments-HasArguments :
    (arguments : List (List ℕ)) (page : List ℕ) (cursor : ℕ) (after : List ℕ)
    → length page ≡ page_size
    → push_arguments arguments page ≡ some (cursor, after)
    → HasArguments arguments (cursor, after)
unfolding push_arguments
push_arguments-HasArguments arguments page cursor after h e =
    elim (Option-cases (push_strings arguments page_size page)) [
      | inl k ↦ ground (arith, k, e)
      | inr (p, k) ↦
          let top = align_down p.cursor 8 in
          let size = (length arguments + 1) * 8 in
          elim (Bool-cases (ltb top size)) [
            | inl c ↦ ground (arith, k, c, e)
            | inr c ↦
                let (below, (long, (count, strings))) =
                  push_strings-Placed arguments page_size page p (omega (arith, h)) k in
                let bs = words_bytes (p.addresses ++ (0 ∷ [])) in
                let room : size ≤ top = ground (arith, c) in
                let wide : length bs ≡ size = omega (
                  arith,
                  length-words_bytes (p.addresses ++ (0 ∷ [])),
                  length-append p.addresses (0 ∷ []),
                  count,
                ) in
                let low = top - size in
                let whole : low + size ≡ top = omega (arith, room) in
                let same : some (low, store_bytes p.page low bs) ≡ some (cursor, after) =
                  ground (arith, k, c, e) in
                subst (HasArguments arguments)
                  (some_pair (low, store_bytes p.page low bs) (cursor, after) same)
                  (
                    omega arith,
                    (
                      length-store_bytes p.page low bs ∙ long ∙ h,
                      (
                        p.addresses,
                        (
                          count,
                          (
                            store_bytes-HasBytes p.page low bs
                                (omega (arith, wide, room, below, long, h)),
                            subst
                                (λ n.
                                  HasStrings (store_bytes p.page low bs) n page_size arguments
                                    p.addresses)
                                (sym whole)
                                (store_bytes-HasStrings p.page low p.cursor top page_size bs
                                  arguments p.addresses (omega (arith, wide, room)) (omega arith)
                                  strings),
                          ),
                        ),
                      ),
                    ),
                  )
          ]
    ]

-- The bytes of the strings with their final 0.
unfoldable pub strings_size : List (List ℕ) → ℕ
strings_size [] = 0
strings_size (a ∷ rest) = length a + 1 + strings_size rest

push_strings-fits :
    (arguments : List (List ℕ)) (cursor : ℕ) (page : List ℕ)
    → strings_size arguments ≤ cursor
    → cursor ≤ page_size
    → (p : Pushed) × ((push_strings arguments cursor page ≡ some p)
        × (p.cursor + strings_size arguments ≡ cursor))
unfolding push_strings strings_size
push_strings-fits [] cursor page h k = (_, (refl, omega arith))
push_strings-fits (a ∷ rest) cursor page h k =
    let (q, (e, f)) = push_strings-fits rest cursor page (omega (arith, h)) k in
    let c : (leb page_size (length a) || ltb q.cursor (length a + 1)) ≡ false =
      ground (arith, f, h, k) in
    (_, (push_strings-step a rest cursor page q e c, omega (arith, f, h)))

-- The arguments of a new program get into its stack page if there is room for the strings, the array
-- and its alignment. If they do, the program finds them: at the cursor, which is a multiple of 8, the
-- array of as many addresses as there are arguments and a 0; at each address, above the array, the
-- bytes of the argument and a 0.
pub push_arguments_lem :
    (arguments : List (List ℕ)) (page : List ℕ)
    → length page ≡ page_size
    → (strings_size arguments + (length arguments + 1) * 8 + 7 ≤ page_size
        → (r : ℕ × List ℕ) × (push_arguments arguments page ≡ some r))
      × ((r : ℕ × List ℕ) → push_arguments arguments page ≡ some r → HasArguments arguments r)
unfolding push_arguments
push_arguments_lem arguments page h = (
  λ room.
      let (p, (e, f)) =
        push_strings-fits arguments page_size page (omega (arith, room)) (omega arith) in
      let c : ltb (align_down p.cursor 8) ((length arguments + 1) * 8) ≡ false =
        ground (arith, f, room) in
      let low = align_down p.cursor 8 - (length arguments + 1) * 8 in
      (
        (low, store_bytes p.page low (words_bytes (p.addresses ++ (0 ∷ [])))),
        rw (e, c, push_arguments) refl,
      ),
  λ r e. push_arguments-HasArguments arguments page r.0 r.1 h e,
)
