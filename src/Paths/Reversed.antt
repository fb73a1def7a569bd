-- ===== src/Paths/Reversed.antt =====
-- The output of resolve_path of src/fs/vfs.c while it grows, last byte first, as the text of a place.
use cone_os.Prelude.{
  ℕ, suc, ◌+◌, ◌-◌, ◌<◌, ◌≤◌, ◌≡◌, ◌≢◌, refl, sym, ◌∙◌, ap, Bool, true, false, not, Option, none,
  some, List, [], ◌∷◌, ◌++◌, append-nil, append_assoc, arith, length, length-append, ◌==◌, leb,
  if◌then◌else◌, All,
}
use cone_os.Paths.{slash, onto, strip, go_up, with_separator, append_component}
use cone_os.Paths.Spec.{Place, parent, render, text, IsName, IsPlace}

pub onto-append : (xs r acc : List ℕ) → onto xs r ++ acc ≡ onto xs (r ++ acc)
unfolding onto
onto-append [] r acc = refl
onto-append (x ∷ xs) r acc = onto-append xs (x ∷ r) acc

onto-onto : (xs r acc : List ℕ) → onto (onto xs r) acc ≡ onto r (xs ++ acc)
unfolding onto
onto-onto [] r acc = refl
onto-onto (x ∷ xs) r acc = onto-onto xs (x ∷ r) acc

length-onto : (xs r : List ℕ) → length (onto xs r) ≡ length xs + length r
unfolding onto
length-onto [] r = omega arith
length-onto (x ∷ xs) r = omega (arith, length-onto xs (x ∷ r))

-- The names of the directories, each behind a slash, reversed.
unfoldable pub body : List (List ℕ) → List ℕ
body [] = []
body (d ∷ ds) = onto d (slash ∷ body ds)

unfoldable pub reversed : Place → List ℕ
reversed p = elim p.directories [
  | [] ↦ slash ∷ []
  | d ∷ ds ↦ if p.trailing then slash ∷ body (d ∷ ds) else body (d ∷ ds)
]

pub onto-body : (ds : List (List ℕ)) (acc : List ℕ) → onto (body ds) acc ≡ render ds ++ acc
unfolding body render onto
onto-body [] acc = refl
onto-body (d ∷ ds) acc =
    onto-onto d (slash ∷ body ds) acc
    ∙ onto-body ds (slash ∷ (d ++ acc))
    ∙ sym (append_assoc (render ds) (slash ∷ d) acc)

-- In its order it is the text of the place.
pub onto-reversed : (p : Place) → onto (reversed p) [] ≡ text p
unfolding reversed text
onto-reversed p = go p.directories p.trailing
  where
    go :
        (ds : List (List ℕ)) (t : Bool)
        → onto (reversed (record { directories = ds; trailing = t })) []
          ≡ text (record { directories = ds; trailing = t })
    go [] t = unfold onto in refl
    go (d ∷ ds) true = unfold onto in onto-body (d ∷ ds) (slash ∷ [])
    go (d ∷ ds) false = onto-body (d ∷ ds) []

pub length-body : (ds : List (List ℕ)) → length (body ds) ≡ length (render ds)
unfolding body render
length-body [] = refl
length-body (d ∷ ds) =
    omega (
      arith,
      length-onto d (slash ∷ body ds),
      length-append (render ds) (slash ∷ d),
      length-body ds,
    )

pub length-reversed : (p : Place) → length (reversed p) ≡ length (text p)
length-reversed p =
    let same : length (onto (reversed p) []) ≡ length (text p) = ap length (onto-reversed p) in
    omega (arith, length-onto (reversed p) [], same)

All-onto : (P : ℕ → Type 0) (xs r : List ℕ) → All P xs → All P r → All P (onto xs r)
unfolding onto
All-onto P [] r h k = k
All-onto P (x ∷ xs) r h k = All-onto P xs (x ∷ r) h.1 (h.0, k)

pub not_slash : (c : ℕ) → c ≢ slash → (c == slash) ≡ false
not_slash c ne = ground arith

-- A name in front of a slash is stripped to the slash.
strip-slash : (xs r : List ℕ) → All (λ c. c ≢ slash) xs → strip (xs ++ (slash ∷ r)) ≡ slash ∷ r
unfolding strip
strip-slash [] [] h = refl
strip-slash [] (c ∷ r) h = refl
strip-slash (x ∷ []) r h = rw (not_slash x h.0) (strip-slash [] r tt)
strip-slash (x ∷ y ∷ xs) r h = rw (not_slash x h.0) (strip-slash (y ∷ xs) r h.1)

strip-body :
    (d : List ℕ) (ds : List (List ℕ))
    → All (λ c. c ≢ slash) d
    → strip (body (d ∷ ds)) ≡ slash ∷ body ds
unfolding body
strip-body d ds h =
    ap strip (sym (onto-append d [] (slash ∷ body ds)))
    ∙ strip-slash (onto d []) (body ds) (All-onto (λ c. c ≢ slash) d [] h tt)

-- Behind a name there are two bytes at least, and the last one is no slash.
onto-ends :
    (xs : List ℕ) (r : ℕ) (rs : List ℕ)
    → IsName xs
    → (c : ℕ) × (d : ℕ) × (t : List ℕ) × (onto xs (r ∷ rs) ≡ c ∷ d ∷ t) × (c ≢ slash)
unfolding onto
onto-ends [] r rs h = absurd (h.0 refl)
onto-ends (x ∷ []) r rs h = (x, r, rs, refl, h.1.0)
onto-ends (x ∷ y ∷ xs) r rs h = onto-ends (y ∷ xs) x (r ∷ rs) ((λ e. absurd (cc)), h.1.1)

body-ends :
    (d : List ℕ) (ds : List (List ℕ))
    → IsName d
    → (c : ℕ) × (c' : ℕ) × (t : List ℕ) × (body (d ∷ ds) ≡ c ∷ c' ∷ t) × (c ≢ slash)
unfolding body
body-ends d ds h = onto-ends d slash (body ds) h

pub go_up-reversed :
    (p : Place)
    → IsPlace p
    → go_up (reversed p) ≡ reversed (record { directories = parent p.directories; trailing = true })
unfolding reversed go_up parent
go_up-reversed p h = go p.directories p.trailing h
  where
    above :
        (ds : List (List ℕ))
        → slash ∷ body ds ≡ reversed (record { directories = ds; trailing = true })
    above [] = unfold body in refl
    above (d ∷ ds) = refl

    go :
        (ds : List (List ℕ)) (t : Bool)
        → All IsName ds
        → go_up (reversed (record { directories = ds; trailing = t }))
          ≡ reversed (record { directories = parent ds; trailing = true })
    go [] t k = refl
    go (d ∷ ds) true k =
        let (c, c', t, e, ne) = body-ends d ds k.0 in
        rw e (ap strip (sym e) ∙ strip-body d ds k.0.1 ∙ above ds)
    go (d ∷ ds) false k =
        let (c, c', t, e, ne) = body-ends d ds k.0 in
        rw (e, not_slash c ne) (ap strip (sym e) ∙ strip-body d ds k.0.1 ∙ above ds)

-- The place below.
abbrev down : List ℕ → Place → Place
down name p = record { directories = name ∷ p.directories; trailing = false }

separated : (capacity : ℕ) → Place → Option (List ℕ)
separated capacity p =
    if leb (capacity - 1) (length (reversed p)) then none else some (slash ∷ body p.directories)

abbrev is_open : Place → Bool
is_open p = elim p.directories [ [] ↦ false | d ∷ ds ↦ not p.trailing ]

with_separator-reversed :
    (capacity : ℕ) (p : Place)
    → IsPlace p
    → with_separator capacity (reversed p)
      ≡ (if is_open p then separated capacity p else some (slash ∷ body p.directories))
unfolding reversed with_separator separated
with_separator-reversed capacity p h = go p.directories p.trailing h
  where
    go :
        (ds : List (List ℕ)) (t : Bool)
        → All IsName ds
        → with_separator capacity (reversed (record { directories = ds; trailing = t })) ≡ (
            if is_open (record { directories = ds; trailing = t })
            then separated capacity (record { directories = ds; trailing = t })
            else some (slash ∷ body ds))
    go [] t k = unfold body in refl
    go (d ∷ ds) true k = let (c, c', t, e, ne) = body-ends d ds k.0 in rw e refl
    go (d ∷ ds) false k = let (c, c', t, e, ne) = body-ends d ds k.0 in rw (e, not_slash c ne) refl

length-down :
    (name : List ℕ) (p : Place)
    → length (text (down name p)) ≡ length name + suc (length (body p.directories))
length-down name p = sym (length-reversed (down name p)) ∙ at_down
  where
    at_down : length (reversed (down name p)) ≡ length name + suc (length (body p.directories))
    at_down = unfold reversed body in length-onto name (slash ∷ body p.directories)

length-is_open : (p : Place) → is_open p ≡ true → length (reversed p) ≡ length (body p.directories)
unfolding reversed
length-is_open p = go p.directories p.trailing
  where
    go :
        (ds : List (List ℕ)) (t : Bool)
        → is_open (record { directories = ds; trailing = t }) ≡ true
        → length (reversed (record { directories = ds; trailing = t })) ≡ length (body ds)
    go [] t h = absurd (cc)
    go (d ∷ ds) true h = absurd (cc)
    go (d ∷ ds) false h = refl

fitted : ℕ → List ℕ → Option (List ℕ) → Option (List ℕ)
fitted capacity name w = elim w [
  | none ↦ none
  | some o ↦ if leb capacity (length o + length name) then none else some (onto name o)
]

append_component-fitted :
    (capacity : ℕ) (name output : List ℕ)
    → append_component capacity name output ≡ fitted capacity name (with_separator capacity output)
unfolding append_component fitted
append_component-fitted capacity name output = refl

fitted-separated :
    (capacity : ℕ) (name : List ℕ) (p : Place)
    → fitted capacity name
        (if is_open p then separated capacity p else some (slash ∷ body p.directories))
      ≡ (if leb capacity (length name + suc (length (body p.directories)))
          then none
          else some (onto name (slash ∷ body p.directories)))
unfolding fitted separated
fitted-separated capacity name p = ground (arith, length-is_open p)

pub append_component-reversed :
    (capacity : ℕ) (name : List ℕ) (p : Place)
    → IsPlace p
    → append_component capacity name (reversed p)
      ≡ (if leb capacity (length (text (down name p))) then none else some (reversed (down name p)))
append_component-reversed capacity name p h =
    append_component-fitted capacity name (reversed p)
    ∙ ap (fitted capacity name) (with_separator-reversed capacity p h)
    ∙ fitted-separated capacity name p
    ∙ rw (length-down name p) below
  where
    below :
        (if leb capacity (length name + suc (length (body p.directories)))
          then none
          else some (onto name (slash ∷ body p.directories)))
        ≡ (if leb capacity (length name + suc (length (body p.directories)))
            then none
            else some (reversed (down name p)))
    below = unfold reversed body in refl

length-strip : (xs : List ℕ) → length (strip xs) ≤ length xs
unfolding strip
length-strip [] = omega arith
length-strip (c ∷ []) = omega arith
length-strip (c ∷ d ∷ xs) = ground (arith, length-strip (d ∷ xs))

length-go_up : (xs : List ℕ) → length (go_up xs) ≤ length xs
unfolding go_up
length-go_up [] = omega arith
length-go_up (c ∷ []) = omega arith
length-go_up (c ∷ d ∷ xs) = ground (arith, length-strip (d ∷ xs), length-strip (c ∷ d ∷ xs))

-- The way up is not longer.
pub length-parent :
    (p : Place)
    → IsPlace p
    → length (text (record { directories = parent p.directories; trailing = true }))
      ≤ length (text p)
length-parent p h =
    let above : Place = record { directories = parent p.directories; trailing = true } in
    let same : length (go_up (reversed p)) ≡ length (reversed above) =
      ap length (go_up-reversed p h) in
    omega (arith, length-reversed p, length-reversed above, length-go_up (reversed p), same)

pub reversed-nonempty : (p : Place) → (c : ℕ) × (t : List ℕ) × (reversed p ≡ c ∷ t)
reversed-nonempty p = go (reversed p) (length-reversed p)
  where
    positive :
        (ds : List (List ℕ)) (t : Bool)
        → 0 < length (text (record { directories = ds; trailing = t }))
    positive [] t = unfold text in omega arith
    positive (d ∷ ds) true =
        unfold text render in omega (arith, length-append (render ds ++ (slash ∷ d)) (slash ∷ []))
    positive (d ∷ ds) false =
        unfold text render in
        omega (
          arith,
          length-append (render ds ++ (slash ∷ d)) [],
          length-append (render ds) (slash ∷ d),
        )

    go : (xs : List ℕ) → length xs ≡ length (text p) → (c : ℕ) × (t : List ℕ) × (xs ≡ c ∷ t)
    go [] e = absurd (omega (arith, positive p.directories p.trailing))
    go (c ∷ t) e = (c, t, refl)

-- The text read into the output is the output again.
pub onto-text : (p : Place) → onto (text p) [] ≡ reversed p
unfolding onto
onto-text p =
    ap (λ (xs : List ℕ). onto xs []) (sym (onto-reversed p))
    ∙ onto-onto (reversed p) [] []
    ∙ append-nil (reversed p)
