-- ===== src/Paths/Resolve.antt =====
-- resolve_path of src/fs/vfs.c against the walk along the names.
use cone_os.Prelude.{
  ℕ, zero, suc, ◌-◌, ◌<◌, ◌≤◌, ◌≡◌, ◌≢◌, refl, sym, ◌∙◌, ap, subst, false, Option, none, some, List,
  [], ◌∷◌, inl, inr, arith, length, take, leb, ltb, ◌==◌, if◌then◌else◌, All, Bool-cases,
}
use mathlib.Core.Option
use cone_os.Ramfs.Names.{take-all}
use cone_os.Paths.{
  slash, skip_slashes, component, behind, onto, is_dot, is_dot_dot, is_absolute, take_step,
  resolved, refused, resolve_from, terminate, resolve_path,
}
use cone_os.Paths.Spec.{
  Place, cut, nonempty, parts, parent, visit, walk_within, path_of, text, root, IsName, IsPlace,
}
use cone_os.Paths.Reversed.{
  reversed, onto-reversed, go_up-reversed, append_component-reversed, length-parent,
  reversed-nonempty, onto-text,
}
use cone_os.Paths.Components.{
  parts_lem, component-IsName, is_absolute-skip_slashes, length-rest, length-skip_slashes,
  parts-skip_slashes,
}

pub visit-IsPlace : (name : List ℕ) (p : Place) → IsName name → IsPlace p → IsPlace (visit name p)
unfolding visit parent
visit-IsPlace name p n h = elim (Bool-cases (is_dot name)) [
  | inl e ↦ rw e h
  | inr e ↦ elim (Bool-cases (is_dot_dot name)) [
    | inl d ↦ rw (e, d) (above p.directories h)
    | inr d ↦ rw (e, d) (n, h)
  ]
]
  where
    above : (ds : List (List ℕ)) → All IsName ds → All IsName (parent ds)
    above [] k = unfold parent in k
    above (d ∷ ds) k = unfold parent in k.1

not_empty : (name : List ℕ) → name ≢ [] → (length name == 0) ≡ false
not_empty [] h = absurd (h refl)
not_empty (c ∷ cs) h = ground arith

-- One component, with the output at a place.
take_step-reversed :
    (capacity : ℕ) (name : List ℕ) (p : Place)
    → IsName name
    → IsPlace p
    → length (text p) < capacity
    → take_step capacity name (reversed p) ≡ (
        if leb capacity (length (text (visit name p)))
        then none
        else some (reversed (visit name p)))
unfolding take_step visit
take_step-reversed capacity name p n h fits = elim (Bool-cases (is_dot name)) [
  | inl e ↦ rw (not_empty name n.0, e) (ground arith)
  | inr e ↦ elim (Bool-cases (is_dot_dot name)) [
    | inl d ↦ rw (not_empty name n.0, e, d, go_up-reversed p h) (ground (arith, length-parent p h))
    | inr d ↦ rw (not_empty name n.0, e, d) (append_component-reversed capacity name p h)
  ]
]

-- One round, with the output at a place.
resolve_from-reversed :
    (fuel capacity c : ℕ) (cs : List ℕ) (p : Place)
    → IsName (component (c ∷ cs))
    → IsPlace p
    → length (text p) < capacity
    → resolve_from (suc fuel) capacity (c ∷ cs) (reversed p) ≡ (
        if leb capacity (length (text (visit (component (c ∷ cs)) p)))
        then refused
        else resolve_from fuel capacity
            (skip_slashes (behind (c ∷ cs)))
            (reversed (visit (component (c ∷ cs)) p)))
unfolding resolve_from
resolve_from-reversed fuel capacity c cs p n h l =
    rw (take_step-reversed capacity (component (c ∷ cs)) p n h l, resolve_from) (ground arith)

terminate-reversed : (p : Place) → terminate (resolved (reversed p)) ≡ resolved (text p)
unfolding terminate
terminate-reversed p =
    let (c, t, e) = reversed-nonempty p in
    rw e (ap resolved (ap (λ (xs : List ℕ). onto xs []) (sym e) ∙ onto-reversed p))

terminate-refused : terminate refused ≡ refused
unfolding terminate
terminate-refused = refl

walk_within-cons :
    (capacity : ℕ) (name : List ℕ) (names : List (List ℕ)) (p : Place)
    → walk_within capacity (name ∷ names) p ≡ (
        if leb capacity (length (text (visit name p)))
        then refused
        else walk_within capacity names (visit name p))
unfolding walk_within
walk_within-cons capacity name names p = refl

-- The loop is the walk along the names.
resolve_from_lem :
    (fuel capacity : ℕ) (input : List ℕ) (p : Place)
    → is_absolute input ≡ false
    → length input < fuel
    → IsPlace p
    → length (text p) < capacity
    → terminate (resolve_from fuel capacity input (reversed p))
      ≡ walk_within capacity (parts input) p
resolve_from_lem zero capacity input p r f h l = absurd (omega arith)
resolve_from_lem (suc fuel) capacity [] p r f h l = start (terminate-reversed p)
  where
    start :
        terminate (resolved (reversed p)) ≡ resolved (text p)
        → terminate (resolve_from (suc fuel) capacity [] (reversed p))
          ≡ walk_within capacity (parts []) p
    start e = unfold resolve_from parts cut nonempty walk_within in e
resolve_from_lem (suc fuel) capacity (c ∷ cs) p r f h l =
    let name : List ℕ = component (c ∷ cs) in
    let rest : List ℕ = skip_slashes (behind (c ∷ cs)) in
    let slash_free : (c == slash) ≡ false = unfold is_absolute in r in
    let n : IsName name = component-IsName c cs slash_free in
    let next =
      resolve_from_lem fuel capacity rest (visit name p)
        (is_absolute-skip_slashes (behind (c ∷ cs))) (omega (arith, length-rest c cs slash_free))
        (visit-IsPlace name p n h) in
    rw (resolve_from-reversed fuel capacity c cs p n h l, parts_lem c cs slash_free)
      (elim (Bool-cases (leb capacity (length (text (visit name p))))) [
        | inl e ↦ rw (walk_within-cons capacity name (parts rest) p, e) terminate-refused
        | inr e ↦ rw (walk_within-cons capacity name (parts rest) p, e) (next (ground (arith, e)))
      ])

from_root :
    (capacity : ℕ) (input : List ℕ)
    → 2 ≤ capacity
    → terminate (resolve_from (suc (length input)) capacity (skip_slashes input) (slash ∷ []))
      ≡ walk_within capacity (parts input) root
from_root capacity input k =
    subst
      (λ (ps : List (List ℕ)).
        terminate (resolve_from (suc (length input)) capacity (skip_slashes input) (slash ∷ []))
        ≡ walk_within capacity ps root)
      (parts-skip_slashes input) loop
  where
    start : reversed root ≡ slash ∷ []
    start = unfold reversed in refl

    small : length (text root) < capacity
    small = unfold text in omega arith

    loop :
        terminate (resolve_from (suc (length input)) capacity (skip_slashes input) (slash ∷ []))
        ≡ walk_within capacity (parts (skip_slashes input)) root
    loop = rw (sym start) (
        resolve_from_lem (suc (length input)) capacity (skip_slashes input) root
          (is_absolute-skip_slashes input) (omega (arith, length-skip_slashes input)) tt small)

-- resolve_path is the walk from the root or the current directory along the names of the path,
-- refused exactly when it comes to a place whose text does not fit; the loop ends. Conditions: the
-- current directory, where there is one, is the text of a place, and fits.
pub resolve_path_lem :
    (capacity : ℕ) (cwd : Option Place) (input : List ℕ)
    → ((p : Place) → cwd ≡ some p → IsPlace p × (length (text p) < capacity))
    → resolve_path capacity (Option.map text cwd) input ≡ path_of capacity cwd input
unfolding resolve_path path_of
resolve_path_lem capacity cwd input ok = elim (Bool-cases (ltb capacity 2)) [
  | inl e ↦ rw e refl
  | inr e ↦ elim (Bool-cases (is_absolute input)) [
    | inl a ↦ rw (e, a) (from_root capacity input (ground (arith, e)))
    | inr a ↦ rw (e, a) (relative cwd ok a)
  ]
]
  where
    relative :
        (cwd : Option Place)
        → ((p : Place) → cwd ≡ some p → IsPlace p × (length (text p) < capacity))
        → is_absolute input ≡ false
        → elim (Option.map text cwd) [
          | none ↦ refused
          | some d ↦
              terminate
                (resolve_from (suc (length input)) capacity input (onto (take (capacity - 1) d) []))
        ]
          ≡ elim cwd [ none ↦ refused | some p ↦ walk_within capacity (parts input) p ]
    relative none ok a = refl
    relative (some p) ok a =
        let (h, l) = ok p refl in
        rw (take-all (capacity - 1) (text p) (omega arith), onto-text p)
          (resolve_from_lem (suc (length input)) capacity input p a (omega arith) h l)
