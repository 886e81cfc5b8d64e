-- ===== src/Xv6/Dir/Path.antt =====
-- Path names of xv6/fs.c: `namex` follows the elements of the path one by one.
use asopracticas.Common.{
  ℕ, zero, suc, ◌+◌, ◌≤◌, ◌<◌, ◌≡◌, refl, sym, ap, ◌∙◌, subst, Bool, true, false, ◌&&◌, none, some,
  List, [], ◌∷◌, length, take, ◌==◌, if◌then◌else◌, Bool-cases, Option-cases, arith, inl, inr, ◌⊎◌,
}
use asopracticas.Xv6.Dir.{
  dirsiz, dirlookup, drop_slashes, span_elem, skipelem, DirMap, is_end, Named, names, no_name, walk,
  start_of, namex,
}

-- A path goes on with a byte of the same element.
abbrev pub goes_on : List ℕ → Bool
goes_on [] = false
goes_on (c ∷ cs) = if c == 47 then false else true

abbrev pub extend : ℕ → List (List ℕ) → List (List ℕ)
extend c [] = (c ∷ []) ∷ []
extend c (e ∷ es) = (c ∷ e) ∷ es

-- The elements of a path: the runs between slashes that are not empty.
unfoldable pub elements : List ℕ → List (List ℕ)
elements [] = []
elements (c ∷ cs) =
    let es = elements cs in
    if c == 47 then es else if goes_on cs then extend c es else (c ∷ []) ∷ es

-- The elements followed from the inode `ip`, each cut to DIRSIZ bytes; with `parent`, all but the
-- last one.
pub follow : DirMap → Bool → ℕ → List ℕ → List (List ℕ) → Named
follow disk parent ip name [] = if parent then no_name else names ip name
follow disk parent ip name (e ∷ []) = elim (disk ip) [
  | none ↦ no_name
  | some ds ↦ if parent then names ip (take dirsiz e) else elim (dirlookup (take dirsiz e) ds) [
    | none ↦ no_name
    | some next ↦ names next (take dirsiz e)
  ]
]
follow disk parent ip name (e ∷ e' ∷ es) = elim (disk ip) [
  | none ↦ no_name
  | some ds ↦ elim (dirlookup (take dirsiz e) ds) [
    | none ↦ no_name
    | some next ↦ follow disk parent next (take dirsiz e) (e' ∷ es)
  ]
]

elements_none : elements [] ≡ []
unfolding elements
elements_none = refl

elements-drop_slashes : (path : List ℕ) → elements (drop_slashes path) ≡ elements path
unfolding elements drop_slashes
elements-drop_slashes [] = refl
elements-drop_slashes (c ∷ cs) = elim (Bool-cases (c == 47)) [
  | inl slash ↦ rw (drop_slashes, elements, slash) (elements-drop_slashes cs)
  | inr other ↦ rw (drop_slashes, other, other) refl
]

length-drop_slashes : (path : List ℕ) → length (drop_slashes path) ≤ length path
unfolding drop_slashes
length-drop_slashes [] = omega arith
length-drop_slashes (c ∷ cs) = elim (Bool-cases (c == 47)) [
  | inl slash ↦ rw (drop_slashes, slash) (omega (arith, length-drop_slashes cs))
  | inr other ↦ rw (drop_slashes, other) (omega arith)
]

length-span_elem : (path : List ℕ) → length (span_elem path).1 ≤ length path
unfolding span_elem
length-span_elem [] = omega arith
length-span_elem (c ∷ cs) = elim (Bool-cases (c == 47)) [
  | inl slash ↦ rw (span_elem, slash) (omega arith)
  | inr other ↦ rw (span_elem, other) (omega (arith, length-span_elem cs))
]

elements-extend :
    (c d : ℕ) (ds : List ℕ)
    → c == 47 ≡ false
    → d == 47 ≡ false
    → elements (c ∷ d ∷ ds) ≡ extend c (elements (d ∷ ds))
unfolding elements
elements-extend c d ds other plain = rw (elements, other, plain) refl

elements-alone :
    (c d : ℕ) (ds : List ℕ)
    → c == 47 ≡ false
    → d == 47 ≡ true
    → elements (c ∷ d ∷ ds) ≡ (c ∷ []) ∷ elements (d ∷ ds)
unfolding elements
elements-alone c d ds other slash = rw (elements, other, slash) refl

span_elem-extend :
    (c : ℕ) (cs : List ℕ)
    → c == 47 ≡ false
    → span_elem (c ∷ cs) ≡ (c ∷ (span_elem cs).0, (span_elem cs).1)
unfolding span_elem
span_elem-extend c cs other = rw (span_elem, other) refl

span_elem-stops : (c : ℕ) (cs : List ℕ) → c == 47 ≡ true → span_elem (c ∷ cs) ≡ ([], c ∷ cs)
unfolding span_elem
span_elem-stops c cs slash = rw (span_elem, slash) refl

last_elem :
    (c : ℕ)
    → c == 47 ≡ false
    → elements (c ∷ []) ≡ (span_elem (c ∷ [])).0 ∷ elements (span_elem (c ∷ [])).1
unfolding elements span_elem
last_elem c other = rw (elements, span_elem, other) refl

elements-span_elem :
    (c : ℕ) (cs : List ℕ)
    → c == 47 ≡ false
    → elements (c ∷ cs) ≡ (span_elem (c ∷ cs)).0 ∷ elements (span_elem (c ∷ cs)).1
elements-span_elem c [] other = last_elem c other
elements-span_elem c (d ∷ ds) other = elim (Bool-cases (d == 47)) [
  | inl slash ↦
      rw (span_elem-extend c (d ∷ ds) other, span_elem-stops d ds slash)
        (elements-alone c d ds other slash)
  | inr plain ↦
      rw
        (
          elements-extend c d ds other plain,
          elements-span_elem d ds plain,
          span_elem-extend c (d ∷ ds) other,
        )
        refl
]

drop_slashes_lem :
    (path : List ℕ)
    → (drop_slashes path ≡ [])
      ⊎ ((c : ℕ) × (cs : List ℕ) × (drop_slashes path ≡ c ∷ cs) × (c == 47 ≡ false))
unfolding drop_slashes
drop_slashes_lem [] = inl refl
drop_slashes_lem (c ∷ cs) = elim (Bool-cases (c == 47)) [
  | inl slash ↦ rw (drop_slashes, slash) (drop_slashes_lem cs)
  | inr other ↦ rw (drop_slashes, other) (inr (c, cs, refl, other))
]

-- A path without leading slashes is at its end, or it has an element.
abbrev pub Settled : List ℕ → Type 0
Settled path =
    (path ≡ [])
    ⊎ ((e : List ℕ) × (es : List (List ℕ)) × (elements path ≡ e ∷ es) × (is_end path ≡ false))

drop_slashes-Settled : (path : List ℕ) → Settled (drop_slashes path)
drop_slashes-Settled path = elim (drop_slashes_lem path) [
  | inl ended ↦ inl ended
  | inr (c, cs, e, other) ↦ inr (
    (span_elem (c ∷ cs)).0,
    elements (span_elem (c ∷ cs)).1,
    ap elements e ∙ elements-span_elem c cs other,
    ap is_end e,
  )
]

-- `skipelem` takes the first element off, or there is none.
skipelem_lem :
    (path : List ℕ)
    → ((skipelem path ≡ none) × (elements path ≡ []))
      ⊎ ((e : List ℕ) × (rest : List ℕ) × (skipelem path ≡ some (take dirsiz e, rest))
          × (elements path ≡ e ∷ elements rest)
          × (length rest < length path)
          × Settled rest)
unfolding skipelem
skipelem_lem path = elim (drop_slashes_lem path) [
  | inl ended ↦ inl (
    rw (skipelem, ended) refl,
    sym (elements-drop_slashes path) ∙ ap elements ended ∙ elements_none,
  )
  | inr (c, cs, e, other) ↦
      let r = (span_elem (c ∷ cs)).1 in
      let short : length r < length (c ∷ cs) =
        rw (span_elem-extend c cs other) (omega (arith, length-span_elem cs)) in
      let shorter = length-drop_slashes r in
      let dropped : length (c ∷ cs) ≤ length path =
        subst (λ l. length l ≤ length path) e (length-drop_slashes path) in
      inr (
        (span_elem (c ∷ cs)).0,
        drop_slashes r,
        rw (skipelem, e) refl,
        sym (elements-drop_slashes path)
            ∙ ap elements e
            ∙ elements-span_elem c cs other
            ∙ ap (λ es. (span_elem (c ∷ cs)).0 ∷ es) (sym (elements-drop_slashes r)),
        omega (arith, short, shorter, dropped),
        drop_slashes-Settled r,
      )
]

and_false : (b : Bool) → b && false ≡ false
and_false true = refl
and_false false = refl

walk_lem :
    (fuel : ℕ) (disk : DirMap) (parent : Bool) (ip : ℕ) (name path : List ℕ)
    → length path < fuel
    → walk fuel disk parent ip name path ≡ follow disk parent ip name (elements path)
unfolding walk follow
walk_lem zero disk parent ip name path enough = absurd (omega arith)
walk_lem (suc fuel) disk parent ip name path enough = elim (skipelem_lem path) [
  | inl (e, e') ↦ rw (walk, e, e') refl
  | inr (elem, rest, e, e', shorter, settled) ↦
      let next_lem : (next : ℕ)
          → walk fuel disk parent next (take dirsiz elem) rest
            ≡ follow disk parent next (take dirsiz elem) (elements rest) =
        λ next. walk_lem fuel disk parent next (take dirsiz elem) rest (omega arith) in
      elim (Option-cases (disk ip)) [
        | inl no_dir ↦ elim settled [
          | inl ended ↦ rw (walk, e, e', ended, elements_none, follow, no_dir) refl
          | inr (e2, es, more, goes) ↦ rw (walk, e, e', more, follow, no_dir) refl
        ]
        | inr (ds, dir) ↦ elim settled [
          | inl ended ↦ elim (Bool-cases parent) [
            | inl stops ↦ rw (walk, e, e', ended, elements_none, follow, dir, stops, ended) refl
            | inr on ↦ elim (Option-cases (dirlookup (take dirsiz elem) ds)) [
              | inl missing ↦ rw (walk, e, e', ended, elements_none, follow, dir, on, missing) refl
              | inr (next, hit) ↦
                  let last : walk fuel disk parent next (take dirsiz elem) rest
                      ≡ names next (take dirsiz elem) =
                    next_lem next ∙ rw (ended, elements_none, follow, on) refl in
                  rw (walk, e, e', ended, elements_none, follow, dir, on, hit) last
            ]
          ]
          | inr (e2, es, more, goes) ↦ elim (Option-cases (dirlookup (take dirsiz elem) ds)) [
            | inl missing ↦
                rw (walk, e, e', more, follow, dir, goes, and_false parent, missing) refl
            | inr (next, hit) ↦
                let goes_on' : follow disk parent next (take dirsiz elem) (e2 ∷ es)
                    ≡ walk fuel disk parent next (take dirsiz elem) rest =
                  ap (follow disk parent next (take dirsiz elem)) (sym more)
                  ∙ sym (next_lem next) in
                rw (walk, e, e', more, follow, dir, goes, and_false parent, hit) (sym goes_on')
          ]
        ]
      ]
]

-- `namex` never runs out of fuel, and is the walk along the elements of the path: it starts at the
-- root for a path with a leading slash and at the current directory otherwise, empty elements do
-- not count, and an element is cut to DIRSIZ bytes.
pub namex_lem :
    (disk : DirMap) (cwd : ℕ) (parent : Bool) (name path : List ℕ)
    → namex disk cwd parent name path ≡ follow disk parent (start_of cwd path) name (elements path)
unfolding namex
namex_lem disk cwd parent name path =
    walk_lem (length path + 1) disk parent (start_of cwd path) name path (omega arith)
