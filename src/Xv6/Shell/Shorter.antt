-- ===== src/Xv6/Shell/Shorter.antt =====
-- Each token of xv6/sh.c makes the rest of the line shorter.
use asopracticas.Common.{
  ℕ, ◌≤◌, ◌<◌, ◌≡◌, ◌≢◌, refl, sym, subst, ◌⊎◌, ◌∙◌, ap, inl, inr, true, false, ◌||◌, List, [], ◌∷◌,
  length, ◌==◌, Bool-cases, arith,
}
use asopracticas.Xv6.Shell.{
  is_in, is_next, behind, whitespace, symbols, skip, span_word, gettoken, peek, starts,
}
use asopracticas.Xv6.Shell.Lexer.{skip_twice}

pub skip_shorter : (s : List ℕ) → length (skip s) ≤ length s
unfolding skip
skip_shorter [] = omega arith
skip_shorter (c ∷ cs) =
    let ih = skip_shorter cs in
    elim (Bool-cases (is_in c whitespace)) [
      | inl space ↦ rw (skip, space) (omega arith)
      | inr visible ↦ rw (skip, visible) (omega arith)
    ]

span_shorter : (s : List ℕ) → length (span_word s).1 ≤ length s
unfolding span_word
span_shorter [] = omega arith
span_shorter (c ∷ cs) =
    let ih = span_shorter cs in
    elim (Bool-cases (is_in c whitespace || is_in c symbols)) [
      | inl cut ↦ rw (span_word, cut) (omega arith)
      | inr plain ↦ rw (span_word, plain) (omega arith)
    ]

-- `skip` ends in front of no whitespace.
skip_visible : (s : List ℕ) → starts whitespace (skip s) ≡ false
unfolding skip
skip_visible [] = refl
skip_visible (c ∷ cs) = elim (Bool-cases (is_in c whitespace)) [
  | inl space ↦ rw (skip, space) (skip_visible cs)
  | inr visible ↦ rw (skip, visible) visible
]

behind_shorter : (s : List ℕ) → length (behind s) ≤ length s
behind_shorter [] = omega arith
behind_shorter (c ∷ cs) = omega arith

word_shorter :
    (c : ℕ) (cs : List ℕ)
    → is_in c whitespace ≡ false
    → is_in c symbols ≡ false
    → length (span_word (c ∷ cs)).1 ≤ length cs
unfolding span_word
word_shorter c cs visible plain = let rest = span_shorter cs in rw (span_word, visible, plain) rest

token_shorter :
    (s : List ℕ) (c : ℕ) (cs : List ℕ)
    → skip s ≡ c ∷ cs
    → length (gettoken (skip s)).rest ≤ length cs
unfolding gettoken
token_shorter s c cs e =
    let visible : is_in c whitespace ≡ false = ap (starts whitespace) (sym e) ∙ skip_visible s in
    elim (Bool-cases (is_in c symbols)) [
      | inr plain ↦
          let other : (c == 62) ≡ false = ground arith in
          let shorter = word_shorter c cs visible plain in
          let skipped = skip_shorter (span_word (c ∷ cs)).1 in
          rw (gettoken, skip_twice s, e, plain, other) (omega arith)
      | inl symbol ↦ elim (Bool-cases (c == 62)) [
        | inr other ↦ rw (gettoken, skip_twice s, e, symbol, other) (skip_shorter cs)
        | inl arrow ↦ elim (Bool-cases (is_next 62 cs)) [
          | inl double ↦
              let skipped = skip_shorter (behind cs) in
              let shorter = behind_shorter cs in
              rw (gettoken, skip_twice s, e, arrow, double) (omega arith)
          | inr single ↦ rw (gettoken, skip_twice s, e, arrow, single) (skip_shorter cs)
        ]
      ]
    ]

shorter_or_end : (s : List ℕ) → (skip s ≡ []) ⊎ (length (gettoken (skip s)).rest < length s)
shorter_or_end s = from (skip s) refl
  where
    from : (t : List ℕ) → skip s ≡ t → (skip s ≡ []) ⊎ (length (gettoken (skip s)).rest < length s)
    from [] e = inl e
    from (c ∷ cs) e =
        let less = token_shorter s c cs e in
        let skipped : length (c ∷ cs) ≤ length s =
          subst (λ x. length x ≤ length s) e (skip_shorter s) in
        inr (omega arith)

-- A byte of the tokens comes next: the next token takes it.
pub peek_shorter :
    (toks s : List ℕ) → peek toks s ≡ true → length (gettoken (skip s)).rest < length s
unfolding peek
peek_shorter toks s there = elim (shorter_or_end s) [
  | inl at_end ↦ (let e = sym (ap (starts toks) at_end) ∙ there in absurd (ground (arith, e)))
  | inr less ↦ less
]

-- So does a token that is a word or a symbol.
pub kind_shorter :
    (s : List ℕ) → (gettoken (skip s)).kind ≢ 0 → length (gettoken (skip s)).rest < length s
unfolding gettoken
kind_shorter s some_kind = elim (shorter_or_end s) [
  | inl at_end ↦ absurd (some_kind (rw (gettoken, skip_twice s, at_end) refl))
  | inr less ↦ less
]

pub rest_shorter : (s : List ℕ) → length (gettoken s).rest ≤ length s
unfolding gettoken
rest_shorter s =
    let same : gettoken (skip s) ≡ gettoken s = rw (gettoken, skip_twice s) refl in
    let skipped : length (gettoken (skip s)).rest ≤ length s = elim (shorter_or_end s) [
      | inl at_end ↦ rw (gettoken, skip_twice s, at_end) (omega arith)
      | inr less ↦ omega arith
    ] in
    subst (λ tok. length tok.rest ≤ length s) same skipped
