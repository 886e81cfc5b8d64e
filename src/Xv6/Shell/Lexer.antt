-- ===== src/Xv6/Shell/Lexer.antt =====
-- `gettoken` and `peek` of xv6/sh.c.
use asopracticas.Common.{
  ℕ, ◌≡◌, refl, ◌⊎◌, inl, inr, Bool, true, false, ◌||◌, List, [], ◌∷◌, ◌++◌, ◌==◌, Bool-cases,
  arith,
}
use asopracticas.Xv6.Shell.{is_in, whitespace, symbols, skip, span_word, gettoken}
use asopracticas.Xv6.Shell.Show.{ArePlain, IsWord, arrow}

-- The text is at its end, or it goes on with a byte of `toks`.
abbrev pub ends : List ℕ → List ℕ → Bool
ends toks [] = true
ends toks (c ∷ cs) = is_in c toks

-- What may come behind a command, behind a pipe, behind a plain command, and behind its words.
abbrev pub behind_line : List ℕ
behind_line = 41 ∷ []

abbrev pub behind_pipe : List ℕ
behind_pipe = 38 ∷ 59 ∷ 41 ∷ []

abbrev pub behind_exec : List ℕ
behind_exec = 124 ∷ 41 ∷ 38 ∷ 59 ∷ []

abbrev pub behind_word : List ℕ
behind_word = 60 ∷ 62 ∷ 124 ∷ 41 ∷ 38 ∷ 59 ∷ []

pub line-pipe : (t : List ℕ) → ends behind_line t ≡ true → ends behind_pipe t ≡ true
line-pipe [] h = refl
line-pipe (c ∷ cs) h = ground arith

pub pipe-exec : (t : List ℕ) → ends behind_pipe t ≡ true → ends behind_exec t ≡ true
pipe-exec [] h = refl
pipe-exec (c ∷ cs) h = ground arith

pub exec-word : (t : List ℕ) → ends behind_exec t ≡ true → ends behind_word t ≡ true
exec-word [] h = refl
exec-word (c ∷ cs) h = ground arith

pub skip_stays : (c : ℕ) (cs : List ℕ) → is_in c whitespace ≡ false → skip (c ∷ cs) ≡ c ∷ cs
unfolding skip
skip_stays c cs h = rw (skip, h) refl

-- Symbols are no whitespace.
symbol_visible : (c : ℕ) → is_in c behind_word ≡ true → is_in c whitespace ≡ false
symbol_visible c h = ground arith

pub skip-ends : (t : List ℕ) → ends behind_word t ≡ true → skip t ≡ t
unfolding skip
skip-ends [] h = refl
skip-ends (c ∷ cs) h = skip_stays c cs (symbol_visible c h)

or_parts : (a b : Bool) → a || b ≡ false → (a ≡ false) × (b ≡ false)
or_parts true b h = absurd (ground (arith, h))
or_parts false b h = (refl, h)

pub plain_parts :
    (c : ℕ)
    → is_in c whitespace || is_in c symbols ≡ false
    → (is_in c whitespace ≡ false) × (is_in c symbols ≡ false)
plain_parts c h = or_parts _ _ h

pub skip_word : (w t : List ℕ) → IsWord w → skip (w ++ t) ≡ w ++ t
skip_word [] t (some_byte, _) = absurd (some_byte refl)
skip_word (c ∷ cs) t (_, (plain, _)) = skip_stays c (cs ++ t) (plain_parts c plain).0

pub skip_twice : (s : List ℕ) → skip (skip s) ≡ skip s
unfolding skip
skip_twice [] = refl
skip_twice (c ∷ cs) = elim (Bool-cases (is_in c whitespace)) [
  | inl space ↦ rw (skip, space) (skip_twice cs)
  | inr visible ↦ rw (skip, visible, visible) refl
]

-- A word ends before a space and before a symbol.
abbrev pub cuts : List ℕ → Bool
cuts [] = true
cuts (c ∷ cs) = is_in c whitespace || is_in c symbols

span_word_lem : (w t : List ℕ) → ArePlain w → cuts t ≡ true → span_word (w ++ t) ≡ (w, t)
unfolding span_word
span_word_lem [] [] plain h = refl
span_word_lem [] (c ∷ cs) plain h = rw (span_word, h) refl
span_word_lem (c ∷ cs) t (p, plain) h = rw (span_word, p, span_word_lem cs t plain h) refl

-- The tokens.
pub symbol_token :
    (c : ℕ) (t s : List ℕ)
    → skip s ≡ c ∷ t
    → is_in c symbols ≡ true
    → (c == 62) ≡ false
    → (gettoken (skip s)).rest ≡ skip t
unfolding gettoken
symbol_token c t s at_c symbol other = rw (gettoken, skip_twice s, at_c, symbol, other) refl

pub word_token :
    (w t s : List ℕ)
    → IsWord w
    → cuts t ≡ true
    → skip s ≡ w ++ t
    → gettoken s ≡ record { kind = 97; text = w; rest = skip t }
unfolding gettoken
word_token [] t s (some_byte, _) cut at_w = absurd (some_byte refl)
word_token (c ∷ cs) t s (_, (plain, more)) cut at_w =
    let symbol = (plain_parts c plain).1 in
    let other : (c == 62) ≡ false = ground arith in
    rw (gettoken, at_w, symbol, other, span_word_lem (c ∷ cs) t (plain, more) cut) refl

-- "<" or ">" in front of a word.
pub arrow_token :
    (mode : ℕ) (w t s : List ℕ)
    → IsWord w
    → (mode ≡ 0) ⊎ (mode ≡ 513)
    → skip s ≡ arrow mode ∷ (w ++ t)
    → gettoken (skip s) ≡ record { kind = arrow mode; text = []; rest = skip (w ++ t) }
unfolding gettoken
arrow_token mode [] t s (some_byte, _) fits at_arrow = absurd (some_byte refl)
arrow_token mode (c ∷ cs) t s (_, (plain, _)) (inl reads) at_arrow =
    rw (gettoken, skip_twice s, at_arrow, reads) refl
arrow_token mode (c ∷ cs) t s (_, (plain, _)) (inr writes) at_arrow =
    let symbol = (plain_parts c plain).1 in
    let other : (c == 62) ≡ false = ground arith in
    rw (gettoken, skip_twice s, at_arrow, writes, other) refl
