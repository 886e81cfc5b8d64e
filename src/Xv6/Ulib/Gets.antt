-- ===== src/Xv6/Ulib/Gets.antt =====
-- `gets` of xv6/ulib.c.
use asopracticas.Common.{
  ℕ, zero, suc, ◌<◌, ◌≡◌, refl, ap, Bool, true, false, ◌||◌, List, [], ◌∷◌, ◌++◌, ◌==◌, Bool-cases,
  arith, inl, inr, length,
}
use asopracticas.Xv6.Ulib.{gets_from}

abbrev pub is_newline : ℕ → Bool
is_newline c = c == 10 || c == 13

-- No byte of the list is a newline.
abbrev pub IsPlain : List ℕ → Type 0
IsPlain [] = Unit
IsPlain (c ∷ cs) = (is_newline c ≡ false) × IsPlain cs

-- How `gets` with room for `k` bytes cuts the input.
pub data Cut (k : ℕ) (input : List ℕ) : Type 0 where
  newline :
      (line left : List ℕ) (c : ℕ)
      → gets_from k input ≡ (line ++ (c ∷ []), left)
      → input ≡ line ++ (c ∷ left)
      → IsPlain line
      → is_newline c ≡ true
      → length line < k
      → Cut k input
  full :
      (line left : List ℕ)
      → gets_from k input ≡ (line, left)
      → input ≡ line ++ left
      → IsPlain line
      → length line ≡ k
      → Cut k input
  ended : gets_from k input ≡ (input, []) → IsPlain input → length input < k → Cut k input

-- `gets` stores the input up to its first newline and that too, or as much as its buffer has room for,
-- or all of it; it leaves the rest unread and stops at no other byte.
pub gets_from_lem : (k : ℕ) (input : List ℕ) → Cut k input
unfolding gets_from
gets_from_lem zero input = full [] input refl refl tt refl
gets_from_lem (suc k) [] = ended refl tt (omega arith)
gets_from_lem (suc k) (c ∷ cs) = elim (Bool-cases (is_newline c)) [
  | inl nl ↦ newline [] cs c (rw (gets_from, nl) refl) refl tt nl (omega arith)
  | inr plain ↦ elim (gets_from_lem k cs) [
    | newline line left d e e' p nl short ↦
        newline (c ∷ line) left d (rw (gets_from, plain, e) refl) (ap (λ l. c ∷ l) e') (plain, p) nl
          (omega arith)
    | full line left e e' p len ↦
        full (c ∷ line) left (rw (gets_from, plain, e) refl) (ap (λ l. c ∷ l) e') (plain, p)
          (omega arith)
    | ended e p short ↦ ended (rw (gets_from, plain, e) refl) (plain, p) (omega arith)
  ]
]
