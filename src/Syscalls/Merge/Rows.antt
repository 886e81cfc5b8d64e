-- ===== src/Syscalls/Merge/Rows.antt =====
-- What merge_files.c should write: the first bytes of the files, then the second bytes, and so on.
use asopracticas.Common.{
  ℕ, zero, suc, ◌+◌, ◌≤◌, ◌<◌, ◌≡◌, refl, sym, ◌∙◌, ap, inl, inr, Bool, true, false, [], ◌∷◌, ◌++◌,
  append-nil, ◌==◌, ltb, if◌then◌else◌, length, get_or, Bool-cases, arith, le→ltb, lt→ltb, ne→==,
  ==→eq, ==→ne, ==_refl,
}
use asopracticas.Syscalls.Write.{Bytes}
use asopracticas.Syscalls.Merge.{first, array_set, count_ended}

-- Byte `q` of a file, if it has one.
abbrev pub byte_of : Bytes → ℕ → Bytes
byte_of c q = if ltb q (length c) then get_or c q 0 ∷ [] else []

-- Byte `q` of each of the first `n` files.
abbrev pub row : (ℕ → Bytes) → ℕ → ℕ → Bytes
row content zero q = []
row content (suc n) q = row content n q ++ byte_of (content n) q

-- The rows below `q`.
abbrev pub rows : (ℕ → Bytes) → ℕ → ℕ → Bytes
rows content n zero = []
rows content n (suc q) = rows content n q ++ row content n q

row_ended :
    (content : ℕ → Bytes) (n q : ℕ)
    → ((j : ℕ) → j < n → length (content j) ≤ q)
    → row content n q ≡ []
row_ended content zero q short = refl
row_ended content (suc n) q short =
    rw
      (row_ended content n q (λ j below. short j (omega arith)), le→ltb _ q (short n (omega arith)))
      refl

-- No row is left behind the end of the longest file.
rows_ended :
    (content : ℕ → Bytes) (n d q : ℕ)
    → ((j : ℕ) → j < n → length (content j) ≤ q)
    → rows content n (q + d) ≡ rows content n q
rows_ended content n zero q short = let e : q + 0 ≡ q = omega arith in ap (rows content n) e
rows_ended content n (suc d) q short =
    let e : q + suc d ≡ suc (q + d) = omega arith in
    ap (rows content n) e
    ∙ ap (λ x. rows content n (q + d) ++ x)
        (row_ended content n (q + d) (λ j below. omega (arith, short j below)))
    ∙ append-nil (rows content n (q + d))
    ∙ rows_ended content n d q short

pub rows_whole :
    (content : ℕ → Bytes) (n p q : ℕ)
    → ((j : ℕ) → j < n → length (content j) ≤ p)
    → ((j : ℕ) → j < n → length (content j) ≤ q)
    → rows content n p ≡ rows content n q
rows_whole content n p q short_p short_q =
    let e : p + q ≡ q + p = omega arith in
    sym (rows_ended content n q p short_p)
    ∙ ap (rows content n) e
    ∙ rows_ended content n p q short_q

-- The first bytes of a buffer.
first_same : (n : ℕ) (f g : ℕ → ℕ) → ((x : ℕ) → x < n → f x ≡ g x) → first n f ≡ first n g
first_same zero f g same = refl
first_same (suc n) f g same =
    rw (first_same n f g (λ x below. same x (omega arith)), same n (omega arith)) refl

pub first_set : (n : ℕ) (f : ℕ → ℕ) (x : ℕ) → first (suc n) (array_set f n x) ≡ first n f ++ x ∷ []
first_set n f x =
    rw (first_same n (array_set f n x) f (λ y below. rw (ne→== y n (omega arith)) refl), ==_refl n)
      refl

-- The count of the files that have ended.
ended_same :
    (n : ℕ) (t u : ℕ → Bool) → ((j : ℕ) → j < n → u j ≡ t j) → count_ended n u ≡ count_ended n t
unfolding count_ended
ended_same zero t u same = refl
ended_same (suc n) t u same =
    rw (count_ended, same n (omega arith), ended_same n t u (λ j below. same j (omega arith))) refl

pub ended_more :
    (n i : ℕ) (t : ℕ → Bool)
    → i < n
    → t i ≡ false
    → count_ended n (array_set t i true) ≡ suc (count_ended n t)
unfolding count_ended
ended_more zero i t below unended = absurd (omega arith)
ended_more (suc n) i t below unended = elim (Bool-cases (n == i)) [
  | inl here ↦
      let e : n ≡ i = ==→eq n i here in
      let same =
        ended_same n t (array_set t i true) (λ j lower. rw (ne→== j i (omega arith)) refl) in
      rw (count_ended, here, same, ap t e ∙ unended) refl
  | inr there ↦
      let ne = ==→ne n i there in
      let ih = ended_more n i t (omega arith) unended in
      elim (Bool-cases (t n)) [
        | inl closed ↦ rw (count_ended, there, closed, ih) refl
        | inr still ↦ rw (count_ended, there, still, ih) refl
      ]
]

pub ended_bound : (n : ℕ) (t : ℕ → Bool) → count_ended n t ≤ n
unfolding count_ended
ended_bound zero t = omega arith
ended_bound (suc n) t = let ih = ended_bound n t in ground arith

pub ended_all : (n : ℕ) (t : ℕ → Bool) → count_ended n t ≡ n → (j : ℕ) → j < n → t j ≡ true
unfolding count_ended
ended_all zero t all j below = absurd (omega arith)
ended_all (suc n) t all j below =
    let bound = ended_bound n t in
    elim (Bool-cases (t n)) [
      | inl closed ↦
          let before : count_ended n t ≡ n =
            (let all' : suc (count_ended n t) ≡ suc n = rw (count_ended, closed) at all in
              omega arith) in
          elim (Bool-cases (j == n)) [
            | inl here ↦ ap t (==→eq j n here) ∙ closed
            | inr there ↦ (let ne = ==→ne j n there in ended_all n t before j (omega arith))
          ]
      | inr unended ↦
          (let all' : count_ended n t ≡ suc n = rw (count_ended, unended) at all in
            absurd (omega arith))
    ]

pub ended_open : (n : ℕ) (t : ℕ → Bool) → count_ended n t < n → (j : ℕ) × (j < n) × (t j ≡ false)
unfolding count_ended
ended_open zero t fewer = absurd (omega arith)
ended_open (suc n) t fewer = elim (Bool-cases (t n)) [
  | inl closed ↦
      (let fewer' : count_ended n t < n =
          (let less : suc (count_ended n t) < suc n = rw (count_ended, closed) at fewer in
            omega arith) in
        let (j, below, unended) = ended_open n t fewer' in (j, omega arith, unended))
  | inr unended ↦ (n, omega arith, unended)
]

pub row_short :
    (content : ℕ → Bytes) (n q : ℕ)
    → length (content n) ≤ q
    → row content n q ≡ row content (suc n) q
row_short content n q short =
    rw (le→ltb (length (content n)) q short, append-nil (row content n q)) refl

pub row_byte :
    (content : ℕ → Bytes) (n q : ℕ)
    → q < length (content n)
    → row content n q ++ get_or (content n) q 0 ∷ [] ≡ row content (suc n) q
row_byte content n q there = rw (lt→ltb q (length (content n)) there) refl
