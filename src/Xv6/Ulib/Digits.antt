-- ===== src/Xv6/Ulib/Digits.antt =====
-- `printint` of xv6/printf.c, and `atoi` of xv6/ulib.c, which reads what it prints.
use asopracticas.Common.{
  ℕ, zero, suc, ◌+◌, ◌-◌, ◌*◌, ◌/◌, ◌%◌, ◌^◌, ◌≤◌, ◌<◌, ◌≡◌, refl, sym, ap, subst, ◌∙◌, Bool, true,
  false, ◌&&◌, some, List, [], ◌∷◌, length, ◌==◌, ltb, leb, Bool-cases, ==→eq, arith, u32_mod, inl,
  inr,
}
use native.Mathlib.Nat.{div-lt_iff_lt-mul, div-eq_of_lt, pow-suc, pow-zero, pow-le-pow_left}
use asopracticas.Xv6.Ulib.{is_digit, atoi_from, atoi, digit, bufsize, fill, printint}

-- `fill` reaches its end with as many bytes as the number has digits.
pub fill_lem :
    (room k x base : ℕ) (out : List ℕ)
    → 2 ≤ base
    → x < base ^ suc k
    → k < room
    → (l : List ℕ) × (fill room x base out ≡ some l) × (length l ≤ suc k + length out)
unfolding fill
fill_lem zero k x base out two small fits = absurd (omega arith)
fill_lem (suc room) zero x base out two small fits =
    let only_one : base ^ 1 ≡ base = rw (pow-suc, pow-zero) (omega arith) in
    let none_left : x / base ≡ 0 = div-eq_of_lt (subst (λ b. x < b) only_one small) in
    (digit (x % base) ∷ out, rw (fill, none_left) refl, omega arith)
fill_lem (suc room) (suc k) x base out two small fits = elim (Bool-cases (x / base == 0)) [
  | inl last ↦ (digit (x % base) ∷ out, rw (fill, last) refl, omega arith)
  | inr more ↦
      let less : x / base < base ^ suc k =
        (div-lt_iff_lt-mul (omega arith)).1 (rw pow-suc at small) in
      let (l, e, short) =
        fill_lem room k (x / base) base (digit (x % base) ∷ out) two less (omega arith) in
      (l, rw (fill, more) e, omega (arith, short))
]

is_digit-digit : (d : ℕ) → d < 10 → is_digit (digit d) ≡ true
is_digit-digit d small = ground arith

digit_value :
    (n d : ℕ) → d < 10 → n * 10 + d < 2 ^ 32 → (n * 10 + digit d - 48) % u32_mod ≡ n * 10 + d
digit_value n d small room = ground arith

atoi_digit :
    (n x : ℕ) (cs : List ℕ)
    → n * 10 + x % 10 < 2 ^ 32
    → atoi_from n (digit (x % 10) ∷ cs) ≡ atoi_from (n * 10 + x % 10) cs
unfolding atoi_from
atoi_digit n x cs small =
    rw (is_digit-digit (x % 10) (omega arith), digit_value n (x % 10) (omega arith) small) refl

-- `atoi` reads the digits that `fill` puts in front of `out`.
pub atoi-fill :
    (room x : ℕ) (out l : List ℕ)
    → x < 2 ^ 32
    → fill room x 10 out ≡ some l
    → atoi_from 0 l ≡ atoi_from x out
unfolding fill
atoi-fill zero x out l small e = cc
atoi-fill (suc room) x out l small e = elim (Bool-cases (x / 10 == 0)) [
  | inl last ↦
      let none_left = ==→eq (x / 10) 0 last in
      let whole : 0 * 10 + x % 10 ≡ x = omega arith in
      let at_end : some (digit (x % 10) ∷ out) ≡ some l = rw (fill, last) at e in
      let same : digit (x % 10) ∷ out ≡ l = cc in
      rw (sym same) (atoi_digit 0 x out (omega arith) ∙ ap (λ n. atoi_from n out) whole)
  | inr more ↦
      let next : fill room (x / 10) 10 (digit (x % 10) ∷ out) ≡ some l = rw (fill, more) at e in
      let parts : x / 10 * 10 + x % 10 ≡ x = omega arith in
      atoi-fill room (x / 10) (digit (x % 10) ∷ out) l (omega arith) next
      ∙ atoi_digit (x / 10) x out (omega arith)
      ∙ ap (λ n. atoi_from n out) parts
]

-- Every word is printed in at most eleven bytes, so `printint` stays in `buf`.
pub printint-total :
    (xx base : ℕ) (sgn : Bool)
    → xx < 2 ^ 32
    → 10 ≤ base
    → (out : List ℕ) × (printint xx base sgn ≡ some out) × (length out ≤ 11)
unfolding printint
printint-total xx base sgn word ten =
    let wide : 10 ^ 10 ≤ base ^ 10 = pow-le-pow_left ten 10 in
    elim (Bool-cases (sgn && leb 2147483648 xx)) [
      | inl minus ↦
          let (out, e, short) =
            fill_lem bufsize 9 (u32_mod - xx) base [] (omega arith) (omega arith) (omega arith) in
          let room : ltb (length out) bufsize ≡ true = ground arith in
          (45 ∷ out, rw (printint, minus, e, room) refl, omega arith)
      | inr plus ↦
          let (out, e, short) =
            fill_lem bufsize 9 xx base [] (omega arith) (omega arith) (omega arith) in
          (out, rw (printint, plus, e) refl, omega arith)
    ]

-- A number that fits into an `int` and is not negative comes back from the text that `%d` prints
-- for it, which `atoi` reads to its end.
pub atoi-printint :
    (x : ℕ) → x < 2 ^ 31 → (out : List ℕ) × (printint x 10 true ≡ some out) × (atoi out ≡ x)
unfolding printint atoi atoi_from
atoi-printint x small =
    let (out, e, _) = fill_lem bufsize 9 x 10 [] (omega arith) (omega arith) (omega arith) in
    let plus : leb 2147483648 x ≡ false = ground arith in
    (out, rw (printint, plus, e) refl, atoi-fill bufsize x [] out (omega arith) e)
