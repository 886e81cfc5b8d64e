-- ===== src/Xv6/Ulib/Print.antt =====
-- `printf` of xv6/printf.c.
use asopracticas.Common.{
  ℕ, ◌+◌, ◌%◌, ◌^◌, ◌<◌, ◌≡◌, refl, Bool, true, false, ◌||◌, some, List, [], ◌∷◌, ◌++◌, ◌==◌,
  if◌then◌else◌, Bool-cases, arith, inl, inr,
}
use asopracticas.Xv6.Ulib.{convert, takes_arg, printf_from, printf, null_text}
use asopracticas.Xv6.Ulib.Digits.{printint-total}

convert-total :
    (text : ℕ → List ℕ) (c arg : ℕ)
    → arg < 2 ^ 32
    → (out : List ℕ) × (convert text c arg ≡ some out)
unfolding convert
convert-total text c arg word =
    let (dec, e, _) = printint-total arg 10 true word (omega arith) in
    let (hex, e', _) = printint-total arg 16 false word (omega arith) in
    elim (Bool-cases (c == 100)) [
      | inl d ↦ (dec, rw (convert, d, e) refl)
      | inr not_d ↦ elim (Bool-cases (c == 120 || c == 112)) [
        | inl x ↦ (hex, rw (convert, not_d, x, e') refl)
        | inr not_x ↦ elim (Bool-cases (c == 115)) [
          | inl s ↦ (if arg == 0 then null_text else text arg, rw (convert, not_d, not_x, s) refl)
          | inr not_s ↦ elim (Bool-cases (c == 99)) [
            | inl ch ↦ (arg % 256 ∷ [], rw (convert, not_d, not_x, not_s, ch) refl)
            | inr not_ch ↦ elim (Bool-cases (c == 37)) [
              | inl p ↦ (c ∷ [], rw (convert, not_d, not_x, not_s, not_ch, p) refl)
              | inr not_p ↦ (37 ∷ c ∷ [], rw (convert, not_d, not_x, not_s, not_ch, not_p) refl)
            ]
          ]
        ]
      ]
    ]

printf_from-total :
    (text : ℕ → List ℕ) (args : ℕ → ℕ)
    → ((k : ℕ) → args k < 2 ^ 32)
    → (state : Bool) (k : ℕ) (fmt : List ℕ)
    → (out : List ℕ) × (printf_from text args state k fmt ≡ some out)
unfolding printf_from
printf_from-total text args words state k [] = ([], refl)
printf_from-total text args words false k (c ∷ fmt) =
    let (out, e) = printf_from-total text args words (c == 37) k fmt in
    (if c == 37 then out else c ∷ out, rw (printf_from, e) refl)
printf_from-total text args words true k (c ∷ fmt) =
    let (shown, e) = convert-total text c (args k) (words k) in
    let (out, e') =
      printf_from-total text args words false (if takes_arg c then k + 1 else k) fmt in
    (shown ++ out, rw (printf_from, e, e') refl)

-- With arguments of 32 bits, `printf` prints every format to its end: no conversion stores behind
-- the buffer of `printint`.
pub printf-total :
    (text : ℕ → List ℕ) (args : ℕ → ℕ)
    → ((k : ℕ) → args k < 2 ^ 32)
    → (fmt : List ℕ) → (out : List ℕ) × (printf text args fmt ≡ some out)
unfolding printf
printf-total text args words fmt = printf_from-total text args words false 0 fmt
