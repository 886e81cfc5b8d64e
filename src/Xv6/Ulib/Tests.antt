-- ===== src/Xv6/Ulib/Tests.antt =====
-- Runs of xv6/ulib.c and xv6/printf.c.
use asopracticas.Common.{ℕ, ◌≡◌, refl, true, some, List, [], ◌∷◌, arith, negsuc}
use asopracticas.Xv6.Ulib.{atoi_from, atoi, strcmp, fill, printint, convert, printf_from, printf}
use asopracticas.Xv6.Ulib.Digits.{atoi-printint}
use asopracticas.Xv6.Ulib.Print.{printf-total}

-- "12a"
atoi_runs : atoi (49 ∷ 50 ∷ 97 ∷ []) ≡ 12
unfolding atoi atoi_from
atoi_runs = refl

-- -255
printint_negative : printint 4294967041 10 true ≡ some (45 ∷ 50 ∷ 53 ∷ 53 ∷ [])
unfolding printint fill
printint_negative = refl

strcmp_runs : strcmp (97 ∷ []) (97 ∷ 98 ∷ []) ≡ negsuc 97
unfolding strcmp
strcmp_runs = refl

abbrev no_text : ℕ → List ℕ
no_text a = []

abbrev two_words : ℕ → ℕ
two_words k = 255

-- "%x:%d"
abbrev format : List ℕ
format = 37 ∷ 120 ∷ 58 ∷ 37 ∷ 100 ∷ []

printf_runs : printf no_text two_words format ≡ some (70 ∷ 70 ∷ 58 ∷ 50 ∷ 53 ∷ 53 ∷ [])
unfolding printf printf_from convert printint fill
printf_runs = refl

atoi-printint_example : (out : List ℕ) × (printint 1203 10 true ≡ some out) × (atoi out ≡ 1203)
atoi-printint_example = atoi-printint 1203 (omega arith)

printf-total_example : (out : List ℕ) × (printf no_text two_words format ≡ some out)
printf-total_example = printf-total no_text two_words (λ k. omega arith) format
