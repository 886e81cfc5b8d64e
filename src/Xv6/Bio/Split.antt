-- ===== src/Xv6/Bio/Split.antt =====
-- What the two walks over the list of buffers find.
use asopracticas.Common.{
  ◌≡◌, refl, ap, inl, inr, ◌⊎◌, Bool, true, false, none, some, List, [], ◌∷◌, ◌++◌, Bool-cases,
}
use asopracticas.Xv6.Bio.{Buf, Place, find_first, find_last}

abbrev pub Each : (Buf → Type 0) → List Buf → Type 0
Each P [] = Unit
Each P (x ∷ xs) = P x × Each P xs

pub Each-append : (P : Buf → Type 0) (xs ys : List Buf) → Each P xs → Each P ys → Each P (xs ++ ys)
Each-append P [] ys h h' = h'
Each-append P (x ∷ xs) ys (p, h) h' = (p, Each-append P xs ys h h')

pub Each-split : (P : Buf → Type 0) (xs ys : List Buf) → Each P (xs ++ ys) → Each P xs × Each P ys
Each-split P [] ys h = (tt, h)
Each-split P (x ∷ xs) ys (p, h) = let (a, b) = Each-split P xs ys h in ((p, a), b)

pub Each-map :
    (P Q : Buf → Type 0) (xs : List Buf) → ((x : Buf) → P x → Q x) → Each P xs → Each Q xs
Each-map P Q [] f h = tt
Each-map P Q (x ∷ xs) f (p, h) = (f x p, Each-map P Q xs f h)

abbrev pub listed : Place → List Buf
listed (before, x, behind) = before ++ x ∷ behind

-- How `find_first` ends.
pub find_first_lem :
    (test : Buf → Bool) (xs : List Buf)
    → ((find_first test xs ≡ none) × Each (λ x. test x ≡ false) xs)
      ⊎ ((place : Place) × (find_first test xs ≡ some place)
          × (listed place ≡ xs)
          × (test place.1 ≡ true)
          × Each (λ x. test x ≡ false) place.0)
unfolding find_first
find_first_lem test [] = inl (refl, tt)
find_first_lem test (x ∷ xs) = elim (Bool-cases (test x)) [
  | inl here ↦ inr (([], x, xs), rw here refl, refl, here, tt)
  | inr other ↦ elim (find_first_lem test xs) [
    | inl (e, h) ↦ inl (rw (find_first, other, e) refl, (other, h))
    | inr ((before, y, behind), e, whole, hit, h) ↦ inr (
      (x ∷ before, y, behind),
      rw (find_first, other, e) refl,
      ap (λ l. x ∷ l) whole,
      hit,
      (other, h),
    )
  ]
]

-- How `find_last` ends.
pub find_last_lem :
    (test : Buf → Bool) (xs : List Buf)
    → ((find_last test xs ≡ none) × Each (λ x. test x ≡ false) xs)
      ⊎ ((place : Place) × (find_last test xs ≡ some place)
          × (listed place ≡ xs)
          × (test place.1 ≡ true))
unfolding find_last
find_last_lem test [] = inl (refl, tt)
find_last_lem test (x ∷ xs) = elim (find_last_lem test xs) [
  | inl (e, h) ↦ elim (Bool-cases (test x)) [
    | inl here ↦ inr (([], x, xs), rw (find_last, e, here) refl, refl, here)
    | inr other ↦ inl (rw (find_last, e, other) refl, (other, h))
  ]
  | inr ((before, y, behind), e, whole, hit) ↦
      inr ((x ∷ before, y, behind), rw (find_last, e) refl, ap (λ l. x ∷ l) whole, hit)
]
