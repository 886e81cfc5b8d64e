-- ===== src/Xv6/Strings/Compare.antt =====
-- `strncmp` and `memcmp` of xv6/string.c answer 0 exactly on equal strings and areas.
use asopracticas.Common.{
  ℕ, zero, suc, ◌+◌, ◌≡◌, ◌⊎◌, ◌↔◌, refl, ◌&&◌, not, inl, inr, arith, ◌==◌, Bool-cases,
  if◌then◌else◌, pos, sub_ℕ,
}
use asopracticas.Xv6.Strings.{Memory, memcmp, strncmp}

-- The strings at `p` and `q` agree in their first n bytes, or up to a NUL that they share.
abbrev pub Agree : Memory → ℕ → ℕ → ℕ → Type 0
Agree mem p q zero = Unit
Agree mem p q (suc n) = (mem p ≡ mem q) × ((mem p ≡ 0) ⊎ Agree mem (p + 1) (q + 1) n)

abbrev pub SameBytes : Memory → ℕ → ℕ → ℕ → Type 0
SameBytes mem p q zero = Unit
SameBytes mem p q (suc n) = (mem p ≡ mem q) × SameBytes mem (p + 1) (q + 1) n

-- `strncmp` is 0 exactly when the strings agree.
pub strncmp_iff : (mem : Memory) (p q n : ℕ) → (strncmp mem p q n ≡ pos 0) ↔ Agree mem p q n
unfolding strncmp
strncmp_iff mem p q zero = (λ _. tt, λ _. refl)
strncmp_iff mem p q (suc n) =
    let ih = strncmp_iff mem (p + 1) (q + 1) n in (λ h. split h ih.0, λ h. join h ih.1)
  where
    split :
        (if not (mem p == 0) && mem p == mem q
            then strncmp mem (p + 1) (q + 1) n
            else sub_ℕ (mem p) (mem q))
          ≡ pos 0
        → (strncmp mem (p + 1) (q + 1) n ≡ pos 0 → Agree mem (p + 1) (q + 1) n)
        → Agree mem p q (suc n)
    split h next = elim (Bool-cases (not (mem p == 0) && mem p == mem q)) [
      | inl goes ↦ (ground arith, inr (next (rw goes at h)))
      | inr stops ↦ let same : mem p ≡ mem q = ground arith in (same, inl (ground arith))
    ]

    join :
        Agree mem p q (suc n)
        → (Agree mem (p + 1) (q + 1) n → strncmp mem (p + 1) (q + 1) n ≡ pos 0)
        → (if not (mem p == 0) && mem p == mem q
            then strncmp mem (p + 1) (q + 1) n
            else sub_ℕ (mem p) (mem q))
          ≡ pos 0
    join (same, inl ends) next = ground arith
    join (same, inr rest) next = ground (arith, next rest)

-- `memcmp` is 0 exactly when the areas hold the same bytes.
pub memcmp_iff : (mem : Memory) (p q n : ℕ) → (memcmp mem p q n ≡ pos 0) ↔ SameBytes mem p q n
unfolding memcmp
memcmp_iff mem p q zero = (λ _. tt, λ _. refl)
memcmp_iff mem p q (suc n) =
    let ih = memcmp_iff mem (p + 1) (q + 1) n in
    (λ h. (ground arith, ih.0 (ground arith)), λ h. ground (arith, h.0, ih.1 h.1))
