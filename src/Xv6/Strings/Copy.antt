-- ===== src/Xv6/Strings/Copy.antt =====
-- `strncpy`, `safestrcpy` and `strlen` of xv6/string.c.
use asopracticas.Common.{
  ℕ, zero, suc, ◌+◌, ◌-◌, ◌≤◌, ◌<◌, ◌≡◌, ◌≢◌, ◌⊎◌, refl, ap, ◌∙◌, Bool, false, ◌&&◌, ◌||◌, inl, inr,
  some, arith, ◌==◌, ltb, leb, ==→eq, ne→==, subst, Bool-cases, if◌then◌else◌,
}
use asopracticas.Xv6.Strings.{Memory, store, pad, strncpy, copy_safe, safestrcpy, strlen_from}

-- Whether the string at `t` ends before its byte `i`.
abbrev pub has_ended : Memory → ℕ → ℕ → Bool
has_ended mem t zero = false
has_ended mem t (suc i) = mem t == 0 || has_ended mem (t + 1) i

-- The area [s, s + n) holds the string at `t`, padded with NULs.
abbrev pub padded : Memory → ℕ → ℕ → ℕ → Memory
padded mem s t n a =
    if leb s a && ltb a (s + n)
    then if has_ended mem t (a - s) then 0 else mem (t + (a - s))
    else mem a

abbrev pub Apart : ℕ → ℕ → ℕ → Type 0
Apart s t n = (s + n ≤ t) ⊎ (t + n ≤ s)

pad_lem :
    (mem : Memory) (s n a : ℕ) → pad mem s n a ≡ (if leb s a && ltb a (s + n) then 0 else mem a)
unfolding pad
pad_lem mem s zero a = ground arith
pad_lem mem s (suc n) a = ground (arith, pad_lem (store mem s 0) (s + 1) n a)

has_ended_later :
    (mem : Memory) (t i : ℕ)
    → i ≢ 0
    → has_ended mem t i ≡ (mem t == 0 || has_ended mem (t + 1) (i - 1))
has_ended_later mem t zero h = absurd (h refl)
has_ended_later mem t (suc i) h = ap (λ k. mem t == 0 || has_ended mem (t + 1) k) (omega arith)

-- A store outside [t, t + n) is not seen there.
has_ended-store :
    (mem : Memory) (p c t i : ℕ)
    → (p < t) ⊎ (t + i ≤ p)
    → has_ended (store mem p c) t i ≡ has_ended mem t i
has_ended-store mem p c t zero h = refl
has_ended-store mem p c t (suc i) h = ground (arith, has_ended-store mem p c (t + 1) i)

has_ended_at_zero : (mem : Memory) (t i : ℕ) → i ≡ 0 → has_ended mem t i ≡ false
has_ended_at_zero mem t zero h = refl
has_ended_at_zero mem t (suc i) h = absurd (omega arith)

-- `strncpy` into an area apart from the string copies it up to its NUL, fills the rest of the n
-- bytes with NULs, and changes nothing else. A longer string is cut, with no NUL.
pub strncpy_lem :
    (mem : Memory) (s t n a : ℕ) → Apart s t n → strncpy mem s t n a ≡ padded mem s t n a
unfolding strncpy
strncpy_lem mem s t zero a h = ground arith
strncpy_lem mem s t (suc n) a h = elim (Bool-cases (mem t == 0)) [
  | inl ends ↦ rw ends (
      ground (
        arith,
        pad_lem (store mem s (mem t)) (s + 1) n a,
        has_ended_later mem t (a - s),
        has_ended_at_zero mem t (a - s),
      ))
  | inr goes ↦ rw goes (
      ground (
        arith,
        strncpy_lem (store mem s (mem t)) (s + 1) (t + 1) n a,
        has_ended_later mem t (a - s),
        has_ended_at_zero mem t (a - s),
        has_ended-store mem s (mem t) (t + 1) (a - (s + 1)),
      ))
]

-- The area [s, s + n) of `mem'` holds the string at `t` in `mem`, or as much of it as fits, with a
-- NUL behind it; outside the area nothing has changed.
pub record IsCut (mem : Memory) (s t n : ℕ) (mem' : Memory) : Type 0 where
  pub outside : (a : ℕ) → (a < s) ⊎ (s + n ≤ a) → mem' a ≡ mem a
  pub size : ℕ
  pub inside : size < n
  pub ended : mem' (s + size) ≡ 0
  pub copied : (i : ℕ) → i < size → (mem' (s + i) ≡ mem (t + i)) × (mem (t + i) ≢ 0)
  pub whole : (mem (t + size) ≡ 0) ⊎ (size + 1 ≡ n)

copy_safe_lem :
    (mem : Memory) (s t k : ℕ) → Apart s t (k + 1) → IsCut mem s t (k + 1) (copy_safe mem s t k)
unfolding copy_safe
copy_safe_lem mem s t zero h = record {
  outside = λ a o. ground arith;
  size = 0;
  inside = omega arith;
  ended = ground arith;
  copied = λ i below. absurd (omega arith);
  whole = inr (omega arith);
}
copy_safe_lem mem s t (suc k) h = elim (Bool-cases (mem t == 0)) [
  | inl ends ↦ rw ends (record {
    outside = λ a o. ground arith;
    size = 0;
    inside = omega arith;
    ended = ground arith;
    copied = λ i below. absurd (omega arith);
    whole = inl (let e : t + 0 ≡ t = omega arith in rw e (==→eq (mem t) 0 ends));
  })
  | inr goes ↦
      rw goes (step (copy_safe_lem (store mem s (mem t)) (s + 1) (t + 1) k (omega arith)) goes)
]
  where
    step :
        {mem' : Memory}
        → IsCut (store mem s (mem t)) (s + 1) (t + 1) (k + 1) mem'
        → (mem t == 0) ≡ false
        → IsCut mem s t (suc k + 1) mem'
    step {mem'} c goes = record {
      outside = λ a o. ground (arith, c.outside a);
      size = c.size + 1;
      inside = omega (arith, c.inside);
      ended = let e : s + (c.size + 1) ≡ s + 1 + c.size = omega arith in rw e c.ended;
      copied = λ i below. copy_at i below;
      whole = ground (arith, c.whole, c.inside);
    }
      where
        copy_at : (i : ℕ) → i < c.size + 1 → (mem' (s + i) ≡ mem (t + i)) × (mem (t + i) ≢ 0)
        copy_at zero below = ground (arith, c.outside s)
        copy_at (suc i) below = ground (arith, c.copied i, c.inside)

-- `safestrcpy` into an area of at least one byte, apart from the string, leaves there the string or
-- as many of its first bytes as fit before a NUL, always ends it with a NUL, and changes nothing
-- outside the area.
pub safestrcpy_lem :
    (mem : Memory) (s t n : ℕ) → n ≢ 0 → Apart s t n → IsCut mem s t n (safestrcpy mem s t n)
unfolding safestrcpy
safestrcpy_lem mem s t zero pos h = absurd (pos refl)
safestrcpy_lem mem s t (suc n) pos h =
    let e : n + 1 ≡ suc n = omega arith in
    subst (λ m. IsCut mem s t m (copy_safe mem s t n)) e (copy_safe_lem mem s t n (omega arith))

strlen_from_lem :
    (fuel : ℕ) (mem : Memory) (s n k : ℕ)
    → mem (s + n + k) ≡ 0
    → ((i : ℕ) → i < k → mem (s + n + i) ≢ 0)
    → k < fuel
    → strlen_from fuel mem s n ≡ some (n + k)
unfolding strlen_from
strlen_from_lem zero mem s n k z h f = absurd (omega arith)
strlen_from_lem (suc fuel) mem s n zero z h f =
    let e : s + n + 0 ≡ s + n = omega arith in
    let z' : mem (s + n) ≡ 0 = rw e at z in let e' : n + 0 ≡ n = omega arith in rw (z', e') refl
strlen_from_lem (suc fuel) mem s n (suc k) z h f =
    let e : s + n + 0 ≡ s + n = omega arith in
    let first : mem (s + n) ≢ 0 = rw e at (h 0 (omega arith)) in
    let next =
      strlen_from_lem fuel mem s (n + 1) k (ground (arith, z))
        (λ i below. ground (arith, h (suc i))) (omega arith) in
    rw (ne→== (mem (s + n)) 0 first) (next ∙ ap some (omega arith))

-- `strlen` of a string whose first NUL is at `k` is k, with fuel for the bytes up to it.
pub strlen_lem :
    (fuel : ℕ) (mem : Memory) (s k : ℕ)
    → mem (s + k) ≡ 0
    → ((i : ℕ) → i < k → mem (s + i) ≢ 0)
    → k < fuel
    → strlen_from fuel mem s 0 ≡ some k
strlen_lem fuel mem s k z h f =
    let e : s + 0 ≡ s = omega arith in
    let e' : 0 + k ≡ k = omega arith in
    rw e' at (strlen_from_lem fuel mem s 0 k (rw e z) (λ i below. rw e (h i below)) f)
