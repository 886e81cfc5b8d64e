-- ===== src/Xv6/Strings/Move.antt =====
-- `memmove` of xv6/string.c copies also where the two areas overlap.
use asopracticas.Common.{
  ℕ, zero, suc, ◌+◌, ◌-◌, ◌≤◌, ◌≡◌, ◌⊎◌, ◌&&◌, inl, inr, arith, ltb, leb, Bool-cases, if◌then◌else◌,
}
use asopracticas.Xv6.Strings.{Memory, store, forward, backward, memmove}

-- The bytes of `mem`, with those of [s, s + n) also at [d, d + n).
abbrev pub moved : Memory → ℕ → ℕ → ℕ → Memory
moved mem d s n a = if leb d a && ltb a (d + n) then mem (s + (a - d)) else mem a

forward_lem :
    (mem : Memory) (d s n a : ℕ) → (d ≤ s) ⊎ (s + n ≤ d) → forward mem d s n a ≡ moved mem d s n a
unfolding forward
forward_lem mem d s zero a h = ground arith
forward_lem mem d s (suc n) a h =
    ground (arith, forward_lem (store mem d (mem s)) (d + 1) (s + 1) n a)

backward_lem :
    (mem : Memory) (d s n a : ℕ) → s ≤ d → backward mem (d + n) (s + n) n a ≡ moved mem d s n a
unfolding backward
backward_lem mem d s zero a h = ground arith
backward_lem mem d s (suc n) a h =
    let e₁ : d + suc n - 1 ≡ d + n = omega arith in
    let e₂ : s + suc n - 1 ≡ s + n = omega arith in
    rw (e₁, e₂) (ground (arith, backward_lem (store mem (d + n) (mem (s + n))) d s n a h))

-- After `memmove` the destination holds what the source held before, also where they overlap, and
-- no other byte has changed.
pub memmove_lem : (mem : Memory) (dst src n a : ℕ) → memmove mem dst src n a ≡ moved mem dst src n a
unfolding memmove
memmove_lem mem dst src n a = elim (Bool-cases (ltb src dst && ltb dst (src + n))) [
  | inl overlaps ↦ rw overlaps (backward_lem mem dst src n a (ground arith))
  | inr apart ↦ rw apart (forward_lem mem dst src n a (ground arith))
]
