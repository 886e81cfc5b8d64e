-- ===== src/Xv6/Strings.antt =====
-- The byte-string routines of xv6/string.c, over memory as a map from addresses to bytes.
pub mod Move
pub mod Copy
pub mod Compare
mod Tests
use asopracticas.Common.{
  ℕ, zero, suc, ◌+◌, ◌-◌, Bool, true, false, ◌&&◌, not, Option, none, some, ◌==◌, ltb, leb,
  if◌then◌else◌, ℤ, sub_ℕ, pos,
}

abbrev pub Memory : Type 0
Memory = ℕ → ℕ

abbrev pub store : Memory → ℕ → ℕ → Memory
store mem p c a = if a == p then c else mem a

-- `while(n-- > 0) *d++ = *s++;`
pub forward : Memory → ℕ → ℕ → ℕ → Memory
forward mem d s zero = mem
forward mem d s (suc n) = forward (store mem d (mem s)) (d + 1) (s + 1) n

-- `while(n-- > 0) *--d = *--s;`
pub backward : Memory → ℕ → ℕ → ℕ → Memory
backward mem d s zero = mem
backward mem d s (suc n) = backward (store mem (d - 1) (mem (s - 1))) (d - 1) (s - 1) n

-- Also `memcpy`, which calls it.
pub memmove : Memory → ℕ → ℕ → ℕ → Memory
memmove mem dst src n =
    if ltb src dst && ltb dst (src + n)
    then backward mem (dst + n) (src + n) n
    else forward mem dst src n

pub memcmp : Memory → ℕ → ℕ → ℕ → ℤ
memcmp mem p q zero = pos 0
memcmp mem p q (suc n) =
    if not (mem p == mem q) then sub_ℕ (mem p) (mem q) else memcmp mem (p + 1) (q + 1) n

pub strncmp : Memory → ℕ → ℕ → ℕ → ℤ
strncmp mem p q zero = pos 0
strncmp mem p q (suc n) =
    if not (mem p == 0) && mem p == mem q
    then strncmp mem (p + 1) (q + 1) n
    else sub_ℕ (mem p) (mem q)

-- `while(n-- > 0) *s++ = 0;`
pub pad : Memory → ℕ → ℕ → Memory
pad mem s zero = mem
pad mem s (suc n) = pad (store mem s 0) (s + 1) n

-- `n` is at least 0.
pub strncpy : Memory → ℕ → ℕ → ℕ → Memory
strncpy mem s t zero = mem
strncpy mem s t (suc n) =
    let mem' = store mem s (mem t) in
    if mem t == 0 then pad mem' (s + 1) n else strncpy mem' (s + 1) (t + 1) n

-- The loop of `safestrcpy` with `n` rounds left, and the final `*s = 0`. After a NUL was copied `s`
-- has moved behind it.
pub copy_safe : Memory → ℕ → ℕ → ℕ → Memory
copy_safe mem s t zero = store mem s 0
copy_safe mem s t (suc n) =
    let mem' = store mem s (mem t) in
    if mem t == 0 then store mem' (s + 1) 0 else copy_safe mem' (s + 1) (t + 1) n

pub safestrcpy : Memory → ℕ → ℕ → ℕ → Memory
safestrcpy mem s t zero = mem
safestrcpy mem s t (suc n) = copy_safe mem s t n

-- `none` says that the fuel ran out.
pub strlen_from : ℕ → Memory → ℕ → ℕ → Option ℕ
strlen_from zero mem s n = none
strlen_from (suc fuel) mem s n =
    let rest = strlen_from fuel mem s (n + 1) in if mem (s + n) == 0 then some n else rest
