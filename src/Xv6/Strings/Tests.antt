-- ===== src/Xv6/Strings/Tests.antt =====
-- The theorems on byte strings at a small memory, and runs of the routines.
use asopracticas.Common.{ℕ, zero, suc, ◌+◌, ◌<◌, ◌≡◌, ◌≢◌, ◌↔◌, refl, [], ◌∷◌, arith, get_or, pos}
use asopracticas.Xv6.Strings.{Memory, backward, memmove, strncmp, safestrcpy, copy_safe}
use asopracticas.Xv6.Strings.Move.{moved, memmove_lem}
use asopracticas.Xv6.Strings.Copy.{IsCut, safestrcpy_lem}
use asopracticas.Xv6.Strings.Compare.{Agree, strncmp_iff}

-- "abc" at 0, "ab" at 4, and NULs behind.
abbrev mem : Memory
mem a = get_or (97 ∷ 98 ∷ 99 ∷ 0 ∷ 97 ∷ 98 ∷ []) a 0

overlap_run : memmove mem 1 0 3 3 ≡ 99
unfolding memmove backward
overlap_run = refl

memmove_lem_example : memmove mem 1 0 3 2 ≡ moved mem 1 0 3 2
memmove_lem_example = memmove_lem mem 1 0 3 2

-- A string of three bytes is cut to fit in three with its NUL.
safestrcpy_lem_example : IsCut mem 10 0 3 (safestrcpy mem 10 0 3)
safestrcpy_lem_example = safestrcpy_lem mem 10 0 3 (omega arith) (omega arith)

cut_run : safestrcpy mem 10 0 3 12 ≡ 0
unfolding safestrcpy copy_safe
cut_run = refl

strncmp_run : strncmp mem 0 4 5 ≡ pos 99
unfolding strncmp
strncmp_run = refl

strncmp_iff_example : (strncmp mem 0 4 2 ≡ pos 0) ↔ Agree mem 0 4 2
strncmp_iff_example = strncmp_iff mem 0 4 2

no_nul : (i : ℕ) → i < 3 → mem (0 + i) ≢ 0
no_nul zero h = omega arith
no_nul (suc zero) h = omega arith
no_nul (suc (suc zero)) h = omega arith
no_nul (suc (suc (suc i))) h = absurd (omega arith)
