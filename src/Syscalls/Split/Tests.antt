-- ===== src/Syscalls/Split/Tests.antt =====
-- split_files.c at small inputs.
use asopracticas.Common.{ℕ, ◌≡◌, ◌<◌, refl, Option, none, some, List, [], ◌∷◌, arith}
use asopracticas.Syscalls.Write.{joined, Bytes, Writer, write_buffer}
use asopracticas.Syscalls.Split.{Split, start, flush, add_byte, deal_byte, deal, finish, split_loop}
use asopracticas.Syscalls.Split.Deal.{column, split_loop_lem}

abbrev whole : Writer
whole calls count = some count

abbrev reads : List Bytes
reads = (1 ∷ 2 ∷ 3 ∷ []) ∷ (4 ∷ 5 ∷ []) ∷ (6 ∷ 7 ∷ []) ∷ []

file_of : Option Split → ℕ → Bytes
file_of none j = []
file_of (some s) j = s.files j

split_run : file_of (split_loop whole 3 2 start reads) 0 ≡ 1 ∷ 4 ∷ 7 ∷ []
unfolding file_of split_loop deal deal_byte add_byte flush finish write_buffer
split_run = refl

split_loop_lem_example :
    (s : Split) × (split_loop whole 3 2 start reads ≡ some s)
    × ((j : ℕ) → j < 3 → s.files j ≡ column 3 j 0 (joined reads))
split_loop_lem_example =
    split_loop_lem whole 3 2 (λ calls count. refl) (omega arith) (omega arith) reads
