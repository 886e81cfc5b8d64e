-- ===== src/Syscalls/Mystrings/Tests.antt =====
-- mystrings.c at small inputs.
use asopracticas.Common.{
  ℕ, ◌≡◌, refl, Bool, ◌&&◌, Option, none, some, List, [], ◌∷◌, ltb, leb, arith,
}
use asopracticas.Syscalls.Write.{joined, Bytes, Writer, write_buffer}
use asopracticas.Syscalls.Mystrings.{
  Strings, start, hold, emit, end_run, scan_read, last_run, strings_loop,
}
use asopracticas.Syscalls.Mystrings.Whole.{runs, long_ones, strings_loop_lem}
use asopracticas.Syscalls.Mystrings.Stops.{strings_loop-stops}

abbrev whole : Writer
whole calls count = some count

abbrev is_ascii : ℕ → Bool
is_ascii c = leb 32 c && ltb c 127

-- The run `bcde` is cut by the reads.
abbrev reads : List Bytes
reads = (97 ∷ 1 ∷ 98 ∷ []) ∷ (99 ∷ 100 ∷ 101 ∷ []) ∷ (2 ∷ 3 ∷ 4 ∷ []) ∷ []

out_of : Option Strings → Bytes
out_of none = []
out_of (some s) = s.out

strings_run : out_of (strings_loop is_ascii whole 2 8 start reads) ≡ 98 ∷ 99 ∷ 100 ∷ 101 ∷ []
unfolding out_of strings_loop scan_read hold end_run emit last_run write_buffer
strings_run = refl

strings_loop_lem_example :
    (s : Strings) × (strings_loop is_ascii whole 2 8 start reads ≡ some s)
    × (s.out ≡ long_ones 2 (let (first, rest) = runs is_ascii (joined reads) in first ∷ rest))
strings_loop_lem_example =
    strings_loop_lem is_ascii whole 2 8 (λ calls count. refl) (omega arith) reads
      (omega arith, (omega arith, (omega arith, tt)))
      (omega arith, (omega arith, (omega arith, (omega arith, (omega arith, tt)))))

strings_loop-stops_example :
    (s : Strings) × (strings_loop is_ascii whole 2 8 start
        ((97 ∷ 98 ∷ 99 ∷ []) ∷ (100 ∷ []) ∷ (101 ∷ 102 ∷ 103 ∷ []) ∷ [])
      ≡ some s)
    × (s.out ≡ 97 ∷ 98 ∷ 99 ∷ 100 ∷ [])
strings_loop-stops_example =
    strings_loop-stops is_ascii whole 2 8 (λ calls count. refl) (omega arith) (97 ∷ 98 ∷ 99 ∷ [])
      (100 ∷ []) ((101 ∷ 102 ∷ 103 ∷ []) ∷ []) (refl, (refl, (refl, tt))) (refl, tt) (omega arith)
      (omega arith) (omega arith)
