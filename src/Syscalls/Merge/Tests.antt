-- ===== src/Syscalls/Merge/Tests.antt =====
-- merge_files.c at small inputs.
use asopracticas.Common.{
  ℕ, zero, suc, ◌*◌, ◌≡◌, ◌<◌, refl, Option, none, some, false, List, [], ◌∷◌, length, take, drop,
  arith,
}
use asopracticas.Syscalls.Write.{joined, Bytes, Writer, write_buffer}
use asopracticas.Syscalls.Merge.{
  Merge, Reader, read_file, read_files, put_byte, end_file, make_room, take_byte, write_out, turn,
  turns, passes, count_ended, merge_loop,
}
use asopracticas.Syscalls.Split.{Split, start, split_loop}
use asopracticas.Syscalls.Merge.Inverse.{merge_loop-split_loop}
use asopracticas.Syscalls.Merge.Rows.{rows}
use asopracticas.Syscalls.Merge.Rounds.{merge_loop_lem}

abbrev whole : Writer
whole calls count = some count

abbrev three_files : ℕ → Bytes
three_files zero = 1 ∷ 4 ∷ 7 ∷ []
three_files (suc zero) = 2 ∷ []
three_files (suc (suc j)) = 3 ∷ 6 ∷ []

abbrev whole_reads : Reader
whole_reads j r = some (take 2 (drop (r * 2) (three_files j)))

abbrev at_start : Merge
at_start = record {
  buffers = λ _ _. 0;
  por_escribir = λ _. 0;
  terminados = λ _. false;
  contador = 0;
  salida = λ _. 0;
  punterowrite = 0;
  a_escribir = 0;
  out = [];
  calls = 0;
}

output_of : Option Merge → Bytes
output_of none = []
output_of (some s) = s.out

merge_run : output_of (merge_loop 3 whole whole_reads 3 2 0 at_start) ≡ 1 ∷ 2 ∷ 3 ∷ 4 ∷ 6 ∷ 7 ∷ []
unfolding output_of merge_loop read_files read_file passes turns turn make_room take_byte put_byte
    end_file write_out write_buffer count_ended
merge_run = refl

all_short : (j : ℕ) → length (three_files j) < 3 * 2
all_short zero = omega arith
all_short (suc zero) = omega arith
all_short (suc (suc j)) = omega arith

merge_loop_lem_example :
    (s : Merge) × (merge_loop 3 whole whole_reads 3 2 0 at_start ≡ some s)
    × (s.out ≡ rows three_files 3 (3 * 2))
merge_loop_lem_example =
    merge_loop_lem whole 3 2 three_files (λ calls count. refl) (omega arith) 3 whole_reads at_start
      (omega arith) (λ j r _. refl) refl refl refl (λ j _. refl) (λ j _. all_short j)

-- Seven bytes dealt to three files and put together again.
abbrev any_reads : (ℕ → Bytes) → Reader
any_reads content j r = some (take 2 (drop (r * 2) (content j)))

abbrev seven : List Bytes
seven = (1 ∷ 2 ∷ 3 ∷ []) ∷ (4 ∷ 5 ∷ []) ∷ (6 ∷ 7 ∷ []) ∷ []

merge_loop-split_loop_example :
    (s : Split) × (m : Merge) × (split_loop whole 3 2 start seven ≡ some s)
    × (merge_loop 4 whole (any_reads s.files) 3 2 0 at_start ≡ some m)
    × (m.out ≡ joined seven)
merge_loop-split_loop_example =
    merge_loop-split_loop whole whole 3 2 2 4 any_reads seven at_start (λ calls count. refl)
      (λ calls count. refl) (λ content j r _. refl) (omega arith) (omega arith) (omega arith)
      (omega arith) refl refl refl (λ j _. refl)
