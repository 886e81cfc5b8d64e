-- ===== src/Syscalls/Mystrings.antt =====
-- The loop of syscalls/Semana4/src/Tarea4/mystrings.c, which writes the runs of printable bytes of
-- its input that have at least `min_length` bytes. `isprint` is a parameter.
pub mod Whole
pub mod Stops
mod Tests
use asopracticas.Common.{
  ℕ, zero, suc, ◌+◌, Bool, true, false, ◌&&◌, ◌||◌, not, Option, none, some, List, [], ◌∷◌, ◌++◌,
  ◌==◌, ltb, leb, if◌then◌else◌, length,
}
use asopracticas.Syscalls.Write.{Bytes, Writer, write_buffer}

pub record Strings : Type 0 where
  -- `bufEscritura[0..puntero)`
  pub held : Bytes
  pub contador : ℕ
  -- what the output holds
  pub out : Bytes
  pub calls : ℕ

abbrev pub start : Strings
start = record { held = []; contador = 0; out = []; calls = 0 }

abbrev pub is_kept : (ℕ → Bool) → ℕ → Bool
is_kept isprint c = isprint c || c == b'\n' || c == b'\t'

-- `bufEscritura[puntero] = c; puntero++; contador++`; `none` is a store behind the buffer.
pub hold : ℕ → ℕ → Strings → Option Strings
hold buf_size c s =
    if length s.held == buf_size
    then none
    else some (record s { held = s.held ++ c ∷ []; contador = s.contador + 1 })

pub emit : Writer → Strings → Option Strings
emit w s = elim (write_buffer w s.calls s.held) [
  | none ↦ none
  | some (calls', written) ↦ some (record s { out = s.out ++ written; calls = calls' })
]

abbrev pub reset : Strings → Strings
reset s = record s { held = []; contador = 0 }

-- A byte that is not kept ends the run.
pub end_run : Writer → ℕ → Strings → Option Strings
end_run w min_length s =
    if ltb s.contador (length s.held) || ltb s.contador min_length
    then some (reset s)
    else if leb min_length s.contador
    then elim (emit w s) [ none ↦ none | some s' ↦ some (reset s') ]
    else some (reset s)

abbrev pub scan_byte : (ℕ → Bool) → Writer → ℕ → ℕ → ℕ → Strings → Option Strings
scan_byte isprint w min_length buf_size c s =
    if is_kept isprint c then hold buf_size c s else end_run w min_length s

-- `for (int i=0;i<num_read;i++)` over the bytes of one read.
pub scan_read : (ℕ → Bool) → Writer → ℕ → ℕ → Strings → Bytes → Option Strings
scan_read isprint w min_length buf_size s [] = some s
scan_read isprint w min_length buf_size s (c ∷ cs) =
    elim (scan_byte isprint w min_length buf_size c s) [
      | none ↦ none
      | some s' ↦ scan_read isprint w min_length buf_size s' cs
    ]

-- The loop over a short read: the bytes that are not kept are passed over.
pub hold_all : (ℕ → Bool) → ℕ → Strings → Bytes → Option Strings
hold_all isprint buf_size s [] = some s
hold_all isprint buf_size s (c ∷ cs) =
    let rest = hold_all isprint buf_size s cs in
    if is_kept isprint c
    then elim (hold buf_size c s) [ none ↦ none | some s' ↦ hold_all isprint buf_size s' cs ]
    else rest

-- `(num_read<=min_length && contador>min_length) && num_read!=0`
abbrev pub is_short_read : ℕ → Strings → Bytes → Bool
is_short_read min_length s chunk =
    leb (length chunk) min_length && ltb min_length s.contador && not (length chunk == 0)

-- What follows the loop when `read` returns no byte.
pub last_run : Writer → ℕ → Strings → Option Strings
last_run w min_length s =
    if ltb 0 (length s.held) && leb min_length s.contador then emit w s else some s

-- The outer loop. The list holds the bytes that the calls of `read` returned; a call that returns no
-- byte is the last, and so is the call after those of the list.
pub strings_loop : (ℕ → Bool) → Writer → ℕ → ℕ → Strings → List Bytes → Option Strings
strings_loop isprint w min_length buf_size s [] = last_run w min_length s
strings_loop isprint w min_length buf_size s (chunk ∷ chunks) =
    if is_short_read min_length s chunk
    then elim (hold_all isprint buf_size s chunk) [ none ↦ none | some s' ↦ emit w s' ]
    else elim (scan_read isprint w min_length buf_size s chunk) [
      | none ↦ none
      | some s' ↦
          if length chunk == 0
          then last_run w min_length s'
          else strings_loop isprint w min_length buf_size s' chunks
    ]
