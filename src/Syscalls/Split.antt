-- ===== src/Syscalls/Split.antt =====
-- The main loop of syscalls/Semana4/src/Tarea4/split_files.c: the bytes read are dealt to the
-- output files in turn, through one buffer for each file. Arrays indexed by the files are
-- functions; a buffer is the list of its first `llenadoFicheros[i]` bytes.
pub mod Deal
mod Tests
use asopracticas.Common.{
  ℕ, zero, suc, ◌+◌, ◌-◌, Bool, true, false, Option, none, some, List, [], ◌∷◌, ◌++◌, ◌==◌, ltb,
  if◌then◌else◌, length,
}
use asopracticas.Syscalls.Write.{Bytes, Writer, write_buffer}

pub record Split : Type 0 where
  -- `cjtoBuffer`, with `llenadoFicheros` as the lengths
  pub buffers : ℕ → Bytes
  -- what the files hold
  pub files : ℕ → Bytes
  -- `punteroFicheroReferenciado`
  pub next : ℕ
  pub calls : ℕ

abbrev pub start : Split
start = record { buffers = λ _. []; files = λ _. []; next = 0; calls = 0 }

abbrev pub update : (ℕ → Bytes) → ℕ → Bytes → ℕ → Bytes
update f j v i = if i == j then v else f i

-- The buffer of file `j` is written to the file and emptied.
pub flush : Writer → ℕ → Split → Option Split
flush w j s = elim (write_buffer w s.calls (s.buffers j)) [
  | none ↦ none
  | some (calls', written) ↦ some (record s {
    buffers = update s.buffers j [];
    files = update s.files j (s.files j ++ written);
    calls = calls';
  })
]

-- `bufAux_[llenadoFicheros[j]] = c; llenadoFicheros[j]++; punteroFicheroReferenciado++`
pub add_byte : ℕ → ℕ → Split → Split
add_byte j c s = record s { buffers = update s.buffers j (s.buffers j ++ c ∷ []); next = j + 1 }

-- One round of the loop over the bytes read, for `n` files and buffers of `size` bytes.
pub deal_byte : Writer → ℕ → ℕ → Split → ℕ → Option Split
deal_byte w n size s c =
    let j = if s.next == n then 0 else s.next in
    if length (s.buffers j) == size
    then elim (flush w j s) [ none ↦ none | some s' ↦ some (add_byte j c s') ]
    else some (add_byte j c s)

pub deal : Writer → ℕ → ℕ → Split → Bytes → Option Split
deal w n size s [] = some s
deal w n size s (c ∷ cs) = elim (deal_byte w n size s c) [
  | none ↦ none
  | some s' ↦ deal w n size s' cs
]

-- At the end of the input each buffer that holds bytes is written; `k` files are left, from `i` on.
-- The buffers are not used again.
pub finish : Writer → ℕ → ℕ → Split → Option Split
finish w zero i s = some s
finish w (suc k) i s =
    if length (s.buffers i) == 0
    then finish w k (i + 1) s
    else elim (flush w i s) [ none ↦ none | some s' ↦ finish w k (i + 1) s' ]

-- The outer loop. The list holds the bytes that the calls of `read` returned, none of them empty; the
-- call after the last returns no byte and ends the loop.
pub split_loop : Writer → ℕ → ℕ → Split → List Bytes → Option Split
split_loop w n size s [] = finish w n 0 s
split_loop w n size s (chunk ∷ chunks) = elim (deal w n size s chunk) [
  | none ↦ none
  | some s' ↦ split_loop w n size s' chunks
]
