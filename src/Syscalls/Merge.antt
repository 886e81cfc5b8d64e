-- ===== src/Syscalls/Merge.antt =====
-- The main loop of syscalls/Semana4/src/Tarea4/merge_files.c: the bytes of the files are put into the
-- output in turn, through one buffer for each file and one for the output. Arrays are functions.
pub mod Rows
pub mod Branches
pub mod Visit
pub mod Rounds
pub mod Inverse
mod Tests
use asopracticas.Common.{
  ℕ, zero, suc, ◌+◌, ◌-◌, Bool, true, false, ◌&&◌, not, Option, none, some, ◌>>=◌, List, [], ◌∷◌,
  ◌++◌, ◌==◌, ltb, leb, if◌then◌else◌, length, get_or,
}
use asopracticas.Syscalls.Write.{Bytes, Writer, write_buffer}

-- `read`: what call number `r` of it on file `i` gives. `none` is -1, behind which the code would go on
-- with `leidos` at -1 and store in front of the buffer: that is `none` here.
abbrev pub Reader : Type 0
Reader = ℕ → ℕ → Option Bytes

-- The -1 that `porEscribir` gets when a file ends is left out: `ficherosTerminados` is tested with it.
pub record Merge : Type 0 where
  -- `cjtoBuffer`
  pub buffers : ℕ → ℕ → ℕ
  pub por_escribir : ℕ → ℕ
  -- `ficherosTerminados[i] == 1`
  pub terminados : ℕ → Bool
  pub contador : ℕ
  pub salida : ℕ → ℕ
  pub punterowrite : ℕ
  pub a_escribir : ℕ
  -- what the output holds, and the calls of `write`
  pub out : Bytes
  pub calls : ℕ

abbrev pub array_set {ℓ} : {A : Type ℓ} → (ℕ → A) → ℕ → A → ℕ → A
array_set f i x j = if j == i then x else f j

-- The buffer behind a call of `read`.
abbrev pub refilled : Bytes → (ℕ → ℕ) → ℕ → ℕ
refilled bs old v = if ltb v (length bs) then get_or bs v 0 else old v

pub read_file : Reader → ℕ → ℕ → Merge → Option Merge
read_file rd r i s = elim (rd i r) [
  | none ↦ none
  | some bs ↦ some (record s {
    buffers = array_set s.buffers i (refilled bs (s.buffers i));
    por_escribir = array_set s.por_escribir i (length bs);
  })
]

-- The loop over the files, `k` of them from `i` on.
pub read_files : Reader → ℕ → ℕ → ℕ → Merge → Option Merge
read_files rd r zero i s = some s
read_files rd r (suc k) i s = do s' ← read_file rd r i s; read_files rd r k (suc i) s'

-- The first `n` bytes of a buffer.
abbrev pub first : ℕ → (ℕ → ℕ) → Bytes
first zero f = []
first (suc n) f = first n f ++ f n ∷ []

-- The loop of `write` on `bufSalida`.
pub write_out : Writer → Merge → Option Merge
write_out w s = elim (write_buffer w s.calls (first s.a_escribir s.salida)) [
  | none ↦ none
  | some (calls', written) ↦ some (record s { out = s.out ++ written; calls = calls' })
]

-- `bufSalida[punterowrite] = bufAux[v]; punterowrite++;`
pub put_byte : ℕ → ℕ → Merge → Merge
put_byte v i s = record s {
  salida = array_set s.salida s.punterowrite (s.buffers i v);
  punterowrite = suc s.punterowrite;
}

pub end_file : ℕ → Merge → Merge
end_file i s = record s { terminados = array_set s.terminados i true; contador = suc s.contador }

-- A full buffer is written.
pub make_room : Writer → ℕ → Merge → Option Merge
make_room w size s =
    let s1 : Merge = record s { a_escribir = s.punterowrite } in
    if s.punterowrite == size
    then (do s2 ← write_out w s1; some (record s2 { punterowrite = 0 }))
    else some s1

-- What is done for byte `v` of the buffer of file `i`, and whether there is an `i--`.
pub take_byte : ℕ → ℕ → ℕ → Merge → Bool × Merge
take_byte size v i s =
    let n = s.por_escribir i in
    if n == size && not (s.terminados i)
    then (false, if n == 0 then end_file i (put_byte v i s) else put_byte v i s)
    else if leb n size && not (s.terminados i)
    then (if n == v then (true, end_file i s) else (false, put_byte v i s))
    else (false, s)

-- A turn of the loop over the files. Behind an `i--` the file comes again, and has ended.
pub turn : Writer → ℕ → ℕ → ℕ → Merge → Option Merge
turn w size v i s = do
  s1 ← make_room w size s
  let (again, s2) = take_byte size v i s1
  let once_more = (do s3 ← make_room w size s2; some (take_byte size v i s3).1)
  if again then once_more else some s2

pub turns : Writer → ℕ → ℕ → ℕ → ℕ → Merge → Option Merge
turns w size v zero i s = some s
turns w size v (suc k) i s = do s' ← turn w size v i s; turns w size v k (suc i) s'

-- The loop over the places in the buffers, `m` of them from `v` on, for `n` files.
pub passes : Writer → ℕ → ℕ → ℕ → ℕ → Merge → Option Merge
passes w n size zero v s = some s
passes w n size (suc m) v s = do s' ← turns w size v n 0 s; passes w n size m (suc v) s'

-- `fin`
pub count_ended : ℕ → (ℕ → Bool) → ℕ
count_ended zero t = 0
count_ended (suc n) t = if t n then suc (count_ended n t) else count_ended n t

-- The outer loop, at its round `r`; `none` also when the fuel is at its end.
pub merge_loop : ℕ → Writer → Reader → ℕ → ℕ → ℕ → Merge → Option Merge
merge_loop zero w rd n size r s = none
merge_loop (suc fuel) w rd n size r s = if s.contador == n then some s else (do
  s1 ← read_files rd r n 0 (record s { contador = 0 })
  s2 ← passes w n size size 0 (record s1 { a_escribir = 0 })
  let rest = merge_loop fuel w rd n size (suc r) s2
  if count_ended n s2.terminados == n then write_out w s2 else rest)
