-- ===== src/Syscalls/Write.antt =====
-- The write loop that the programs of syscalls/Semana4/src/Tarea4 share,
--   while ((a_Escribir > 0 && (num_written = write(fd, buf + escritos, a_Escribir)) == -1)) …
-- It calls `write` once. After -1 it would call it again with `escritos` at -1, which reads before
-- the buffer: that is `none` here. A short write is not continued.
use asopracticas.Common.{
  ℕ, suc, ◌+◌, ◌≡◌, refl, Option, none, some, List, [], ◌∷◌, length, ◌++◌, take, take_all, arith,
}

abbrev pub Bytes : Type 0
Bytes = List ℕ

-- The input, from what the calls of `read` return.
abbrev pub joined : List Bytes → Bytes
joined [] = []
joined (chunk ∷ chunks) = chunk ++ joined chunks

-- `write`: what call number `c` of it answers for a given count. `none` is -1.
abbrev pub Writer : Type 0
Writer = ℕ → ℕ → Option ℕ

-- The number of calls made afterwards, and what has been written.
unfoldable pub write_buffer : Writer → ℕ → Bytes → Option (ℕ × Bytes)
write_buffer w calls [] = some (calls, [])
write_buffer w calls (b ∷ bs) = elim (w calls (suc (length bs))) [
  | none ↦ none
  | some k ↦ some (calls + 1, take k (b ∷ bs))
]

-- Every call writes all that it is asked to.
abbrev pub IsComplete : Writer → Type 0
IsComplete w = (calls count : ℕ) → w calls count ≡ some count

pub write_buffer_complete :
    (w : Writer) (calls : ℕ) (bs : Bytes)
    → IsComplete w
    → (calls' : ℕ) × (write_buffer w calls bs ≡ some (calls', bs))
unfolding write_buffer
write_buffer_complete w calls [] h = (calls, refl)
write_buffer_complete w calls (b ∷ bs) h = (
  calls + 1,
  rw (write_buffer, h calls (suc (length bs)), take_all (length bs) bs (omega arith)) refl,
)
