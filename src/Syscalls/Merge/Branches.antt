-- ===== src/Syscalls/Merge/Branches.antt =====
-- The branches of merge_files.c at a byte.
use asopracticas.Common.{
  ℕ, ◌≤◌, ◌<◌, ◌≡◌, refl, inl, inr, Bool, true, false, ◌&&◌, some, ◌++◌, ◌==◌, leb, Bool-cases,
  arith, ne→==, ==_refl,
}
use asopracticas.Syscalls.Write.{Bytes, Writer, IsComplete, write_buffer_complete}
use asopracticas.Syscalls.Merge.{Merge, first, write_out, put_byte, end_file, take_byte}

-- What is written and what is in the buffer for it.
abbrev pub output : Merge → Bytes
output s = s.out ++ first s.punterowrite s.salida

pub write_out_lem :
    (w : Writer) (s : Merge)
    → IsComplete w
    → (calls' : ℕ) × (write_out w s
        ≡ some (record s { out = s.out ++ first s.a_escribir s.salida; calls = calls' }))
unfolding write_out
write_out_lem w s complete =
    let (calls', e) = write_buffer_complete w s.calls (first s.a_escribir s.salida) complete in
    (calls', rw (write_out, e) refl)

and_false : (b : Bool) → b && false ≡ false
and_false true = refl
and_false false = refl

-- The branches of the code at a byte.
pub take_none :
    (size v i : ℕ) (s : Merge) → s.terminados i ≡ true → take_byte size v i s ≡ (false, s)
unfolding take_byte
take_none size v i s closed =
    rw
      (
        take_byte,
        closed,
        and_false (s.por_escribir i == size),
        and_false (leb (s.por_escribir i) size),
      )
      refl

pub take_last :
    (size v i : ℕ) (s : Merge)
    → s.terminados i ≡ false
    → s.por_escribir i ≡ v
    → v < size
    → take_byte size v i s ≡ (true, end_file i s)
unfolding take_byte
take_last size v i s unended here inside =
    let low : leb v size ≡ true = ground arith in
    rw (take_byte, unended, here, ne→== v size (omega arith), low, ==_refl v) refl

pub take_one :
    (size v i : ℕ) (s : Merge)
    → s.terminados i ≡ false
    → v < s.por_escribir i
    → s.por_escribir i ≤ size
    → take_byte size v i s ≡ (false, put_byte v i s)
unfolding take_byte
take_one size v i s unended there room =
    let n = s.por_escribir i in
    let low : leb n size ≡ true = ground arith in
    elim (Bool-cases (n == size)) [
      | inl whole ↦ rw (take_byte, unended, whole, ne→== n 0 (omega arith)) refl
      | inr part ↦ rw (take_byte, unended, part, low, ne→== n v (omega arith)) refl
    ]
