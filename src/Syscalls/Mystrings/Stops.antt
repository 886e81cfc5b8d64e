-- ===== src/Syscalls/Mystrings/Stops.antt =====
-- mystrings.c ends at a read that is short, with what it holds then.
use asopracticas.Common.{
  ℕ, ◌+◌, ◌≤◌, ◌<◌, ◌≡◌, refl, sym, ◌∙◌, ap, ap₂, Bool, true, false, some, List, [], ◌∷◌, ◌++◌,
  ◌==◌, ltb, leb, length, length-append, append-nil, append_assoc, arith, ne→==,
}
use asopracticas.Syscalls.Write.{Bytes, Writer, IsComplete}
use asopracticas.Syscalls.Mystrings.{
  Strings, start, is_kept, hold, scan_read, hold_all, is_short_read, last_run, strings_loop,
}
use asopracticas.Syscalls.Mystrings.Whole.{emit_lem}

abbrev pub EachKept : (ℕ → Bool) → Bytes → Type 0
EachKept isprint [] = Unit
EachKept isprint (c ∷ cs) = (is_kept isprint c ≡ true) × EachKept isprint cs

module _ (isprint : ℕ → Bool) (w : Writer) (min_length buf_size : ℕ) (complete : IsComplete w)
    (some_length : 0 < min_length) where
  -- The state once the bytes of `cs`, all of them kept, are held behind what was held.
  abbrev with_bytes : Strings → Bytes → Strings
  with_bytes s cs = record s { held = s.held ++ cs; contador = s.contador + length cs }

  hold_lem :
      (c : ℕ) (s : Strings)
      → length s.held < buf_size
      → hold buf_size c s ≡ some (with_bytes s (c ∷ []))
  unfolding hold
  hold_lem c s room = rw (ne→== (length s.held) buf_size (omega (arith, room))) refl

  with_bytes_two :
      (c : ℕ) (cs : Bytes) (s : Strings)
      → with_bytes (with_bytes s (c ∷ [])) cs ≡ with_bytes s (c ∷ cs)
  with_bytes_two c cs s =
      ap₂ (λ held contador. record s { held = held; contador = contador })
        (append_assoc s.held (c ∷ []) cs) (omega arith)

  hold_all_lem :
      (cs : Bytes) (s : Strings)
      → EachKept isprint cs
      → length s.held + length cs ≤ buf_size
      → hold_all isprint buf_size s cs ≡ some (with_bytes s cs)
  unfolding hold_all
  hold_all_lem [] s kept room =
      ap₂ (λ held contador. some (record s { held = held; contador = contador }))
        (sym (append-nil s.held)) (omega arith)
  hold_all_lem (c ∷ cs) s (kept, each) room =
      let longer = length-append s.held (c ∷ []) in
      rw (hold_all, kept, hold_lem c s (omega arith))
        (hold_all_lem cs (with_bytes s (c ∷ [])) each (omega arith)
          ∙ ap some (with_bytes_two c cs s))

  scan_read_kept :
      (cs : Bytes) (s : Strings)
      → EachKept isprint cs
      → length s.held + length cs ≤ buf_size
      → scan_read isprint w min_length buf_size s cs ≡ some (with_bytes s cs)
  unfolding scan_read
  scan_read_kept [] s kept room =
      ap₂ (λ held contador. some (record s { held = held; contador = contador }))
        (sym (append-nil s.held)) (omega arith)
  scan_read_kept (c ∷ cs) s (kept, each) room =
      let longer = length-append s.held (c ∷ []) in
      rw (scan_read, kept, hold_lem c s (omega arith))
        (scan_read_kept cs (with_bytes s (c ∷ [])) each (omega arith)
          ∙ ap some (with_bytes_two c cs s))

  -- With a positive `min_length` and where each call of `write` writes all that it is asked to: if
  -- the first read brings more than `min_length` bytes and the second at most `min_length`, all of
  -- them printable, newlines or tabs, and both fit the buffer, the program ends with these two reads
  -- as its output. What would still come is never read, whatever it is, also where the second read
  -- is not empty.
  pub strings_loop-stops :
      (run short : Bytes) (rest : List Bytes)
      → EachKept isprint run
      → EachKept isprint short
      → min_length < length run
      → length short ≤ min_length
      → length run + length short ≤ buf_size
      → (s : Strings) × (strings_loop isprint w min_length buf_size start (run ∷ short ∷ rest)
          ≡ some s)
        × (s.out ≡ run ++ short)
  unfolding strings_loop scan_read last_run
  strings_loop-stops run [] rest kept_run kept_short long few room =
      let held_run = scan_read_kept run start kept_run (omega arith) in
      let (calls', done) =
        emit_lem isprint w min_length buf_size complete some_length (with_bytes start run) in
      let first : is_short_read min_length start run ≡ false = ground (arith, long) in
      let some_run : length run == 0 ≡ false = ne→== _ _ (omega (arith, long)) in
      let second : is_short_read min_length (with_bytes start run) [] ≡ false =
        ground (arith, long) in
      let some_held : ltb 0 (length run) ≡ true = ground (arith, long) in
      let enough : leb min_length (with_bytes start run).contador ≡ true = ground (arith, long) in
      (
        record (with_bytes start run) { out = run; calls = calls' },
        rw
            (
              strings_loop, first, held_run, some_run, strings_loop, second, scan_read, last_run,
              some_held, enough, done,
            )
            refl,
        sym (append-nil run),
      )
  strings_loop-stops run (c ∷ cs) rest kept_run kept_short long few room =
      let short = c ∷ cs in
      let held_run = scan_read_kept run start kept_run (omega arith) in
      let held_both = hold_all_lem short (with_bytes start run) kept_short (omega arith) in
      let (calls', done) =
        emit_lem isprint w min_length buf_size complete some_length
          (with_bytes (with_bytes start run) short) in
      let first : is_short_read min_length start run ≡ false = ground (arith, long) in
      let some_run : length run == 0 ≡ false = ne→== _ _ (omega (arith, long)) in
      let second : is_short_read min_length (with_bytes start run) short ≡ true =
        ground (arith, long, few) in
      (
        record (with_bytes (with_bytes start run) short) { out = run ++ short; calls = calls' },
        rw (strings_loop, first, held_run, some_run, strings_loop, second, held_both, done) refl,
        refl,
      )
