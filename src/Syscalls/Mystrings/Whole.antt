-- ===== src/Syscalls/Mystrings/Whole.antt =====
-- mystrings.c writes the long runs of its input, as long as its reads are long and the runs fit.
use asopracticas.Common.{
  ℕ, ◌+◌, ◌≤◌, ◌<◌, ◌≡◌, refl, sym, ◌∙◌, ap, inl, inr, Bool, true, false, ◌&&◌, some, List, [], ◌∷◌,
  ◌++◌, ◌==◌, ltb, leb, if◌then◌else◌, length, length-append, append-nil, append_assoc, subst,
  Bool-cases, arith, ne→==, leb→le,
}
use asopracticas.Syscalls.Write.{joined, Bytes, Writer, IsComplete, write_buffer_complete}
use asopracticas.Syscalls.Mystrings.{
  Strings, start, is_kept, hold, emit, end_run, scan_byte, scan_read, last_run, strings_loop,
}

-- The maximal runs of kept bytes, the first apart; it and the others may be empty.
abbrev pub runs : (ℕ → Bool) → Bytes → Bytes × List Bytes
runs isprint [] = ([], [])
runs isprint (c ∷ cs) =
    let (first, rest) = runs isprint cs in
    if is_kept isprint c then (c ∷ first, rest) else ([], first ∷ rest)

abbrev pub if_long : ℕ → Bytes → Bytes
if_long min_length run = if leb min_length (length run) then run else []

abbrev pub long_ones : ℕ → List Bytes → Bytes
long_ones min_length [] = []
long_ones min_length (run ∷ rest) = if_long min_length run ++ long_ones min_length rest

-- Every run has room in the buffer.
abbrev pub EachFits : ℕ → List Bytes → Type 0
EachFits buf_size [] = Unit
EachFits buf_size (run ∷ rest) = (length run ≤ buf_size) × EachFits buf_size rest

-- No read is as short as `min_length`.
abbrev pub EachLong : ℕ → List Bytes → Type 0
EachLong min_length [] = Unit
EachLong min_length (chunk ∷ chunks) = (min_length < length chunk) × EachLong min_length chunks

ltb_irreflexive : (n : ℕ) → ltb n n ≡ false
ltb_irreflexive n = ground arith

and_no : (b : Bool) → b && false ≡ false
and_no true = refl
and_no false = refl

module _ (isprint : ℕ → Bool) (w : Writer) (min_length buf_size : ℕ) (complete : IsComplete w)
    (some_length : 0 < min_length) where
  -- The runs of `cs`, the first of them begun by `held`.
  abbrev runs_from : Bytes → Bytes → List Bytes
  runs_from held cs = let (first, rest) = runs isprint cs in (held ++ first) ∷ rest

  -- With `later` still to read, the output will be `total`.
  record IsOn (total : Bytes) (later : Bytes) (s : Strings) : Type 0 where
    count : s.contador ≡ length s.held
    promise : s.out ++ long_ones min_length (runs_from s.held later) ≡ total
    fits : EachFits buf_size (runs_from s.held later)

  pub emit_lem :
      (s : Strings)
      → (calls' : ℕ) × (emit w s ≡ some (record s { out = s.out ++ s.held; calls = calls' }))
  unfolding emit
  emit_lem s =
      let (calls', e) = write_buffer_complete w s.calls s.held complete in
      (calls', rw (emit, e) refl)

  end_run_lem :
      (s : Strings)
      → s.contador ≡ length s.held
      → (calls' : ℕ) × (end_run w min_length s
          ≡ some (record {
            held = [];
            contador = 0;
            out = s.out ++ if_long min_length s.held;
            calls = calls';
          }))
  unfolding end_run
  end_run_lem s e =
      let whole : ltb s.contador (length s.held) ≡ false = rw e (ltb_irreflexive (length s.held)) in
      elim (Bool-cases (leb min_length (length s.held))) [
        | inl long ↦
            let enough : ltb s.contador min_length ≡ false = ground (arith, leb→le _ _ long) in
            let fits : leb min_length s.contador ≡ true = rw e long in
            let (calls', done) = emit_lem s in
            (calls', rw (end_run, whole, enough, fits, long, done) refl)
        | inr short ↦
            let few : ltb s.contador min_length ≡ true = ground (arith, short) in
            (s.calls, rw (end_run, whole, few, short, append-nil s.out) refl)
      ]

  scan_byte-IsOn :
      (total : Bytes) (c : ℕ) (later : Bytes) (s : Strings)
      → IsOn total (c ∷ later) s
      → (s' : Strings) × (scan_byte isprint w min_length buf_size c s ≡ some s')
        × IsOn total later s'
  unfolding hold
  scan_byte-IsOn total c later s d = elim (Bool-cases (is_kept isprint c)) [
    | inl kept ↦
        let rest : runs_from s.held (c ∷ later) ≡ runs_from (s.held ++ c ∷ []) later =
          rw (kept, append_assoc s.held (c ∷ []) (runs isprint later).0) refl in
        let fits : EachFits buf_size (runs_from (s.held ++ c ∷ []) later) =
          subst (EachFits buf_size) rest d.fits in
        let longer = length-append s.held (c ∷ []) in
        let below = length-append (s.held ++ c ∷ []) (runs isprint later).0 in
        let room : length s.held == buf_size ≡ false =
          ne→== _ _ (omega (arith, fits.0, longer, below)) in
        (
          record s { held = s.held ++ c ∷ []; contador = s.contador + 1 },
          rw (kept, hold, room) refl,
          record {
            count = rw (length-append s.held (c ∷ []), d.count) refl;
            promise = ap (λ r. s.out ++ long_ones min_length r) (sym rest) ∙ d.promise;
            fits = fits;
          },
        )
    | inr ends ↦
        let (calls', done) = end_run_lem s d.count in
        let rest : runs_from s.held (c ∷ later) ≡ s.held ∷ runs_from [] later =
          rw (ends, append-nil s.held) refl in
        (
          record {
            held = [];
            contador = 0;
            out = s.out ++ if_long min_length s.held;
            calls = calls';
          },
          rw (ends, done) refl,
          record {
            count = refl;
            promise =
                append_assoc s.out (if_long min_length s.held)
                  (long_ones min_length (runs_from [] later))
                ∙ ap (λ r. s.out ++ long_ones min_length r) (sym rest)
                ∙ d.promise;
            fits = (subst (EachFits buf_size) rest d.fits).1;
          },
        )
  ]

  scan_read-IsOn :
      (total chunk later : Bytes) (s : Strings)
      → IsOn total (chunk ++ later) s
      → (s' : Strings) × (scan_read isprint w min_length buf_size s chunk ≡ some s')
        × IsOn total later s'
  unfolding scan_read
  scan_read-IsOn total [] later s d = (s, refl, d)
  scan_read-IsOn total (c ∷ cs) later s d =
      let (s1, e1, d1) = scan_byte-IsOn total c (cs ++ later) s d in
      let (s2, e2, d2) = scan_read-IsOn total cs later s1 d1 in
      (s2, rw (scan_read, e1, e2) refl, d2)

  last_run_lem :
      (total : Bytes) (s : Strings)
      → IsOn total [] s
      → (s' : Strings) × (last_run w min_length s ≡ some s') × (s'.out ≡ total)
  unfolding last_run
  last_run_lem total s d =
      let ends : s.out ++ if_long min_length s.held ≡ total =
        rw (sym d.promise, append-nil s.held, append-nil (if_long min_length s.held)) refl in
      elim (Bool-cases (leb min_length (length s.held))) [
        | inl long ↦
            let some_held : ltb 0 (length s.held) ≡ true = ground (arith, leb→le _ _ long) in
            let enough : leb min_length s.contador ≡ true = rw d.count long in
            let (calls', done) = emit_lem s in
            (
              record s { out = s.out ++ s.held; calls = calls' },
              rw (last_run, some_held, enough, done) refl,
              rw long at ends,
            )
        | inr short ↦
            let few : leb min_length s.contador ≡ false = rw d.count short in
            (
              s,
              rw (last_run, few, and_no (ltb 0 (length s.held))) refl,
              rw (short, append-nil s.out) at ends,
            )
      ]

  strings_loop-IsOn :
      (total : Bytes) (chunks : List Bytes) (s : Strings)
      → EachLong min_length chunks
      → IsOn total (joined chunks) s
      → (s' : Strings) × (strings_loop isprint w min_length buf_size s chunks ≡ some s')
        × (s'.out ≡ total)
  unfolding strings_loop
  strings_loop-IsOn total [] s long d = last_run_lem total s d
  strings_loop-IsOn total (chunk ∷ chunks) s (long, each) d =
      let whole : leb (length chunk) min_length ≡ false = ground (arith, long) in
      let (s1, e1, d1) = scan_read-IsOn total chunk (joined chunks) s d in
      let (s2, e2, d2) = strings_loop-IsOn total chunks s1 each d1 in
      let some_bytes : length chunk == 0 ≡ false = ne→== _ _ (omega (arith, long)) in
      (s2, rw (strings_loop, whole, e1, some_bytes, e2) refl, d2)

  -- With a positive `min_length` and where each call of `write` writes all that it is asked to: if
  -- every read brings more than `min_length` bytes and no run of printable bytes, newlines and tabs
  -- of the input is longer than the buffer, the program ends without a store behind the buffer, and
  -- its output is the runs of at least `min_length` bytes, in order, whatever the cuts of the reads.
  pub strings_loop_lem :
      (chunks : List Bytes)
      → EachLong min_length chunks
      → EachFits buf_size (let (first, rest) = runs isprint (joined chunks) in first ∷ rest)
      → (s : Strings) × (strings_loop isprint w min_length buf_size start chunks ≡ some s)
        × (s.out
            ≡ long_ones min_length
                (let (first, rest) = runs isprint (joined chunks) in first ∷ rest))
  strings_loop_lem chunks long fits =
      strings_loop-IsOn _ chunks start long record { count = refl; promise = refl; fits = fits }
