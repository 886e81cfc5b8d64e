-- ===== src/Xv6/Grep/Lines.antt =====
-- The line loop of xv6/grep.c: what it prints, and what it loses.
use asopracticas.Common.{
  ℕ, zero, suc, ◌≤◌, ◌<◌, ◌≡◌, ◌≢◌, refl, sym, ◌∙◌, ap, false, inl, inr, ◌⊎◌, Option, none, some,
  List, [], ◌∷◌, ◌++◌, ◌==◌, Bool-cases, ne→==, ==→ne, if◌then◌else◌, arith, append-nil,
  append_assoc, length,
}
use mathlib.Core.Option
use asopracticas.Xv6.Grep.{Bytes, find_line, show, scan, kept, grep_loop}

-- The input's lines, each with its newline, that match; what follows the last newline is no line.
pub matching_lines : Bytes → Bytes → Bytes → Bytes
matching_lines pattern line [] = []
matching_lines pattern line (c ∷ cs) =
    if c == b'\n'
    then show pattern line ++ matching_lines pattern [] cs
    else matching_lines pattern (line ++ c ∷ []) cs

abbrev pub HasNoNul : Bytes → Type 0
HasNoNul [] = Unit
HasNoNul (c ∷ cs) = (c ≢ 0) × HasNoNul cs

-- The bytes behind the last newline.
pub tail_line : Bytes → Bytes → Bytes
tail_line line [] = line
tail_line line (c ∷ cs) = if c == b'\n' then tail_line [] cs else tail_line (line ++ c ∷ []) cs

-- What the search for a newline means for the lines of `line ++ cs`.
abbrev FirstLine : Bytes → Bytes → Bytes → Option (Bytes × Bytes) → Type 0
FirstLine pattern line cs none =
    (matching_lines pattern line cs ≡ []) × (tail_line line cs ≡ line ++ cs)
FirstLine pattern line cs (some (first, rest)) =
    (matching_lines pattern line cs
      ≡ show pattern (line ++ first) ++ matching_lines pattern [] rest)
    × (tail_line line cs ≡ tail_line [] rest)
    × (length rest < length cs)
    × HasNoNul rest

FirstLine-cons :
    (pattern line cs : Bytes) (c : ℕ) (found : Option (Bytes × Bytes))
    → (c == b'\n') ≡ false
    → FirstLine pattern (line ++ c ∷ []) cs found
    → FirstLine pattern line (c ∷ cs) (Option.map (λ (first, rest). (c ∷ first, rest)) found)
unfolding matching_lines tail_line
FirstLine-cons pattern line cs c none other (no_lines, tail) =
    (rw other no_lines, rw other (tail ∙ append_assoc line (c ∷ []) cs))
FirstLine-cons pattern line cs c (some (first, rest)) other (lines, tail, shorter, nul_free) = (
  rw other (
      lines
      ∙ ap (λ l. show pattern l ++ matching_lines pattern [] rest)
          (append_assoc line (c ∷ []) first)),
  rw other tail,
  omega arith,
  nul_free,
)

find_line_lem : (pattern line cs : Bytes) → HasNoNul cs → FirstLine pattern line cs (find_line cs)
unfolding find_line matching_lines tail_line
find_line_lem pattern line [] h = (refl, sym (append-nil line))
find_line_lem pattern line (c ∷ cs) h =
    let ih = find_line_lem pattern (line ++ c ∷ []) cs h.1 in
    rw (ne→== c 0 h.0) (elim (Bool-cases (c == b'\n')) [
      | inl newline ↦ rw newline (rw (newline, append-nil) refl, rw newline refl, omega arith, h.1)
      | inr other ↦ rw other (FirstLine-cons pattern line cs c (find_line cs) other ih)
    ])

scan_lem :
    (fuel : ℕ) (pattern p : Bytes)
    → length p ≤ fuel
    → HasNoNul p
    → scan fuel pattern p ≡ (matching_lines pattern [] p, tail_line [] p)
unfolding scan matching_lines tail_line
scan_lem zero pattern [] h nul_free = refl
scan_lem zero pattern (c ∷ cs) h nul_free = absurd (omega arith)
scan_lem (suc fuel) pattern p h nul_free =
    go (find_line p) refl (find_line_lem pattern [] p nul_free) (scan_lem fuel pattern)
  where
    go :
        (found : Option (Bytes × Bytes))
        → find_line p ≡ found
        → FirstLine pattern [] p found
        → ((q : Bytes)
            → length q ≤ fuel
            → HasNoNul q
            → scan fuel pattern q ≡ (matching_lines pattern [] q, tail_line [] q))
        → scan (suc fuel) pattern p ≡ (matching_lines pattern [] p, tail_line [] p)
    go none e (no_lines, tail) ih = rw (e, scan) (rw (no_lines, tail) refl)
    go (some (first, rest)) e (lines, tail, shorter, free) ih =
        rw (e, scan) (rw (lines, tail, ih rest (omega arith) free) refl)

-- A buffer of `grep_loop` and what it keeps.
abbrev HasNewline : Bytes → Type 0
HasNewline [] = ⊥
HasNewline (c ∷ cs) = (c ≡ b'\n') ⊎ HasNewline cs

find_line-HasNewline : (cs : Bytes) → HasNoNul cs → HasNewline cs → find_line cs ≢ none
unfolding find_line
find_line-HasNewline [] h n = absurd n
find_line-HasNewline (c ∷ cs) h (inl e) = λ f. ground (arith, h.0)
find_line-HasNewline (c ∷ cs) h (inr n) = λ f. ground (arith, h.0, find_line-HasNewline cs h.1 n)

find_line-none : (cs : Bytes) → (HasNewline cs → ⊥) → find_line cs ≡ none
unfolding find_line
find_line-none [] h = refl
find_line-none (c ∷ cs) h =
    let ih = find_line-none cs (λ n. h (inr n)) in
    rw (ne→== c b'\n' (λ e. h (inl e)), ih) (ground arith)

HasNoNul-append : (xs ys : Bytes) → HasNoNul xs → HasNoNul ys → HasNoNul (xs ++ ys)
HasNoNul-append [] ys hx hy = hy
HasNoNul-append (x ∷ xs) ys hx hy = (hx.0, HasNoNul-append xs ys hx.1 hy)

HasNewline-append : (xs ys : Bytes) → HasNewline ys → HasNewline (xs ++ ys)
HasNewline-append [] ys h = h
HasNewline-append (x ∷ xs) ys h = inr (HasNewline-append xs ys h)

tail_line-HasNoNul : (line cs : Bytes) → HasNoNul line → HasNoNul cs → HasNoNul (tail_line line cs)
unfolding tail_line
tail_line-HasNoNul line [] hl hc = hl
tail_line-HasNoNul line (c ∷ cs) hl hc = elim (Bool-cases (c == b'\n')) [
  | inl newline ↦ rw newline (tail_line-HasNoNul [] cs tt hc.1)
  | inr other ↦
      rw other
        (tail_line-HasNoNul (line ++ c ∷ []) cs (HasNoNul-append line (c ∷ []) hl (hc.0, tt)) hc.1)
]

-- Lines may be cut at any place: what the first part ends with is put before the rest.
matching_lines-append :
    (pattern line xs ys : Bytes)
    → matching_lines pattern line (xs ++ ys)
      ≡ matching_lines pattern line xs ++ matching_lines pattern (tail_line line xs) ys
unfolding matching_lines tail_line
matching_lines-append pattern line [] ys = refl
matching_lines-append pattern line (c ∷ xs) ys = elim (Bool-cases (c == b'\n')) [
  | inl newline ↦
      rw newline
        (rw (matching_lines-append pattern [] xs ys) (sym (append_assoc (show pattern line) _ _)))
  | inr other ↦ rw other (matching_lines-append pattern (line ++ c ∷ []) xs ys)
]

abbrev pub EachHasNewline : List Bytes → Type 0
EachHasNewline [] = Unit
EachHasNewline (chunk ∷ chunks) = HasNoNul chunk × HasNewline chunk × EachHasNewline chunks

abbrev pub flat : List Bytes → Bytes
flat [] = []
flat (chunk ∷ chunks) = chunk ++ flat chunks

abbrev pub HasNoNewline : Bytes → Type 0
HasNoNewline [] = Unit
HasNoNewline (c ∷ cs) = (c ≢ b'\n') × HasNoNewline cs

HasNoNewline-append : (xs ys : Bytes) → HasNoNewline xs → HasNoNewline ys → HasNoNewline (xs ++ ys)
HasNoNewline-append [] ys hx hy = hy
HasNoNewline-append (x ∷ xs) ys hx hy = (hx.0, HasNoNewline-append xs ys hx.1 hy)

tail_line-HasNoNewline : (line cs : Bytes) → HasNoNewline line → HasNoNewline (tail_line line cs)
unfolding tail_line
tail_line-HasNoNewline line [] h = h
tail_line-HasNoNewline line (c ∷ cs) h = elim (Bool-cases (c == b'\n')) [
  | inl newline ↦ rw newline (tail_line-HasNoNewline [] cs tt)
  | inr other ↦ rw other (
      tail_line-HasNoNewline (line ++ c ∷ []) cs
        (HasNoNewline-append line (c ∷ []) h (==→ne c b'\n' other, tt)))
]

-- Bytes held over from the last read are the start of the next line.
matching_lines_held :
    (pattern line held ys : Bytes)
    → HasNoNewline held
    → matching_lines pattern line (held ++ ys) ≡ matching_lines pattern (line ++ held) ys
unfolding matching_lines
matching_lines_held pattern line [] ys h = rw append-nil refl
matching_lines_held pattern line (c ∷ held) ys h = rw (ne→== c b'\n' h.0) (
    matching_lines_held pattern (line ++ c ∷ []) held ys h.1
    ∙ ap (λ l. matching_lines pattern l ys) (append_assoc line (c ∷ []) held))

kept_some : (found : Option (Bytes × Bytes)) (left : Bytes) → found ≢ none → kept found left ≡ left
unfolding kept
kept_some none left h = absurd (h refl)
kept_some (some _) left h = refl

HasNewline-length : (cs : Bytes) → HasNewline cs → length cs ≢ 0
HasNewline-length [] n = absurd n
HasNewline-length (c ∷ cs) n = λ e. absurd (omega arith)

grep_loop_lem :
    (pattern held : Bytes) (chunks : List Bytes)
    → HasNoNul held
    → HasNoNewline held
    → EachHasNewline chunks
    → grep_loop pattern held chunks ≡ matching_lines pattern held (flat chunks)
unfolding grep_loop matching_lines
grep_loop_lem pattern held [] hn hl each = refl
grep_loop_lem pattern held (chunk ∷ chunks) hn hl (no_nul, newline, each) =
    let buf = held ++ chunk in
    let free = HasNoNul-append held chunk hn no_nul in
    let more =
      kept_some (find_line buf) (tail_line [] buf)
        (find_line-HasNewline buf free (HasNewline-append held chunk newline)) in
    let ih =
      grep_loop_lem pattern (tail_line [] buf) chunks (tail_line-HasNoNul [] buf tt free)
        (tail_line-HasNoNewline [] buf tt) each in
    let some_bytes = HasNewline-length chunk newline in
    rw (ne→== _ _ some_bytes, scan_lem (length buf) pattern buf (omega arith) free, more, ih)
      (sym (matching_lines-append pattern [] buf (flat chunks))
        ∙ ap (matching_lines pattern []) (append_assoc held chunk (flat chunks))
        ∙ matching_lines_held pattern [] held (chunk ++ flat chunks) hl)

-- While every read returns a newline and no NUL, `grep` prints the matching lines of the whole
-- input, however the reads cut it; what follows the last newline is not printed.
pub grep-matching_lines :
    (pattern : Bytes) (chunks : List Bytes)
    → EachHasNewline chunks
    → grep_loop pattern [] chunks ≡ matching_lines pattern [] (flat chunks)
grep-matching_lines pattern chunks each = grep_loop_lem pattern [] chunks tt tt each

none_shown : (pattern cs : Bytes) → HasNoNewline cs → matching_lines pattern [] cs ≡ []
unfolding matching_lines
none_shown pattern cs h = let e = matching_lines_held pattern [] cs [] h in rw (append-nil cs) at e

-- A read of at least one byte that leaves neither a newline nor a NUL in the buffer loses what the
-- buffer holds: the rest of the run is as if those bytes had never come.
pub grep-loses :
    (pattern held chunk : Bytes) (chunks : List Bytes)
    → 0 < length chunk
    → HasNoNul (held ++ chunk)
    → HasNoNewline (held ++ chunk)
    → grep_loop pattern held (chunk ∷ chunks) ≡ grep_loop pattern [] chunks
unfolding grep_loop kept
grep-loses pattern held chunk chunks some_bytes free no_newline =
    let buf = held ++ chunk in
    rw
      (
        ne→== (length chunk) 0 (omega (arith, some_bytes)),
        scan_lem (length buf) pattern buf (omega arith) free,
        find_line-none buf (absent buf no_newline),
        none_shown pattern buf no_newline,
      )
      refl
  where
    absent : (cs : Bytes) → HasNoNewline cs → HasNewline cs → ⊥
    absent [] h n = n
    absent (c ∷ cs) h (inl e) = h.0 e
    absent (c ∷ cs) h (inr n) = absent cs h.1 n
