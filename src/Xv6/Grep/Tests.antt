-- ===== src/Xv6/Grep/Tests.antt =====
-- The theorems on grep at concrete patterns, and runs of the matcher.
use asopracticas.Common.{◌≡◌, ◌↔◌, refl, true, false, inl, inr, List, [], ◌∷◌, arith}
use asopracticas.Xv6.Grep.{
  Bytes, match, match_here, match_star, match_last, match_byte, match_from, find_line, scan, kept,
  grep_loop,
}
use asopracticas.Xv6.Grep.Match.{Matches, match_iff}
use asopracticas.Xv6.Grep.Lines.{matching_lines, grep-matching_lines, grep-loses}

-- a*b$ and ^.b
abbrev stars : Bytes
stars = b'a' ∷ b'*' ∷ b'b' ∷ b'$' ∷ []

abbrev dot_b : Bytes
dot_b = b'^' ∷ b'.' ∷ b'b' ∷ []

stars_matched : match stars (b'x' ∷ b'a' ∷ b'a' ∷ b'b' ∷ []) ≡ true
unfolding match match_from match_here match_star match_byte match_last
stars_matched = refl

stars_refused : match stars (b'a' ∷ b'b' ∷ b'x' ∷ []) ≡ false
unfolding match match_from match_here match_star match_byte match_last
stars_refused = refl

dot_match : match dot_b (b'a' ∷ b'b' ∷ b'c' ∷ []) ≡ true
unfolding match match_from match_here match_star match_byte match_last
dot_match = refl

match_iff_example : (match stars (b'x' ∷ b'b' ∷ []) ≡ true) ↔ Matches stars (b'x' ∷ b'b' ∷ [])
match_iff_example = match_iff stars (b'x' ∷ b'b' ∷ [])

-- "b\na" and "b\n" are read in turn.
abbrev reads : List Bytes
reads = (b'b' ∷ b'\n' ∷ b'a' ∷ []) ∷ (b'b' ∷ b'\n' ∷ []) ∷ []

reads_run : grep_loop stars [] reads ≡ b'b' ∷ b'\n' ∷ b'a' ∷ b'b' ∷ b'\n' ∷ []
unfolding grep_loop scan find_line kept match match_from match_here match_star match_byte match_last
reads_run = refl

grep-matching_lines_example :
    grep_loop stars [] reads ≡ matching_lines stars [] (b'b' ∷ b'\n' ∷ b'a' ∷ b'b' ∷ b'\n' ∷ [])
grep-matching_lines_example =
    grep-matching_lines stars reads (omega arith, inr (inl refl), (omega arith, inr (inl refl), tt))

-- "b" alone is read before "\n".
grep-loses_example :
    grep_loop stars [] ((b'b' ∷ []) ∷ (b'\n' ∷ []) ∷ []) ≡ grep_loop stars [] ((b'\n' ∷ []) ∷ [])
grep-loses_example =
    grep-loses stars [] (b'b' ∷ []) ((b'\n' ∷ []) ∷ []) (omega arith) (omega arith, tt)
      (omega arith, tt)
