-- ===== src/Xv6/Shell/Tests.antt =====
-- The parser of xv6/sh.c on small lines.
use asopracticas.Common.{ℕ, ◌≡◌, ◌≢◌, ◌||◌, false, refl, List, [], ◌∷◌, inr, arith}
use asopracticas.Xv6.Shell.{
  is_in, whitespace, symbols, Cmd, exec, redir, pipe, list, back, ok, panics, no_fuel, parsecmd,
  parseline, parseredirs, parseargs, parsebacks, gettoken, peek, skip, span_word, add_arg,
}
use asopracticas.Xv6.Shell.Show.{whole, line_of, IsWord, AreWords}
use asopracticas.Xv6.Shell.Ends.{parsecmd_total}
use asopracticas.Xv6.Shell.RoundTrip.{parsecmd-line_of}

-- " ls -l>f| wc; (a; b)&", with the spaces that `line_of` writes.
abbrev some_command : Cmd
some_command =
    list
      (pipe (redir (exec ((108 ∷ 115 ∷ []) ∷ (45 ∷ 108 ∷ []) ∷ [])) (102 ∷ []) 513 1)
        (exec ((119 ∷ 99 ∷ []) ∷ [])))
      (back (list (exec ((97 ∷ []) ∷ [])) (exec ((98 ∷ []) ∷ []))))

some_command_text :
    line_of whole some_command
    ≡ 32 ∷ 108 ∷ 115 ∷ 32 ∷ 45 ∷ 108 ∷ 62 ∷ 102 ∷ 124 ∷ 32 ∷ 119 ∷ 99 ∷ 59 ∷ 40 ∷ 32 ∷ 97 ∷ 59 ∷ 32
      ∷ 98 ∷ 41 ∷ 38 ∷ []
some_command_text = refl

word : (c : ℕ) (cs : List ℕ) → c ∷ cs ≢ []
word c cs e = cc

one_letter : (c : ℕ) → is_in c whitespace || is_in c symbols ≡ false → IsWord (c ∷ [])
one_letter c plain = (word c [], (plain, tt))

two_letters :
    (c d : ℕ)
    → is_in c whitespace || is_in c symbols ≡ false
    → is_in d whitespace || is_in d symbols ≡ false
    → IsWord (c ∷ d ∷ [])
two_letters c d plain plain' = (word c (d ∷ []), (plain, (plain', tt)))

ls : AreWords ((108 ∷ 115 ∷ []) ∷ (45 ∷ 108 ∷ []) ∷ [])
ls = (two_letters 108 115 refl refl, (two_letters 45 108 refl refl, tt))

parsecmd-line_of_example : parsecmd 120 (line_of whole some_command) ≡ ok some_command
parsecmd-line_of_example =
    parsecmd-line_of some_command 120
      (
        (
          ((ls, omega arith), one_letter 102 refl, inr (refl, refl)),
          ((two_letters 119 99 refl refl, tt), omega arith),
        ),
        (((one_letter 97 refl, tt), omega arith), ((one_letter 98 refl, tt), omega arith)),
      )
      (omega arith)

-- "a>>b" is read as "a>b".
append_as_write :
    parsecmd 30 (97 ∷ 62 ∷ 62 ∷ 98 ∷ []) ≡ ok (redir (exec ((97 ∷ []) ∷ [])) (98 ∷ []) 513 1)
unfolding parsecmd parseline parseredirs parseargs parsebacks gettoken peek skip span_word add_arg
append_as_write = refl

-- "(a" and "a)".
open_block : parsecmd 30 (40 ∷ 97 ∷ []) ≡ panics
unfolding parsecmd parseline parseredirs parseargs parsebacks gettoken peek skip span_word add_arg
open_block = refl

leftovers : parsecmd 30 (97 ∷ 41 ∷ []) ≡ panics
unfolding parsecmd parseline parseredirs parseargs parsebacks gettoken peek skip span_word add_arg
leftovers = refl

-- "((a" with fuel for its three bytes.
parsecmd_total_example : parsecmd 16 (40 ∷ 40 ∷ 97 ∷ []) ≢ no_fuel
parsecmd_total_example = parsecmd_total 16 (40 ∷ 40 ∷ 97 ∷ []) (omega arith)
