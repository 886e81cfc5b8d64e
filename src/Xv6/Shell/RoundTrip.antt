-- ===== src/Xv6/Shell/RoundTrip.antt =====
-- `parsecmd` of xv6/sh.c reads back the text of a command.
use asopracticas.Common.{
  ℕ, zero, suc, ◌+◌, ◌-◌, ◌≤◌, ◌<◌, ◌≡◌, refl, sym, ◌∙◌, ap, inl, inr, true, false, List, [], ◌∷◌,
  ◌++◌, length, append-nil, append_assoc, ◌==◌, Bool-cases, arith,
}
use asopracticas.Xv6.Shell.{
  Cmd, exec, redir, pipe, list, back, ok, ◌>>=◌, is_in, skip, peek, starts, parseredirs, parseargs,
  parsepipe, parseexec, parsecmd, maxargs,
}
use asopracticas.Xv6.Shell.Show.{
  whole, jobs, pipes, atom, line_of, words_of, IsWord, AreWords, IsPrintable, Fits, arrow,
}
use asopracticas.Xv6.Shell.Lexer.{
  ends, behind_word, pipe-exec, exec-word, skip_twice, skip-ends, skip_word, symbol_token,
}
use asopracticas.Xv6.Shell.Redirs.{redirs_round}
use asopracticas.Xv6.Shell.Args.{args_lem, args_end, no_symbol}
use asopracticas.Xv6.Shell.Levels.{
  line_tail, line_parts, Atom, Pipes, Jobs, Whole, finish_atom, backs_end, backs_round, atom-pipes,
  pipes-jobs, jobs-whole, whole-atom,
}

-- No "(" in front of words.
no_paren :
    (ws : List (List ℕ)) (t : List ℕ)
    → AreWords ws
    → ends behind_word t ≡ true
    → peek (40 ∷ []) (words_of ws ++ t) ≡ false
unfolding peek skip
no_paren [] [] words h = refl
no_paren [] (c ∷ cs) words h = ap (starts (40 ∷ [])) (skip-ends (c ∷ cs) h) ∙ no_paren_end c h
  where
    no_paren_end : (c : ℕ) → is_in c behind_word ≡ true → is_in c (40 ∷ []) ≡ false
    no_paren_end c h = ground arith
no_paren (w ∷ ws) t (word, words) h =
    let rest = words_of ws ++ t in
    ap (λ x. starts (40 ∷ []) (skip x)) (append_assoc w (words_of ws) t)
    ∙ ap (starts (40 ∷ [])) (skip_word w rest word)
    ∙ no_symbol w rest (40 ∷ []) word (λ c h. ground arith)

exec-Atom : (ws : List (List ℕ)) → AreWords ws → length ws < maxargs → Atom 12 (exec ws)
unfolding parseexec peek
exec-Atom ws words few h zero s t fuel over same = absurd (omega arith)
exec-Atom ws words few h (suc f) s t fuel over same =
    let plain : peek (40 ∷ []) s ≡ false = ap (starts (40 ∷ [])) same ∙ no_paren ws t words over in
    record {
      fuel = f - length ws;
      then_ = λ (c, r). parseargs (f - length ws) (length ws) c r;
      enough = omega arith;
      same =
          rw (parseexec, plain)
            (args_lem ws [] f 0 t (skip s) words over (omega arith) (omega arith)
                (skip_twice s ∙ same)
              ∙ ap
                  (λ k. parseredirs (f - length ws) (exec ws) t >>= λ (c, r).
                    parseargs (f - length ws) k c r)
                  (omega arith));
      stops = λ c' t' over'. args_end (f - length ws) (length ws) c' t' (omega arith) over';
    }

arrow-ends : (mode : ℕ) (t : List ℕ) → ends behind_word (arrow mode ∷ t) ≡ true
arrow-ends mode t = elim (Bool-cases (mode == 0)) [
  | inl reads ↦ rw (reads) refl
  | inr writes ↦ rw (writes) refl
]

redir_turn :
    (g : ℕ) (c : Cmd) (w : List ℕ) (mode fd : ℕ) (t : List ℕ)
    → IsWord w
    → Fits mode fd
    → 1 ≤ g
    → ends behind_word t ≡ true
    → parseredirs g c (arrow mode ∷ (w ++ t)) ≡ parseredirs (g - 1) (redir c w mode fd) t
redir_turn zero c w mode fd t word fits some_fuel over = absurd (omega arith)
redir_turn (suc g) c w mode fd t word fits some_fuel over =
    redirs_round g c w mode fd t (arrow mode ∷ (w ++ t)) word fits over
      (skip-ends (arrow mode ∷ (w ++ t)) (arrow-ends mode (w ++ t)))
    ∙ ap (λ k. parseredirs k (redir c w mode fd) t) (omega arith)

redir-Atom :
    (n : ℕ) (c : Cmd) (w : List ℕ) (mode fd : ℕ)
    → IsWord w
    → Fits mode fd
    → Atom n c
    → Atom (n + 1) (redir c w mode fd)
redir-Atom n c w mode fd word fits at_atom h f s t fuel over same =
    let there = arrow mode ∷ (w ++ t) in
    let text : skip s ≡ skip (line_of atom c ++ there) =
      same ∙ ap skip (append_assoc (line_of atom c) (arrow mode ∷ w) t) in
    let fin = at_atom (h + 1) f s there (omega arith) (arrow-ends mode (w ++ t)) text in
    record {
      fuel = fin.fuel - 1;
      then_ = fin.then_;
      enough = omega (arith, fin.enough);
      same =
          fin.same
          ∙ ap (λ x. x >>= fin.then_)
              (redir_turn fin.fuel c w mode fd t word fits (omega (arith, fin.enough)) over);
      stops = fin.stops;
    }

pipe-Pipes : (n k : ℕ) (c d : Cmd) → n ≤ k → Atom n c → Pipes k d → Pipes (k + 2) (pipe c d)
unfolding parsepipe peek skip
pipe-Pipes n k c d le at_atom at_pipes zero s t fuel over same = absurd (omega arith)
pipe-Pipes n k c d le at_atom at_pipes (suc f) s t fuel over same =
    let rest = line_of pipes d ++ t in
    let text : skip s ≡ skip (line_of atom c ++ 124 ∷ rest) =
      same ∙ ap skip (append_assoc (line_of atom c) (124 ∷ line_of pipes d) t) in
    let left =
      finish_atom 1 c (124 ∷ rest) (parseexec f s) (omega arith) refl
        (at_atom 1 f s (124 ∷ rest) (omega arith) refl text) in
    let bar = symbol_token 124 rest (124 ∷ rest) refl refl refl in
    let right = at_pipes f (skip rest) t (omega arith) over (skip_twice rest) in
    rw (parsepipe, left, peek, bar, right) refl

back-Jobs : (n : ℕ) (c : Cmd) → Jobs n c → Jobs (n + 1) (back c)
back-Jobs n c at_jobs h f s t fuel over same =
    let text : skip s ≡ skip (line_of jobs c ++ 38 ∷ t) =
      same ∙ ap skip (append_assoc (line_of jobs c) (38 ∷ []) t) in
    let (g, enough, e) = at_jobs (h + 1) f s (38 ∷ t) (omega arith) refl text in
    (g - 1, omega arith, e ∙ backs_round g c t (omega arith) (exec-word t (pipe-exec t over)))

list-Whole : (n k : ℕ) (c d : Cmd) → n ≤ k → Jobs n c → Whole k d → Whole (k + 2) (list c d)
unfolding line_tail peek skip
list-Whole n k c d le at_jobs at_whole zero s t fuel over same = absurd (omega arith)
list-Whole n k c d le at_jobs at_whole (suc f) s t fuel over same =
    let rest = line_of whole d ++ t in
    let text : skip s ≡ skip (line_of jobs c ++ 59 ∷ rest) =
      same ∙ ap skip (append_assoc (line_of jobs c) (59 ∷ line_of whole d) t) in
    let (g, enough, e) = at_jobs 1 f s (59 ∷ rest) (omega arith) refl text in
    let left = backs_end g c (59 ∷ rest) enough refl refl in
    let semi = symbol_token 59 rest (59 ∷ rest) refl refl refl in
    let right = at_whole f (skip rest) t (omega arith) over (skip_twice rest) in
    line_parts f s ∙ ap (λ x. x >>= line_tail f) (e ∙ left) ∙ rw (line_tail, peek, semi, right) refl

-- The levels at once.
record AllLevels (n : ℕ) (c : Cmd) : Type 0 where
  at_atom : Atom n c
  at_pipes : Pipes n c
  at_jobs : Jobs n c
  at_whole : Whole n c

gather :
    (a p j w k : ℕ) (c : Cmd)
    → (a ≤ k) × (p ≤ k) × (j ≤ k) × (w ≤ k)
    → Atom a c
    → Pipes p c
    → Jobs j c
    → Whole w c
    → AllLevels k c
gather a p j w k c (le_a, le_p, le_j, le_w) in_atom in_pipes in_jobs in_whole = record {
  at_atom = λ h f s t fuel. in_atom h f s t (omega arith);
  at_pipes = λ f s t fuel. in_pipes f s t (omega arith);
  at_jobs = λ h f s t fuel. in_jobs h f s t (omega arith);
  at_whole = λ f s t fuel. in_whole f s t (omega arith);
}

-- Rounds of fuel that the text of a command takes.
abbrev pub rounds : Cmd → ℕ
rounds (exec ws) = 18
rounds (redir c w mode fd) = rounds c + 8
rounds (pipe c d) = rounds c + rounds d + 8
rounds (list c d) = rounds c + rounds d + 8
rounds (back c) = rounds c + 8

from_Atom :
    (n : ℕ) (c : Cmd)
    → line_of pipes c ≡ line_of atom c
    → line_of jobs c ≡ line_of pipes c
    → line_of whole c ≡ line_of jobs c
    → Atom n c
    → AllLevels (n + 6) c
from_Atom n c pa jp wj a =
    let p = atom-pipes n c pa a in
    let j = pipes-jobs (n + 2) c jp p in
    gather n (n + 2) (n + 2) (n + 2 + 2) (n + 6) c
      (omega arith, omega arith, omega arith, omega arith) a p j (jobs-whole (n + 2) c wj j)

from_Pipes : (n : ℕ) (c d : Cmd) → Atom n c → Pipes n d → AllLevels (n + 8) (pipe c d)
from_Pipes n c d left right =
    let p = pipe-Pipes n n c d (omega arith) left right in
    let j = pipes-jobs (n + 2) (pipe c d) refl p in
    let w = jobs-whole (n + 2) (pipe c d) refl j in
    gather (n + 2 + 2 + 2) (n + 2) (n + 2) (n + 2 + 2) (n + 8) (pipe c d)
      (omega arith, omega arith, omega arith, omega arith)
      (whole-atom (n + 2 + 2) (pipe c d) refl w) p j w

from_Jobs : (n : ℕ) (c : Cmd) → Jobs n c → AllLevels (n + 8) (back c)
from_Jobs n c inner =
    let j = back-Jobs n c inner in
    let w = jobs-whole (n + 1) (back c) refl j in
    let a = whole-atom (n + 1 + 2) (back c) refl w in
    gather (n + 1 + 2 + 2) (n + 1 + 2 + 2 + 2) (n + 1) (n + 1 + 2) (n + 8) (back c)
      (omega arith, omega arith, omega arith, omega arith) a
      (atom-pipes (n + 1 + 2 + 2) (back c) refl a) j w

from_Whole : (n : ℕ) (c d : Cmd) → Jobs n c → Whole n d → AllLevels (n + 8) (list c d)
from_Whole n c d left right =
    let w = list-Whole n n c d (omega arith) left right in
    let a = whole-atom (n + 2) (list c d) refl w in
    let p = atom-pipes (n + 2 + 2) (list c d) refl a in
    gather (n + 2 + 2) (n + 2 + 2 + 2) (n + 2 + 2 + 2) (n + 2) (n + 8) (list c d)
      (omega arith, omega arith, omega arith, omega arith) a p
      (pipes-jobs (n + 2 + 2 + 2) (list c d) refl p) w

weaken : (n k : ℕ) (c : Cmd) → n ≤ k → AllLevels n c → AllLevels k c
weaken n k c le l = gather n n n n k c (le, le, le, le) l.at_atom l.at_pipes l.at_jobs l.at_whole

all_levels : (c : Cmd) → IsPrintable c → AllLevels (rounds c) c
all_levels (exec ws) (words, few) = from_Atom 12 (exec ws) refl refl refl (exec-Atom ws words few)
all_levels (redir c w mode fd) (inner, word, fits) =
    weaken (rounds c + 1 + 6) (rounds c + 8) (redir c w mode fd) (omega arith) (
      from_Atom (rounds c + 1) (redir c w mode fd) refl refl refl
        (redir-Atom (rounds c) c w mode fd word fits (all_levels c inner).at_atom))
all_levels (pipe c d) (left, right) =
    let n = rounds c + rounds d in
    let l = weaken (rounds c) n c (omega arith) (all_levels c left) in
    let r = weaken (rounds d) n d (omega arith) (all_levels d right) in
    from_Pipes n c d l.at_atom r.at_pipes
all_levels (list c d) (left, right) =
    let n = rounds c + rounds d in
    let l = weaken (rounds c) n c (omega arith) (all_levels c left) in
    let r = weaken (rounds d) n d (omega arith) (all_levels d right) in
    from_Whole n c d l.at_jobs r.at_whole
all_levels (back c) inner = from_Jobs (rounds c) c (all_levels c inner).at_jobs

-- `parsecmd` reads back what `line_of` writes: for a command whose words are not empty and hold no
-- whitespace and no symbol of the shell, with fewer than MAXARGS words to a command and redirections
-- of input for reading or of output for writing, and fuel for `rounds c` calls one within the other,
-- the parser ends with `c` itself.
pub parsecmd-line_of :
    (c : Cmd) (fuel : ℕ) → IsPrintable c → rounds c ≤ fuel → parsecmd fuel (line_of whole c) ≡ ok c
unfolding parsecmd skip
parsecmd-line_of c fuel good enough =
    let text : skip (line_of whole c) ≡ skip (line_of whole c ++ []) =
      ap skip (sym (append-nil (line_of whole c))) in
    rw (parsecmd, (all_levels c good).at_whole fuel (line_of whole c) [] enough refl text) refl
