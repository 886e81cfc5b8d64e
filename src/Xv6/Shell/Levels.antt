-- ===== src/Xv6/Shell/Levels.antt =====
-- From one level of the grammar of xv6/sh.c to the next.
use asopracticas.Common.{
  ℕ, zero, suc, ◌+◌, ◌-◌, ◌≤◌, ◌≡◌, refl, sym, ◌∙◌, ap, true, false, List, [], ◌∷◌, ◌++◌,
  append_assoc, if◌then◌else◌, arith,
}
use asopracticas.Xv6.Shell.{
  Cmd, list, back, Parsed, ok, ◌>>=◌, skip, gettoken, peek, starts, parseredirs, parsebacks,
  parseline, parsepipe, parseexec,
}
use asopracticas.Xv6.Shell.Show.{whole, jobs, pipes, atom, line_of}
use asopracticas.Xv6.Shell.Lexer.{
  ends, behind_line, behind_pipe, behind_exec, behind_word, line-pipe, pipe-exec, exec-word,
  skip_twice, skip-ends, symbol_token,
}
use asopracticas.Xv6.Shell.Redirs.{bind_ok, bind_assoc, redirs_end}

-- The redirections behind `c`, and then a step that stops where a command ends.
pub record Finishes (h : ℕ) (c : Cmd) (t : List ℕ) (r : Parsed (Cmd × List ℕ)) : Type 0 where
  pub fuel : ℕ
  pub then_ : Cmd × List ℕ → Parsed (Cmd × List ℕ)
  pub enough : h ≤ fuel
  pub same : r ≡ (parseredirs fuel c t >>= then_)
  pub stops : (c' : Cmd) (t' : List ℕ) → ends behind_exec t' ≡ true → then_ (c', t') ≡ ok (c', t')

-- `&` behind the first pipe of a line.
abbrev pub line_head : ℕ → List ℕ → Parsed (Cmd × List ℕ)
line_head f s = parsepipe f s >>= λ (c, r). parsebacks f c r

-- What the text of `c` is parsed to at each level, with `n` rounds of fuel and `h` to be left.
abbrev pub Atom : ℕ → Cmd → Type 0
Atom n c =
    (h f : ℕ) (s t : List ℕ)
    → h + n ≤ f
    → ends behind_word t ≡ true
    → skip s ≡ skip (line_of atom c ++ t)
    → Finishes h c t (parseexec f s)

abbrev pub Pipes : ℕ → Cmd → Type 0
Pipes n c =
    (f : ℕ) (s t : List ℕ)
    → n ≤ f
    → ends behind_pipe t ≡ true
    → skip s ≡ skip (line_of pipes c ++ t)
    → parsepipe f s ≡ ok (c, t)

abbrev pub Jobs : ℕ → Cmd → Type 0
Jobs n c =
    (h f : ℕ) (s t : List ℕ)
    → h + n ≤ f
    → ends behind_pipe t ≡ true
    → skip s ≡ skip (line_of jobs c ++ t)
    → (g : ℕ) × (h ≤ g) × (line_head f s ≡ parsebacks g c t)

abbrev pub Whole : ℕ → Cmd → Type 0
Whole n c =
    (f : ℕ) (s t : List ℕ)
    → n ≤ f
    → ends behind_line t ≡ true
    → skip s ≡ skip (line_of whole c ++ t)
    → parseline f s ≡ ok (c, t)

pub finish_atom :
    (h : ℕ) (c : Cmd) (t : List ℕ) (r : Parsed (Cmd × List ℕ))
    → 1 ≤ h
    → ends behind_exec t ≡ true
    → Finishes h c t r
    → r ≡ ok (c, t)
finish_atom h c t r some_fuel over fin =
    fin.same
    ∙ ap (λ x. x >>= fin.then_) (redirs_end fin.fuel c t (omega (arith, fin.enough)) over)
    ∙ fin.stops c t over

-- No "|" behind a pipe, and no "&" or ";" behind a line.
no_bar : (t : List ℕ) → ends behind_pipe t ≡ true → starts (124 ∷ []) t ≡ false
no_bar [] h = refl
no_bar (c ∷ cs) h = ground arith

no_more :
    (t : List ℕ)
    → ends behind_line t ≡ true
    → (starts (38 ∷ []) t ≡ false) × (starts (59 ∷ []) t ≡ false)
no_more [] h = (refl, refl)
no_more (c ∷ cs) h = (ground arith, ground arith)

pub backs_end :
    (g : ℕ) (c : Cmd) (t : List ℕ)
    → 1 ≤ g
    → ends behind_word t ≡ true
    → starts (38 ∷ []) t ≡ false
    → parsebacks g c t ≡ ok (c, t)
unfolding parsebacks peek
backs_end zero c t some_fuel over none_there = absurd (omega arith)
backs_end (suc g) c t some_fuel over none_there =
    rw (parsebacks, peek, skip-ends t over, none_there) refl

pub backs_round :
    (g : ℕ) (c : Cmd) (t : List ℕ)
    → 1 ≤ g
    → ends behind_word t ≡ true
    → parsebacks g c (38 ∷ t) ≡ parsebacks (g - 1) (back c) t
unfolding parsebacks peek skip
backs_round zero c t some_fuel over = absurd (omega arith)
backs_round (suc g) c t some_fuel over =
    rw (parsebacks, peek, symbol_token 38 t (38 ∷ t) refl refl refl, skip-ends t over)
      (ap (λ k. parsebacks k (back c) t) (omega arith))

pub atom-pipes : (n : ℕ) (c : Cmd) → line_of pipes c ≡ line_of atom c → Atom n c → Pipes (n + 2) c
unfolding parsepipe peek
atom-pipes n c alike at_atom zero s t fuel over same = absurd (omega arith)
atom-pipes n c alike at_atom (suc f) s t fuel over same =
    let over' = pipe-exec t over in
    let e =
      finish_atom 1 c t (parseexec f s) (omega arith) over' (
        at_atom 1 f s t (omega arith) (exec-word t over') (same ∙ ap (λ x. skip (x ++ t)) alike)) in
    rw (parsepipe, e, peek, skip-ends t (exec-word t over'), no_bar t over) refl

pub pipes-jobs : (n : ℕ) (c : Cmd) → line_of jobs c ≡ line_of pipes c → Pipes n c → Jobs n c
pipes-jobs n c alike at_pipes h f s t fuel over same = (
  f,
  omega arith,
  ap (λ x. x >>= λ (c', r). parsebacks f c' r)
      (at_pipes f s t (omega arith) over (same ∙ ap (λ x. skip (x ++ t)) alike)),
)

-- `parseline` behind its "&".
unfoldable pub line_tail : ℕ → Cmd × List ℕ → Parsed (Cmd × List ℕ)
line_tail f (c, s2) =
    let more = (do (right, s3) ← parseline f (gettoken (skip s2)).rest; ok (list c right, s3)) in
    if peek (59 ∷ []) s2 then more else ok (c, skip s2)

pub line_parts : (f : ℕ) (s : List ℕ) → parseline (suc f) s ≡ (line_head f s >>= line_tail f)
unfolding parseline line_tail
line_parts f s = sym (bind_assoc (parsepipe f s) (λ (c, r). parsebacks f c r) (line_tail f))

pub jobs-whole : (n : ℕ) (c : Cmd) → line_of whole c ≡ line_of jobs c → Jobs n c → Whole (n + 2) c
unfolding line_tail peek
jobs-whole n c alike at_jobs zero s t fuel over same = absurd (omega arith)
jobs-whole n c alike at_jobs (suc f) s t fuel over same =
    let over' = line-pipe t over in
    let ended = exec-word t (pipe-exec t over') in
    let (g, enough, e) =
      at_jobs 1 f s t (omega arith) over' (same ∙ ap (λ x. skip (x ++ t)) alike) in
    let stop = backs_end g c t enough ended (no_more t over).0 in
    line_parts f s
    ∙ ap (λ x. x >>= line_tail f) (e ∙ stop)
    ∙ rw (line_tail, peek, skip-ends t ended, (no_more t over).1) refl

pub whole-atom :
    (n : ℕ) (c : Cmd)
    → line_of atom c ≡ 40 ∷ (line_of whole c ++ 41 ∷ [])
    → Whole n c
    → Atom (n + 2) c
unfolding parseexec peek skip
whole-atom n c alike at_whole h zero s t fuel over same = absurd (omega arith)
whole-atom n c alike at_whole h (suc zero) s t fuel over same = absurd (omega arith)
whole-atom n c alike at_whole h (suc (suc f)) s t fuel over same =
    let inner = line_of whole c ++ 41 ∷ t in
    let opens : skip s ≡ 40 ∷ inner =
      same
      ∙ ap (λ x. skip (x ++ t)) alike
      ∙ ap (λ x. 40 ∷ x) (append_assoc (line_of whole c) (41 ∷ []) t) in
    let line = at_whole f (skip inner) (41 ∷ t) (omega arith) refl (skip_twice inner) in
    let opened = symbol_token 40 inner (40 ∷ inner) refl refl refl in
    let closed = symbol_token 41 t (41 ∷ t) refl refl refl in
    let past = skip-ends t over in
    record {
      fuel = f;
      then_ = ok;
      enough = omega arith;
      same =
          rw (parseexec, peek, skip_twice s, opens, opened, line, closed, past)
            (sym (bind_ok (parseredirs f c t)));
      stops = λ c' t' _. refl;
    }
