-- ===== src/Xv6/Shell/Ends.antt =====
-- The parser of xv6/sh.c comes to an end on every line.
use asopracticas.Common.{
  ℕ, zero, suc, ◌+◌, ◌*◌, ◌≤◌, ◌<◌, ◌≡◌, ◌≢◌, refl, subst, ==→ne, Bool, true, false, not, List, [],
  ◌∷◌, length, ◌==◌, leb, if◌then◌else◌, arith,
}
use asopracticas.Xv6.Shell.{
  Cmd, exec, back, Parsed, ok, panics, no_fuel, ◌>>=◌, maxargs, skip, gettoken, peek, add_arg,
  parseredirs, parseargs, parsebacks, parseline, parsepipe, parseexec, parseblock, parsecmd,
}
use asopracticas.Xv6.Shell.Shorter.{skip_shorter, peek_shorter, kind_shorter, rest_shorter}

-- The fuel has been enough, and what is left of the line is no longer than `s`.
abbrev Returns : List ℕ → Parsed (Cmd × List ℕ) → Type 0
Returns s (ok (c, t)) = length t ≤ length s
Returns s panics = Unit
Returns s no_fuel = ⊥

Returns-bind :
    (s s' : List ℕ) (r : Parsed (Cmd × List ℕ)) (k : Cmd × List ℕ → Parsed (Cmd × List ℕ))
    → Returns s' r
    → ((c : Cmd) (t : List ℕ) → length t ≤ length s' → Returns s (k (c, t)))
    → Returns s (r >>= k)
Returns-bind s s' (ok (c, t)) k h on = on c t h
Returns-bind s s' panics k h on = tt
Returns-bind s s' no_fuel k h on = absurd h

Returns-longer :
    (s s' : List ℕ) (r : Parsed (Cmd × List ℕ)) → length s' ≤ length s → Returns s' r → Returns s r
Returns-longer s s' (ok (c, t)) longer h = omega arith
Returns-longer s s' panics longer h = tt
Returns-longer s s' no_fuel longer h = h

Returns-if :
    (s : List ℕ) (b : Bool) (r r' : Parsed (Cmd × List ℕ))
    → (b ≡ true → Returns s r)
    → (b ≡ false → Returns s r')
    → Returns s (if b then r else r')
Returns-if s true r r' on off = on refl
Returns-if s false r r' on off = off refl

parseredirs-Returns : (f : ℕ) (c : Cmd) (s : List ℕ) → length s < f → Returns s (parseredirs f c s)
unfolding parseredirs
parseredirs-Returns zero c s enough = absurd (omega arith)
parseredirs-Returns (suc f) c s enough =
    let tok = gettoken (skip s) in
    let file = gettoken tok.rest in
    Returns-if s (peek (60 ∷ 62 ∷ []) s) _ _
      (λ there.
        let less = peek_shorter (60 ∷ 62 ∷ []) s there in
        let less' = rest_shorter tok.rest in
        Returns-if s (file.kind == 97) _ _
          (λ _.
            Returns-longer s file.rest _ (omega arith)
              (parseredirs-Returns f _ file.rest (omega arith)))
          (λ _. tt))
      (λ _. skip_shorter s)

parsebacks-Returns : (f : ℕ) (c : Cmd) (s : List ℕ) → length s < f → Returns s (parsebacks f c s)
unfolding parsebacks
parsebacks-Returns zero c s enough = absurd (omega arith)
parsebacks-Returns (suc f) c s enough =
    let tok = gettoken (skip s) in
    Returns-if s (peek (38 ∷ []) s) _ _
      (λ there.
        let less = peek_shorter (38 ∷ []) s there in
        Returns-longer s tok.rest _ (omega arith)
          (parsebacks-Returns f (back c) tok.rest (omega arith)))
      (λ _. skip_shorter s)

parseargs-Returns : (f n : ℕ) (c : Cmd) (s : List ℕ) → length s < f → Returns s (parseargs f n c s)
unfolding parseargs
parseargs-Returns zero n c s enough = absurd (omega arith)
parseargs-Returns (suc f) n c s enough =
    let tok = gettoken (skip s) in
    Returns-if s (peek (124 ∷ 41 ∷ 38 ∷ 59 ∷ []) s) _ _ (λ _. skip_shorter s)
      (λ _.
        Returns-if s (tok.kind == 0) _ _ (λ _. omega (arith, rest_shorter (skip s), skip_shorter s))
          (λ some_kind.
            let less = kind_shorter s (==→ne tok.kind 0 some_kind) in
            Returns-if s (not (tok.kind == 97)) _ _ (λ _. tt)
              (λ _.
                Returns-if s (leb maxargs (n + 1)) _ _ (λ _. tt)
                  (λ _.
                    Returns-bind s tok.rest (parseredirs f (add_arg tok.text c) tok.rest) _
                      (parseredirs-Returns f (add_arg tok.text c) tok.rest (omega arith))
                      (λ c' t shorter.
                        Returns-longer s t _ (omega arith)
                          (parseargs-Returns f (n + 1) c' t (omega arith)))))))

-- The four functions that call each other, with `f` rounds of fuel.
record AllReturn (f : ℕ) : Type 0 where
  line : (s : List ℕ) → 4 * length s + 4 ≤ f → Returns s (parseline f s)
  pipes : (s : List ℕ) → 4 * length s + 3 ≤ f → Returns s (parsepipe f s)
  execs : (s : List ℕ) → 4 * length s + 2 ≤ f → Returns s (parseexec f s)
  block : (s : List ℕ) → 4 * length s + 1 ≤ f → Returns s (parseblock f s)

line-Returns :
    (f : ℕ) (s : List ℕ) → AllReturn f → 4 * length s + 3 ≤ f → Returns s (parseline (suc f) s)
unfolding parseline
line-Returns f s all enough =
    Returns-bind s s (parsepipe f s) _ (all.pipes s enough) (λ c t shorter.
      Returns-bind s t (parsebacks f c t) _ (parsebacks-Returns f c t (omega arith))
        (λ c' t' shorter'.
          let tok = gettoken (skip t') in
          Returns-if s (peek (59 ∷ []) t') _ _
            (λ there.
              let less = peek_shorter (59 ∷ []) t' there in
              Returns-bind s tok.rest (parseline f tok.rest) _ (all.line tok.rest (omega arith))
                (λ d u last. omega arith))
            (λ _. omega (arith, skip_shorter t'))))

pipe-Returns :
    (f : ℕ) (s : List ℕ) → AllReturn f → 4 * length s + 2 ≤ f → Returns s (parsepipe (suc f) s)
unfolding parsepipe
pipe-Returns f s all enough =
    Returns-bind s s (parseexec f s) _ (all.execs s enough) (λ c t shorter.
      let tok = gettoken (skip t) in
      Returns-if s (peek (124 ∷ []) t) _ _
        (λ there.
          let less = peek_shorter (124 ∷ []) t there in
          Returns-bind s tok.rest (parsepipe f tok.rest) _ (all.pipes tok.rest (omega arith))
            (λ d u last. omega arith))
        (λ _. omega (arith, skip_shorter t)))

exec-Returns :
    (f : ℕ) (s : List ℕ) → AllReturn f → 4 * length s + 1 ≤ f → Returns s (parseexec (suc f) s)
unfolding parseexec
exec-Returns f s all enough =
    let skipped = skip_shorter s in
    Returns-if s (peek (40 ∷ []) s) _ _
      (λ _. Returns-longer s (skip s) _ skipped (all.block (skip s) (omega arith)))
      (λ _.
        Returns-bind s (skip s) (parseredirs f (exec []) (skip s)) _
          (parseredirs-Returns f (exec []) (skip s) (omega arith))
          (λ c t shorter.
            Returns-longer s t _ (omega arith) (parseargs-Returns f 0 c t (omega arith))))

block-Returns :
    (f : ℕ) (s : List ℕ) → AllReturn f → 4 * length s ≤ f → Returns s (parseblock (suc f) s)
unfolding parseblock
block-Returns f s all enough =
    let tok = gettoken (skip s) in
    Returns-if s (peek (40 ∷ []) s) _ _
      (λ there.
        let less = peek_shorter (40 ∷ []) s there in
        Returns-bind s tok.rest (parseline f tok.rest) _ (all.line tok.rest (omega arith))
          (λ c t shorter.
            let close = gettoken (skip t) in
            Returns-if s (peek (41 ∷ []) t) _ _
              (λ there'.
                let less' = peek_shorter (41 ∷ []) t there' in
                Returns-longer s close.rest _ (omega arith)
                  (parseredirs-Returns f c close.rest (omega arith)))
              (λ _. tt)))
      (λ _. tt)

all_return : (f : ℕ) → AllReturn f
all_return zero = record {
  line = λ s enough. absurd (omega arith);
  pipes = λ s enough. absurd (omega arith);
  execs = λ s enough. absurd (omega arith);
  block = λ s enough. absurd (omega arith);
}
all_return (suc f) =
    let all = all_return f in
    record {
      line = λ s enough. line-Returns f s all (omega arith);
      pipes = λ s enough. pipe-Returns f s all (omega arith);
      execs = λ s enough. exec-Returns f s all (omega arith);
      block = λ s enough. block-Returns f s all (omega arith);
    }

-- The fuel has been enough.
abbrev HasEnded : Parsed Cmd → Type 0
HasEnded no_fuel = ⊥
HasEnded _ = Unit

last_step : Cmd × List ℕ → Parsed Cmd
last_step (c, t) = elim (skip t) [ [] ↦ ok c | d ∷ ds ↦ panics ]

last_step-HasEnded :
    (s : List ℕ) (r : Parsed (Cmd × List ℕ)) → Returns s r → HasEnded (r >>= last_step)
unfolding last_step
last_step-HasEnded s (ok (c, t)) h = from (skip t)
  where
    from : (u : List ℕ) → HasEnded (elim u [ [] ↦ ok c | d ∷ ds ↦ panics ])
    from [] = tt
    from (d ∷ ds) = tt
last_step-HasEnded s panics h = tt
last_step-HasEnded s no_fuel h = h

-- `parsecmd` ends on every line, with a command or a panic: fuel for four calls for each byte of the
-- line and four more does not run out.
pub parsecmd_total : (fuel : ℕ) (s : List ℕ) → 4 * length s + 4 ≤ fuel → parsecmd fuel s ≢ no_fuel
unfolding parsecmd last_step
parsecmd_total fuel s enough e =
    subst HasEnded e (last_step-HasEnded s (parseline fuel s) ((all_return fuel).line s enough))
