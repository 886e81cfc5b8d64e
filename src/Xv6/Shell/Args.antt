-- ===== src/Xv6/Shell/Args.antt =====
-- The loop of `parseexec` of xv6/sh.c.
use asopracticas.Common.{
  ℕ, zero, suc, ◌+◌, ◌-◌, ◌≤◌, ◌<◌, ◌≡◌, refl, sym, ◌∙◌, ap, true, false, List, [], ◌∷◌, ◌++◌,
  length, append-nil, append_assoc, leb, arith,
}
use asopracticas.Xv6.Shell.{
  Cmd, exec, Parsed, ok, ◌>>=◌, is_in, symbols, skip, gettoken, peek, starts, parseredirs,
  parseargs, add_arg, maxargs,
}
use asopracticas.Xv6.Shell.Show.{IsWord, AreWords, words_of}
use asopracticas.Xv6.Shell.Lexer.{
  ends, behind_exec, behind_word, skip_twice, skip-ends, skip_word, plain_parts, exec-word, cuts,
  word_token,
}
use asopracticas.Xv6.Shell.Redirs.{redirs_skip, redirs_stop, ends_cut}

-- A word starts with none of the symbols.
pub no_symbol :
    (w t toks : List ℕ)
    → IsWord w
    → ((c : ℕ) → is_in c symbols ≡ false → is_in c toks ≡ false)
    → starts toks (w ++ t) ≡ false
no_symbol [] t toks (some_byte, _) none_of = absurd (some_byte refl)
no_symbol (c ∷ cs) t toks (_, (plain, _)) none_of = none_of c (plain_parts c plain).1

-- The words from `ws` on and what follows them.
words_cut :
    (ws : List (List ℕ)) (t : List ℕ) → ends behind_word t ≡ true → cuts (words_of ws ++ t) ≡ true
words_cut [] t h = ends_cut t h
words_cut (w ∷ ws) t h = refl

-- The redirections in front of an argument, and the loop.
abbrev pub args_from : ℕ → ℕ → List (List ℕ) → List ℕ → Parsed (Cmd × List ℕ)
args_from f n us s = parseredirs f (exec us) s >>= λ (c, r). parseargs f n c r

pub args_round :
    (f n : ℕ) (us : List (List ℕ)) (w t s : List ℕ)
    → IsWord w
    → cuts t ≡ true
    → n + 1 < maxargs
    → skip s ≡ w ++ t
    → args_from (suc f) n us s ≡ args_from f (n + 1) (us ++ w ∷ []) (skip t)
unfolding parseargs peek add_arg
args_round f n us w t s word cut few at_w =
    let arrows = no_symbol w t (60 ∷ 62 ∷ []) word (λ c h. ground arith) in
    let stops = no_symbol w t behind_exec word (λ c h. ground arith) in
    let room : leb maxargs (n + 1) ≡ false = ground (arith, few) in
    let tok = word_token w t (w ++ t) word cut (skip_word w t word) in
    rw
      (
        redirs_stop f (exec us) s (ap (starts (60 ∷ 62 ∷ [])) at_w ∙ arrows),
        at_w,
        parseargs,
        peek,
        skip_word w t word,
        stops,
        tok,
        room,
      )
      refl

-- A number of words at the front, taken one by one.
pub args_lem :
    (ws us : List (List ℕ)) (f n : ℕ) (t s : List ℕ)
    → AreWords ws
    → ends behind_word t ≡ true
    → n + length ws < maxargs
    → length ws ≤ f
    → skip s ≡ skip (words_of ws ++ t)
    → args_from f n us s ≡ args_from (f - length ws) (n + length ws) (us ++ ws) t
unfolding skip
args_lem [] us f n t s words h few fuel same =
    ap (λ r. r >>= λ (c, r'). parseargs f n c r') (redirs_skip f (exec us) s t same)
    ∙ ap (λ vs. args_from f n vs t) (sym (append-nil us))
    ∙ ap (λ g. args_from g n (us ++ []) t) (omega arith)
    ∙ ap (λ k. args_from (f - 0) k (us ++ []) t) (omega arith)
args_lem (w ∷ ws) us zero n t s (word, words) h few fuel same = absurd (omega arith)
args_lem (w ∷ ws) us (suc f) n t s (word, words) h few fuel same =
    let k = length ws in
    let at_w : skip s ≡ w ++ (words_of ws ++ t) =
      same ∙ ap skip (append_assoc w (words_of ws) t) ∙ skip_word w (words_of ws ++ t) word in
    let rest = words_of ws ++ t in
    args_round f n us w rest s word (words_cut ws t h) (omega arith) at_w
    ∙ args_lem ws (us ++ w ∷ []) f (n + 1) t (skip rest) words h (omega arith) (omega arith)
        (skip_twice rest)
    ∙ ap (λ vs. args_from (f - k) (n + 1 + k) vs t) (append_assoc us (w ∷ []) ws)
    ∙ ap (λ g. args_from g (n + 1 + k) (us ++ w ∷ ws) t) (omega arith)
    ∙ ap (λ m. args_from (suc f - suc k) m (us ++ w ∷ ws) t) (omega arith)

-- The loop ends at what ends a command.
pub args_end :
    (f n : ℕ) (c : Cmd) (t : List ℕ)
    → 1 ≤ f
    → ends behind_exec t ≡ true
    → parseargs f n c t ≡ ok (c, t)
unfolding parseargs peek gettoken skip
args_end zero n c t some_fuel h = absurd (omega arith)
args_end (suc f) n c [] some_fuel h = refl
args_end (suc f) n c (d ∷ ds) some_fuel h =
    let same = skip-ends (d ∷ ds) (exec-word (d ∷ ds) h) in rw (parseargs, peek, same, h) refl
