-- ===== src/Xv6/Shell/Redirs.antt =====
-- `parseredirs` of xv6/sh.c.
use asopracticas.Common.{
  ℕ, zero, suc, ◌≤◌, ◌≡◌, refl, ◌∙◌, ap, ◌⊎◌, inl, inr, true, false, List, [], ◌∷◌, ◌++◌, ◌==◌,
  Bool-cases, arith,
}
use asopracticas.Xv6.Shell.{
  Cmd, redir, Parsed, ok, panics, no_fuel, ◌>>=◌, is_in, skip, peek, starts, parseredirs, mode_of,
  fd_of,
}
use asopracticas.Xv6.Shell.Show.{IsWord, arrow, Fits}
use asopracticas.Xv6.Shell.Lexer.{
  ends, behind_exec, behind_word, skip-ends, skip_word, exec-word, cuts, word_token, arrow_token,
}

pub bind_ok {ℓ} : {A : Type ℓ} (r : Parsed A) → r >>= ok ≡ r
bind_ok (ok a) = refl
bind_ok panics = refl
bind_ok no_fuel = refl

pub bind_assoc {ℓ κ μ} :
    {A : Type ℓ} {B : Type κ} {C : Type μ} (r : Parsed A) (f : A → Parsed B) (g : B → Parsed C)
    → r >>= f >>= g ≡ r >>= (λ a. f a >>= g)
bind_assoc (ok a) f g = refl
bind_assoc panics f g = refl
bind_assoc no_fuel f g = refl

-- Only what is behind the whitespace counts.
pub redirs_skip :
    (f : ℕ) (c : Cmd) (s t : List ℕ) → skip s ≡ skip t → parseredirs f c s ≡ parseredirs f c t
unfolding parseredirs peek
redirs_skip zero c s t same = refl
redirs_skip (suc f) c s t same = rw (parseredirs, peek, same) refl

pub redirs_stop :
    (f : ℕ) (c : Cmd) (s : List ℕ)
    → peek (60 ∷ 62 ∷ []) s ≡ false
    → parseredirs (suc f) c s ≡ ok (c, skip s)
unfolding parseredirs
redirs_stop f c s none_there = rw (parseredirs, none_there) refl

-- What ends a command starts no redirection.
no_arrow : (t : List ℕ) → ends behind_exec t ≡ true → starts (60 ∷ 62 ∷ []) t ≡ false
no_arrow [] h = refl
no_arrow (c ∷ cs) h = ground arith

pub redirs_end :
    (f : ℕ) (c : Cmd) (t : List ℕ)
    → 1 ≤ f
    → ends behind_exec t ≡ true
    → parseredirs f c t ≡ ok (c, t)
unfolding peek
redirs_end zero c t some_fuel h = absurd (omega arith)
redirs_end (suc f) c t some_fuel h =
    let same = skip-ends t (exec-word t h) in
    redirs_stop f c t (ap (starts (60 ∷ 62 ∷ [])) same ∙ no_arrow t h) ∙ ap (λ x. ok (c, x)) same

-- What follows a word ends it.
pub ends_cut : (t : List ℕ) → ends behind_word t ≡ true → cuts t ≡ true
ends_cut [] h = refl
ends_cut (c ∷ cs) h = ground arith

Fits-mode : (mode fd : ℕ) → Fits mode fd → (mode ≡ 0) ⊎ (mode ≡ 513)
Fits-mode mode fd (inl (reads, _)) = inl reads
Fits-mode mode fd (inr (writes, _)) = inr writes

arrow_lem : (mode fd : ℕ) → Fits mode fd → (mode_of (arrow mode) ≡ mode) × (fd_of (arrow mode) ≡ fd)
arrow_lem mode fd (inl (reads, input)) = (rw (reads) refl, rw (reads, input) refl)
arrow_lem mode fd (inr (writes, output)) = (rw (writes) refl, rw (writes, output) refl)

arrow_there : (mode : ℕ) → is_in (arrow mode) (60 ∷ 62 ∷ []) ≡ true
arrow_there mode = elim (Bool-cases (mode == 0)) [
  | inl reads ↦ rw (reads) refl
  | inr writes ↦ rw (writes) refl
]

-- One turn of the loop.
pub redirs_round :
    (f : ℕ) (c : Cmd) (w : List ℕ) (mode fd : ℕ) (t s : List ℕ)
    → IsWord w
    → Fits mode fd
    → ends behind_word t ≡ true
    → skip s ≡ arrow mode ∷ (w ++ t)
    → parseredirs (suc f) c s ≡ parseredirs f (redir c w mode fd) t
unfolding parseredirs peek
redirs_round f c w mode fd t s word fits h at_arrow =
    let (same_mode, same_fd) = arrow_lem mode fd fits in
    let there : starts (60 ∷ 62 ∷ []) (skip s) ≡ true =
      ap (starts (60 ∷ 62 ∷ [])) at_arrow ∙ arrow_there mode in
    let first = arrow_token mode w t s word (Fits-mode mode fd fits) at_arrow in
    let here = skip_word w t word in
    let file = word_token w t (w ++ t) word (ends_cut t h) here in
    let past = skip-ends t h in
    rw (parseredirs, peek, there, first, here, file, same_mode, same_fd, past) refl
