-- ===== src/Xv6/Grep/Match.antt =====
-- The matcher of xv6/grep.c against the meaning of its patterns.
use mathlib.Core.Bool.{false≢true}
use asopracticas.Common.{
  ℕ, ◌≡◌, ◌≢◌, ◌↔◌, refl, sym, ◌∙◌, ap, Bool, true, inl, inr, [], ◌∷◌, ◌++◌, ◌==◌, Bool-cases,
  if◌then◌else◌, arith, ==→eq, ==→ne, ne→==,
}
use asopracticas.Xv6.Grep.{
  Bytes, accepts, match_star, match_last, match_byte, match_here, match_from, match,
}

-- The pattern matches a prefix of the text. A byte before `*` may be taken any number of times, a
-- final `$` matches the end only, and any other byte matches itself, `.` any byte.
pub data Here : Bytes → Bytes → Type 0 where
  empty : {text : Bytes} → Here [] text
  skip : {c d : ℕ} {re text : Bytes} → d ≡ b'*' → Here re text → Here (c ∷ d ∷ re) text
  more :
      {c d t : ℕ} {re ts : Bytes}
      → d ≡ b'*'
      → accepts c t ≡ true
      → Here (c ∷ d ∷ re) ts
      → Here (c ∷ d ∷ re) (t ∷ ts)
  at_end : {c : ℕ} → c ≡ b'$' → Here (c ∷ []) []
  last : {c t : ℕ} {ts : Bytes} → c ≢ b'$' → accepts c t ≡ true → Here (c ∷ []) (t ∷ ts)
  byte :
      {c d t : ℕ} {re ts : Bytes}
      → d ≢ b'*'
      → accepts c t ≡ true
      → Here (d ∷ re) ts
      → Here (c ∷ d ∷ re) (t ∷ ts)

star_sound :
    (re : Bytes) (here : Bytes → Bool) (c d : ℕ) (text : Bytes)
    → d ≡ b'*'
    → ((s : Bytes) → here s ≡ true → Here re s)
    → match_star here c text ≡ true
    → Here (c ∷ d ∷ re) text
unfolding match_star
star_sound re here c d [] e sound h = skip e (sound [] h)
star_sound re here c d (t ∷ ts) e sound h = elim (Bool-cases (here (t ∷ ts))) [
  | inl now ↦ skip e (sound (t ∷ ts) now)
  | inr later ↦ more e (ground arith) (star_sound re here c d ts e sound (ground arith))
]

pub match_here_sound : (re text : Bytes) → match_here re text ≡ true → Here re text
unfolding match_here match_last match_byte
match_here_sound [] text h = empty
match_here_sound (c ∷ []) [] h = at_end (ground arith)
match_here_sound (c ∷ []) (t ∷ ts) h = last (ground arith) (ground arith)
match_here_sound (c ∷ d ∷ re) text h = elim (Bool-cases (d == b'*')) [
  | inl star ↦
      star_sound re (match_here re) c d text (==→eq d b'*' star) (match_here_sound re)
        (rw star at h)
  | inr plain ↦ byte_sound text (==→ne d b'*' plain) (match_here_sound (d ∷ re)) (rw plain at h)
]
  where
    byte_sound :
        (text : Bytes)
        → d ≢ b'*'
        → ((s : Bytes) → match_here (d ∷ re) s ≡ true → Here (d ∷ re) s)
        → match_byte (match_here (d ∷ re)) c text ≡ true
        → Here (c ∷ d ∷ re) text
    byte_sound [] ne sound h = absurd (false≢true h)
    byte_sound (t ∷ ts) ne sound h = byte ne (ground arith) (sound ts (ground arith))

star_now :
    (here : Bytes → Bool) (c : ℕ) (text : Bytes) → here text ≡ true → match_star here c text ≡ true
unfolding match_star
star_now here c [] h = h
star_now here c (t ∷ ts) h = rw h refl

star_later :
    (here : Bytes → Bool) (c t : ℕ) (ts : Bytes)
    → accepts c t ≡ true
    → match_star here c ts ≡ true
    → match_star here c (t ∷ ts) ≡ true
unfolding match_star
star_later here c t ts a h = ground arith

at_star :
    (c d : ℕ) (re text : Bytes)
    → d ≡ b'*'
    → match_here (c ∷ d ∷ re) text ≡ match_star (match_here re) c text
unfolding match_here
at_star c d re text e = rw e refl

pub match_here_complete : {re text : Bytes} → Here re text → match_here re text ≡ true
unfolding match_here match_last match_byte
match_here_complete empty = refl
match_here_complete (skip {c} {d} {re} {text} e h) =
    at_star c d re text e ∙ star_now (match_here re) c text (match_here_complete h)
match_here_complete (more {c} {d} {t} {re} {ts} e a h) =
    at_star c d re (t ∷ ts) e
    ∙ star_later (match_here re) c t ts a (sym (at_star c d re ts e) ∙ match_here_complete h)
match_here_complete (at_end e) = ground arith
match_here_complete (last ne a) = ground arith
match_here_complete (byte ne a h) = ground (arith, match_here_complete h)

-- `matchhere` decides whether the pattern matches a prefix of the text.
pub match_here_iff : (re text : Bytes) → (match_here re text ≡ true) ↔ Here re text
match_here_iff re text = (match_here_sound re text, match_here_complete)

-- The pattern matches somewhere in the text; behind a leading `^`, at its start.
pub data Matches : Bytes → Bytes → Type 0 where
  anchored : {c : ℕ} {re text : Bytes} → c ≡ b'^' → Here re text → Matches (c ∷ re) text
  empty_pattern : {text : Bytes} → Matches [] text
  within :
      {c : ℕ} {re text : Bytes} (before after : Bytes)
      → c ≢ b'^'
      → text ≡ before ++ after
      → Here (c ∷ re) after
      → Matches (c ∷ re) text

match_from_sound :
    (re text : Bytes)
    → match_from re text ≡ true
    → (before : Bytes) × (after : Bytes) × (text ≡ before ++ after) × Here re after
unfolding match_from
match_from_sound re [] h = ([], [], refl, match_here_sound re [] h)
match_from_sound re (t ∷ ts) h = elim (Bool-cases (match_here re (t ∷ ts))) [
  | inl now ↦ ([], t ∷ ts, refl, match_here_sound re (t ∷ ts) now)
  | inr later ↦
      let (before, after, e, m) = match_from_sound re ts (rw later at h) in
      (t ∷ before, after, ap (λ l. t ∷ l) e, m)
]

match_from_complete :
    (re before after : Bytes) → Here re after → match_from re (before ++ after) ≡ true
unfolding match_from
match_from_complete re [] [] m = match_here_complete m
match_from_complete re [] (t ∷ ts) m = rw (match_here_complete m) refl
match_from_complete re (b ∷ bs) after m = elim (Bool-cases (match_here re (b ∷ bs ++ after))) [
  | inl now ↦ rw now refl
  | inr later ↦ rw later (match_from_complete re bs after m)
]

-- `match` of grep.c answers 1 exactly for the texts that the pattern matches.
pub match_iff : (re text : Bytes) → (match re text ≡ true) ↔ Matches re text
unfolding match
match_iff [] text = (λ h. empty_pattern, λ m. at_once text)
  where
    at_once : (text : Bytes) → match_from [] text ≡ true
    at_once text = match_from_complete [] [] text empty
match_iff (c ∷ re) text = (sound, complete)
  where
    sound :
        (if c == b'^' then match_here re text else match_from (c ∷ re) text) ≡ true
        → Matches (c ∷ re) text
    sound h = elim (Bool-cases (c == b'^')) [
      | inl anchor ↦ anchored (==→eq c b'^' anchor) (match_here_sound re text (rw anchor at h))
      | inr free ↦
          let (before, after, e, m) = match_from_sound (c ∷ re) text (rw free at h) in
          within before after (==→ne c b'^' free) e m
    ]

    complete :
        Matches (c ∷ re) text
        → (if c == b'^' then match_here re text else match_from (c ∷ re) text) ≡ true
    complete (anchored e m) = rw (e) (match_here_complete m)
    complete (within before after ne e m) =
        rw (ne→== c b'^' ne, e) (match_from_complete (c ∷ re) before after m)
