-- ===== src/Xv6/Shell.antt =====
-- The parser of the shell, xv6/sh.c. A position in the line is the list of the bytes from there to
-- its end, and a word of a command is kept as its bytes, which `nulterminate` makes a string of.
pub mod Lexer
pub mod Show
pub mod Redirs
pub mod Args
pub mod Levels
pub mod RoundTrip
pub mod Shorter
pub mod Ends
mod Tests
use asopracticas.Common.{
  ℕ, zero, suc, ◌+◌, ◌*◌, Bool, true, false, ◌||◌, ◌&&◌, not, List, [], ◌∷◌, ◌++◌, length, ◌==◌,
  ltb, leb, if◌then◌else◌,
}

-- The commands that the parser makes.
pub data Cmd : Type 0 where
  exec : List (List ℕ) → Cmd
  redir : Cmd → List ℕ → ℕ → ℕ → Cmd
  pipe : Cmd → Cmd → Cmd
  list : Cmd → Cmd → Cmd
  back : Cmd → Cmd

-- MAXARGS
abbrev pub maxargs : ℕ
maxargs = 10

-- A result, a panic, or that the fuel ran out.
pub data Parsed {ℓ} (A : Type ℓ) : Type ℓ where
  ok : A → Parsed A
  panics : Parsed A
  no_fuel : Parsed A

infixl 5 ◌>>=◌
abbrev pub ◌>>=◌ {ℓ κ} : {A : Type ℓ} {B : Type κ} → Parsed A → (A → Parsed B) → Parsed B
ok a >>= f = f a
panics >>= f = panics
no_fuel >>= f = no_fuel

-- `strchr`
abbrev pub is_in : ℕ → List ℕ → Bool
is_in c [] = false
is_in c (d ∷ ds) = c == d || is_in c ds

-- " \t\r\n\v"
abbrev pub whitespace : List ℕ
whitespace = 32 ∷ 9 ∷ 13 ∷ 10 ∷ 11 ∷ []

-- "<|>&;()"
abbrev pub symbols : List ℕ
symbols = 60 ∷ 124 ∷ 62 ∷ 38 ∷ 59 ∷ 40 ∷ 41 ∷ []

-- `while(s < es && strchr(whitespace, *s)) s++;`
pub skip : List ℕ → List ℕ
skip [] = []
skip (c ∷ cs) = let rest = skip cs in if is_in c whitespace then rest else c ∷ cs

-- The bytes of a word, and what is behind them.
pub span_word : List ℕ → List ℕ × List ℕ
span_word [] = ([], [])
span_word (c ∷ cs) =
    let (w, r) = span_word cs in
    if is_in c whitespace || is_in c symbols then ([], c ∷ cs) else (c ∷ w, r)

-- The token, its bytes if it is a word, and the rest.
pub record Token : Type 0 where
  pub kind : ℕ
  pub text : List ℕ
  pub rest : List ℕ

abbrev pub is_next : ℕ → List ℕ → Bool
is_next c [] = false
is_next c (d ∷ ds) = d == c

abbrev pub behind : List ℕ → List ℕ
behind [] = []
behind (c ∷ cs) = cs

pub gettoken : List ℕ → Token
gettoken s = elim (skip s) [
  | [] ↦ record { kind = 0; text = []; rest = [] }
  | c ∷ cs ↦
      if c == 62
      then (if is_next 62 cs
          then record { kind = 43; text = []; rest = skip (behind cs) }
          else record { kind = 62; text = []; rest = skip cs })
      else if is_in c symbols
      then record { kind = c; text = []; rest = skip cs }
      else (let (w, r) = span_word (c ∷ cs) in record { kind = 97; text = w; rest = skip r })
]

abbrev pub starts : List ℕ → List ℕ → Bool
starts toks [] = false
starts toks (c ∷ cs) = is_in c toks

-- Whether a byte of `toks` comes next. It also moves `*ps` behind whitespace: the callers do so too.
pub peek : List ℕ → List ℕ → Bool
peek toks s = starts toks (skip s)

-- O_RDONLY, or O_WRONLY|O_CREATE.
abbrev pub mode_of : ℕ → ℕ
mode_of tok = if tok == 60 then 0 else 513

abbrev pub fd_of : ℕ → ℕ
fd_of tok = if tok == 60 then 0 else 1

pub parseredirs : ℕ → Cmd → List ℕ → Parsed (Cmd × List ℕ)
parseredirs zero cmd s = no_fuel
parseredirs (suc fuel) cmd s =
    let tok = gettoken (skip s) in
    let file = gettoken tok.rest in
    let more =
      parseredirs fuel (redir cmd file.text (mode_of tok.kind) (fd_of tok.kind)) file.rest in
    let round = if file.kind == 97 then more else panics in
    if peek (60 ∷ 62 ∷ []) s then round else ok (cmd, skip s)

-- A word more for the command that `cmd` of `parseexec` points to, within the redirections.
pub add_arg : List ℕ → Cmd → Cmd
add_arg w (exec ws) = exec (ws ++ w ∷ [])
add_arg w (redir c file mode fd) = redir (add_arg w c) file mode fd
add_arg w (pipe l r) = pipe l r
add_arg w (list l r) = list l r
add_arg w (back c) = back c

-- The loop of `parseexec`.
pub parseargs : ℕ → ℕ → Cmd → List ℕ → Parsed (Cmd × List ℕ)
parseargs zero argc ret s = no_fuel
parseargs (suc fuel) argc ret s =
    let tok = gettoken (skip s) in
    let round = (do
      (ret', s') ← parseredirs fuel (add_arg tok.text ret) tok.rest
      parseargs fuel (argc + 1) ret' s') in
    if peek (124 ∷ 41 ∷ 38 ∷ 59 ∷ []) s
    then ok (ret, skip s)
    else if tok.kind == 0
    then ok (ret, tok.rest)
    else if not (tok.kind == 97)
    then panics
    else if leb maxargs (argc + 1)
    then panics
    else round

-- The loop of `parseline` over "&".
pub parsebacks : ℕ → Cmd → List ℕ → Parsed (Cmd × List ℕ)
parsebacks zero cmd s = no_fuel
parsebacks (suc fuel) cmd s =
    let more = parsebacks fuel (back cmd) (gettoken (skip s)).rest in
    if peek (38 ∷ []) s then more else ok (cmd, skip s)

mutual
  pub parseline : ℕ → List ℕ → Parsed (Cmd × List ℕ)
  parseline zero s = no_fuel
  parseline (suc fuel) s = do
    (cmd, s1) ← parsepipe fuel s
    (cmd', s2) ← parsebacks fuel cmd s1
    let more = (do (right, s3) ← parseline fuel (gettoken (skip s2)).rest; ok (list cmd' right, s3))
    if peek (59 ∷ []) s2 then more else ok (cmd', skip s2)

  pub parsepipe : ℕ → List ℕ → Parsed (Cmd × List ℕ)
  parsepipe zero s = no_fuel
  parsepipe (suc fuel) s = do
    (cmd, s1) ← parseexec fuel s
    let more = (do (right, s2) ← parsepipe fuel (gettoken (skip s1)).rest; ok (pipe cmd right, s2))
    if peek (124 ∷ []) s1 then more else ok (cmd, skip s1)

  pub parseexec : ℕ → List ℕ → Parsed (Cmd × List ℕ)
  parseexec zero s = no_fuel
  parseexec (suc fuel) s =
      let plain = (do (ret, s1) ← parseredirs fuel (exec []) (skip s); parseargs fuel 0 ret s1) in
      let block = parseblock fuel (skip s) in if peek (40 ∷ []) s then block else plain

  pub parseblock : ℕ → List ℕ → Parsed (Cmd × List ℕ)
  parseblock zero s = no_fuel
  parseblock (suc fuel) s =
      let inner = (do
        (cmd, s1) ← parseline fuel (gettoken (skip s)).rest
        let tail = parseredirs fuel cmd (gettoken (skip s1)).rest
        if peek (41 ∷ []) s1 then tail else panics) in
      if peek (40 ∷ []) s then inner else panics

-- `fuel` bounds the depth of the calls.
pub parsecmd : ℕ → List ℕ → Parsed Cmd
parsecmd fuel s = do
  (cmd, rest) ← parseline fuel s
  elim (skip rest) [ [] ↦ ok cmd | c ∷ cs ↦ panics ]
