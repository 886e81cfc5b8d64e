-- ===== src/Xv6/Shell/Show.antt =====
-- Commands of xv6/sh.c as text.
use asopracticas.Common.{
  ℕ, ◌<◌, ◌≡◌, ◌≢◌, ◌⊎◌, Bool, true, false, ◌||◌, List, [], ◌∷◌, ◌++◌, length, ◌==◌, if◌then◌else◌,
}
use asopracticas.Xv6.Shell.{Cmd, exec, redir, pipe, list, back, is_in, whitespace, symbols, maxargs}

-- Where a command stands: a line, what "&" follows, a pipe, or an operand of a pipe.
pub data Level : Type 0 where
  whole jobs pipes atom : Level

abbrev pub paren : Bool → List ℕ → List ℕ
paren true s = 40 ∷ (s ++ 41 ∷ [])
paren false s = s

abbrev pub under_pipe : Level → Bool
under_pipe atom = true
under_pipe _ = false

abbrev pub under_back : Level → Bool
under_back atom = true
under_back pipes = true
under_back _ = false

abbrev pub under_list : Level → Bool
under_list whole = false
under_list _ = true

abbrev pub words_of : List (List ℕ) → List ℕ
words_of [] = []
words_of (w ∷ ws) = 32 ∷ (w ++ words_of ws)

-- "<" for reading and ">" for writing.
abbrev pub arrow : ℕ → ℕ
arrow mode = if mode == 0 then 60 else 62

abbrev pub line_of : Level → Cmd → List ℕ
line_of l (exec ws) = words_of ws
line_of l (redir c file mode fd) = line_of atom c ++ arrow mode ∷ file
line_of l (pipe c d) = paren (under_pipe l) (line_of atom c ++ 124 ∷ line_of pipes d)
line_of l (list c d) = paren (under_list l) (line_of jobs c ++ 59 ∷ line_of whole d)
line_of l (back c) = paren (under_back l) (line_of jobs c ++ 38 ∷ [])

-- No whitespace and no symbol.
abbrev pub ArePlain : List ℕ → Type 0
ArePlain [] = Unit
ArePlain (c ∷ cs) = (is_in c whitespace || is_in c symbols ≡ false) × ArePlain cs

abbrev pub IsWord : List ℕ → Type 0
IsWord w = (w ≢ []) × ArePlain w

abbrev pub AreWords : List (List ℕ) → Type 0
AreWords [] = Unit
AreWords (w ∷ ws) = IsWord w × AreWords ws

-- The file descriptor that a mode goes with.
abbrev pub Fits : ℕ → ℕ → Type 0
Fits mode fd = ((mode ≡ 0) × (fd ≡ 0)) ⊎ ((mode ≡ 513) × (fd ≡ 1))

-- The commands that a line can say.
abbrev pub IsPrintable : Cmd → Type 0
IsPrintable (exec ws) = AreWords ws × (length ws < maxargs)
IsPrintable (redir c file mode fd) = IsPrintable c × IsWord file × Fits mode fd
IsPrintable (pipe c d) = IsPrintable c × IsPrintable d
IsPrintable (list c d) = IsPrintable c × IsPrintable d
IsPrintable (back c) = IsPrintable c
