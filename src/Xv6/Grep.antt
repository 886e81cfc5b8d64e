-- ===== src/Xv6/Grep.antt =====
-- The matcher and the line loop of xv6/grep.c. A C string is the list of its bytes before the NUL.
pub mod Match
pub mod Lines
mod Tests
use mathlib.Core.Option
use asopracticas.Common.{
  ℕ, zero, suc, ◌+◌, Bool, true, false, ◌||◌, Option, none, some, List, [], ◌∷◌, ◌++◌, ◌==◌,
  if◌then◌else◌, length, take,
}

abbrev pub Bytes : Type 0
Bytes = List ℕ

-- Whether the pattern byte `c` takes the text byte `t`.
abbrev pub accepts : ℕ → ℕ → Bool
accepts c t = c == b'.' || c == t

-- `matchstar`; `here` is `matchhere` at the pattern behind the star.
pub match_star : (Bytes → Bool) → ℕ → Bytes → Bool
match_star here c [] = here []
match_star here c (t ∷ ts) =
    if here (t ∷ ts) then true else if accepts c t then match_star here c ts else false

-- `matchhere` at a pattern of one byte.
pub match_last : ℕ → Bytes → Bool
match_last c [] = c == b'$'
match_last c (t ∷ ts) = if c == b'$' then false else accepts c t

pub match_byte : (Bytes → Bool) → ℕ → Bytes → Bool
match_byte here c [] = false
match_byte here c (t ∷ ts) = if accepts c t then here ts else false

pub match_here : Bytes → Bytes → Bool
match_here [] text = true
match_here (c ∷ []) text = match_last c text
match_here (c ∷ d ∷ re) text =
    if d == b'*' then match_star (match_here re) c text else match_byte (match_here (d ∷ re)) c text

-- The loop of `match`: the pattern at each place of the text, the end included.
pub match_from : Bytes → Bytes → Bool
match_from re [] = match_here re []
match_from re (t ∷ ts) = if match_here re (t ∷ ts) then true else match_from re ts

pub match : Bytes → Bytes → Bool
match [] text = match_from [] text
match (c ∷ re) text = if c == b'^' then match_here re text else match_from (c ∷ re) text

-- `strchr(p, '\n')`: the line before the newline and the bytes behind it. A NUL ends the search.
pub find_line : Bytes → Option (Bytes × Bytes)
find_line [] = none
find_line (c ∷ cs) =
    if c == 0
    then none
    else if c == b'\n'
    then some ([], cs)
    else Option.map (λ (line, rest). (c ∷ line, rest)) (find_line cs)

-- What `grep` writes for one line.
abbrev pub show : Bytes → Bytes → Bytes
show pattern line = if match pattern line then line ++ b'\n' ∷ [] else []

-- The inner loop over the lines from `p` on: what is written, and where `p` stops. Each round takes
-- at least the newline from the buffer, which bounds the rounds.
pub scan : ℕ → Bytes → Bytes → Bytes × Bytes
scan zero pattern p = ([], p)
scan (suc fuel) pattern p = elim (find_line p) [
  | none ↦ ([], p)
  | some (line, rest) ↦
      (let (out, left) = scan fuel pattern rest in (show pattern line ++ out, left))
]

-- `if(p == buf) m = 0;`: without a newline in the buffer its bytes are dropped.
pub kept : Option (Bytes × Bytes) → Bytes → Bytes
kept none left = []
kept (some _) left = left

-- The outer loop, `while((n = read(fd, buf+m, sizeof(buf)-m-1)) > 0)`. The list holds what the calls
-- of `read` return, each at most the bytes it asks for; a call that returns none ends the loop, as
-- the one behind the list does. `held` is `buf[0..m)`.
pub grep_loop : Bytes → Bytes → List Bytes → Bytes
grep_loop pattern held [] = []
grep_loop pattern held (chunk ∷ chunks) =
    let buf = held ++ chunk in
    let (out, left) = scan (length buf) pattern buf in
    let rest = grep_loop pattern (kept (find_line buf) left) chunks in
    if length chunk == 0 then [] else out ++ rest
