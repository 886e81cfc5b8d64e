-- ===== src/Xv6/Ulib.antt =====
-- The user library: xv6/ulib.c and xv6/printf.c. A string is the list of its bytes before the NUL.
pub mod Digits
pub mod Gets
pub mod Print
mod Tests
use asopracticas.Common.{
  ℕ, zero, suc, ◌+◌, ◌-◌, ◌*◌, ◌/◌, ◌%◌, Bool, true, false, ◌&&◌, ◌||◌, not, Option, none, some,
  List, [], ◌∷◌, ◌++◌, length, ◌==◌, ltb, leb, if◌then◌else◌, ℤ, sub_ℕ, pos, u32_mod, ◌>>=◌,
}

abbrev pub is_digit : ℕ → Bool
is_digit c = leb 48 c && leb c 57

-- The loop of `atoi` with `n`, an `int` as its 32-bit word.
pub atoi_from : ℕ → List ℕ → ℕ
atoi_from n [] = n
atoi_from n (c ∷ cs) =
    let rest = atoi_from ((n * 10 + c - 48) % u32_mod) cs in if is_digit c then rest else n

pub atoi : List ℕ → ℕ
atoi s = atoi_from 0 s

pub strcmp : List ℕ → List ℕ → ℤ
strcmp [] [] = pos 0
strcmp [] (d ∷ ds) = sub_ℕ 0 d
strcmp (c ∷ cs) [] = sub_ℕ c 0
strcmp (c ∷ cs) (d ∷ ds) = let rest = strcmp cs ds in if c == d then rest else sub_ℕ c d

-- The loop of `gets` with room for `k` more bytes and the bytes that `read` still delivers, one by
-- one: what it stores before the NUL, and what it leaves unread.
pub gets_from : ℕ → List ℕ → List ℕ × List ℕ
gets_from zero input = ([], input)
gets_from (suc k) [] = ([], [])
gets_from (suc k) (c ∷ cs) =
    let (line, left) = gets_from k cs in
    if c == 10 || c == 13 then ((c ∷ []), cs) else (c ∷ line, left)

pub gets : ℕ → List ℕ → List ℕ × List ℕ
gets size input = gets_from (size - 1) input

-- `digits`
abbrev pub digit : ℕ → ℕ
digit d = if ltb d 10 then 48 + d else 55 + d

-- `sizeof(buf)` of `printint`
abbrev pub bufsize : ℕ
bufsize = 16

-- The first loop of `printint` with `room` bytes left in `buf`. `out` is `buf` with its last byte
-- first, the order in which it is written; `none` is a store behind `buf`.
pub fill : ℕ → ℕ → ℕ → List ℕ → Option (List ℕ)
fill zero x base out = none
fill (suc room) x base out =
    let out' = digit (x % base) ∷ out in
    let rest = fill room (x / base) base out' in if x / base == 0 then some out' else rest

-- `xx` is a 32-bit word.
pub printint : ℕ → ℕ → Bool → Option (List ℕ)
printint xx base sgn =
    let neg = sgn && leb 2147483648 xx in
    let x = if neg then u32_mod - xx else xx in
    do
      out ← fill bufsize x base []
      if neg then (if ltb (length out) bufsize then some (45 ∷ out) else none) else some out

-- "(null)"
abbrev pub null_text : List ℕ
null_text = (40 ∷ 110 ∷ 117 ∷ 108 ∷ 108 ∷ 41 ∷ [])

-- What `printf` writes for `%c` with the argument `arg`; `text` gives the string at an address.
pub convert : (ℕ → List ℕ) → ℕ → ℕ → Option (List ℕ)
convert text c arg =
    if c == 100
    then printint arg 10 true
    else if c == 120 || c == 112
    then printint arg 16 false
    else if c == 115
    then some (if arg == 0 then null_text else text arg)
    else if c == 99
    then some (arg % 256 ∷ [])
    else if c == 37
    then some (c ∷ [])
    else some (37 ∷ c ∷ [])

-- The conversions that move `ap` on.
abbrev pub takes_arg : ℕ → Bool
takes_arg c = c == 100 || (c == 120 || c == 112) || c == 115 || c == 99

-- The loop of `printf`: `state` says whether a '%' came last, and `ap` is the number of arguments
-- that are used up.
pub printf_from : (ℕ → List ℕ) → (ℕ → ℕ) → Bool → ℕ → List ℕ → Option (List ℕ)
printf_from text args state ap [] = some []
printf_from text args false ap (c ∷ fmt) =
    let percent = c == 37 in
    do rest ← printf_from text args percent ap fmt; some (if percent then rest else c ∷ rest)
printf_from text args true ap (c ∷ fmt) = do
  shown ← convert text c (args ap)
  rest ← printf_from text args false (if takes_arg c then ap + 1 else ap) fmt
  some (shown ++ rest)

pub printf : (ℕ → List ℕ) → (ℕ → ℕ) → List ℕ → Option (List ℕ)
printf text args fmt = printf_from text args false 0 fmt
