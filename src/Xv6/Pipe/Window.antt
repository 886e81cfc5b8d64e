-- ===== src/Xv6/Pipe/Window.antt =====
-- The bytes that a pipe of xv6/pipe.c holds, and what storing and fetching one byte does to them.
use asopracticas.Common.{
  ℕ, zero, suc, ◌+◌, ◌-◌, ◌%◌, ◌≤◌, ◌<◌, ◌≡◌, ◌↔◌, true, refl, ap, ap₂, ◌≢◌, List, [], ◌∷◌, ◌++◌,
  arith, add32, sub32, u32_mod, length, get_or, set, length-set, get_or-set_self, get_or-set_ne,
}
use asopracticas.Xv6.Pipe.{Pipe, pipesize, put, is_full, is_empty}

-- The counters are `uint` and wrap; their difference counts the bytes held.
abbrev pub used : Pipe → ℕ
used p = sub32 p.nwrite p.nread

pub record IsValid (p : Pipe) : Type 0 where
  pub page : pipesize ≤ length p.buf
  pub read_word : p.nread < u32_mod
  pub write_word : p.nwrite < u32_mod
  pub fits : used p ≤ pipesize

-- The `n` bytes from counter value `h` on.
abbrev pub window : List ℕ → ℕ → ℕ → List ℕ
window buf h zero = []
window buf h (suc n) = get_or buf (h % pipesize) 0 ∷ window buf (add32 h 1) n

abbrev pub contents : Pipe → List ℕ
contents p = window p.buf p.nread (used p)

pub length-window : (buf : List ℕ) (h n : ℕ) → length (window buf h n) ≡ n
length-window buf h zero = refl
length-window buf h (suc n) = ap suc (length-window buf (add32 h 1) n)

pub window_of_ne_zero :
    (buf : List ℕ) (h n : ℕ)
    → n ≢ 0
    → window buf h n ≡ get_or buf (h % pipesize) 0 ∷ window buf (add32 h 1) (n - 1)
window_of_ne_zero buf h zero p = absurd (p refl)
window_of_ne_zero buf h (suc n) p = ap (λ k. window buf h (suc k)) (omega arith)

-- 2^32 is a multiple of PIPESIZE, so the wrap of a counter does not move its place in the buffer.
window-set :
    (buf : List ℕ) (c n h w : ℕ)
    → pipesize ≤ length buf
    → h < u32_mod
    → n < pipesize
    → w ≡ add32 h n
    → window (set buf (w % pipesize) c) h (suc n) ≡ window buf h n ++ (c ∷ [])
window-set buf c zero h w page hh hn e =
    let at : h % pipesize ≡ w % pipesize = omega arith in
    rw at (ap (λ x. x ∷ []) (get_or-set_self buf (w % pipesize) c 0 (omega arith)))
window-set buf c (suc n) h w page hh hn e =
    ap₂ ◌∷◌ (get_or-set_ne buf (w % pipesize) (h % pipesize) c 0 (omega arith))
      (window-set buf c n (add32 h 1) w page (omega arith) (omega arith) (omega arith))

-- Where the buffer is not full, `put` keeps it valid and appends one byte.
pub put_lem :
    (p : Pipe) (c : ℕ)
    → IsValid p
    → used p < pipesize
    → IsValid (put p c)
      × (contents (put p c) ≡ contents p ++ (c ∷ []))
      × (used (put p c) ≡ used p + 1)
unfolding put
put_lem p c v room =
    let more : used (put p c) ≡ suc (used p) = omega arith in
    (
      record {
        page = rw length-set v.page;
        read_word = v.read_word;
        write_word = omega arith;
        fits = omega arith;
      },
      rw more (window-set p.buf c (used p) p.nread p.nwrite v.page v.read_word room (omega arith)),
      omega arith,
    )

-- The two tests of the code, read on the count of bytes held.
pub full_iff : (p : Pipe) → IsValid p → (is_full p ≡ true) ↔ (used p ≡ pipesize)
full_iff p v = ground arith

pub empty_iff : (p : Pipe) → IsValid p → (is_empty p ≡ true) ↔ (used p ≡ 0)
empty_iff p v = ground arith
