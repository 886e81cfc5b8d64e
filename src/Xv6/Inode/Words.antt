-- ===== src/Xv6/Inode/Words.antt =====
-- A block of xv6/fs.c as words and as bytes.
use asopracticas.Common.{ℕ, ◌+◌, ◌*◌, ◌/◌, ◌%◌, ◌^◌, ◌<◌, ◌≡◌, ◌≢◌, refl, ap, ne→==, ==_refl, arith}
use native.Mathlib.Nat.{add-zero}
use asopracticas.Xv6.Inode.{word_at, word_byte, set_word}

word_parts :
    (w : ℕ)
    → w < 2 ^ 32
    → w % 256 + 256 * (w / 256 % 256) + 65536 * (w / 65536 % 256) + 16777216 * (w / 16777216 % 256)
      ≡ w
word_parts w small = omega arith

byte_self : (bytes : ℕ → ℕ) (i w k : ℕ) → k < 4 → set_word bytes i w (4 * i + k) ≡ word_byte w k
unfolding set_word
byte_self bytes i w k small =
    let q : (4 * i + k) / 4 ≡ i = omega arith in
    let r : (4 * i + k) % 4 ≡ k = omega arith in rw (set_word, q, r, ==_refl i) refl

byte_other :
    (bytes : ℕ → ℕ) (i j w k : ℕ)
    → j ≢ i
    → k < 4
    → set_word bytes i w (4 * j + k) ≡ bytes (4 * j + k)
unfolding set_word
byte_other bytes i j w k ne small =
    let q : (4 * j + k) / 4 ≡ j = omega arith in rw (set_word, q, ne→== j i ne) refl

pub word_at-set_word : (bytes : ℕ → ℕ) (i w : ℕ) → w < 2 ^ 32 → word_at (set_word bytes i w) i ≡ w
unfolding word_at
word_at-set_word bytes i w small = omega (
  arith,
  byte_self bytes i w 0 (omega arith),
  byte_self bytes i w 1 (omega arith),
  byte_self bytes i w 2 (omega arith),
  byte_self bytes i w 3 (omega arith),
  ap (set_word bytes i w) (add-zero (4 * i)),
)

pub word_at-set_word_ne :
    (bytes : ℕ → ℕ) (i j w : ℕ) → j ≢ i → word_at (set_word bytes i w) j ≡ word_at bytes j
unfolding word_at
word_at-set_word_ne bytes i j w ne = omega (
  arith,
  byte_other bytes i j w 0 ne (omega arith),
  byte_other bytes i j w 1 ne (omega arith),
  byte_other bytes i j w 2 ne (omega arith),
  byte_other bytes i j w 3 ne (omega arith),
  ap (set_word bytes i w) (add-zero (4 * j)),
  ap bytes (add-zero (4 * j)),
)

pub word_at-zero : (i : ℕ) → word_at (λ o. 0) i ≡ 0
unfolding word_at
word_at-zero i = omega arith
