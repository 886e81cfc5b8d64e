-- ===== src/Syscalls/Merge/Inverse.antt =====
-- merge_files.c puts together again what split_files.c has dealt.
use native.Mathlib.Nat.{zero-mod}
use asopracticas.Common.{
  ℕ, zero, suc, ◌+◌, ◌-◌, ◌*◌, ◌%◌, ◌≤◌, ◌<◌, ◌≡◌, ◌≢◌, refl, sym, ◌∙◌, ap, inl, inr, false, some,
  List, [], ◌∷◌, ◌++◌, append-nil, append_assoc, ◌==◌, ltb, if◌then◌else◌, length, take, drop,
  take_all, Bool-cases, arith, ltb→lt, ltb→le, le→ltb, lt→ltb, ==→eq, ==→ne,
}
use asopracticas.Syscalls.Write.{joined, Bytes, Writer, IsComplete}
use asopracticas.Syscalls.Split.{Split, start, split_loop}
use asopracticas.Syscalls.Split.Deal.{column, next_turn, split_loop_lem}
use asopracticas.Syscalls.Merge.{Merge, Reader, merge_loop}
use asopracticas.Syscalls.Merge.Rows.{byte_of, row, rows}
use asopracticas.Syscalls.Merge.Branches.{output}
use asopracticas.Syscalls.Merge.Rounds.{IsRegular, merge_loop_lem}

byte_of_next : (c : ℕ) (cs : Bytes) (k : ℕ) → byte_of (c ∷ cs) (suc k) ≡ byte_of cs k
byte_of_next c cs k = elim (Bool-cases (ltb k (length cs))) [
  | inl there ↦
      let below = ltb→lt k (length cs) there in
      rw (there, lt→ltb (suc k) (suc (length cs)) (omega arith)) refl
  | inr behind ↦
      let above = ltb→le k (length cs) behind in
      rw (behind, le→ltb (suc (length cs)) (suc k) (omega arith)) refl
]

byte_of_none : (k : ℕ) → byte_of [] k ≡ []
byte_of_none k = rw (le→ltb 0 k (omega arith)) refl

byte_of_first : (c : ℕ) (cs : Bytes) → byte_of (c ∷ cs) 0 ≡ c ∷ []
byte_of_first c cs = rw (lt→ltb 0 (suc (length cs)) (omega arith)) refl

-- The steps from the place `m` of a cycle of `n` to the place `j`.
abbrev until : ℕ → ℕ → ℕ → ℕ
until n m j = if ltb j m then j + n - m else j - m

abbrev next : ℕ → ℕ → ℕ
next n m = if m + 1 == n then 0 else m + 1

until_here : (n m j : ℕ) → m ≡ j → until n m j ≡ 0
until_here n m j here = ground (arith, here)

until_again : (n m j : ℕ) → j < n → m ≡ j → suc (until n (next n m) j) ≡ n
until_again n m j below here = elim (Bool-cases (m + 1 == n)) [
  | inl last ↦ (let e = ==→eq _ _ last in rw (last, le→ltb 0 j (omega arith)) (omega arith))
  | inr more ↦ (let ne = ==→ne _ _ more in rw (more, lt→ltb j (m + 1) (omega arith)) (omega arith))
]

until_later : (n m j : ℕ) → j < n → m < n → m ≢ j → until n m j ≡ suc (until n (next n m) j)
until_later n m j below inside other = elim (Bool-cases (m + 1 == n)) [
  | inl last ↦
      let e = ==→eq _ _ last in
      rw (last, le→ltb 0 j (omega arith), lt→ltb j m (omega arith)) (omega arith)
  | inr more ↦ elim (Bool-cases (ltb j m)) [
    | inl before ↦
        let lower = ltb→lt j m before in
        rw (more, before, lt→ltb j (m + 1) (omega arith)) (omega arith)
    | inr behind ↦
        let above = ltb→le j m behind in
        rw (more, behind, le→ltb (m + 1) j (omega arith)) (omega arith)
  ]
]

next_inside : (n m : ℕ) → m < n → next n m < n
next_inside n m inside = ground arith

-- Byte `q` of a file is in the input at the `q`-th turn of the file.
byte_of-column :
    (n j p m : ℕ) (xs : Bytes) (q : ℕ)
    → j < n
    → m < n
    → m ≡ p % n
    → byte_of (column n j p xs) q ≡ byte_of xs (q * n + until n m j)
byte_of-column n j p m [] q below inside turn =
    byte_of_none q ∙ sym (byte_of_none (q * n + until n m j))
byte_of-column n j p m (c ∷ cs) q below inside turn =
    let later = λ (k : ℕ).
      byte_of-column n j (p + 1) (next n m) cs k below (next_inside n m inside)
        (next_turn n p m (omega arith) turn) in
    elim (Bool-cases (m == j)) [
      | inl mine ↦
          let here = ==→eq m j mine in
          rw (ap (λ x. x == j) (sym turn) ∙ mine)
            (at_turn q (until_here n m j here) (until_again n m j below here) later)
      | inr other ↦
          let e = until_later n m j below inside (==→ne m j other) in
          let at : q * n + until n m j ≡ suc (q * n + until n (next n m) j) = omega (arith, e) in
          rw (ap (λ x. x == j) (sym turn) ∙ other) (
            later q
            ∙ sym (ap (byte_of (c ∷ cs)) at ∙ byte_of_next c cs (q * n + until n (next n m) j)))
    ]
  where
    at_turn :
        (k : ℕ)
        → until n m j ≡ 0
        → suc (until n (next n m) j) ≡ n
        → ((i : ℕ) → byte_of (column n j (p + 1) cs) i ≡ byte_of cs (i * n + until n (next n m) j))
        → byte_of (c ∷ column n j (p + 1) cs) k ≡ byte_of (c ∷ cs) (k * n + until n m j)
    at_turn zero now again later =
        let at : 0 * n + until n m j ≡ 0 = omega arith in
        byte_of_first c (column n j (p + 1) cs)
        ∙ sym (ap (byte_of (c ∷ cs)) at ∙ byte_of_first c cs)
    at_turn (suc k) now again later =
        let at : suc k * n + until n m j ≡ suc (k * n + until n (next n m) j) = omega arith in
        byte_of_next c (column n j (p + 1) cs) k
        ∙ later k
        ∙ sym (ap (byte_of (c ∷ cs)) at ∙ byte_of_next c cs (k * n + until n (next n m) j))

take-byte_of : (xs : Bytes) (k : ℕ) → take k xs ++ byte_of xs k ≡ take (suc k) xs
take-byte_of [] zero = byte_of_none 0
take-byte_of [] (suc k) = byte_of_none (suc k)
take-byte_of (x ∷ xs) zero = byte_of_first x xs
take-byte_of (x ∷ xs) (suc k) =
    ap (λ l. x ∷ (take k xs ++ l)) (byte_of_next x xs k) ∙ ap (λ l. x ∷ l) (take-byte_of xs k)

-- The rows of what was dealt are the input.
row-column :
    (n : ℕ) (xs : Bytes) (q i : ℕ)
    → i ≤ n
    → rows (λ j. column n j 0 xs) n q ≡ take (q * n) xs
    → rows (λ j. column n j 0 xs) n q ++ row (λ j. column n j 0 xs) i q ≡ take (q * n + i) xs
row-column n xs q zero within so_far =
    let e : q * n ≡ q * n + 0 = omega arith in
    append-nil (rows (λ j. column n j 0 xs) n q) ∙ so_far ∙ ap (λ k. take k xs) e
row-column n xs q (suc i) within so_far =
    let files = λ (j : ℕ). column n j 0 xs in
    let at : q * n + until n 0 i ≡ q * n + i = rw (le→ltb 0 i (omega arith)) (omega arith) in
    let e : suc (q * n + i) ≡ q * n + suc i = omega arith in
    sym (append_assoc (rows files n q) (row files i q) (byte_of (files i) q))
    ∙ ap (λ l. l ++ byte_of (files i) q) (row-column n xs q i (omega arith) so_far)
    ∙ ap (λ l. take (q * n + i) xs ++ l)
        (byte_of-column n i 0 0 xs q (omega arith) (omega arith) (sym (zero-mod n))
          ∙ ap (byte_of xs) at)
    ∙ take-byte_of xs (q * n + i)
    ∙ ap (λ k. take k xs) e

rows-column : (n : ℕ) (xs : Bytes) (q : ℕ) → rows (λ j. column n j 0 xs) n q ≡ take (q * n) xs
rows-column n xs zero = let e : 0 ≡ 0 * n = omega arith in ap (λ k. take k xs) e
rows-column n xs (suc q) =
    let e : q * n + n ≡ suc q * n = omega arith in
    row-column n xs q n (omega arith) (rows-column n xs q) ∙ ap (λ k. take k xs) e

length-column : (n j p : ℕ) (xs : Bytes) → length (column n j p xs) ≤ length xs
length-column n j p [] = omega arith
length-column n j p (c ∷ cs) =
    let ih = length-column n j (p + 1) cs in
    elim (Bool-cases (p % n == j)) [
      | inl mine ↦ rw mine (omega arith)
      | inr other ↦ rw other (omega arith)
    ]

long_enough : (n len k : ℕ) → 0 < n → len < k → len ≤ k * n
long_enough zero len k some_file long = absurd (omega arith)
long_enough (suc n) len k some_file long =
    let e : k * suc n ≡ k * n + k = omega arith in omega (arith, e)

-- The output of `merge_loop` on the files that `split_loop` makes is the input of `split_loop`: where
-- each call of `write` writes all that it is asked to, and each call of `read` on a file that holds
-- `content j` gives what is left of it as far as the buffer has room; with at least one file, buffers
-- of at least one byte in both programs, no file marked as ended and nothing put out at the start of
-- the merge, and fuel for more rounds than the input fills whole buffers.
pub merge_loop-split_loop :
    (w w' : Writer) (n size size' fuel : ℕ) (read : (ℕ → Bytes) → Reader) (chunks : List Bytes)
    (m : Merge)
    → IsComplete w
    → IsComplete w'
    → ((content : ℕ → Bytes) → IsRegular (read content) n size' content)
    → 0 < n
    → 0 < size
    → 0 < size'
    → length (joined chunks) < fuel * size'
    → output m ≡ []
    → m.punterowrite ≡ 0
    → m.contador ≡ 0
    → ((j : ℕ) → j < n → m.terminados j ≡ false)
    → (s : Split) × (m' : Merge) × (split_loop w n size start chunks ≡ some s)
      × (merge_loop fuel w' (read s.files) n size' 0 m ≡ some m')
      × (m'.out ≡ joined chunks)
merge_loop-split_loop w w' n size size' fuel read chunks m complete complete' regular some_file
      some_room some_room' long empty at_front none_ended unended =
    let xs = joined chunks in
    let (s, e, files) = split_loop_lem w n size complete some_file some_room chunks in
    let regular' : IsRegular (read s.files) n size' (λ j. column n j 0 xs) = λ j r below.
      regular s.files j r below
      ∙ ap (λ c. some (take size' (drop (r * size') c))) (files j below) in
    let (m', e', out) =
      merge_loop_lem w' n size' (λ j. column n j 0 xs) complete' some_room' fuel (read s.files) m
        some_file regular' empty at_front none_ended unended
        (λ j below. omega (arith, length-column n j 0 xs, long)) in
    (
      s,
      m',
      e,
      e',
      out
          ∙ rows-column n xs (fuel * size')
          ∙ take_all (fuel * size' * n) xs
              (long_enough n (length xs) (fuel * size') some_file long),
    )
