-- ===== src/Syscalls/Split/Deal.antt =====
-- split_files.c deals the input to its files byte by byte, in turn.
use native.Mathlib.Nat.{mod-lt, mod-eq_of_lt, mod_self, mod-add-mod, zero-mod, zero-add}
use asopracticas.Common.{
  ℕ, zero, suc, ◌+◌, ◌%◌, ◌≤◌, ◌<◌, ◌≡◌, ◌≢◌, refl, sym, ◌∙◌, ap, inl, inr, true, false, some, List,
  [], ◌∷◌, ◌++◌, ◌==◌, if◌then◌else◌, length, length-append, append-nil, append_assoc, subst,
  Bool-cases, arith, ==→eq, ==→ne, ne→==, ==_refl,
}
use asopracticas.Syscalls.Write.{joined, Bytes, Writer, IsComplete, write_buffer_complete}
use asopracticas.Syscalls.Split.{
  Split, start, update, flush, add_byte, deal_byte, deal, finish, split_loop,
}

-- The bytes of the input that are for file `j` of `n`, when byte `p` comes first.
abbrev pub column : ℕ → ℕ → ℕ → Bytes → Bytes
column n j p [] = []
column n j p (c ∷ cs) = if p % n == j then c ∷ column n j (p + 1) cs else column n j (p + 1) cs

column-append :
    (n j p : ℕ) (xs ys : Bytes)
    → column n j p (xs ++ ys) ≡ column n j p xs ++ column n j (p + length xs) ys
column-append n j p [] ys = ap (λ q. column n j q ys) (omega arith)
column-append n j p (c ∷ xs) ys =
    let e : p + 1 + length xs ≡ p + suc (length xs) = omega arith in
    let ih = column-append n j (p + 1) xs ys in
    elim (Bool-cases (p % n == j)) [
      | inl mine ↦ rw mine (rw (ih, e) refl)
      | inr other ↦ rw other (rw (ih, e) refl)
    ]

column-append-mine :
    (n j : ℕ) (xs : Bytes) (c : ℕ)
    → length xs % n ≡ j
    → column n j 0 (xs ++ c ∷ []) ≡ column n j 0 xs ++ c ∷ []
column-append-mine n j xs c e =
    let e' : (0 + length xs) % n == j ≡ true = rw (zero-add (length xs), e) (==_refl j) in
    column-append n j 0 xs (c ∷ []) ∙ rw e' refl

column-append-other :
    (n j : ℕ) (xs : Bytes) (c : ℕ)
    → length xs % n ≢ j
    → column n j 0 (xs ++ c ∷ []) ≡ column n j 0 xs
column-append-other n j xs c e =
    let e' : (0 + length xs) % n == j ≡ false = rw (zero-add (length xs)) (ne→== _ _ e) in
    column-append n j 0 xs (c ∷ []) ∙ rw (e', append-nil (column n j 0 xs)) refl

-- The next place in a cycle of `n`.
pub next_turn : (n q j : ℕ) → 0 < n → j ≡ q % n → (if j + 1 == n then 0 else j + 1) ≡ (q + 1) % n
next_turn n q j pos_n e =
    let below : j < n = rw e (mod-lt q pos_n) in
    let step : (j + 1) % n ≡ (q + 1) % n = rw e (mod-add-mod q n 1) in
    elim (Bool-cases (j + 1 == n)) [
      | inl last ↦
          let e' : j + 1 ≡ n = ==→eq (j + 1) n last in
          rw last (sym (mod_self n) ∙ ap (λ x. x % n) (sym e') ∙ step)
      | inr more ↦
          let below' : j + 1 < n = ground (arith, ==→ne (j + 1) n more) in
          rw more (sym (mod-eq_of_lt below') ∙ step)
    ]

length-zero : (xs : Bytes) → length xs ≡ 0 → xs ≡ []
length-zero [] h = refl
length-zero (x ∷ xs) h = absurd (omega arith)

empty_below :
    (s : Split) (i : ℕ)
    → s.buffers i ≡ []
    → ((j : ℕ) → j < i → s.buffers j ≡ [])
    → (j : ℕ) → j < i + 1
    → s.buffers j ≡ []
empty_below s i here before j h = elim (Bool-cases (j == i)) [
  | inl same ↦ rw (==→eq j i same) here
  | inr other ↦ (let ne = ==→ne j i other in before j (omega arith))
]

module _ (w : Writer) (n size : ℕ) (complete : IsComplete w) (some_file : 0 < n)
    (some_room : 0 < size) where
  -- After the bytes `seen`: each file and its buffer hold the file's share, no buffer is over-full,
  -- and `next` names the file whose turn it is, or is `n` for file 0.
  pub record IsDealt (seen : Bytes) (s : Split) : Type 0 where
    pub share : (j : ℕ) → j < n → s.files j ++ s.buffers j ≡ column n j 0 seen
    pub room : (j : ℕ) → length (s.buffers j) ≤ size
    pub turn : (if s.next == n then 0 else s.next) ≡ length seen % n
    pub inside : s.next ≤ n

  add_byte-IsDealt :
      (seen : Bytes) (j c : ℕ) (s : Split)
      → IsDealt seen s
      → j ≡ length seen % n
      → length (s.buffers j) < size
      → IsDealt (seen ++ c ∷ []) (add_byte j c s)
  unfolding add_byte
  add_byte-IsDealt seen j c s d e free = record {
    share = λ i h. elim (Bool-cases (i == j)) [
      | inl same ↦
          let e' : i ≡ j = ==→eq i j same in
          rw
            (
              same,
              column-append-mine n i seen c (sym e ∙ sym e'),
              sym (d.share i h),
              append_assoc (s.files i) (s.buffers i) (c ∷ []),
              e',
            )
            refl
      | inr other ↦
          rw (other, column-append-other n i seen c (λ g. ==→ne i j other (sym g ∙ sym e)))
            (d.share i h)
    ];
    room = λ i. elim (Bool-cases (i == j)) [
      | inl same ↦ rw (same, length-append (s.buffers j) (c ∷ [])) (omega arith)
      | inr other ↦ rw other (d.room i)
    ];
    turn = rw (length-append seen (c ∷ [])) (next_turn n (length seen) j some_file e);
    inside = (let below = mod-lt (length seen) some_file in ground arith);
  }

  flush-IsDealt :
      (seen : Bytes) (j : ℕ) (s : Split)
      → IsDealt seen s
      → (s' : Split) × (flush w j s ≡ some s')
        × IsDealt seen s'
        × (s'.next ≡ s.next)
        × (s'.buffers ≡ update s.buffers j [])
        × (s'.files j ≡ s.files j ++ s.buffers j)
  unfolding flush
  flush-IsDealt seen j s d =
      let (calls', e) = write_buffer_complete w s.calls (s.buffers j) complete in
      let s' : Split = record s {
        buffers = update s.buffers j [];
        files = update s.files j (s.files j ++ s.buffers j);
        calls = calls';
      } in
      let dealt : IsDealt seen s' = record {
        share = λ i h. elim (Bool-cases (i == j)) [
          | inl same ↦
              let e' : i ≡ j = ==→eq i j same in
              rw (same, append-nil (s.files j ++ s.buffers j), sym (d.share i h), e') refl
          | inr other ↦ rw other (d.share i h)
        ];
        room = λ i. elim (Bool-cases (i == j)) [
          | inl same ↦ rw same (omega arith)
          | inr other ↦ rw other (d.room i)
        ];
        turn = d.turn;
        inside = d.inside;
      } in
      (s', rw (flush, e) refl, dealt, refl, refl, rw (==_refl j) refl)

  deal_byte-IsDealt :
      (seen : Bytes) (c : ℕ) (s : Split)
      → IsDealt seen s
      → (s' : Split) × (deal_byte w n size s c ≡ some s') × IsDealt (seen ++ c ∷ []) s'
  unfolding deal_byte
  deal_byte-IsDealt seen c s d =
      let j = if s.next == n then 0 else s.next in
      elim (Bool-cases (length (s.buffers j) == size)) [
        | inl full ↦
            let (s', e, d', _, buffers', _) = flush-IsDealt seen j s d in
            let emptied : s'.buffers j ≡ [] = ap (λ f. f j) buffers' ∙ rw (==_refl j) refl in
            (
              add_byte j c s',
              rw (full, e) refl,
              add_byte-IsDealt seen j c s' d' d.turn (rw emptied some_room),
            )
        | inr free ↦
            let room : length (s.buffers j) < size = ground (arith, d.room j, ==→ne _ _ free) in
            (add_byte j c s, rw free refl, add_byte-IsDealt seen j c s d d.turn room)
      ]

  deal-IsDealt :
      (seen chunk : Bytes) (s : Split)
      → IsDealt seen s
      → (s' : Split) × (deal w n size s chunk ≡ some s') × IsDealt (seen ++ chunk) s'
  unfolding deal
  deal-IsDealt seen [] s d = (s, refl, rw (append-nil seen) d)
  deal-IsDealt seen (c ∷ cs) s d =
      let (s1, e1, d1) = deal_byte-IsDealt seen c s d in
      let (s2, e2, d2) = deal-IsDealt (seen ++ c ∷ []) cs s1 d1 in
      (s2, rw (deal, e1, e2) refl, subst (λ x. IsDealt x s2) (append_assoc seen (c ∷ []) cs) d2)

  finish-files :
      (k i : ℕ) (seen : Bytes) (s : Split)
      → i + k ≡ n
      → IsDealt seen s
      → ((j : ℕ) → j < i → s.buffers j ≡ [])
      → (s' : Split) × (finish w k i s ≡ some s')
        × ((j : ℕ) → j < n → s'.files j ≡ column n j 0 seen)
  unfolding finish
  finish-files zero i seen s e d empty = (
    s,
    refl,
    λ j h.
        sym (append-nil (s.files j))
        ∙ ap (λ b. s.files j ++ b) (sym (empty j (omega arith)))
        ∙ d.share j h,
  )
  finish-files (suc k) i seen s e d empty = elim (Bool-cases (length (s.buffers i) == 0)) [
    | inl drained ↦
        let nothing = length-zero (s.buffers i) (==→eq _ _ drained) in
        let (s', e', out) =
          finish-files k (i + 1) seen s (omega arith) d (empty_below s i nothing empty) in
        (s', rw (drained, e') refl, out)
    | inr held ↦
        let (s1, e1, d1, _, buffers1, _) = flush-IsDealt seen i s d in
        let nothing : s1.buffers i ≡ [] = ap (λ f. f i) buffers1 ∙ rw (==_refl i) refl in
        let before : (j : ℕ) → j < i → s1.buffers j ≡ [] =
          λ j h. ap (λ f. f j) buffers1 ∙ rw (ne→== j i (omega arith)) (empty j h) in
        let (s', e', out) =
          finish-files k (i + 1) seen s1 (omega arith) d1 (empty_below s1 i nothing before) in
        (s', rw (held, e1, e') refl, out)
  ]

  split_loop-IsDealt :
      (chunks : List Bytes) (seen : Bytes) (s : Split)
      → IsDealt seen s
      → (s' : Split) × (split_loop w n size s chunks ≡ some s')
        × ((j : ℕ) → j < n → s'.files j ≡ column n j 0 (seen ++ joined chunks))
  unfolding split_loop
  split_loop-IsDealt [] seen s d =
      rw (append-nil seen) (finish-files n 0 seen s (omega arith) d (λ j h. absurd (omega arith)))
  split_loop-IsDealt (chunk ∷ chunks) seen s d =
      let (s1, e1, d1) = deal-IsDealt seen chunk s d in
      let (s', e', out) = split_loop-IsDealt chunks (seen ++ chunk) s1 d1 in
      (
        s',
        rw (split_loop, e1, e') refl,
        λ j h. out j h ∙ ap (column n j 0) (append_assoc seen chunk (joined chunks)),
      )

  -- Where each call of `write` writes all that it is asked to, with at least one file and buffers
  -- of at least one byte: the main loop ends, whatever the cuts that `read` made in the input, and
  -- file `j` then holds exactly the bytes of the input whose place is `j` modulo the number of
  -- files, in order.
  pub split_loop_lem :
      (chunks : List Bytes)
      → (s : Split) × (split_loop w n size start chunks ≡ some s)
        × ((j : ℕ) → j < n → s.files j ≡ column n j 0 (joined chunks))
  split_loop_lem chunks = split_loop-IsDealt chunks [] start record {
    share = λ j h. refl;
    room = λ j. omega arith;
    turn = rw (ne→== 0 n (omega arith), zero-mod n) refl;
    inside = omega arith;
  }
