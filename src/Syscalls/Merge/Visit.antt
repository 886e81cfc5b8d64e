-- ===== src/Syscalls/Merge/Visit.antt =====
-- One turn of the loop of merge_files.c over the files.
use asopracticas.Common.{
  ℕ, suc, ◌+◌, ◌-◌, ◌≤◌, ◌<◌, ◌≡◌, ◌≢◌, refl, sym, ◌∙◌, ap, inl, inr, ◌⊎◌, Bool, true, false, some,
  min, [], ◌∷◌, ◌++◌, append-nil, append_assoc, ◌==◌, ltb, leb, if◌then◌else◌, length, get_or,
  Bool-cases, arith, ltb→lt, ltb→le, le→ltb, lt→ltb, ne→==, ==→eq, ==→ne, ==_refl,
}
use asopracticas.Syscalls.Write.{Bytes, Writer, IsComplete}
use asopracticas.Syscalls.Merge.{
  Merge, array_set, first, put_byte, end_file, make_room, turn, count_ended,
}
use asopracticas.Syscalls.Merge.Rows.{row, rows, row_short, row_byte, first_set, ended_more}
use asopracticas.Syscalls.Merge.Branches.{output, write_out_lem, take_none, take_last, take_one}

-- Whether file `j` has ended, in front of byte `q` of file `i`.
abbrev pub is_over : (ℕ → Bytes) → ℕ → ℕ → ℕ → Bool
is_over content q i j = if ltb j i then leb (length (content j)) q else ltb (length (content j)) q

module _ (w : Writer) (n size : ℕ) (content : ℕ → Bytes) (complete : IsComplete w)
    (some_room : 0 < size) where
  abbrev pub IsOpen : Merge → Type 0
  IsOpen s = (j : ℕ) × (j < n) × (s.terminados j ≡ false)

  -- In front of byte `q` of file `i`, with buffers that were read at `b`.
  pub record At (b q i : ℕ) (s : Merge) : Type 0 where
    pub bytes : output s ≡ rows content n q ++ row content i q
    pub room : s.punterowrite ≤ size
    pub over : (j : ℕ) → j < n → s.terminados j ≡ is_over content q i j
    pub loaded : (j : ℕ) → j < n → s.por_escribir j ≡ min size (length (content j) - b)
    pub held :
        (j x : ℕ) → j < n → x < s.por_escribir j → s.buffers j x ≡ get_or (content j) (b + x) 0
    pub full : s.punterowrite ≡ size → IsOpen s
    pub counted : s.contador ≤ count_ended n s.terminados

  -- What a write at the end of the turn would write is what the buffer holds, or a file is left.
  abbrev pub IsKept : Merge → Type 0
  IsKept s = (s.a_escribir ≡ s.punterowrite) ⊎ IsOpen s

  make_room_lem :
      (b q i : ℕ) (s : Merge)
      → At b q i s
      → (s1 : Merge) × (make_room w size s ≡ some s1)
        × At b q i s1
        × (s1.punterowrite < size)
        × IsKept s1
        × (s.punterowrite ≢ size → s1.a_escribir ≡ s1.punterowrite)
  unfolding make_room
  make_room_lem b q i s h = elim (Bool-cases (s.punterowrite == size)) [
    | inl full ↦
        let (calls', e) = write_out_lem w (record s { a_escribir = s.punterowrite }) complete in
        let s1 : Merge = record s {
          a_escribir = s.punterowrite;
          out = s.out ++ first s.punterowrite s.salida;
          calls = calls';
          punterowrite = 0;
        } in
        let at : At b q i s1 = record {
          bytes = append-nil s1.out ∙ h.bytes;
          room = omega arith;
          over = h.over;
          loaded = h.loaded;
          held = h.held;
          full = λ e. absurd (omega arith);
          counted = h.counted;
        } in
        let refilled = ==→eq _ _ full in
        (
          s1,
          rw (make_room, full, e) refl,
          at,
          some_room,
          inr (h.full refilled),
          λ ne. absurd (ne refilled),
        )
    | inr free ↦
        let ne = ==→ne _ _ free in
        let s1 : Merge = record s { a_escribir = s.punterowrite } in
        let at : At b q i s1 = record {
          bytes = h.bytes;
          room = h.room;
          over = h.over;
          loaded = h.loaded;
          held = h.held;
          full = h.full;
          counted = h.counted;
        } in
        (s1, rw (make_room, free) refl, at, omega (arith, h.room), inl refl, λ _. refl)
  ]

  over_next :
      (q i : ℕ) (t u : ℕ → Bool)
      → ((j : ℕ) → j < n → t j ≡ is_over content q i j)
      → ((j : ℕ) → j ≢ i → u j ≡ t j)
      → u i ≡ leb (length (content i)) q
      → (j : ℕ) → j < n
      → u j ≡ is_over content q (suc i) j
  over_next q i t u over others here j below =
      let pick =
        λ (b : Bool). if b then leb (length (content j)) q else ltb (length (content j)) q in
      elim (Bool-cases (j == i)) [
        | inl same ↦
            let e : j ≡ i = ==→eq j i same in
            ap u e
            ∙ here
            ∙ ap (λ x. leb (length (content x)) q) (sym e)
            ∙ sym (ap pick (lt→ltb j (suc i) (omega arith)))
        | inr other ↦
            let ne = ==→ne j i other in
            let e : ltb j (suc i) ≡ ltb j i = ground (arith, ne) in
            others j ne ∙ over j below ∙ ap pick (sym e)
      ]

  -- A file that had ended before.
  At-skip :
      (b q i : ℕ) (s : Merge)
      → At b q i s
      → s.terminados i ≡ true
      → length (content i) < q
      → At b q (suc i) s
  At-skip b q i s h closed short = record {
    bytes = h.bytes ∙ ap (λ x. rows content n q ++ x) (row_short content i q (omega arith));
    room = h.room;
    over = over_next q i s.terminados s.terminados h.over (λ j _. refl) (closed ∙ ground arith);
    loaded = h.loaded;
    held = h.held;
    full = h.full;
    counted = h.counted;
  }

  -- A file that ends here.
  end_file-At :
      (b q i : ℕ) (s : Merge)
      → i < n
      → At b q i s
      → s.punterowrite < size
      → s.terminados i ≡ false
      → length (content i) ≡ q
      → At b q (suc i) (end_file i s)
  unfolding end_file
  end_file-At b q i s below h room unended here = record {
    bytes = h.bytes ∙ ap (λ x. rows content n q ++ x) (row_short content i q (omega arith));
    room = h.room;
    over =
        over_next q i s.terminados (array_set s.terminados i true) h.over
          (λ j ne. rw (ne→== j i ne) refl) (rw (==_refl i) (ground arith));
    loaded = h.loaded;
    held = h.held;
    full = λ e. absurd (omega arith);
    counted = rw (ended_more n i s.terminados below unended) (omega (arith, h.counted));
  }

  -- A file that has a byte here.
  put_byte-At :
      (b v q i : ℕ) (s : Merge)
      → i < n
      → q ≡ b + v
      → At b q i s
      → s.punterowrite < size
      → s.terminados i ≡ false
      → v < s.por_escribir i
      → q < length (content i)
      → At b q (suc i) (put_byte v i s)
  unfolding put_byte
  put_byte-At b v q i s below place h room unended inside there = record {
    bytes =
        ap (λ x. s.out ++ x) (first_set s.punterowrite s.salida (s.buffers i v))
        ∙ sym (append_assoc s.out (first s.punterowrite s.salida) (s.buffers i v ∷ []))
        ∙ ap (λ x. x ++ s.buffers i v ∷ []) h.bytes
        ∙ append_assoc (rows content n q) (row content i q) (s.buffers i v ∷ [])
        ∙ ap (λ c. rows content n q ++ (row content i q ++ c ∷ []))
            (h.held i v below inside ∙ ap (λ x. get_or (content i) x 0) (sym place))
        ∙ ap (λ x. rows content n q ++ x) (row_byte content i q there);
    room = room;
    over = over_next q i s.terminados s.terminados h.over (λ j _. refl) (unended ∙ ground arith);
    loaded = h.loaded;
    held = h.held;
    full = λ _. (i, below, unended);
    counted = h.counted;
  }

  -- What the code tells apart at a byte.
  At-case :
      (b q i : ℕ) (s : Merge)
      → i < n
      → At b q i s
      → ((s.terminados i ≡ true) × (length (content i) < q))
        ⊎ ((s.terminados i ≡ false) × (q ≤ length (content i)))
  At-case b q i s below h =
      let e : s.terminados i ≡ ltb (length (content i)) q =
        h.over i below ∙ rw (le→ltb i i (omega arith)) refl in
      elim (Bool-cases (ltb (length (content i)) q)) [
        | inl short ↦ inl (e ∙ short, ltb→lt _ _ short)
        | inr there ↦ inr (e ∙ there, ltb→le _ _ there)
      ]

  pub turn_lem :
      (b v q i : ℕ) (s : Merge)
      → i < n
      → v < size
      → q ≡ b + v
      → At b q i s
      → (s' : Merge) × (turn w size v i s ≡ some s') × At b q (suc i) s' × IsKept s'
  unfolding turn end_file put_byte
  turn_lem b v q i s below inside place h =
      let (s1, e, h1, room, kept, _) = make_room_lem b q i s h in
      let loaded = h1.loaded i below in
      elim (At-case b q i s1 below h1) [
        | inl (closed, short) ↦ (
          s1,
          rw (turn, e, take_none size v i s1 closed) refl,
          At-skip b q i s1 h1 closed short,
          kept,
        )
        | inr (unended, there) ↦ elim (Bool-cases (length (content i) == q)) [
          | inl here ↦
              let e' = ==→eq _ _ here in
              let h2 = end_file-At b q i s1 below h1 room unended e' in
              let (s3, e3, h3, _, _, same) = make_room_lem b q (suc i) (end_file i s1) h2 in
              let last = take_last size v i s1 unended (loaded ∙ omega (arith, e')) inside in
              let over_here : is_over content q (suc i) i ≡ true =
                rw (lt→ltb i (suc i) (omega arith)) (ground (arith, e')) in
              let closed : s3.terminados i ≡ true = h3.over i below ∙ over_here in
              (
                s3,
                rw (turn, e, last, e3, take_none size v i s3 closed) refl,
                h3,
                inl (same (λ f. absurd (omega (arith, room)))),
              )
          | inr more ↦
              let ne = ==→ne _ _ more in
              let some_byte : v < s1.por_escribir i = omega arith in
              let one = take_one size v i s1 unended some_byte (omega arith) in
              (
                put_byte v i s1,
                rw (turn, e, one) refl,
                put_byte-At b v q i s1 below place h1 room unended some_byte (omega (arith, ne)),
                inr (i, below, unended),
              )
        ]
      ]
