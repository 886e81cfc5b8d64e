-- ===== src/Syscalls/Merge/Rounds.antt =====
-- The loops of merge_files.c over the files, the places and the rounds.
use asopracticas.Common.{
  ℕ, zero, suc, ◌+◌, ◌-◌, ◌*◌, ◌≤◌, ◌<◌, ◌≡◌, refl, sym, ◌∙◌, ap, inl, inr, true, false, some, min,
  [], ◌++◌, append-nil, ◌==◌, ltb, length, get_or, take, drop, length-take, length-drop,
  get_or-take, get_or-drop, subst, Bool-cases, arith, ltb→lt, ltb→le, le→ltb, lt→ltb, ne→==, ==→eq,
  ==→ne,
}
use asopracticas.Syscalls.Write.{Bytes, Writer, IsComplete}
use asopracticas.Syscalls.Merge.{
  Merge, Reader, array_set, refilled, first, read_file, read_files, turns, passes, count_ended,
  merge_loop,
}
use asopracticas.Syscalls.Merge.Rows.{rows, row, rows_whole, ended_all, ended_bound, ended_open}
use asopracticas.Syscalls.Merge.Branches.{output, write_out_lem}
use asopracticas.Syscalls.Merge.Visit.{IsOpen, At, IsKept, turn_lem}

-- Each read gives what is left of the file, as far as the buffer has room.
abbrev pub IsRegular : Reader → ℕ → ℕ → (ℕ → Bytes) → Type 0
IsRegular rd n size content =
    (j r : ℕ) → j < n → rd j r ≡ some (take size (drop (r * size) (content j)))

module _ (w : Writer) (n size : ℕ) (content : ℕ → Bytes) (complete : IsComplete w)
    (some_room : 0 < size) where
  abbrev Here : ℕ → ℕ → ℕ → Merge → Type 0
  Here b q i s = At w n size content complete some_room b q i s

  abbrev Kept : Merge → Type 0
  Kept s = IsKept w n size content complete some_room s

  turns_lem :
      (b v q k i : ℕ) (s : Merge)
      → i + k ≡ n
      → v < size
      → q ≡ b + v
      → Here b q i s
      → Kept s
      → (s' : Merge) × (turns w size v k i s ≡ some s') × Here b q n s' × Kept s'
  unfolding turns
  turns_lem b v q zero i s end inside place h kept =
      let e : i ≡ n = omega arith in (s, refl, subst (λ x. Here b q x s) e h, kept)
  turns_lem b v q (suc k) i s end inside place h kept =
      let (s1, e1, h1, kept1) =
        turn_lem w n size content complete some_room b v q i s (omega arith) inside place h in
      let (s2, e2, h2, kept2) = turns_lem b v q k (suc i) s1 (omega arith) inside place h1 kept1 in
      (s2, rw (turns, e1, e2) refl, h2, kept2)

  -- All files have been passed.
  next_place : (b q : ℕ) (s : Merge) → Here b q n s → Here b (suc q) 0 s
  next_place b q s h = record {
    bytes = h.bytes ∙ sym (append-nil (rows content n q ++ row content n q));
    room = h.room;
    over = λ j below. h.over j below ∙ rw (lt→ltb j n below) (ground arith);
    loaded = h.loaded;
    held = h.held;
    full = h.full;
    counted = h.counted;
  }

  places_lem :
      (b m v q : ℕ) (s : Merge)
      → v + m ≡ size
      → q ≡ b + v
      → Here b q 0 s
      → Kept s
      → (s' : Merge) × (passes w n size m v s ≡ some s') × Here b (b + size) 0 s' × Kept s'
  unfolding passes
  places_lem b zero v q s end place h kept =
      let e : q ≡ b + size = omega arith in (s, refl, subst (λ x. Here b x 0 s) e h, kept)
  places_lem b (suc m) v q s end place h kept =
      let (s1, e1, h1, kept1) = turns_lem b v q n 0 s (omega arith) (omega arith) place h kept in
      let (s2, e2, h2, kept2) =
        places_lem b m (suc v) (suc q) s1 (omega arith) (omega arith) (next_place b q s1 h1)
          kept1 in
      (s2, rw (passes, e1, e2) refl, h2, kept2)

  -- What is in the buffers of the files up to `i`, read at `b`.
  record AreLoaded (b i : ℕ) (buffers : ℕ → ℕ → ℕ) (por_escribir : ℕ → ℕ) : Type 0 where
    loaded : (j : ℕ) → j < i → por_escribir j ≡ min size (length (content j) - b)
    held : (j x : ℕ) → j < i → x < por_escribir j → buffers j x ≡ get_or (content j) (b + x) 0

  load_one :
      (b i : ℕ) (buffers : ℕ → ℕ → ℕ) (por_escribir : ℕ → ℕ) (old : ℕ → ℕ)
      → AreLoaded b i buffers por_escribir
      → AreLoaded b
          (suc i)
          (array_set buffers i (refilled (take size (drop b (content i))) old))
          (array_set por_escribir i (length (take size (drop b (content i)))))
  load_one b i buffers por_escribir old l =
      let bs = take size (drop b (content i)) in
      let len : length bs ≡ min size (length (content i) - b) =
        length-take size (drop b (content i)) ∙ ap (min size) (length-drop b (content i)) in
      record {
        loaded = λ j below. elim (Bool-cases (j == i)) [
          | inl same ↦ (let e = ==→eq j i same in rw (same, e) len)
          | inr other ↦ (let ne = ==→ne j i other in rw other (l.loaded j (omega arith)))
        ];
        held = λ j x below inside. elim (Bool-cases (j == i)) [
          | inl same ↦
              let e = ==→eq j i same in
              let inside' : x < length bs = rw same at inside in
              rw (same, lt→ltb x (length bs) inside', e)
                (get_or-take size (drop b (content i)) x 0 (omega (arith, len))
                  ∙ get_or-drop b (content i) x 0)
          | inr other ↦
              let ne = ==→ne j i other in
              let inside' : x < por_escribir j = rw other at inside in
              rw other (l.held j x (omega arith) inside')
        ];
      }

  read_files_lem :
      (rd : Reader) (r k i : ℕ) (s : Merge)
      → IsRegular rd n size content
      → i + k ≡ n
      → AreLoaded (r * size) i s.buffers s.por_escribir
      → (buffers : ℕ → ℕ → ℕ) × (por_escribir : ℕ → ℕ) × (read_files rd r k i s
          ≡ some (record s { buffers = buffers; por_escribir = por_escribir }))
        × AreLoaded (r * size) n buffers por_escribir
  unfolding read_files read_file
  read_files_lem rd r zero i s regular end l =
      let e : i ≡ n = omega arith in
      (
        s.buffers,
        s.por_escribir,
        refl,
        subst (λ x. AreLoaded (r * size) x s.buffers s.por_escribir) e l,
      )
  read_files_lem rd r (suc k) i s regular end l =
      let bs = take size (drop (r * size) (content i)) in
      let s1 : Merge = record s {
        buffers = array_set s.buffers i (refilled bs (s.buffers i));
        por_escribir = array_set s.por_escribir i (length bs);
      } in
      let l1 = load_one (r * size) i s.buffers s.por_escribir (s.buffers i) l in
      let (bufs, por, e, l2) = read_files_lem rd r k (suc i) s1 regular (omega arith) l1 in
      (bufs, por, rw (read_files, read_file, regular i r (omega arith), e) refl, l2)

  -- Between two rounds.
  pub record Between (b : ℕ) (s : Merge) : Type 0 where
    pub bytes : output s ≡ rows content n b
    pub room : s.punterowrite ≤ size
    pub over : (j : ℕ) → j < n → s.terminados j ≡ ltb (length (content j)) b
    pub left : IsOpen w n size content complete some_room s
    pub counted : s.contador < n

  all_over :
      (b q : ℕ) (s : Merge)
      → Here b q 0 s
      → ((j : ℕ) → j < n → s.terminados j ≡ true)
      → (j : ℕ) → j < n
      → length (content j) < q
  all_over b q s h over j below =
      let e : s.terminados j ≡ ltb (length (content j)) q =
        h.over j below ∙ rw (le→ltb 0 j (omega arith)) refl in
      ltb→lt _ _ (sym e ∙ over j below)

  all_kept :
      (s : Merge)
      → Kept s
      → ((j : ℕ) → j < n → s.terminados j ≡ true)
      → s.a_escribir ≡ s.punterowrite
  all_kept s (inl same) over = same
  all_kept s (inr (j, below, unended)) over =
      absurd (let e = sym unended ∙ over j below in ground (arith, e))

  merge_loop-rows :
      (fuel r : ℕ) (rd : Reader) (s : Merge)
      → IsRegular rd n size content
      → Between (r * size) s
      → ((j : ℕ) → j < n → length (content j) < (r + fuel) * size)
      → (s' : Merge) × (merge_loop fuel w rd n size r s ≡ some s')
        × (s'.out ≡ rows content n ((r + fuel) * size))
  unfolding merge_loop
  merge_loop-rows zero r rd s regular y long =
      let (j, below, unended) = y.left in
      let e : r + 0 ≡ r = omega arith in
      let short : length (content j) < r * size = rw e at long j below in
      let at_end : r * size ≤ length (content j) = ltb→le _ _ (sym (y.over j below) ∙ unended) in
      absurd (omega arith)
  merge_loop-rows (suc fuel) r rd s regular y long =
      let b = r * size in
      let (bufs, por, e1, l) =
        read_files_lem rd r n 0 (record s { contador = 0 }) regular (omega arith)
          (record {
            loaded = λ j below. absurd (omega arith);
            held = λ j x below. absurd (omega arith);
          }) in
      let s1 : Merge = record s {
        contador = 0;
        buffers = bufs;
        por_escribir = por;
        a_escribir = 0;
      } in
      let h : Here b b 0 s1 = record {
        bytes = y.bytes ∙ sym (append-nil (rows content n b));
        room = y.room;
        over = λ j below. y.over j below ∙ rw (le→ltb 0 j (omega arith)) refl;
        loaded = l.loaded;
        held = l.held;
        full = λ _. y.left;
        counted = omega arith;
      } in
      let (s2, e2, h2, kept) =
        places_lem b size 0 b s1 (omega arith) (omega arith) h (inr y.left) in
      let on = ne→== s.contador n (omega (arith, y.counted)) in
      elim (Bool-cases (count_ended n s2.terminados == n)) [
        | inl all ↦
            let over = ended_all n s2.terminados (==→eq _ _ all) in
            let (calls', e3) = write_out_lem w s2 complete in
            let short = all_over b (b + size) s2 h2 over in
            let s3 : Merge = record s2 {
              out = s2.out ++ first s2.a_escribir s2.salida;
              calls = calls';
            } in
            (
              s3,
              rw (merge_loop, on, e1, e2, all, e3) refl,
              ap (λ k. s2.out ++ first k s2.salida) (all_kept s2 kept over)
                  ∙ h2.bytes
                  ∙ append-nil (rows content n (b + size))
                  ∙ rows_whole content n (b + size) ((r + suc fuel) * size)
                      (λ j below. omega (arith, short j below))
                      (λ j below. omega (arith, long j below)),
            )
        | inr some_left ↦
            let fewer = ended_bound n s2.terminados in
            let ne = ==→ne _ _ some_left in
            let left = ended_open n s2.terminados (omega arith) in
            let next : Between (b + size) s2 = record {
              bytes = h2.bytes ∙ append-nil (rows content n (b + size));
              room = h2.room;
              over = λ j below. h2.over j below ∙ rw (le→ltb 0 j (omega arith)) refl;
              left = left;
              counted = omega (arith, h2.counted);
            } in
            let place : b + size ≡ suc r * size = omega arith in
            let ahead : r + suc fuel ≡ suc r + fuel = omega arith in
            let (s3, e3, out) =
              merge_loop-rows fuel (suc r) rd s2 regular (subst (λ x. Between x s2) place next)
                (λ j below. subst (λ x. length (content j) < x * size) ahead (long j below)) in
            (
              s3,
              rw (merge_loop, on, e1, e2, some_left, e3) refl,
              out ∙ ap (λ x. rows content n (x * size)) (sym ahead),
            )
      ]

  -- Where each call of `write` writes all that it is asked to, each call of `read` gives what is left
  -- of its file as far as the buffer has room, there is a file and the buffers have a byte at least:
  -- from a state with empty output and no file marked as ended, with fuel for more rounds than each
  -- file fills whole buffers, the main loop ends, and the output holds the first bytes of all files
  -- in their order, then the second bytes of those that have one, and so on to the last byte.
  pub merge_loop_lem :
      (fuel : ℕ) (rd : Reader) (s : Merge)
      → 0 < n
      → IsRegular rd n size content
      → output s ≡ []
      → s.punterowrite ≡ 0
      → s.contador ≡ 0
      → ((j : ℕ) → j < n → s.terminados j ≡ false)
      → ((j : ℕ) → j < n → length (content j) < fuel * size)
      → (s' : Merge) × (merge_loop fuel w rd n size 0 s ≡ some s')
        × (s'.out ≡ rows content n (fuel * size))
  merge_loop_lem fuel rd s some_file regular empty room none_ended unended long =
      let here : 0 * size ≡ 0 = omega arith in
      let all : 0 + fuel ≡ fuel = omega arith in
      let start : Between 0 s = record {
        bytes = empty;
        room = omega arith;
        over = λ j below. unended j below ∙ sym (le→ltb 0 (length (content j)) (omega arith));
        left = (0, some_file, unended 0 some_file);
        counted = omega arith;
      } in
      let (s', e, out) =
        merge_loop-rows fuel 0 rd s regular (subst (λ x. Between x s) (sym here) start)
          (λ j below. subst (λ x. length (content j) < x * size) (sym all) (long j below)) in
      (s', e, out ∙ ap (λ x. rows content n (x * size)) all)
