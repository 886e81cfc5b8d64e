-- ===== src/Xv6/Inode/Write.antt =====
-- One block that `writei` of xv6/fs.c changes.
use asopracticas.Common.{
  ℕ, ◌+◌, ◌-◌, ◌/◌, ◌%◌, ◌≤◌, ◌<◌, ◌≡◌, ◌≢◌, refl, sym, ◌∙◌, ap, ap₂, true, false, ◌==◌, ltb, leb,
  Bool-cases, ==→eq, ==→ne, ne→==, ==_refl, arith, inl, inr, ◌⊎◌, List, length, get_or, le→leb,
  lt→ltb, le→ltb,
}
use asopracticas.Xv6.Log.{Log}
use asopracticas.Xv6.Inode.{State, bsize, ndirect, maxfile, splice, set_block, word_at}
use asopracticas.Xv6.Inode.Layout.{block_of, block_same, byte_at, IsSound, Grows}

splice_inside :
    (bytes : ℕ → ℕ) (o x : ℕ) (src : List ℕ)
    → x < length src
    → splice bytes o src (o + x) ≡ get_or src x 0
unfolding splice
splice_inside bytes o x src inside =
    let low : leb o (o + x) ≡ true = le→leb _ _ (omega arith) in
    let high : ltb (o + x) (o + length src) ≡ true = lt→ltb _ _ (omega arith) in
    let back : o + x - o ≡ x = omega arith in rw (splice, low, high, back) refl

splice_outside :
    (bytes : ℕ → ℕ) (o j : ℕ) (src : List ℕ)
    → (j < o) ⊎ (o + length src ≤ j)
    → splice bytes o src j ≡ bytes j
unfolding splice
splice_outside bytes o j src (inl low) =
    let out : leb o j ≡ false = ground arith in rw (splice, out) refl
splice_outside bytes o j src (inr high) =
    let out : ltb j (o + length src) ≡ false = le→ltb _ _ high in
    let low : leb o j ≡ true = le→leb _ _ (omega arith) in rw (splice, low, out) refl

module _ (s : State) (h : IsSound s) (off : ℕ) (src : List ℕ) (below : off / bsize < maxfile)
    (there : block_of (off / bsize) s ≢ 0) (fits : off % bsize + length src ≤ bsize) (l : Log) where
  -- The state once `src` stands in the block, and the log is `l`.
  abbrev pub stored : State
  stored = record s {
    vol =
        record (set_block (block_of (off / bsize) s)
          (splice (s.vol.bytes (block_of (off / bsize) s)) (off % bsize) src) s.vol) { log = l };
  }

  other_block : (c o : ℕ) → c ≢ block_of (off / bsize) s → stored.vol.bytes c o ≡ s.vol.bytes c o
  other_block c o ne = rw (ne→== c _ ne) refl

  pub stored_blocks : (n : ℕ) → block_of n stored ≡ block_of n s
  stored_blocks n =
      block_same n s stored (λ _. refl) refl
        (λ _.
          ap (λ t. word_at t (n - ndirect))
            (rw (ne→== _ _ (λ e. h.apart_indirect (off / bsize) below there (sym e))) refl))

  pub stored-IsSound : IsSound stored
  stored-IsSound = record {
    boot_block = h.boot_block;
    fits = h.fits;
    held = λ n low. ap s.vol.used (stored_blocks n) ∙ h.held n low;
    held_indirect = h.held_indirect;
    apart = λ n n' low low' some_block same.
        h.apart n n' low low' (λ z. some_block (stored_blocks n ∙ z))
          (sym (stored_blocks n) ∙ same ∙ stored_blocks n');
    apart_indirect = λ n low some_block same.
        h.apart_indirect n low (λ z. some_block (stored_blocks n ∙ z))
          (sym (stored_blocks n) ∙ same);
    filled = λ n low z. h.filled n low (sym (stored_blocks n) ∙ z);
    short = h.short;
  }

  pub stored-Grows : Grows s stored
  stored-Grows = record {
    same_type = refl;
    same_size = refl;
    same_volume = refl;
    same_dinode = refl;
    stays = λ n _ _. stored_blocks n;
    still = λ c busy. busy;
    comes = λ n _. inl (stored_blocks n);
    comes_indirect = inl refl;
    others = λ c o _ not_ours _. other_block c o (λ e. not_ours (off / bsize) below (sym e));
  }

  pub stored_inside : (x : ℕ) → x < length src → byte_at (off + x) stored ≡ get_or src x 0
  stored_inside x inside =
      let q : (off + x) / bsize ≡ off / bsize = omega arith in
      let r : (off + x) % bsize ≡ off % bsize + x = omega arith in
      ap₂ (λ n o. stored.vol.bytes (block_of n stored) o) q r
      ∙ ap (λ c. stored.vol.bytes c (off % bsize + x)) (stored_blocks (off / bsize))
      ∙ rw (==_refl (block_of (off / bsize) s)) (splice_inside _ (off % bsize) x src inside)

  pub stored_outside :
      (y : ℕ)
      → y / bsize < maxfile
      → (y < off) ⊎ (off + length src ≤ y)
      → block_of (y / bsize) s ≢ 0
      → byte_at y stored ≡ byte_at y s
  stored_outside y low outside there_y = elim (Bool-cases (y / bsize == off / bsize)) [
    | inr other ↦
        ap (λ c. stored.vol.bytes c (y % bsize)) (stored_blocks (y / bsize))
        ∙ other_block (block_of (y / bsize) s) (y % bsize)
            (λ e. ==→ne _ _ other (h.apart (y / bsize) (off / bsize) low below there_y e))
    | inl same ↦
        let q = ==→eq _ _ same in
        let at : block_of (y / bsize) s ≡ block_of (off / bsize) s = ap (λ n. block_of n s) q in
        let out : (y % bsize < off % bsize) ⊎ (off % bsize + length src ≤ y % bsize) =
          elim outside [ inl before ↦ inl (omega arith) | inr after ↦ inr (omega arith) ] in
        ap (λ c. stored.vol.bytes c (y % bsize)) (stored_blocks (y / bsize) ∙ at)
        ∙ rw (==_refl (block_of (off / bsize) s))
            (splice_outside _ (off % bsize) (y % bsize) src out)
        ∙ ap (λ c. s.vol.bytes c (y % bsize)) (sym at)
  ]
