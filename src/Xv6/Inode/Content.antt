-- ===== src/Xv6/Inode/Content.antt =====
-- `readi` and `writei` of xv6/fs.c on the content of an inode.
use asopracticas.Common.{
  ℕ, suc, ◌+◌, ◌-◌, ◌*◌, ◌/◌, ◌%◌, ◌^◌, ◌≤◌, ◌<◌, ◌≡◌, ◌≢◌, refl, sym, ◌∙◌, ap, ap₂, subst, Bool,
  true, false, ◌||◌, ◌&&◌, ltb, Bool-cases, ne→==, ==_refl, arith, inl, inr, ◌⊎◌, min, max, List,
  [], ◌∷◌, length, get_or, le→ltb, ltb→lt, ltb→le, add32, and_parts,
}
use asopracticas.Xv6.Inode.{State, bsize, ndirect, maxfile, t_dev, readi, reads, writei, writes}
use asopracticas.Xv6.Inode.Layout.{block_of, byte_at, IsSound}
use asopracticas.Xv6.Inode.Bmap.{clear_of, log_room}
use asopracticas.Xv6.Inode.Resize.{
  resized, resized_blocks, iupdate_lem, resized-IsSound, writei_grows, writei_stays,
}
use asopracticas.Xv6.Inode.Read.{content, read_from_lem}
use asopracticas.Xv6.Inode.Rounds.{blocks, written, write_from_lem}

-- `readi` of a file within its size, or beyond its end, gives the bytes that are there and changes
-- nothing: a sound inode that is no device, an offset that is at most its size, and a sum of offset
-- and count below 2^32.
pub readi_lem :
    (devsw : ℕ → Bool) (off n : ℕ) (s : State)
    → IsSound s
    → s.ip.type ≢ t_dev
    → off ≤ s.ip.size
    → off + n < 2 ^ 32
    → readi devsw off n s ≡ reads (content off (min n (s.ip.size - off)) s) s
unfolding readi
readi_lem devsw off n s h file low word =
    let whole : add32 off n ≡ off + n = omega arith in
    let ok : ltb s.ip.size off || ltb (off + n) off ≡ false =
      rw (le→ltb off s.ip.size low, le→ltb off (off + n) (omega arith)) refl in
    elim (Bool-cases (ltb s.ip.size (off + n))) [
      | inl beyond ↦
          let cut : s.ip.size - off ≡ min n (s.ip.size - off) = omega (arith, ltb→lt _ _ beyond) in
          let e =
            read_from_lem (s.ip.size - off) off (s.ip.size - off) s h (omega arith) (omega arith) in
          rw (readi, ne→== _ _ file, whole, ok, beyond, e) (ap (λ k. reads (content off k s) s) cut)
      | inr within ↦
          let cut : n ≡ min n (s.ip.size - off) = omega (arith, ltb→le _ _ within) in
          let e = read_from_lem n off n s h (omega arith) (omega (arith, ltb→le _ _ within)) in
          rw (readi, ne→== _ _ file, whole, ok, within, e) (ap (λ k. reads (content off k s) s) cut)
    ]

content-eq :
    (src : List ℕ) (off : ℕ) (s : State)
    → ((x : ℕ) → x < length src → byte_at (off + x) s ≡ get_or src x 0)
    → content off (length src) s ≡ src
content-eq [] off s same = refl
content-eq (c ∷ cs) off s same =
    let e : off + 0 ≡ off = omega arith in
    ap₂ (λ x l. x ∷ l) (ap (λ y. byte_at y s) (sym e) ∙ same 0 (omega arith))
      (content-eq cs (off + 1) s (λ x low.
        let e' : off + 1 + x ≡ off + suc x = omega arith in
        ap (λ y. byte_at y s) e' ∙ same (suc x) (omega arith)))

-- What `writei` of `src` at `off` leaves.
pub record Stored (inum off : ℕ) (src : List ℕ) (s s' : State) : Type 0 where
  pub sound : IsSound s'
  pub grown : s'.ip.size ≡ max s.ip.size (off + length src)
  pub same_type : s'.ip.type ≡ s.ip.type
  pub inside : content off (length src) s' ≡ src
  pub outside :
      (y : ℕ) → y < s.ip.size → (y < off) ⊎ (off + length src ≤ y) → byte_at y s' ≡ byte_at y s
  -- The inode on the disk, and the others there.
  pub updated : s.ip.size < s'.ip.size → s'.vol.dinode inum ≡ s'.ip
  pub other_inodes : (i : ℕ) → i ≢ inum → s'.vol.dinode i ≡ s.vol.dinode i
  -- Blocks in use by others.
  pub others :
      (c o : ℕ)
      → s.vol.used c ≡ true
      → ((bn : ℕ) → bn < maxfile → block_of bn s ≢ c)
      → c ≢ s.ip.addrs ndirect
      → (s'.vol.used c ≡ true) × (s'.vol.bytes c o ≡ s.vol.bytes c o)

not_longer :
    (size off n : ℕ)
    → off ≤ size
    → ltb 0 n && ltb size (off + n) ≡ false
    → size ≡ max size (off + n)
not_longer size off n low stays = elim (Bool-cases (ltb 0 n)) [
  | inl pos ↦
      (let short : ltb size (off + n) ≡ false = rw pos at stays in omega (arith, ltb→le _ _ short))
  | inr none_there ↦ omega (arith, ltb→le _ _ none_there)
]

-- `writei` puts `src` at `off`: for a sound inode that is no device, an offset that is at most its
-- size, an end within the longest file, and for each block that `src` touches two free blocks and
-- room in the log for six calls of `log_write`, and for one more, it writes all of `src`; the content there is `src` and elsewhere what it was, the size grows to the
-- end of `src`, the inode stays sound and stands on the disk as it is
-- when its size has grown, and the other inodes there and the blocks in use that are not the
-- inode's are left alone.
pub writei_lem :
    (devsw : ℕ → Bool) (inum off : ℕ) (src : List ℕ) (s : State)
    → IsSound s
    → s.ip.type ≢ t_dev
    → off ≤ s.ip.size
    → off + length src ≤ maxfile * bsize
    → 2 * blocks off (length src) ≤ clear_of s
    → 6 * blocks off (length src) < log_room s
    → (s' : State) × (writei devsw inum off src s ≡ writes (length src) s')
      × Stored inum off src s s'
writei_lem devsw inum off src s h file low room left log =
    let n = length src in
    elim (write_from_lem n off src s h (omega arith) room (λ _. left) (λ _. omega arith)) [
      | written s1 e h1 g got bytes kept uses no_use ↦
          let others : (c o : ℕ)
              → s.vol.used c ≡ true
              → ((bn : ℕ) → bn < maxfile → block_of bn s ≢ c)
              → c ≢ s.ip.addrs ndirect
              → (s1.vol.used c ≡ true) × (s1.vol.bytes c o ≡ s.vol.bytes c o) =
            λ c o busy not_ours not_indirect.
              (g.still c busy, g.others c o busy not_ours not_indirect) in
          let outside = λ (y : ℕ) (inside : y < s.ip.size) (out : (y < off) ⊎ (off + n ≤ y)).
            kept y (omega (arith, h.short)) out (h.filled (y / bsize) (omega arith)) in
          elim (Bool-cases (ltb 0 n && ltb s1.ip.size (off + n))) [
            | inl grows ↦
                let (some_bytes, longer) = and_parts (ltb 0 n) _ grows in
                let longer' = ltb→lt s1.ip.size (off + n) longer in
                let (l, update) =
                  iupdate_lem inum (off + n) s1
                    (let spent = uses (ltb→lt 0 n some_bytes) in omega arith) in
                let s2 = resized inum (off + n) l s1 in
                let same : (y : ℕ) → byte_at y s2 ≡ byte_at y s1 = λ y.
                  ap (λ c. s1.vol.bytes c (y % bsize))
                    (resized_blocks inum (off + n) l s1 (y / bsize)) in
                (
                  s2,
                  writei_grows devsw inum off src s s1 file low room e s2 grows update,
                  record {
                    sound = resized-IsSound inum (off + n) l s1 h1 room (λ bn inside.
                        elim (Bool-cases (ltb (bn * bsize) s1.ip.size)) [
                          | inl old ↦ h1.filled bn (ltb→lt _ _ old)
                          | inr new ↦
                              got bn (ltb→lt 0 n some_bytes)
                                (omega (arith, ltb→le _ _ new, g.same_size, low)) inside
                        ]);
                    grown = omega (arith, longer', g.same_size);
                    same_type = g.same_type;
                    inside = content-eq src off s2 (λ x inside. same (off + x) ∙ bytes x inside);
                    outside = λ y inside out. same y ∙ outside y inside out;
                    updated = λ _. rw (==_refl inum) refl;
                    other_inodes = λ i ne. rw (ne→== i inum ne) (ap (λ d. d i) g.same_dinode);
                    others = others;
                  },
                )
            | inr stays ↦ (
              s1,
              writei_stays devsw inum off src s s1 file low room e stays,
              record {
                sound = h1;
                grown =
                    not_longer s1.ip.size off n (subst (λ x. off ≤ x) (sym g.same_size) low) stays
                    ∙ ap (λ x. max x (off + n)) g.same_size;
                same_type = g.same_type;
                inside = content-eq src off s1 bytes;
                outside = outside;
                updated = λ longer. absurd (omega (arith, g.same_size));
                other_inodes = λ i ne. ap (λ d. d i) g.same_dinode;
                others = others;
              },
            )
          ]
    ]

-- What `writei` writes, `readi` reads back at once: for a sound inode that is no device, an offset
-- that is at most its size, an end within the longest file, and for each block that `src` touches
-- two free blocks and room in the log for six calls of `log_write`, and for one more, `writei` writes all of `src`, and `readi` of as many bytes at the same offset then
-- gives `src` and changes nothing.
pub writei-readi :
    (devsw : ℕ → Bool) (inum off : ℕ) (src : List ℕ) (s : State)
    → IsSound s
    → s.ip.type ≢ t_dev
    → off ≤ s.ip.size
    → off + length src ≤ maxfile * bsize
    → 2 * blocks off (length src) ≤ clear_of s
    → 6 * blocks off (length src) < log_room s
    → (s' : State) × (writei devsw inum off src s ≡ writes (length src) s')
      × (readi devsw off (length src) s' ≡ reads src s')
writei-readi devsw inum off src s h file low room left log =
    let (s', e, st) = writei_lem devsw inum off src s h file low room left log in
    let n = length src in
    let long = st.grown in
    let cut : min n (s'.ip.size - off) ≡ n = omega (arith, long) in
    (
      s',
      e,
      readi_lem devsw off n s' st.sound (λ z. file (sym st.same_type ∙ z)) (omega (arith, long))
            (omega arith)
          ∙ ap (λ k. reads (content off k s') s') cut
          ∙ ap (λ l. reads l s') st.inside,
    )
