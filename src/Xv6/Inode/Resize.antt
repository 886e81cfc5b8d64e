-- ===== src/Xv6/Inode/Resize.antt =====
-- The end of `writei` of xv6/fs.c, which sets the size and writes the inode through.
use asopracticas.Common.{
  ℕ, ◌+◌, ◌*◌, ◌/◌, ◌≤◌, ◌<◌, ◌≡◌, ◌≢◌, refl, sym, ◌∙◌, ap, Bool, true, false, some, ◌||◌, ◌&&◌,
  ltb, ne→==, arith, List, length, le→ltb, add32,
}
use asopracticas.Xv6.Inode.{
  State, bsize, maxfile, t_dev, writei, write_from, writes, put, ipb, iupdate, set_size,
}
use asopracticas.Xv6.Inode.Layout.{block_of, block_same, IsSound}
use asopracticas.Xv6.Log.{Log}
use asopracticas.Xv6.Inode.Blocks.{log_buffer_lem}
use asopracticas.Xv6.Inode.Bmap.{log_room}

-- The state with a new size that is written through to the disk, and the log `l`.
abbrev pub resized : ℕ → ℕ → Log → State → State
resized inum n l s =
    let s' = set_size n s in
    record s' { vol = record s'.vol { dinode = put s'.vol.dinode inum s'.ip; log = l } }

pub resized_blocks :
    (inum n : ℕ) (l : Log) (s : State) (bn : ℕ) → block_of bn (resized inum n l s) ≡ block_of bn s
resized_blocks inum n l s bn = block_same bn s (resized inum n l s) (λ _. refl) refl (λ _. refl)

pub iupdate_lem :
    (inum n : ℕ) (s : State)
    → 0 < log_room s
    → (l : Log) × (iupdate inum (set_size n s) ≡ some (resized inum n l s))
unfolding iupdate
iupdate_lem inum n s room =
    let s' = set_size n s in
    let (l, e, _) =
      log_buffer_lem (inum / ipb + s'.vol.inodestart)
        (record s'.vol { dinode = put s'.vol.dinode inum s'.ip }) room in
    (l, rw (iupdate, e) refl)

pub resized-IsSound :
    (inum n : ℕ) (l : Log) (s : State)
    → IsSound s
    → n ≤ maxfile * bsize
    → ((bn : ℕ) → bn * bsize < n → block_of bn s ≢ 0)
    → IsSound (resized inum n l s)
resized-IsSound inum n l s h room filled =
    let same = resized_blocks inum n l s in
    record {
      boot_block = h.boot_block;
      fits = h.fits;
      held = λ bn low. ap s.vol.used (same bn) ∙ h.held bn low;
      held_indirect = h.held_indirect;
      apart = λ bn bn' low low' there e.
          h.apart bn bn' low low' (λ z. there (same bn ∙ z)) (sym (same bn) ∙ e ∙ same bn');
      apart_indirect =
          λ bn low there e. h.apart_indirect bn low (λ z. there (same bn ∙ z)) (sym (same bn) ∙ e);
      filled = λ bn low z. filled bn low (sym (same bn) ∙ z);
      short = room;
    }

-- How `writei` ends, for what its loop and `iupdate` do.
module _ (devsw : ℕ → Bool) (inum off : ℕ) (src : List ℕ) (s s1 : State) (file : s.ip.type ≢ t_dev)
    (low : off ≤ s.ip.size) (room : off + length src ≤ maxfile * bsize)
    (loop : write_from (length src) off src s ≡ some s1) where
  pub writei_grows :
      (s2 : State)
      → ltb 0 (length src) && ltb s1.ip.size (off + length src) ≡ true
      → iupdate inum (set_size (off + length src) s1) ≡ some s2
      → writei devsw inum off src s ≡ writes (length src) s2
  unfolding writei
  writei_grows s2 grows update =
      let whole : add32 off (length src) ≡ off + length src = omega arith in
      let ok : ltb s.ip.size off || ltb (off + length src) off ≡ false =
        rw (le→ltb off s.ip.size low, le→ltb off (off + length src) (omega arith)) refl in
      rw (writei, ne→== _ _ file, whole, ok, le→ltb _ _ room, loop, grows, update) refl

  pub writei_stays :
      ltb 0 (length src) && ltb s1.ip.size (off + length src) ≡ false
      → writei devsw inum off src s ≡ writes (length src) s1
  unfolding writei
  writei_stays stays =
      let whole : add32 off (length src) ≡ off + length src = omega arith in
      let ok : ltb s.ip.size off || ltb (off + length src) off ≡ false =
        rw (le→ltb off s.ip.size low, le→ltb off (off + length src) (omega arith)) refl in
      rw (writei, ne→== _ _ file, whole, ok, le→ltb _ _ room, loop, stays) refl
