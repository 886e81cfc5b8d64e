-- ===== src/Xv6/Bio/Release.antt =====
-- `brelse` of xv6/bio.c changes the order of the buffers and no block that the cache stands for.
use asopracticas.Common.{
  ℕ, ◌≡◌, ◌≢◌, refl, sym, ◌∙◌, inl, inr, ◌⊎◌, true, false, some, List, [], ◌∷◌, ◌++◌, ◌==◌,
  Bool-cases, ==→eq, ==→ne, sub32,
}
use asopracticas.Xv6.Log.{Disk}
use asopracticas.Xv6.Bio.{Buf, Cache, is_for, find_first, brelse}
use asopracticas.Xv6.Bio.Split.{Each, Each-append, Each-split, Each-map}
use asopracticas.Xv6.Bio.View.{
  view, view_in, view_in_ext, view_in_skip, YieldsTo, IsClear, IsSynced, IsSound, is_for_eq,
  IsClear-behind, IsClear-replace, IsClear-remove,
}

IsClear-before :
    (before : List Buf) (x : Buf) (behind : List Buf)
    → IsClear (before ++ x ∷ behind)
    → Each (λ y. YieldsTo y x) before
IsClear-before [] x behind h = tt
IsClear-before (y ∷ ys) x behind (hy, h) =
    ((Each-split (YieldsTo y) ys (x ∷ behind) hy).1.0, IsClear-before ys x behind h)

module _ (disk : Disk) (before : List Buf) (x : Buf) (behind : List Buf) where
  abbrev pub whole : Cache
  whole = record { bufs = before ++ x ∷ behind; disk = disk }

  abbrev pub left : Buf
  left = record x { refcnt = sub32 x.refcnt 1 }

  -- No buffer in front of one that is in use is for the same block.
  alone : IsSound whole → x.refcnt ≢ 0 → Each (λ y. y.dev ≡ x.dev → y.blockno ≢ x.blockno) before
  alone s used =
      Each-map (λ y. YieldsTo y x) (λ y. y.dev ≡ x.dev → y.blockno ≢ x.blockno) before
        (λ y h e e'. used (h e e').unused) (IsClear-before before x behind s.clear)

  moved_view :
      IsSound whole
      → x.refcnt ≢ 0
      → (b : ℕ) → view_in disk (left ∷ before ++ behind) b ≡ view_in disk (before ++ x ∷ behind) b
  moved_view s used b = elim (Bool-cases (is_for 1 b x)) [
    | inl here ↦
        let (dev, blockno) = is_for_eq 1 b x here in
        let passed : Each (λ y. is_for 1 b y ≡ false) before =
          Each-map (λ y. y.dev ≡ x.dev → y.blockno ≢ x.blockno) (λ y. is_for 1 b y ≡ false) before
            (λ y h. elim (Bool-cases (is_for 1 b y)) [
              | inl same ↦
                  (let (e, e') = is_for_eq 1 b y same in
                    absurd (h (e ∙ sym dev) (e' ∙ sym blockno)))
              | inr other ↦ other
            ])
            (alone s used) in
        rw (here, view_in_skip disk b before (x ∷ behind) passed, here) refl
    | inr other ↦ rw other (view_in_ext disk b before behind (x ∷ behind) (rw other refl))
  ]

  moved-IsSound :
      IsSound whole
      → x.refcnt ≢ 0
      → IsSynced disk left
      → IsSound (record { bufs = left ∷ before ++ behind; disk = disk })
  moved-IsSound s used written =
      let (sb, (_, sa)) = Each-split (IsSynced disk) before (x ∷ behind) s.synced in
      let Read : Buf → Type 0 = λ y. y.dirty ≡ true → y.valid ≡ true in
      let (rb, (rx, ra)) = Each-split Read before (x ∷ behind) s.read_before in
      let in_front : Each (YieldsTo left) before =
        Each-map (λ y. y.dev ≡ x.dev → y.blockno ≢ x.blockno) (YieldsTo left) before
          (λ y h e e'. absurd (h (sym e) (sym e'))) (alone s used) in
      record {
        clear = (
          Each-append (YieldsTo left) before behind in_front
              (IsClear-behind before x behind s.clear).0,
          IsClear-remove before x behind s.clear,
        );
        synced = (written, Each-append (IsSynced disk) before behind sb sa);
        read_before = (rx, Each-append Read before behind rb ra);
      }

  kept-IsSound :
      IsSound whole
      → x.refcnt ≢ 0
      → left.refcnt ≢ 0
      → IsSound (record { bufs = before ++ left ∷ behind; disk = disk })
  kept-IsSound s used still =
      let (sb, (_, sa)) = Each-split (IsSynced disk) before (x ∷ behind) s.synced in
      let Read : Buf → Type 0 = λ y. y.dirty ≡ true → y.valid ≡ true in
      let (rb, (rx, ra)) = Each-split Read before (x ∷ behind) s.read_before in
      record {
        clear =
            IsClear-replace before x left behind s.clear
              (Each-map (λ y. YieldsTo y x) (λ y. YieldsTo y left) before
                (λ y h e e'. absurd (used (h e e').unused))
                (IsClear-before before x behind s.clear))
              (IsClear-behind before x behind s.clear).0;
        synced =
            Each-append (IsSynced disk) before (left ∷ behind) sb
              ((λ _ unused. absurd (still unused)), sa);
        read_before = Each-append Read before (left ∷ behind) rb (rx, ra);
      }

  -- In a sound cache, `brelse` of a buffer in use whose bytes are on the disk, or that is marked
  -- dirty, or that another caller still uses: the cache stands for the same blocks afterwards, and
  -- is sound again; the buffer is the first of the list if this was its last use, else the order
  -- stays.
  pub brelse_lem :
      (address : ℕ)
      → find_first (λ y. y.address == address) (before ++ x ∷ behind) ≡ some (before, x, behind)
      → IsSound whole
      → x.refcnt ≢ 0
      → IsSynced disk left
      → (c : Cache) × (brelse address whole ≡ some c)
        × ((b : ℕ) → view c b ≡ view whole b)
        × IsSound c
        × ((left.refcnt ≡ 0) × (c.bufs ≡ left ∷ before ++ behind)
            ⊎ (left.refcnt ≢ 0) × (c.bufs ≡ before ++ left ∷ behind))
  unfolding brelse
  brelse_lem address found s used written = elim (Bool-cases (left.refcnt == 0)) [
    | inl last ↦ (
      record { bufs = left ∷ before ++ behind; disk = disk },
      rw (brelse, found, last) refl,
      moved_view s used,
      moved-IsSound s used written,
      inl (==→eq left.refcnt 0 last, refl),
    )
    | inr more ↦ (
      record { bufs = before ++ left ∷ behind; disk = disk },
      rw (brelse, found, more) refl,
      (λ b. view_in_ext disk b before (left ∷ behind) (x ∷ behind) refl),
      kept-IsSound s used (==→ne left.refcnt 0 more),
      inr (==→ne left.refcnt 0 more, refl),
    )
  ]
