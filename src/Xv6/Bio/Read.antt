-- ===== src/Xv6/Bio/Read.antt =====
-- `bread` of xv6/bio.c gives the block that the cache stands for, and changes none.
use native.Mathlib.Nat.{mod-eq_of_lt}
use asopracticas.Common.{
  and_parts, not_lem, ℕ, ◌+◌, ◌<◌, ◌≡◌, ◌≢◌, refl, sym, ◌∙◌, ap, subst, inl, inr, ◌⊎◌, true, false,
  not, none, some, List, ◌∷◌, ◌++◌, ◌==◌, leb, if◌then◌else◌, Bool-cases, ==→eq, arith, add32,
  u32_mod,
}
use asopracticas.Xv6.Log.{Disk}
use asopracticas.Xv6.Bio.{Buf, Cache, is_for, is_unused, find_first, find_last, bget, iderw, bread}
use asopracticas.Xv6.Bio.Split.{Each, Each-split, Each-map, find_first_lem, find_last_lem}
use asopracticas.Xv6.Bio.View.{
  view_in, view_in_blank, view_in_skip, YieldsTo, IsSynced, IsSound, is_for_eq, is_for_ne,
  is_for_other, IsClear-behind,
}
use asopracticas.Xv6.Bio.PutBack.{Serves, put_back}

module _ (disksize b : ℕ) (disk : Disk) where
  abbrev pub cache : List Buf → Cache
  cache xs = record { bufs = xs; disk = disk }

  -- A buffer just taken that holds nothing is read from the disk.
  iderw-reads :
      (x : Buf)
      → x.valid ≡ false
      → x.dirty ≡ false
      → x.dev ≡ 1
      → x.blockno ≡ b
      → b < disksize
      → iderw disksize x disk ≡ some (record x { content = disk x.blockno; valid = true }, disk)
  unfolding iderw
  iderw-reads x empty clean dev blockno inside =
      let on_disk : leb disksize b ≡ false = ground (arith, inside) in
      rw (iderw, empty, clean, dev, blockno, on_disk) refl

  abbrev pub Served : List Buf → Type 0
  Served bufs =
      (x : Buf) × (c : Cache) × (bread disksize 1 b (cache bufs) ≡ some (x, c))
      × Serves b (cache bufs) x c

  -- A buffer that nobody uses shows no more than the disk does.
  forgotten :
      (before : List Buf) (x : Buf) (behind : List Buf)
      → IsSound (cache (before ++ x ∷ behind))
      → is_unused x ≡ true
      → (b' : ℕ) → b' ≢ b
      → view_in disk (x ∷ behind) b' ≡ view_in disk behind b'
  forgotten before x behind s unused b' ne = elim (Bool-cases (is_for 1 b' x)) [
    | inr other ↦ rw other refl
    | inl here ↦
        let (dev, blockno) = is_for_eq 1 b' x here in
        let (_, (synced, _)) = Each-split (IsSynced disk) before (x ∷ behind) s.synced in
        let (yields, _) = IsClear-behind before x behind s.clear in
        let rest : view_in disk behind b' ≡ disk b' = view_in_blank disk b' behind (
          Each-map (YieldsTo x) (λ y. is_for 1 b' y ≡ true → y.valid ≡ false) behind
            (λ y h h'.
              let (e, e') = is_for_eq 1 b' y h' in (h (dev ∙ sym e) (blockno ∙ sym e')).empty)
            yields) in
        let (idle, clean) = and_parts (x.refcnt == 0) (not x.dirty) unused in
        let now : (if x.valid then x.content else disk b') ≡ disk b' = elim (Bool-cases x.valid) [
          | inl valid ↦
              rw valid
                (synced dev (==→eq x.refcnt 0 idle) valid (not_lem x.dirty clean) ∙ ap disk blockno)
          | inr empty ↦ rw empty refl
        ] in
        rw here (now ∙ sym rest)
  ]

  read_hit :
      (before : List Buf) (x : Buf) (behind : List Buf)
      → IsSound (cache (before ++ x ∷ behind))
      → x.refcnt + 1 < u32_mod
      → b < disksize
      → find_first (is_for 1 b) (before ++ x ∷ behind) ≡ some (before, x, behind)
      → is_for 1 b x ≡ true
      → Each (λ y. is_for 1 b y ≡ false) before
      → Served (before ++ x ∷ behind)
  unfolding bget bread
  read_hit before x behind s bound inside found here fresh =
      let (dev, blockno) = is_for_eq 1 b x here in
      let (yields, _) = IsClear-behind before x behind s.clear in
      let counted : add32 x.refcnt 1 ≡ x.refcnt + 1 = mod-eq_of_lt bound in
      let used : add32 x.refcnt 1 ≢ 0 = λ e. omega (arith, counted, e) in
      let x1 : Buf = record x { refcnt = add32 x.refcnt 1 } in
      let old : (b' : ℕ) → b' ≢ b → view_in disk (x ∷ behind) b' ≡ view_in disk behind b' =
        λ b' ne. rw (is_for_other 1 b' x (λ e. ne (sym e ∙ blockno))) refl in
      let shown : view_in disk (before ++ x ∷ behind) b ≡ (if x.valid then x.content else disk b) =
        view_in_skip disk b before (x ∷ behind) fresh ∙ rw here refl in
      elim (Bool-cases x.valid) [
        | inl valid ↦ (
          x1,
          cache (before ++ x1 ∷ behind),
          rw (bread, bget, found, valid) refl,
          put_back b disk before x behind s x1 fresh yields old (sym (shown ∙ rw valid refl)) valid
              dev blockno used,
        )
        | inr empty ↦
            let (_, (reads, _)) =
              Each-split (λ y. y.dirty ≡ true → y.valid ≡ true) before (x ∷ behind) s.read_before in
            let clean : x.dirty ≡ false = elim (Bool-cases x.dirty) [
              | inl dirty ↦ absurd (let valid = reads dirty in ground arith)
              | inr clean ↦ clean
            ] in
            let x2 : Buf = record x1 { content = disk x.blockno; valid = true } in
            (
              x2,
              cache (before ++ x2 ∷ behind),
              rw (bread, bget, found, iderw-reads x1 empty clean dev blockno inside, empty) refl,
              put_back b disk before x behind s x2 fresh yields old
                  (ap disk blockno ∙ sym (shown ∙ rw empty refl)) refl dev blockno used,
            )
      ]

  read_miss :
      (before : List Buf) (x : Buf) (behind : List Buf)
      → IsSound (cache (before ++ x ∷ behind))
      → b < disksize
      → find_first (is_for 1 b) (before ++ x ∷ behind) ≡ none
      → find_last is_unused (before ++ x ∷ behind) ≡ some (before, x, behind)
      → is_unused x ≡ true
      → Each (λ y. is_for 1 b y ≡ false) (before ++ x ∷ behind)
      → Served (before ++ x ∷ behind)
  unfolding bget bread
  read_miss before x behind s inside missed found unused absent =
      let x1 : Buf = record x { dev = 1; blockno = b; valid = false; dirty = false; refcnt = 1 } in
      let x2 : Buf = record x1 { content = disk b; valid = true } in
      let (fresh, (_, fresh')) =
        Each-split (λ y. is_for 1 b y ≡ false) before (x ∷ behind) absent in
      let yields : Each (YieldsTo x2) behind =
        Each-map (λ y. is_for 1 b y ≡ false) (YieldsTo x2) behind
          (λ y h e e'. absurd (is_for_ne 1 b y h (sym e) (sym e'))) fresh' in
      let shown : view_in disk (before ++ x ∷ behind) b ≡ disk b =
        view_in_blank disk b (before ++ x ∷ behind) (
          Each-map (λ y. is_for 1 b y ≡ false) (λ y. is_for 1 b y ≡ true → y.valid ≡ false)
            (before ++ x ∷ behind) (λ y h h'. absurd (ground (arith, h, h'))) absent) in
      (
        x2,
        cache (before ++ x2 ∷ behind),
        rw (bread, bget, missed, found, iderw-reads x1 refl refl refl refl inside) refl,
        put_back b disk before x behind s x2 fresh yields (forgotten before x behind s unused)
            (sym shown) refl refl refl (omega arith),
      )

  -- In a sound cache whose counts are below their largest, `bread` of a block of the disk panics
  -- only where no buffer is free and the block is in none. Else its caller gets a buffer in use with
  -- the bytes that the cache stood for, the cache stands for the same blocks afterwards, and it is
  -- sound again.
  pub bread_lem :
      (bufs : List Buf)
      → IsSound (cache bufs)
      → Each (λ x. x.refcnt + 1 < u32_mod) bufs
      → b < disksize
      → ((bread disksize 1 b (cache bufs) ≡ none)
          × Each (λ x. is_unused x ≡ false) bufs
          × Each (λ x. is_for 1 b x ≡ false) bufs)
        ⊎ Served bufs
  unfolding bget bread
  bread_lem bufs s bound inside = elim (find_first_lem (is_for 1 b) bufs) [
    | inr ((before, x, behind), found, whole, here, fresh) ↦
        let Bounded : List Buf → Type 0 = Each (λ x. x.refcnt + 1 < u32_mod) in
        inr (
          subst
            (λ l.
              IsSound (cache l)
              → Bounded l
              → find_first (is_for 1 b) l ≡ some (before, x, behind)
              → Served l)
            whole
            (λ s' bound' found'.
              read_hit before x behind s'
                (Each-split (λ x. x.refcnt + 1 < u32_mod) before (x ∷ behind) bound').1.0 inside
                found' here fresh)
            s bound found)
    | inl (missed, absent) ↦ elim (find_last_lem is_unused bufs) [
      | inl (found, busy) ↦ inl (rw (bread, bget, missed, found) refl, busy, absent)
      | inr ((before, x, behind), found, whole, unused) ↦
          let Absent : List Buf → Type 0 = Each (λ x. is_for 1 b x ≡ false) in
          inr (
            subst
              (λ l.
                IsSound (cache l)
                → find_first (is_for 1 b) l ≡ none
                → find_last is_unused l ≡ some (before, x, behind)
                → Absent l
                → Served l)
              whole
              (λ s' missed' found' absent'.
                read_miss before x behind s' inside missed' found' unused absent')
              s missed found absent)
    ]
  ]
