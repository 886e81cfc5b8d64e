-- ===== src/Xv6/Inode/Bmap.antt =====
-- `bmap` of xv6/fs.c.
use asopracticas.Common.{
  ℕ, ◌+◌, ◌-◌, ◌^◌, ◌≤◌, ◌<◌, ◌≡◌, ◌≢◌, refl, sym, ◌∙◌, ap, subst, true, false, some, ◌==◌, ltb,
  Bool-cases, ==→eq, ==→ne, ne→==, ==_refl, arith, inl, inr, ltb→lt, ltb→le, lt→ltb, le→ltb,
}
use asopracticas.Xv6.Inode.{
  Volume, State, ndirect, nindirect, maxfile, word_at, set_word, set_block, set_addr, direct,
  indirect, bmap,
}
use asopracticas.Xv6.Log.{Log}
use asopracticas.Xv6.Log.Ops.Room.{room_of}
use asopracticas.Xv6.Inode.Words.{word_at-set_word, word_at-set_word_ne, word_at-zero}
use asopracticas.Xv6.Inode.Blocks.{clear_count, log_buffer_lem, balloc_lem, taken}
use asopracticas.Xv6.Inode.Layout.{
  block_of, block_low, block_absent, block_high, block_same, IsSound, Grows, Grows-refl,
  Grows-trans, unlike,
}
use asopracticas.Xv6.Inode.Extend.{
  data_block-IsSound, data_block-Grows, indirect_block-IsSound, indirect_block-Grows,
}

abbrev pub clear_of : State → ℕ
clear_of s = clear_count s.vol.size s.vol.used

-- How many calls of `log_write` are certain not to panic.
abbrev pub log_room : State → ℕ
log_room s = room_of s.vol.log

-- All blocks in use but the indirect one keep their bytes.
abbrev pub Keeps : State → State → Type 0
Keeps s s' =
    (c o : ℕ) → s.vol.used c ≡ true → c ≢ s.ip.addrs ndirect → s'.vol.bytes c o ≡ s.vol.bytes c o

pub Keeps-trans : (s t u : State) → Grows s t → Keeps s t → Keeps t u → Keeps s u
Keeps-trans s t u g k k' c o busy ne =
    k' c o (g.still c busy) (elim g.comes_indirect [
      | inl same ↦ (λ e. ne (e ∙ same))
      | inr clear ↦ unlike s.vol.used (t.ip.addrs ndirect) c clear busy
    ])
    ∙ k c o busy ne

taken-keeps : (b c o : ℕ) (l : Log) (v : Volume) → c ≢ b → (taken b l v).bytes c o ≡ v.bytes c o
taken-keeps b c o l v ne = rw (ne→== c b ne) refl

module _ (s : State) (h : IsSound s) (left : 0 < clear_of s) (room : 2 ≤ log_room s) where
  -- An entry of `addrs`, below NDIRECT.
  direct_lem :
      (bn : ℕ)
      → bn < ndirect
      → s.ip.addrs bn ≡ 0
      → (s' : State) × (direct bn s ≡ some (block_of bn s', s'))
        × (block_of bn s' ≢ 0)
        × IsSound s'
        × Grows s s'
        × Keeps s s'
        × (clear_of s' + 1 ≡ clear_of s)
        × (log_room s ≤ log_room s' + 2)
  unfolding direct
  direct_lem bn low absent =
      let (b, l, e, _, clear, count, used_room) = balloc_lem s.vol left room in
      let s' : State = record { ip = set_addr bn b s.ip; vol = taken b l s.vol } in
      let unlike_b = unlike s.vol.used b in
      let at : block_of bn s' ≡ b = block_low bn s' low ∙ rw (==_refl bn) refl in
      let keeps : Keeps s s' = λ c o busy _. taken-keeps b c o l s.vol (unlike_b c clear busy) in
      let same : s'.ip.addrs ndirect ≡ s.ip.addrs ndirect =
        rw (ne→== ndirect bn (λ e. absurd (omega arith))) refl in
      let rest : (n : ℕ) → n ≢ bn → block_of n s' ≡ block_of n s = λ n ne.
        block_same n s s' (λ _. rw (ne→== n bn ne) refl) same
          (λ _.
            ap (λ t. word_at t (n - ndirect))
              (rw (ne→== _ b (unlike_b _ clear h.held_indirect)) refl)) in
      let none_there = block_low bn s low ∙ absent in
      (
        s',
        rw (direct, absent, e) (ap (λ x. some (x, s')) (sym at)),
        (λ z. unlike_b 0 clear h.boot_block (sym z ∙ at)),
        data_block-IsSound s s' b h clear refl refl refl refl refl keeps bn (omega arith) none_there
            at rest same,
        data_block-Grows s s' b h clear refl refl refl refl refl keeps bn (omega arith) none_there
            at rest same,
        keeps,
        count,
        used_room,
      )

  -- The indirect block.
  new_indirect_lem :
      s.ip.addrs ndirect ≡ 0
      → (s' : State) × (direct ndirect s ≡ some (s'.ip.addrs ndirect, s'))
        × (s'.ip.addrs ndirect ≢ 0)
        × IsSound s'
        × Grows s s'
        × Keeps s s'
        × (clear_of s' + 1 ≡ clear_of s)
        × (log_room s ≤ log_room s' + 2)
        × ((n : ℕ) → block_of n s' ≡ block_of n s)
  unfolding direct
  new_indirect_lem absent =
      let (b, l, e, _, clear, count, used_room) = balloc_lem s.vol left room in
      let s' : State = record { ip = set_addr ndirect b s.ip; vol = taken b l s.vol } in
      let unlike_b = unlike s.vol.used b in
      let at : s'.ip.addrs ndirect ≡ b = refl in
      let some_b : b ≢ 0 = λ z. unlike_b 0 clear h.boot_block (sym z) in
      let keeps : Keeps s s' = λ c o busy _. taken-keeps b c o l s.vol (unlike_b c clear busy) in
      let rest : (n : ℕ) → block_of n s' ≡ block_of n s = λ n. elim (Bool-cases (ltb n ndirect)) [
        | inl below ↦
            let low = ltb→lt n ndirect below in
            block_low n s' low
            ∙ rw (ne→== n ndirect (λ z. absurd (omega arith))) refl
            ∙ sym (block_low n s low)
        | inr above ↦
            let high = ltb→le n ndirect above in
            block_high n s' high some_b
            ∙ ap (λ t. word_at t (n - ndirect)) (rw (==_refl b) refl)
            ∙ word_at-zero (n - ndirect)
            ∙ sym (block_absent n s high absent)
      ] in
      (
        s',
        rw (direct, absent, e) refl,
        some_b,
        indirect_block-IsSound s s' b h clear refl refl refl refl refl keeps rest at,
        indirect_block-Grows s s' b h clear refl refl refl refl refl keeps rest at,
        keeps,
        count,
        used_room,
        rest,
      )

  -- A word of the indirect block.
  indirect_lem :
      (i : ℕ)
      → 3 ≤ log_room s
      → i < nindirect
      → s.ip.addrs ndirect ≢ 0
      → word_at (s.vol.bytes (s.ip.addrs ndirect)) i ≡ 0
      → (s' : State) × (indirect (s.ip.addrs ndirect) i s ≡ some (block_of (ndirect + i) s', s'))
        × (block_of (ndirect + i) s' ≢ 0)
        × IsSound s'
        × Grows s s'
        × Keeps s s'
        × (clear_of s' + 1 ≡ clear_of s)
        × (log_room s ≤ log_room s' + 3)
  unfolding indirect
  indirect_lem i more_room low there absent =
      let x = s.ip.addrs ndirect in
      let bn = ndirect + i in
      let (b, l, e, in_volume, clear, count, used_room) = balloc_lem s.vol left room in
      let v = taken b l s.vol in
      let (l', logged, room') =
        log_buffer_lem x (set_block x (set_word (v.bytes x) i b) v) (omega arith) in
      let s' : State = record s {
        vol = record (set_block x (set_word (v.bytes x) i b) v) { log = l' };
      } in
      let unlike_b = unlike s.vol.used b in
      let x_ne_b : x ≢ b = unlike_b x clear h.held_indirect in
      let x_same : v.bytes x ≡ s.vol.bytes x = rw (ne→== x b x_ne_b) refl in
      let back : bn - ndirect ≡ i = omega arith in
      let word : b < 2 ^ 32 = omega (arith, h.fits, in_volume) in
      let here_x : s'.vol.bytes x ≡ set_word (v.bytes x) i b = rw (==_refl x) refl in
      let at : block_of bn s' ≡ b =
        block_high bn s' (omega arith) there
        ∙ ap (λ t. word_at t (bn - ndirect)) here_x
        ∙ ap (word_at (set_word (v.bytes x) i b)) back
        ∙ word_at-set_word (v.bytes x) i b word in
      let none_there : block_of bn s ≡ 0 =
        block_high bn s (omega arith) there ∙ ap (word_at (s.vol.bytes x)) back ∙ absent in
      let keeps : Keeps s s' =
        λ c o busy ne. rw (ne→== c x ne) (taken-keeps b c o l s.vol (unlike_b c clear busy)) in
      let rest : (n : ℕ) → n ≢ bn → block_of n s' ≡ block_of n s = λ n ne.
        block_same n s s' (λ _. refl) refl
          (λ high.
            ap (λ t. word_at t (n - ndirect)) here_x
            ∙ word_at-set_word_ne (v.bytes x) i (n - ndirect) b (λ z. ne (omega arith))
            ∙ ap (λ t. word_at t (n - ndirect)) x_same) in
      (
        s',
        rw (indirect, absent, e, logged) (ap (λ y. some (y, s')) (sym at)),
        (λ z. unlike_b 0 clear h.boot_block (sym z ∙ at)),
        data_block-IsSound s s' b h clear refl refl refl refl refl keeps bn (omega arith) none_there
            at rest refl,
        data_block-Grows s s' b h clear refl refl refl refl refl keeps bn (omega arith) none_there
            at rest refl,
        keeps,
        count,
        omega (arith, used_room, room'),
      )

-- What `bmap` does for a block of the content, with two blocks and the room in the log left.
pub data Mapped (bn : ℕ) (s : State) : Type 0 where
  mapped :
      (s' : State)
      → bmap bn s ≡ some (block_of bn s', s')
      → block_of bn s' ≢ 0
      → IsSound s'
      → Grows s s'
      → Keeps s s'
      → clear_of s ≤ clear_of s' + 2
      → log_room s ≤ log_room s' + 5
      → Mapped bn s

-- A block that is there is found, and nothing changes.
pub bmap_there :
    (bn : ℕ) (s : State) → bn < maxfile → block_of bn s ≢ 0 → bmap bn s ≡ some (block_of bn s, s)
unfolding bmap direct indirect
bmap_there bn s below there = elim (Bool-cases (ltb bn ndirect)) [
  | inl low ↦
      let e = block_low bn s (ltb→lt _ _ low) in
      rw (bmap, low, ne→== (s.ip.addrs bn) 0 (λ z. there (e ∙ z))) (ap (λ x. some (x, s)) (sym e))
  | inr high ↦
      let high' = ltb→le _ _ high in
      let x_there : s.ip.addrs ndirect ≢ 0 = λ z. there (block_absent bn s high' z) in
      let e = block_high bn s high' x_there in
      let in_range : ltb (bn - ndirect) nindirect ≡ true = lt→ltb _ _ (omega arith) in
      rw (bmap, high, in_range, ne→== _ _ x_there, ne→== _ 0 (λ z. there (e ∙ z)))
        (ap (λ x. some (x, s)) (sym e))
]

bmap_behind :
    (i x : ℕ) (s t : State)
    → i < nindirect
    → direct ndirect s ≡ some (x, t)
    → bmap (ndirect + i) s ≡ indirect x i t
unfolding bmap
bmap_behind i x s t low e =
    let back : ndirect + i - ndirect ≡ i = omega arith in
    let high : ltb (ndirect + i) ndirect ≡ false = le→ltb _ _ (omega arith) in
    let in_range : ltb i nindirect ≡ true = lt→ltb _ _ low in
    rw (bmap, high, back, in_range, e) refl

-- The part of `bmap` behind the direct blocks, once the indirect block is there in `t`.
behind_lem :
    (i : ℕ) (s t : State)
    → i < nindirect
    → direct ndirect s ≡ some (t.ip.addrs ndirect, t)
    → t.ip.addrs ndirect ≢ 0
    → IsSound t
    → block_of (ndirect + i) t ≡ 0
    → 0 < clear_of t
    → 3 ≤ log_room t
    → (s' : State) × (bmap (ndirect + i) s ≡ some (block_of (ndirect + i) s', s'))
      × (block_of (ndirect + i) s' ≢ 0)
      × IsSound s'
      × Grows t s'
      × Keeps t s'
      × (clear_of s' + 1 ≡ clear_of t)
      × (log_room t ≤ log_room s' + 3)
behind_lem i s t low e there h absent left room =
    let back : ndirect + i - ndirect ≡ i = omega arith in
    let none_there : word_at (t.vol.bytes (t.ip.addrs ndirect)) i ≡ 0 =
      ap (word_at (t.vol.bytes (t.ip.addrs ndirect))) (sym back)
      ∙ sym (block_high (ndirect + i) t (omega arith) there)
      ∙ absent in
    let (s', e', nz, h', g, k, count, used_room) =
      indirect_lem t h left (omega arith) i room low there none_there in
    (s', bmap_behind i (t.ip.addrs ndirect) s t low e ∙ e', nz, h', g, k, count, used_room)

high_lem :
    (i : ℕ) (s : State)
    → IsSound s
    → i < nindirect
    → block_of (ndirect + i) s ≡ 0
    → 2 ≤ clear_of s
    → 5 ≤ log_room s
    → Mapped (ndirect + i) s
unfolding direct
high_lem i s h low absent left room = elim (Bool-cases (s.ip.addrs ndirect == 0)) [
  | inr there ↦
      let nz = ==→ne _ _ there in
      let (s', e, some_block, h', g, k, count, used_room) =
        behind_lem i s s low (rw (direct, there) refl) nz h absent (omega arith) (omega arith) in
      mapped s' e some_block h' g k (omega arith) (omega arith)
  | inl none_there ↦
      let (t, e, nz, ht, gt, kt, count, used_t, rest) =
        new_indirect_lem s h (omega arith) (omega arith) (==→eq _ _ none_there) in
      let (s', e', some_block, h', g, k, count', used_s) =
        behind_lem i s t low e nz ht (rest (ndirect + i) ∙ absent) (omega arith) (omega arith) in
      mapped s' e' some_block h' (Grows-trans gt g) (Keeps-trans s t s' gt kt k) (omega arith)
        (omega arith)
]

pub bmap_lem :
    (bn : ℕ) (s : State) → IsSound s → bn < maxfile → 2 ≤ clear_of s → 5 ≤ log_room s → Mapped bn s
unfolding bmap
bmap_lem bn s h below left room = elim (Bool-cases (block_of bn s == 0)) [
  | inr there ↦
      let nz = ==→ne _ _ there in
      mapped s (bmap_there bn s below nz) nz h (Grows-refl s) (λ c o _ _. refl) (omega arith)
        (omega arith)
  | inl absent ↦
      let z = ==→eq _ _ absent in
      elim (Bool-cases (ltb bn ndirect)) [
        | inl low ↦
            let low' = ltb→lt bn ndirect low in
            let (s', e, nz, h', g, k, count, used_room) =
              direct_lem s h (omega arith) (omega arith) bn low' (sym (block_low bn s low') ∙ z) in
            mapped s' (rw (bmap, low) e) nz h' g k (omega arith) (omega arith)
        | inr high ↦
            let high' = ltb→le bn ndirect high in
            let split : ndirect + (bn - ndirect) ≡ bn = omega arith in
            subst (λ n. Mapped n s) split
              (high_lem (bn - ndirect) s h (omega arith) (ap (λ n. block_of n s) split ∙ z) left
                room)
      ]
]
