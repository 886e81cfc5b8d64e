-- ===== src/Xv6/Inode/Layout.antt =====
-- Which blocks an inode of xv6/fs.c has.
use asopracticas.Common.{
  ℕ, ◌-◌, ◌*◌, ◌/◌, ◌%◌, ◌^◌, ◌≤◌, ◌<◌, ◌≡◌, ◌≢◌, refl, sym, ◌∙◌, ap, Bool, true, false, ◌==◌, ltb,
  if◌then◌else◌, Bool-cases, ==→eq, ==→ne, ne→==, inl, inr, ◌⊎◌, ltb→lt, ltb→le, lt→ltb, le→ltb,
}
use asopracticas.Xv6.Inode.{State, bsize, ndirect, maxfile, word_at}

-- The block `bn` of the content, or 0.
pub block_of : ℕ → State → ℕ
block_of bn s =
    if ltb bn ndirect
    then s.ip.addrs bn
    else if s.ip.addrs ndirect == 0
    then 0
    else word_at (s.vol.bytes (s.ip.addrs ndirect)) (bn - ndirect)

pub block_low : (bn : ℕ) (s : State) → bn < ndirect → block_of bn s ≡ s.ip.addrs bn
unfolding block_of
block_low bn s low = rw (block_of, lt→ltb bn ndirect low) refl

pub block_absent : (bn : ℕ) (s : State) → ndirect ≤ bn → s.ip.addrs ndirect ≡ 0 → block_of bn s ≡ 0
unfolding block_of
block_absent bn s high none_there = rw (block_of, le→ltb ndirect bn high, none_there) refl

pub block_high :
    (bn : ℕ) (s : State)
    → ndirect ≤ bn
    → s.ip.addrs ndirect ≢ 0
    → block_of bn s ≡ word_at (s.vol.bytes (s.ip.addrs ndirect)) (bn - ndirect)
unfolding block_of
block_high bn s high there = rw (block_of, le→ltb ndirect bn high, ne→== _ _ there) refl

-- Blocks that stay when the entries of `addrs` and the indirect block do.
pub block_same :
    (bn : ℕ) (s s' : State)
    → (bn < ndirect → s'.ip.addrs bn ≡ s.ip.addrs bn)
    → s'.ip.addrs ndirect ≡ s.ip.addrs ndirect
    → (ndirect ≤ bn
        → word_at (s'.vol.bytes (s.ip.addrs ndirect)) (bn - ndirect)
          ≡ word_at (s.vol.bytes (s.ip.addrs ndirect)) (bn - ndirect))
    → block_of bn s' ≡ block_of bn s
block_same bn s s' low same words = elim (Bool-cases (ltb bn ndirect)) [
  | inl below ↦
      let b = ltb→lt bn ndirect below in block_low bn s' b ∙ low b ∙ sym (block_low bn s b)
  | inr above ↦
      let high = ltb→le bn ndirect above in
      elim (Bool-cases (s.ip.addrs ndirect == 0)) [
        | inl absent ↦
            let z = ==→eq _ _ absent in
            block_absent bn s' high (same ∙ z) ∙ sym (block_absent bn s high z)
        | inr there ↦
            let nz = ==→ne _ _ there in
            block_high bn s' high (λ z. nz (sym same ∙ z))
            ∙ ap (λ x. word_at (s'.vol.bytes x) (bn - ndirect)) same
            ∙ words high
            ∙ sym (block_high bn s high nz)
      ]
]

-- Byte `x` of the content.
abbrev pub byte_at : ℕ → State → ℕ
byte_at x s = s.vol.bytes (block_of (x / bsize) s) (x % bsize)

pub record IsSound (s : State) : Type 0 where
  pub boot_block : s.vol.used 0 ≡ true
  pub fits : s.vol.size ≤ 2 ^ 32
  pub held : (bn : ℕ) → bn < maxfile → s.vol.used (block_of bn s) ≡ true
  pub held_indirect : s.vol.used (s.ip.addrs ndirect) ≡ true
  pub apart :
      (bn bn' : ℕ)
      → bn < maxfile
      → bn' < maxfile
      → block_of bn s ≢ 0
      → block_of bn s ≡ block_of bn' s
      → bn ≡ bn'
  pub apart_indirect :
      (bn : ℕ) → bn < maxfile → block_of bn s ≢ 0 → block_of bn s ≢ s.ip.addrs ndirect
  pub filled : (bn : ℕ) → bn * bsize < s.ip.size → block_of bn s ≢ 0
  pub short : s.ip.size ≤ maxfile * bsize

-- What a step within the inode leaves alone.
pub record Grows (s s' : State) : Type 0 where
  pub same_type : s'.ip.type ≡ s.ip.type
  pub same_size : s'.ip.size ≡ s.ip.size
  pub same_volume : s'.vol.size ≡ s.vol.size
  pub same_dinode : s'.vol.dinode ≡ s.vol.dinode
  pub stays : (bn : ℕ) → bn < maxfile → block_of bn s ≢ 0 → block_of bn s' ≡ block_of bn s
  pub still : (c : ℕ) → s.vol.used c ≡ true → s'.vol.used c ≡ true
  pub comes :
      (bn : ℕ)
      → bn < maxfile
      → (block_of bn s' ≡ block_of bn s) ⊎ (s.vol.used (block_of bn s') ≡ false)
  pub comes_indirect :
      (s'.ip.addrs ndirect ≡ s.ip.addrs ndirect) ⊎ (s.vol.used (s'.ip.addrs ndirect) ≡ false)
  -- Other blocks in use keep their bytes.
  pub others :
      (c o : ℕ)
      → s.vol.used c ≡ true
      → ((bn : ℕ) → bn < maxfile → block_of bn s ≢ c)
      → c ≢ s.ip.addrs ndirect
      → s'.vol.bytes c o ≡ s.vol.bytes c o

pub Grows-refl : (s : State) → Grows s s
Grows-refl s = record {
  same_type = refl;
  same_size = refl;
  same_volume = refl;
  same_dinode = refl;
  stays = λ bn _ _. refl;
  still = λ c u. u;
  comes = λ bn _. inl refl;
  comes_indirect = inl refl;
  others = λ c o _ _ _. refl;
}

-- A block that was not in use is none that was.
pub unlike : (used : ℕ → Bool) (b c : ℕ) → used b ≡ false → used c ≡ true → c ≢ b
unlike used b c clear busy e = let clear' : used c ≡ false = ap used e ∙ clear in cc

pub Grows-trans : {s t u : State} → Grows s t → Grows t u → Grows s u
Grows-trans {s} {t} {u} g h = record {
  same_type = h.same_type ∙ g.same_type;
  same_size = h.same_size ∙ g.same_size;
  same_volume = h.same_volume ∙ g.same_volume;
  same_dinode = h.same_dinode ∙ g.same_dinode;
  stays = λ bn below some_block.
      let e = g.stays bn below some_block in h.stays bn below (λ z. some_block (sym e ∙ z)) ∙ e;
  still = λ c busy. h.still c (g.still c busy);
  comes = λ bn below. elim (h.comes bn below) [
    | inl same ↦ elim (g.comes bn below) [
      | inl same' ↦ inl (same ∙ same')
      | inr clear ↦ inr (ap s.vol.used same ∙ clear)
    ]
    | inr clear ↦ inr (was_clear (block_of bn u) clear)
  ];
  comes_indirect = elim h.comes_indirect [
    | inl same ↦ elim g.comes_indirect [
      | inl same' ↦ inl (same ∙ same')
      | inr clear ↦ inr (ap s.vol.used same ∙ clear)
    ]
    | inr clear ↦ inr (was_clear (u.ip.addrs ndirect) clear)
  ];
  others = λ c o busy not_ours not_indirect.
      h.others c o (g.still c busy)
        (λ bn below. elim (g.comes bn below) [
          | inl same ↦ (λ e. not_ours bn below (sym same ∙ e))
          | inr clear ↦ (λ e. unlike s.vol.used (block_of bn t) c clear busy (sym e))
        ])
        (elim g.comes_indirect [
          | inl same ↦ (λ e. not_indirect (e ∙ same))
          | inr clear ↦ unlike s.vol.used (t.ip.addrs ndirect) c clear busy
        ])
      ∙ g.others c o busy not_ours not_indirect;
}
  where
    was_clear : (c : ℕ) → t.vol.used c ≡ false → s.vol.used c ≡ false
    was_clear c clear = elim (Bool-cases (s.vol.used c)) [
      | inl busy ↦ (let busy' = g.still c busy in cc)
      | inr free ↦ free
    ]
