-- ===== src/Xv6/Inode/Extend.antt =====
-- An inode of xv6/fs.c gets a block that was not in use.
use asopracticas.Common.{
  ℕ, ◌*◌, ◌^◌, ◌≤◌, ◌<◌, ◌≡◌, ◌≢◌, refl, sym, ◌∙◌, ap, subst, Bool, true, false, ◌==◌, Bool-cases,
  ==→eq, ==→ne, ==_refl, inl, inr, ◌⊎◌,
}
use asopracticas.Xv6.Inode.{State, bsize, ndirect, maxfile, put}
use asopracticas.Xv6.Inode.Layout.{block_of, IsSound, Grows, unlike}

put-still : (used : ℕ → Bool) (b c : ℕ) → used c ≡ true → put used b true c ≡ true
put-still used b c busy = elim (Bool-cases (c == b)) [
  | inl same ↦ rw same refl
  | inr other ↦ rw other busy
]

put_here : (used : ℕ → Bool) (b : ℕ) → put used b true b ≡ true
put_here used b = rw (==_refl b) refl

module _ (s s' : State) (b : ℕ) (h : IsSound s) (clear : s.vol.used b ≡ false)
    (marked : s'.vol.used ≡ put s.vol.used b true) (volume : s'.vol.size ≡ s.vol.size)
    (type : s'.ip.type ≡ s.ip.type) (size : s'.ip.size ≡ s.ip.size)
    (dinode : s'.vol.dinode ≡ s.vol.dinode)
    (kept : (c o : ℕ)
      → s.vol.used c ≡ true
      → c ≢ s.ip.addrs ndirect
      → s'.vol.bytes c o ≡ s.vol.bytes c o) where
  still_used : (c : ℕ) → s.vol.used c ≡ true → s'.vol.used c ≡ true
  still_used c busy = rw marked (put-still s.vol.used b c busy)

  now_used : s'.vol.used b ≡ true
  now_used = rw marked (put_here s.vol.used b)

  module _ (bn : ℕ) (below : bn < maxfile) (absent : block_of bn s ≡ 0) (added : block_of bn s' ≡ b)
      (rest : (n : ℕ) → n ≢ bn → block_of n s' ≡ block_of n s)
      (indirect : s'.ip.addrs ndirect ≡ s.ip.addrs ndirect) where
    block_cases :
        (n : ℕ) → ((n ≡ bn) × (block_of n s' ≡ b)) ⊎ ((n ≢ bn) × (block_of n s' ≡ block_of n s))
    block_cases n = elim (Bool-cases (n == bn)) [
      | inl same ↦ (let e = ==→eq n bn same in inl (e, ap (λ m. block_of m s') e ∙ added))
      | inr other ↦ (let ne = ==→ne n bn other in inr (ne, rest n ne))
    ]

    pub data_block-IsSound : IsSound s'
    data_block-IsSound = record {
      boot_block = still_used 0 h.boot_block;
      fits = subst (λ x. x ≤ 2 ^ 32) (sym volume) h.fits;
      held = λ n low. elim (block_cases n) [
        | inl (_, e) ↦ ap s'.vol.used e ∙ now_used
        | inr (_, e) ↦ ap s'.vol.used e ∙ still_used _ (h.held n low)
      ];
      held_indirect = ap s'.vol.used indirect ∙ still_used _ h.held_indirect;
      apart = λ n n' low low' some_block same. elim (block_cases n) [
        | inl (at, e) ↦ elim (block_cases n') [
          | inl (at', _) ↦ at ∙ sym at'
          | inr (_, e') ↦
              absurd
                (unlike s.vol.used b (block_of n' s) clear (h.held n' low') (sym e' ∙ sym same ∙ e))
        ]
        | inr (_, e) ↦ elim (block_cases n') [
          | inl (_, e') ↦
              absurd (unlike s.vol.used b (block_of n s) clear (h.held n low) (sym e ∙ same ∙ e'))
          | inr (_, e') ↦ h.apart n n' low low' (λ z. some_block (e ∙ z)) (sym e ∙ same ∙ e')
        ]
      ];
      apart_indirect = λ n low some_block same. elim (block_cases n) [
        | inl (_, e) ↦
            unlike s.vol.used b (s.ip.addrs ndirect) clear h.held_indirect
              (sym indirect ∙ sym same ∙ e)
        | inr (_, e) ↦ h.apart_indirect n low (λ z. some_block (e ∙ z)) (sym e ∙ same ∙ indirect)
      ];
      filled = λ n low. elim (block_cases n) [
        | inl (_, e) ↦ (λ z. unlike s.vol.used b 0 clear h.boot_block (sym z ∙ e))
        | inr (_, e) ↦ (λ z. h.filled n (subst (λ x. n * bsize < x) size low) (sym e ∙ z))
      ];
      short = subst (λ x. x ≤ maxfile * bsize) (sym size) h.short;
    }

    pub data_block-Grows : Grows s s'
    data_block-Grows = record {
      same_type = type;
      same_size = size;
      same_volume = volume;
      same_dinode = dinode;
      stays = λ n low some_block. elim (block_cases n) [
        | inl (at, _) ↦ absurd (some_block (ap (λ m. block_of m s) at ∙ absent))
        | inr (_, e) ↦ e
      ];
      still = still_used;
      comes = λ n low. elim (block_cases n) [
        | inl (_, e) ↦ inr (ap s.vol.used e ∙ clear)
        | inr (_, e) ↦ inl e
      ];
      comes_indirect = inl indirect;
      others = λ c o busy _ not_indirect. kept c o busy not_indirect;
    }

  module _ (same_blocks : (n : ℕ) → block_of n s' ≡ block_of n s)
      (indirect : s'.ip.addrs ndirect ≡ b) where
    pub indirect_block-IsSound : IsSound s'
    indirect_block-IsSound = record {
      boot_block = still_used 0 h.boot_block;
      fits = subst (λ x. x ≤ 2 ^ 32) (sym volume) h.fits;
      held = λ n low. ap s'.vol.used (same_blocks n) ∙ still_used _ (h.held n low);
      held_indirect = ap s'.vol.used indirect ∙ now_used;
      apart = λ n n' low low' some_block same.
          h.apart n n' low low' (λ z. some_block (same_blocks n ∙ z))
            (sym (same_blocks n) ∙ same ∙ same_blocks n');
      apart_indirect = λ n low some_block same.
          unlike s.vol.used b (block_of n s) clear (h.held n low)
            (sym (same_blocks n) ∙ same ∙ indirect);
      filled =
          λ n low z. h.filled n (subst (λ x. n * bsize < x) size low) (sym (same_blocks n) ∙ z);
      short = subst (λ x. x ≤ maxfile * bsize) (sym size) h.short;
    }

    pub indirect_block-Grows : Grows s s'
    indirect_block-Grows = record {
      same_type = type;
      same_size = size;
      same_volume = volume;
      same_dinode = dinode;
      stays = λ n _ _. same_blocks n;
      still = still_used;
      comes = λ n _. inl (same_blocks n);
      comes_indirect = inr (ap s.vol.used indirect ∙ clear);
      others = λ c o busy _ not_indirect. kept c o busy not_indirect;
    }
