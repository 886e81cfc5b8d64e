-- ===== src/Xv6/Log/Ops/Absorb.antt =====
-- `log_write` of xv6/log.c absorbs a block that is logged already, and else appends it.
use native.Mathlib.Decide.{ℕ_discrete}
use asopracticas.Common.{
  ℕ, zero, suc, ◌+◌, ◌≤◌, ◌<◌, ◌≡◌, ◌≢◌, refl, sym, ◌∙◌, true, some, arith, ◌==◌, Bool-cases, inl,
  inr, subst, ==→eq, ==_refl, length, set, length-set, get_or-set_self, get_or-set_ne,
}
use asopracticas.Xv6.Log.{Log, Header, log_block, logsize}
use asopracticas.Xv6.Log.Ops.{Buffer, find, enter, log_write}

-- Where the search loop stops.
record Found (lh : Header) (k i b f : ℕ) : Type 0 where
  from : i ≤ f
  to : f ≤ i + k
  hit : f < i + k → log_block lh f ≡ b
  earlier : (j : ℕ) → i ≤ j → j < f → log_block lh j ≢ b

find_lem : (lh : Header) (k i b : ℕ) → Found lh k i b (find lh k i b)
unfolding find
find_lem lh zero i b = record {
  from = omega arith;
  to = omega arith;
  hit = λ h. absurd (omega arith);
  earlier = λ j h h'. absurd (omega arith);
}
find_lem lh (suc k) i b = elim (Bool-cases (log_block lh i == b)) [
  | inl hit ↦ rw hit (record {
    from = omega arith;
    to = omega arith;
    hit = λ h. ground arith;
    earlier = λ j h h'. absurd (omega arith);
  })
  | inr miss ↦
      let r = find_lem lh k (i + 1) b in
      rw miss (record {
        from = omega (arith, r.from);
        to = omega (arith, r.to);
        hit = λ h. r.hit (omega arith);
        earlier = λ j h h'. ground (arith, r.earlier j);
      })
]

-- No block is named twice.
abbrev pub IsDistinct : Header → Type 0
IsDistinct lh = (i j : ℕ) → i < lh.n → j < lh.n → log_block lh i ≡ log_block lh j → i ≡ j

-- What `log_write` does to the header: old entries stay, `b` is named, at most one entry is new,
-- and none if `b` was named before.
pub record Entered (lh : Header) (b : ℕ) (lh' : Header) : Type 0 where
  pub kept : (i : ℕ) → i < lh.n → log_block lh' i ≡ log_block lh i
  pub named : (i : ℕ) × (i < lh'.n) × (log_block lh' i ≡ b)
  pub absorbed : (i : ℕ) → i < lh.n → log_block lh i ≡ b → lh'.n ≡ lh.n
  pub appended : ((i : ℕ) → i < lh.n → log_block lh i ≢ b) → lh'.n ≡ lh.n + 1
  pub distinct : IsDistinct lh → IsDistinct lh'
  pub room : length lh'.block ≡ length lh.block

module _ (lh : Header) (b : ℕ) (room : lh.n < length lh.block) where
  absorb :
      (f : ℕ)
      → f < lh.n
      → log_block lh f ≡ b
      → Entered lh b (record { n = lh.n; block = set lh.block f b })
  absorb f below hit =
      let same : (i : ℕ)
          → log_block (record { n = lh.n; block = set lh.block f b }) i ≡ log_block lh i =
        same_entry in
      record {
        kept = λ i h. same i;
        named = (f, below, same f ∙ hit);
        absorbed = λ i h e. refl;
        appended = λ h. absurd (h f below hit);
        distinct = λ d i j hi hj e. d i j hi hj (sym (same i) ∙ e ∙ same j);
        room = length-set lh.block f b;
      }
    where
      same_entry :
          (i : ℕ) → log_block (record { n = lh.n; block = set lh.block f b }) i ≡ log_block lh i
      same_entry i = elim (ℕ_discrete f i) [
        | yes e ↦ rw (← e, get_or-set_self lh.block f b 0 (omega arith)) (sym hit)
        | no ne ↦ get_or-set_ne lh.block f i b 0 ne
      ]

  append :
      ((i : ℕ) → i < lh.n → log_block lh i ≢ b)
      → Entered lh b (record { n = lh.n + 1; block = set lh.block lh.n b })
  append fresh = record {
    kept = λ i h. get_or-set_ne lh.block lh.n i b 0 (omega arith);
    named = (lh.n, omega arith, get_or-set_self lh.block lh.n b 0 room);
    absorbed = λ i h e. absurd (fresh i h e);
    appended = λ h. refl;
    distinct = λ d i j hi hj e. ground (
      arith,
      d i j,
      fresh i,
      fresh j,
      get_or-set_self lh.block lh.n b 0 room,
      get_or-set_ne lh.block lh.n i b 0,
      get_or-set_ne lh.block lh.n j b 0,
    );
    room = length-set lh.block lh.n b;
  }

  enter_lem : Entered lh b (enter lh b)
  unfolding enter
  enter_lem =
      let f = find_lem lh lh.n 0 b in
      elim (Bool-cases (find lh lh.n 0 b == lh.n)) [
        | inl at_end ↦
            rw (==→eq _ _ at_end, ==_refl)
              (append (λ i h. f.earlier i (omega arith) (ground arith)))
        | inr inside ↦
            rw inside
              (absorb (find lh lh.n 0 b) (ground (arith, f.to)) (f.hit (ground (arith, f.to))))
      ]

-- A successful `log_write` names the block in the header, once, and pins the buffer.
pub log_write_lem :
    (l l' : Log) (b b' : Buffer)
    → length l.lh.block ≡ logsize
    → log_write l b ≡ some (l', b')
    → Entered l.lh b.blockno l'.lh × (b'.dirty ≡ true) × (l'.outstanding ≡ l.outstanding)
unfolding log_write
log_write_lem l l' b b' room e =
    let n : l.lh.n < length l.lh.block = ground arith in
    let h : enter l.lh b.blockno ≡ l'.lh = ground arith in
    (subst (Entered l.lh b.blockno) h (enter_lem l.lh b.blockno n), ground arith, ground arith)
