-- ===== src/Xv6/Log/Install.antt =====
-- `install_trans` of xv6/log.c, with the power failing before any of its writes.
use native.Mathlib.Numerals.{add-one}
use asopracticas.Common.{
  subst, get_or, set, length, ==_refl, get_or-set_self, ℕ, zero, suc, ◌+◌, ◌-◌, ◌≤◌, ◌<◌, ◌≡◌, ◌∙◌,
  ap, inl, inr, ◌⊎◌, arith, ◌==◌, Bool-cases,
}
use asopracticas.Xv6.Log.{
  Block, Disk, Header, Machine, Run, up, down, after, update, bwrite, log_block, logsize,
  install_trans, write_head, fill_head, cleared,
}
use asopracticas.Xv6.Log.Replay.{
  replay, count_on, homes_on, logs_on, logical, replay_ext, replay_again,
}

-- How a run ends: with the machine up, or with a disk.
abbrev pub Ends : (Machine → Type 0) → (Disk → Type 0) → Run → Type 0
Ends Q R (up m) = Q m
Ends Q R (down d) = R d

pub Ends-after :
    (P Q : Machine → Type 0) (R : Disk → Type 0) (r : Run) (k : Machine → Run)
    → Ends P R r
    → ((m : Machine) → P m → Ends Q R (k m))
    → Ends Q R (after r k)
Ends-after P Q R (up m) k h next = next m h
Ends-after P Q R (down d) k h next = h

pub Ends-weaken :
    (Q Q' : Machine → Type 0) (R R' : Disk → Type 0) (r : Run)
    → Ends Q R r
    → ((m : Machine) → Q m → Q' m)
    → ((d : Disk) → R d → R' d)
    → Ends Q' R' r
Ends-weaken Q Q' R R' (up m) h q r = q m h
Ends-weaken Q Q' R R' (down d) h q r = r d h

-- A write is done or not done when the power fails.
pub Ends-bwrite :
    (Q : Machine → Type 0) (R : Disk → Type 0) (b : ℕ) (v : Block) (m : Machine)
    → R m.disk
    → Q (record { disk = update m.disk b v; view = update m.view b v; left = m.left - 1 })
    → Ends Q R (bwrite b v m)
unfolding bwrite
Ends-bwrite Q R b v m r q = elim (Bool-cases (m.left == 0)) [
  | inl out ↦ rw out r
  | inr on ↦ rw on q
]

-- The log occupies the blocks `start` to `start + size - 1`.
abbrev pub Inside : ℕ → ℕ → ℕ → Type 0
Inside start size b = (start ≤ b) × (b < start + size)

abbrev pub Outside : ℕ → ℕ → ℕ → Type 0
Outside start size b = (b < start) ⊎ (start + size ≤ b)

-- The entries of a header fit the log, and send nothing into the log itself.
pub record IsSound (start size : ℕ) (homes : ℕ → ℕ) (n : ℕ) : Type 0 where
  pub fits : n < size
  pub apart : (i : ℕ) → i < n → Outside start size (homes i)

-- The log on a disk is one that `commit` can have left.
pub record IsLogged (start size : ℕ) (d : Disk) : Type 0 where
  pub sound : IsSound start size (homes_on start d) (count_on start d)
  pub small : count_on start d ≤ logsize
  pub header : 0 < length (d start)

module _ (start size : ℕ) (lh : Header) (base : Disk) where
  -- The first `t` entries are installed over `base`, and the log is as in `base`.
  pub record OnDisk (t : ℕ) (d : Disk) : Type 0 where
    pub installed :
        (b : ℕ) → Outside start size b → d b ≡ replay (log_block lh) (logs_on start base) base t b
    pub log_kept : (b : ℕ) → Inside start size b → d b ≡ base b

  pub record Installed (t : ℕ) (m : Machine) : Type 0 where
    pub on_disk : OnDisk t m.disk
    pub cached : (b : ℕ) → Inside start size b → m.view b ≡ base b

  abbrev pub Cut : Disk → Type 0
  Cut d = (t : ℕ) × (t ≤ lh.n) × OnDisk t d

  Installed-step :
      (i left : ℕ) (m : Machine)
      → IsSound start size (log_block lh) lh.n
      → i < lh.n
      → Installed i m
      → Installed (suc i) (record {
        disk = update m.disk (log_block lh i) (m.view (start + i + 1));
        view = update m.view (log_block lh i) (m.view (start + i + 1));
        left = left;
      })
  Installed-step i left m sound below s = record {
    on_disk = record {
      installed =
          λ b o. ground (arith, s.on_disk.installed b, s.cached (start + i + 1), sound.fits);
      log_kept = λ b o. ground (arith, s.on_disk.log_kept b, sound.apart i);
    };
    cached = λ b o. ground (arith, s.cached b, sound.apart i);
  }

  -- From `i` entries installed `install_trans` installs all; cut short, it has installed some.
  pub install_trans_lem :
      (k i : ℕ) (m : Machine)
      → IsSound start size (log_block lh) lh.n
      → i + k ≡ lh.n
      → Installed i m
      → Ends (Installed lh.n) Cut (install_trans start lh k i m)
  unfolding install_trans
  install_trans_lem zero i m sound e s =
      let whole : i ≡ lh.n = omega arith in subst (λ t. Installed t m) whole s
  install_trans_lem (suc k) i m sound e s =
      Ends-after (Installed (suc i)) (Installed lh.n) Cut
        (bwrite (log_block lh i) (m.view (start + i + 1)) m) (install_trans start lh k (i + 1))
        (Ends-bwrite (Installed (suc i)) Cut (log_block lh i) (m.view (start + i + 1)) m
          (i, omega arith, s.on_disk) (Installed-step i (m.left - 1) m sound (omega arith) s))
        (λ m' s'. rw add-one (install_trans_lem k (suc i) m' sound (omega arith) s'))

  -- The header on the disk `base` is the header `lh`.
  pub record HeadMatches : Type 0 where
    pub count : count_on start base ≡ lh.n
    pub homes : (i : ℕ) → i < lh.n → homes_on start base i ≡ log_block lh i

  -- However far the installation got, replaying the log gives the same blocks.
  pub OnDisk-logical :
      (t b : ℕ) (d : Disk)
      → IsSound start size (log_block lh) lh.n
      → HeadMatches
      → t ≤ lh.n
      → OnDisk t d
      → Outside start size b
      → logical start d b ≡ replay (log_block lh) (logs_on start base) base lh.n b
  OnDisk-logical t b d sound head below s o =
      let same : d start ≡ base start = s.log_kept start (omega (arith, sound.fits)) in
      let count : count_on start d ≡ lh.n = ap (λ v. get_or v 0 0) same ∙ head.count in
      rw count (
        replay_ext (homes_on start d) (log_block lh) (logs_on start d) (logs_on start base) d lh.n b
          (λ i h. ap (λ v. get_or v (i + 1) 0) same ∙ head.homes i h)
          (λ i h. s.log_kept (start + i + 1) (omega (arith, sound.fits)))
        ∙ replay_again (log_block lh) (logs_on start base) base d lh.n t b below (s.installed b o))

  -- The header is erased, and every entry is installed.
  pub record Cleared (m : Machine) : Type 0 where
    pub blocks :
        (b : ℕ)
        → Outside start size b
        → m.disk b ≡ replay (log_block lh) (logs_on start base) base lh.n b
    pub empty : count_on start m.disk ≡ 0
    pub cached : (b : ℕ) → Inside start size b → m.view b ≡ m.disk b

  -- Once all is installed, `write_head` with `n = 0` erases the transaction from the log.
  pub write_head-Cleared :
      (m : Machine)
      → IsSound start size (log_block lh) lh.n
      → 0 < length (base start)
      → Installed lh.n m
      → Ends Cleared Cut (write_head start (cleared lh) m)
  unfolding write_head fill_head
  write_head-Cleared m sound big s =
      let v = set (m.view start) 0 0 in
      Ends-bwrite Cleared Cut start v m (lh.n, omega arith, s.on_disk)
        (record {
          blocks = λ b o. ground (arith, s.on_disk.installed b, sound.fits);
          empty =
              rw (==_refl start, s.cached start (omega (arith, sound.fits)))
                (get_or-set_self (base start) 0 0 0 big);
          cached = λ b o. ground (arith, s.cached b, s.on_disk.log_kept b);
        })

  -- A disk whose log is as on `base` is sound if the header is.
  pub OnDisk-IsLogged :
      (t : ℕ) (d : Disk)
      → IsSound start size (log_block lh) lh.n
      → HeadMatches
      → lh.n ≤ logsize
      → 0 < length (base start)
      → OnDisk t d
      → IsLogged start size d
  OnDisk-IsLogged t d sound head small big s =
      let same : d start ≡ base start = s.log_kept start (omega (arith, sound.fits)) in
      let count : count_on start d ≡ lh.n = ap (λ v. get_or v 0 0) same ∙ head.count in
      record {
        sound = record {
          fits = rw count sound.fits;
          apart = λ i h.
              let h' : i < lh.n = rw count at h in
              rw (ap (λ v. get_or v (i + 1) 0) same ∙ head.homes i h') (sound.apart i h');
        };
        small = rw count small;
        header = rw same big;
      }
