-- ===== src/Xv6/Log/Recover.antt =====
-- `recover_from_log` of xv6/log.c, at boots that may themselves be cut short.
use asopracticas.Common.{subst, ℕ, ◌≤◌, ◌≡◌, refl, sym, ◌∙◌, ap, arith, length}
use asopracticas.Xv6.Log.{
  Disk, Header, Machine, up, down, log_block, logsize, install_trans, read_head, write_head,
  cleared, recover_from_log,
}
use asopracticas.Xv6.Log.Replay.{
  replay, count_on, homes_on, logs_on, logical, replay_ext, fill_lh_entry,
}
use asopracticas.Xv6.Log.Install.{
  Ends, Ends-after, Ends-weaken, Outside, IsSound, IsLogged, Installed, Cut, Cleared,
  write_head-Cleared, HeadMatches, OnDisk-logical, install_trans_lem,
}

-- Just after the boot the cache holds nothing that the disk does not.
abbrev pub booted : Disk → ℕ → Machine
booted d left = record { disk = d; view = d; left = left }

module _ (start size : ℕ) where
  -- The log on `d'` is that on `d`, and stands for the same blocks.
  pub record Same (d d' : Disk) : Type 0 where
    pub head : d' start ≡ d start
    pub blocks : (b : ℕ) → Outside start size b → logical start d' b ≡ logical start d b

  -- The log is replayed and empty.
  pub record Replayed (d : Disk) (m : Machine) : Type 0 where
    pub blocks : (b : ℕ) → Outside start size b → m.disk b ≡ logical start d b
    pub empty : count_on start m.disk ≡ 0

  module _ (lh : Header) (d : Disk) (left : ℕ) (room : logsize ≤ length lh.block)
      (logged : IsLogged start size d) where
    abbrev pub h : Header
    h = read_head start lh (booted d left)

    read_head-HeadMatches : HeadMatches start size h d
    unfolding read_head
    read_head-HeadMatches = record {
      count = refl;
      homes = λ i below.
          ground (arith, fill_lh_entry (d start) (count_on start d) 0 lh.block i, logged.small);
    }

    h-IsSound : IsSound start size (log_block h) h.n
    unfolding read_head
    h-IsSound = record {
      fits = logged.sound.fits;
      apart = λ i below. rw (← read_head-HeadMatches.homes i below) (logged.sound.apart i below);
    }

    -- The blocks that the replay gives are the same by the header in memory.
    h-logical : (b : ℕ) → replay (log_block h) (logs_on start d) d h.n b ≡ logical start d b
    unfolding read_head
    h-logical b =
        replay_ext (log_block h) (homes_on start d) (logs_on start d) (logs_on start d) d h.n b
          (λ i below. sym (read_head-HeadMatches.homes i below)) (λ i below. refl)

    Cut-Same : (d' : Disk) → Cut start size h d d' → Same d d'
    Cut-Same d' (t, below, s) = record {
      head = s.log_kept start (omega (arith, h-IsSound.fits));
      blocks = λ b o.
          OnDisk-logical start size h d t b d' h-IsSound read_head-HeadMatches below s o
          ∙ h-logical b;
    }

    -- One boot replays the log, or leaves a disk that stands for the same blocks.
    pub recover_lem : Ends (Replayed d) (Same d) (recover_from_log start lh (booted d left))
    unfolding recover_from_log
    recover_lem =
        Ends-weaken (Cleared start size h d) (Replayed d) (Cut start size h d) (Same d)
          (recover_from_log start lh (booted d left))
          (Ends-after (Installed start size h d h.n) (Cleared start size h d) (Cut start size h d)
            (install_trans start h h.n 0 (booted d left)) (write_head start (cleared h))
            (install_trans_lem start size h d h.n 0 (booted d left) h-IsSound (omega arith) begin)
            (λ m s. write_head-Cleared start size h d m h-IsSound logged.header s))
          (λ m s. record { blocks = λ b o. s.blocks b o ∙ h-logical b; empty = s.empty }) Cut-Same
      where
        begin : Installed start size h d 0 (booted d left)
        begin = record {
          on_disk = record { installed = λ b o. refl; log_kept = λ b o. refl };
          cached = λ b o. refl;
        }

  -- A disk whose log is the same is as sound.
  Same-IsLogged : (d d' : Disk) → Same d d' → IsLogged start size d → IsLogged start size d'
  Same-IsLogged d d' s l = record {
    sound = record {
      fits = rw s.head l.sound.fits;
      apart = λ i h. rw s.head (l.sound.apart i (rw s.head at h));
    };
    small = rw s.head l.small;
    header = rw s.head l.header;
  }

  -- A sequence of boots from disk `d`: some fail, each at some write of `recover_from_log`, and the
  -- last one completes it with disk `e`.
  pub data Boots (e : Disk) : Disk → Type 0 where
    completed :
        {d : Disk} (lh : Header) (left : ℕ) (m : Machine)
        → logsize ≤ length lh.block
        → recover_from_log start lh (booted d left) ≡ up m
        → m.disk ≡ e
        → Boots e d
    failed :
        {d : Disk} (lh : Header) (left : ℕ) (d' : Disk)
        → logsize ≤ length lh.block
        → recover_from_log start lh (booted d left) ≡ down d'
        → Boots e d'
        → Boots e d

  -- However often the power fails while the log is replayed, in the end every block outside the
  -- log is what the first disk stood for, and the log is empty.
  pub Boots-logical :
      (e d : Disk)
      → IsLogged start size d
      → Boots e d
      → ((b : ℕ) → Outside start size b → e b ≡ logical start d b) × (count_on start e ≡ 0)
  Boots-logical e d l (completed lh left m room run same) =
      let r : Replayed d m =
        subst (Ends (Replayed d) (Same d)) run (recover_lem lh d left room l) in
      (
        λ b o. ap (λ (f : Disk). f b) (sym same) ∙ r.blocks b o,
        ap (count_on start) (sym same) ∙ r.empty,
      )
  Boots-logical e d l (failed lh left d' room run rest) =
      let s : Same d d' = subst (Ends (Replayed d) (Same d)) run (recover_lem lh d left room l) in
      let (blocks, empty) = Boots-logical e d' (Same-IsLogged d d' s l) rest in
      (λ b o. blocks b o ∙ s.blocks b o, empty)
