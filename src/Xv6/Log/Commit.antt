-- ===== src/Xv6/Log/Commit.antt =====
-- `commit` of xv6/log.c is atomic: wherever the power fails, the disk stands for the blocks before
-- the transaction or for those after it.
use native.Mathlib.Numerals.{add-one}
use asopracticas.Common.{
  ℕ, zero, suc, ◌+◌, ◌-◌, ◌≤◌, ◌<◌, ◌≡◌, refl, ◌∙◌, ap, arith, inl, inr, ◌⊎◌, ltb, Bool-cases,
  subst, set, length, ==_refl, get_or, get_or-set_self, length-set,
}
use asopracticas.Xv6.Log.{
  Block, Disk, Header, Machine, down, after, update, bwrite, log_block, logsize, write_log,
  install_trans, write_head, fill_head, cleared, commit_steps, commit,
}
use asopracticas.Xv6.Log.Replay.{
  replay, count_on, logs_on, logical, replay_ext, replay_base, fill_head_word, fill_head_zero,
  length-fill_head,
}
use asopracticas.Xv6.Log.Recover.{Boots, Boots-logical}
use asopracticas.Xv6.Log.Install.{
  Ends, Ends-after, Ends-bwrite, Ends-weaken, Inside, Outside, IsSound, Installed, Cut, HeadMatches,
  IsLogged, OnDisk-logical, OnDisk-IsLogged, install_trans_lem, Cleared, write_head-Cleared,
}

-- What `commit` relies on: the log on the disk is empty, its blocks are not dirty in the cache, and
-- the header in memory is sound and fits the header block.
pub record CanCommit (start size : ℕ) (lh : Header) (m : Machine) : Type 0 where
  pub sound : IsSound start size (log_block lh) lh.n
  pub small : lh.n ≤ logsize
  pub words : lh.n < length (m.view start)
  pub empty : count_on start m.disk ≡ 0
  pub cached : (b : ℕ) → Inside start size b → m.view b ≡ m.disk b

module _ (start size : ℕ) (lh : Header) (m₀ : Machine) where
  -- The blocks after the transaction: the cached ones where the header names them.
  abbrev pub committed : Disk
  committed = replay (log_block lh) (λ i. m₀.view (log_block lh i)) m₀.disk lh.n

  -- The log on a disk is sound, and outside the log the disk stands for the blocks of `target`.
  pub record Stands (target d : Disk) : Type 0 where
    pub logged : IsLogged start size d
    pub blocks : (b : ℕ) → Outside start size b → logical start d b ≡ target b

  abbrev pub Before : Disk → Type 0
  Before = Stands m₀.disk

  abbrev pub After : Disk → Type 0
  After = Stands committed

  -- The first `i` blocks of the transaction are in the log, and nothing else has changed.
  record Logged (i : ℕ) (m : Machine) : Type 0 where
    home : (b : ℕ) → Outside start size b → (m.disk b ≡ m₀.disk b) × (m.view b ≡ m₀.view b)
    head : m.disk start ≡ m₀.disk start
    head_cached : m.view start ≡ m₀.view start
    logged : (j : ℕ) → j < i → m.disk (start + j + 1) ≡ m₀.view (log_block lh j)
    cached : (b : ℕ) → Inside start size b → m.view b ≡ m.disk b

  Logged-Before : (i : ℕ) (m : Machine) → CanCommit start size lh m₀ → Logged i m → Before m.disk
  Logged-Before i m can s =
      let none_logged : count_on start m.disk ≡ 0 = ap (λ v. get_or v 0 0) s.head ∙ can.empty in
      let here : Inside start size start = omega (arith, can.sound.fits) in
      record {
        logged = record {
          sound = record {
            fits = rw none_logged (omega (arith, can.sound.fits));
            apart = λ i h. absurd (omega (arith, none_logged));
          };
          small = rw none_logged (omega arith);
          header = rw (← s.cached start here, s.head_cached) (omega (arith, can.words));
        };
        blocks = λ b o. rw none_logged (s.home b o).0;
      }

  Logged-step :
      (i left : ℕ) (m : Machine)
      → IsSound start size (log_block lh) lh.n
      → i < lh.n
      → Logged i m
      → Logged (suc i) (record {
        disk = update m.disk (start + i + 1) (m.view (log_block lh i));
        view = update m.view (start + i + 1) (m.view (log_block lh i));
        left = left;
      })
  Logged-step i left m sound below s = record {
    home = λ b o. ground (arith, s.home b o, sound.fits);
    head = ground (arith, s.head, sound.fits);
    head_cached = ground (arith, s.head_cached, sound.fits);
    logged = λ j h. ground (arith, s.logged j, s.home (log_block lh i), sound.apart i);
    cached = λ b o. ground (arith, s.cached b);
  }

  write_log_lem :
      (k i : ℕ) (m : Machine)
      → CanCommit start size lh m₀
      → i + k ≡ lh.n
      → Logged i m
      → Ends (Logged lh.n) Before (write_log start lh k i m)
  unfolding write_log
  write_log_lem zero i m can e s =
      let whole : i ≡ lh.n = omega arith in subst (λ t. Logged t m) whole s
  write_log_lem (suc k) i m can e s =
      let b = start + i + 1 in
      let v = m.view (log_block lh i) in
      Ends-after (Logged (suc i)) (Logged lh.n) Before (bwrite b v m) (write_log start lh k (i + 1))
        (Ends-bwrite (Logged (suc i)) Before b v m (Logged-Before i m can s)
          (Logged-step i (m.left - 1) m can.sound (omega arith) s))
        (λ m' s'. rw add-one (write_log_lem k (suc i) m' can (omega arith) s'))

  -- The header block that the first `write_head` sends to the disk.
  abbrev header_block : Machine → Block
  header_block m = fill_head lh lh.n 0 (set (m.view start) 0 lh.n)

  abbrev sealed : Disk → Machine → Disk
  sealed d m = update d start (header_block m)

  sealed-HeadMatches :
      (m : Machine)
      → CanCommit start size lh m₀
      → Logged lh.n m
      → HeadMatches start size lh (sealed m.disk m)
  sealed-HeadMatches m can s =
      let long : lh.n < length (m.view start) = rw s.head_cached can.words in
      record {
        count = rw ==_refl (
            fill_head_zero lh lh.n 0 (set (m.view start) 0 lh.n)
            ∙ get_or-set_self (m.view start) 0 lh.n 0 (omega arith));
        homes = λ i h. rw ==_refl (
            ground (
              arith,
              fill_head_word lh lh.n 0 (set (m.view start) 0 lh.n) i,
              length-set (m.view start) 0 lh.n,
            ));
      }

  -- With the header on the disk, every entry stands for the block that was cached.
  sealed-committed :
      (m : Machine) (b : ℕ)
      → CanCommit start size lh m₀
      → Logged lh.n m
      → Outside start size b
      → replay (log_block lh) (logs_on start (sealed m.disk m)) (sealed m.disk m) lh.n b
        ≡ committed b
  sealed-committed m b can s o =
      replay_ext (log_block lh) (log_block lh) (logs_on start (sealed m.disk m))
        (λ i. m₀.view (log_block lh i)) (sealed m.disk m) lh.n b (λ i h. refl)
        (λ i h. ground (arith, s.logged i h))
      ∙ replay_base (log_block lh) (λ i. m₀.view (log_block lh i)) (sealed m.disk m) m₀.disk lh.n b
          (ground (arith, s.home b o, can.sound.fits))

  -- After `commit` the new blocks are at home, the log is empty and still as cached.
  pub record Committed (m : Machine) : Type 0 where
    pub blocks : (b : ℕ) → Outside start size b → m.disk b ≡ committed b
    pub empty : count_on start m.disk ≡ 0
    pub cached : (b : ℕ) → Inside start size b → m.view b ≡ m.disk b

  abbrev Atomic : Disk → Type 0
  Atomic d = Before d ⊎ After d

  -- The steps after the header has reached the disk.
  install_sealed :
      (left : ℕ) (m : Machine)
      → CanCommit start size lh m₀
      → Logged lh.n m
      → Ends Committed After (
          after
            (install_trans start lh lh.n 0
              (record { disk = sealed m.disk m; view = sealed m.view m; left = left }))
            (write_head start (cleared lh)))
  install_sealed left m can s =
      let base = sealed m.disk m in
      let m' : Machine = record { disk = base; view = sealed m.view m; left = left } in
      Ends-weaken (Cleared start size lh base) Committed (Cut start size lh base) After
        (after (install_trans start lh lh.n 0 m') (write_head start (cleared lh)))
        (Ends-after (Installed start size lh base lh.n) (Cleared start size lh base)
          (Cut start size lh base) (install_trans start lh lh.n 0 m')
          (write_head start (cleared lh))
          (install_trans_lem start size lh base lh.n 0 m' can.sound (omega arith) (record {
            on_disk = record { installed = λ b o. refl; log_kept = λ b o. refl };
            cached = λ b o. ground (arith, s.cached b);
          }))
          (λ m'' s'. write_head-Cleared start size lh base m'' can.sound big s'))
        (λ m'' c. record {
          blocks = λ b o. c.blocks b o ∙ sealed-committed m b can s o;
          empty = c.empty;
          cached = c.cached;
        })
        (λ d (t, below, c).
          let head = sealed-HeadMatches m can s in
          record {
            logged = OnDisk-IsLogged start size lh base t d can.sound head can.small big c;
            blocks = λ b o.
                OnDisk-logical start size lh base t b d can.sound head below c o
                ∙ sealed-committed m b can s o;
          })
    where
      big : 0 < length (sealed m.disk m start)
      big = rw ==_refl (rw (length-fill_head, length-set, s.head_cached) (omega (arith, can.words)))

  commit_steps_lem : CanCommit start size lh m₀ → Ends Committed Atomic (commit_steps start lh m₀)
  unfolding commit_steps write_head
  commit_steps_lem can =
      Ends-after (Logged lh.n) Committed Atomic (write_log start lh lh.n 0 m₀) _
        (Ends-weaken (Logged lh.n) (Logged lh.n) Before Atomic (write_log start lh lh.n 0 m₀)
          (write_log_lem lh.n 0 m₀ can (omega arith) begin) (λ m s. s) (λ d h. inl h))
        λ m s.
          Ends-after (Sealed m) Committed Atomic (bwrite start (header_block m) m) _
            (Ends-bwrite (Sealed m) Atomic start (header_block m) m
              (inl (Logged-Before lh.n m can s)) refl)
            λ m' e.
              Ends-weaken Committed Committed After Atomic _
                (rw e (install_sealed (m.left - 1) m can s)) (λ m s. s) (λ d h. inr h)
    where
      begin : Logged 0 m₀
      begin = record {
        home = λ b o. (refl, refl);
        head = refl;
        head_cached = refl;
        logged = λ j h. absurd (omega arith);
        cached = can.cached;
      }

      Sealed : Machine → Machine → Type 0
      Sealed m m' =
          m' ≡ record { disk = sealed m.disk m; view = sealed m.view m; left = m.left - 1 }

  -- `commit` leaves every block outside the log as the transaction has it, and the log empty. If
  -- the power fails at any of its writes, the disk stands for the blocks before the transaction,
  -- all of them, or for those after it, all of them.
  pub commit_lem :
      CanCommit start size lh m₀ → Ends Committed (λ d. Before d ⊎ After d) (commit start lh m₀)
  unfolding commit
  commit_lem can = elim (Bool-cases (ltb 0 lh.n)) [
    | inl some_blocks ↦ rw some_blocks (commit_steps_lem can)
    | inr none_logged ↦
        let none : lh.n ≡ 0 = ground arith in
        rw none_logged
          (record { blocks = λ b o. rw none refl; empty = can.empty; cached = can.cached })
  ]

-- A power failure at any write of `commit`, followed by any number of boots that fail in turn and
-- one that completes: afterwards either every block outside the log is as before the
-- transaction, or every one is as after it, and the log is empty.
pub commit-crash-atomic :
    (start size : ℕ) (lh : Header) (m₀ : Machine) (d e : Disk)
    → CanCommit start size lh m₀
    → commit start lh m₀ ≡ down d
    → Boots start size e d
    → (((b : ℕ) → Outside start size b → e b ≡ m₀.disk b)
        ⊎ ((b : ℕ) → Outside start size b → e b ≡ committed start size lh m₀ b))
      × (count_on start e ≡ 0)
commit-crash-atomic start size lh m₀ d e can crash boots =
    elim (subst
      (Ends (Committed start size lh m₀)
        (λ d. Before start size lh m₀ d ⊎ After start size lh m₀ d))
      crash (commit_lem start size lh m₀ can)) [
        | inl before ↦
            let (blocks, empty) = Boots-logical start size e d before.logged boots in
            (inl (λ b o. blocks b o ∙ before.blocks b o), empty)
        | inr done ↦
            let (blocks, empty) = Boots-logical start size e d done.logged boots in
            (inr (λ b o. blocks b o ∙ done.blocks b o), empty)
      ]
