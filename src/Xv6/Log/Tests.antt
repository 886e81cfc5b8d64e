-- ===== src/Xv6/Log/Tests.antt =====
-- The theorems on the log at a small disk, and runs of the log's operations.
use asopracticas.Common.{ℕ, ◌≡◌, ◌⊎◌, refl, inr, [], ◌∷◌, arith, replicate}
use asopracticas.Xv6.Log.{
  Disk, Header, Machine, down, update, write_log, install_trans, write_head, read_head, fill_head,
  fill_lh, bwrite, commit_steps, commit, recover_from_log,
}
use asopracticas.Xv6.Log.Replay.{logical, count_on}
use asopracticas.Xv6.Log.Install.{Ends, Outside, IsLogged}
use asopracticas.Xv6.Log.Recover.{Boots, completed, Boots-logical}
use asopracticas.Xv6.Log.Commit.{
  CanCommit, Committed, Before, After, committed, commit_lem, commit-crash-atomic,
}
use asopracticas.Xv6.Log.Power.{commit_completes}

-- A log of four blocks from block 2 on, and blocks of four words.
abbrev old : Disk
old b = 0 ∷ b ∷ 0 ∷ 0 ∷ []

-- One entry: block 7.
abbrev entries : Header
entries = record { n = 1; block = 7 ∷ replicate 29 0 }

-- Block 7 was changed in the cache; the power lasts for `left` writes.
abbrev changed : ℕ → Machine
changed left = record { disk = old; view = update old 7 (9 ∷ 9 ∷ []); left = left }

abbrev crashed : Disk
crashed = update old 3 (9 ∷ 9 ∷ [])

can : (left : ℕ) → CanCommit 2 4 entries (changed left)
can left = record {
  sound = record { fits = omega arith; apart = λ i h. inr (ground arith) };
  small = omega arith;
  words = omega arith;
  empty = refl;
  cached = λ b h. ground arith;
}

crashed_run : commit 2 entries (changed 1) ≡ down crashed
unfolding commit commit_steps write_log write_head bwrite fill_head
crashed_run = refl

-- Cut after the header has reached the disk, the transaction is in the log.
sealed_run : commit 2 entries (changed 2) ≡ down (update crashed 2 (1 ∷ 7 ∷ 0 ∷ 0 ∷ []))
unfolding commit commit_steps write_log write_head install_trans bwrite fill_head
sealed_run = refl

boots : Boots 2 4 (update crashed 2 (0 ∷ 2 ∷ 0 ∷ 0 ∷ [])) crashed
unfolding recover_from_log read_head install_trans write_head bwrite fill_head fill_lh
boots =
    completed entries 10
      (record {
        disk = update crashed 2 (0 ∷ 2 ∷ 0 ∷ 0 ∷ []);
        view = update crashed 2 (0 ∷ 2 ∷ 0 ∷ 0 ∷ []);
        left = 9;
      })
      (omega arith) refl refl

crashed-IsLogged : IsLogged 2 4 crashed
crashed-IsLogged = record {
  sound = record { fits = omega arith; apart = λ i h. absurd (omega arith) };
  small = omega arith;
  header = omega arith;
}

commit_lem_example :
    Ends
      (Committed 2 4 entries (changed 1))
      (λ d. Before 2 4 entries (changed 1) d ⊎ After 2 4 entries (changed 1) d)
      (commit 2 entries (changed 1))
commit_lem_example = commit_lem 2 4 entries (changed 1) (can 1)

commit-crash-atomic_example :
    (((b : ℕ) → Outside 2 4 b → update crashed 2 (0 ∷ 2 ∷ 0 ∷ 0 ∷ []) b ≡ old b)
      ⊎ ((b : ℕ)
          → Outside 2 4 b
          → update crashed 2 (0 ∷ 2 ∷ 0 ∷ 0 ∷ []) b ≡ committed 2 4 entries (changed 1) b))
    × (count_on 2 (update crashed 2 (0 ∷ 2 ∷ 0 ∷ 0 ∷ [])) ≡ 0)
commit-crash-atomic_example =
    commit-crash-atomic 2 4 entries (changed 1) crashed (update crashed 2 (0 ∷ 2 ∷ 0 ∷ 0 ∷ []))
      (can 1) crashed_run boots

Boots-logical_example :
    ((b : ℕ) → Outside 2 4 b → update crashed 2 (0 ∷ 2 ∷ 0 ∷ 0 ∷ []) b ≡ logical 2 crashed b)
    × (count_on 2 (update crashed 2 (0 ∷ 2 ∷ 0 ∷ 0 ∷ [])) ≡ 0)
Boots-logical_example =
    Boots-logical 2 4 (update crashed 2 (0 ∷ 2 ∷ 0 ∷ 0 ∷ [])) crashed crashed-IsLogged boots

commit_completes_example :
    Ends (Committed 2 4 entries (changed 4)) (λ _. ⊥) (commit 2 entries (changed 4))
commit_completes_example = commit_completes 2 4 entries (changed 4) (can 4) (omega arith)
