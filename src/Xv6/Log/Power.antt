-- ===== src/Xv6/Log/Power.antt =====
-- With power for the writes that they make, `commit` and `recover_from_log` of xv6/log.c complete.
use asopracticas.Common.{
  ℕ, zero, suc, ◌+◌, ◌*◌, ◌≤◌, ◌<◌, ◌≡◌, inl, inr, arith, ltb, ne→==, Bool-cases, length,
}
use asopracticas.Xv6.Log.{
  Block, Disk, Header, Machine, Run, up, down, bwrite, write_log, install_trans, write_head,
  read_head, commit_steps, commit, recover_from_log, logsize,
}
use asopracticas.Xv6.Log.Replay.{count_on}
use asopracticas.Xv6.Log.Install.{Ends, Ends-after, IsLogged}
use asopracticas.Xv6.Log.Commit.{CanCommit, Committed, commit_lem}
use asopracticas.Xv6.Log.Recover.{booted, Replayed, recover_lem}

-- The run stays up and spends at most `k` of the writes that `n` allowed.
abbrev Spends : ℕ → ℕ → Run → Type 0
Spends k n = Ends (λ m. n ≤ m.left + k) (λ _. ⊥)

bwrite-Spends :
    (n k b : ℕ) (v : Block) (m : Machine)
    → 0 < m.left
    → n ≤ m.left + k
    → Spends (k + 1) n (bwrite b v m)
unfolding bwrite
bwrite-Spends n k b v m power h = rw (ne→== m.left 0 (omega arith)) (omega arith)

write_log-Spends :
    (start : ℕ) (lh : Header) (k i n j : ℕ) (m : Machine)
    → j + k < n
    → n ≤ m.left + j
    → Spends (j + k) n (write_log start lh k i m)
unfolding write_log
write_log-Spends start lh zero i n j m power h = omega arith
write_log-Spends start lh (suc k) i n j m power h =
    Ends-after (λ m. n ≤ m.left + (j + 1)) (λ m. n ≤ m.left + (j + suc k)) (λ _. ⊥) (bwrite _ _ m) _
      (bwrite-Spends n j _ _ m (omega arith) h)
      (λ m' h'.
        let e : j + suc k ≡ (j + 1) + k = omega arith in
        rw e (write_log-Spends start lh k (i + 1) n (j + 1) m' (omega arith) h'))

install_trans-Spends :
    (start : ℕ) (lh : Header) (k i n j : ℕ) (m : Machine)
    → j + k < n
    → n ≤ m.left + j
    → Spends (j + k) n (install_trans start lh k i m)
unfolding install_trans
install_trans-Spends start lh zero i n j m power h = omega arith
install_trans-Spends start lh (suc k) i n j m power h =
    Ends-after (λ m. n ≤ m.left + (j + 1)) (λ m. n ≤ m.left + (j + suc k)) (λ _. ⊥) (bwrite _ _ m) _
      (bwrite-Spends n j _ _ m (omega arith) h)
      (λ m' h'.
        let e : j + suc k ≡ (j + 1) + k = omega arith in
        rw e (install_trans-Spends start lh k (i + 1) n (j + 1) m' (omega arith) h'))

Ends-both :
    (Q Q' : Machine → Type 0) (R : Disk → Type 0) (r : Run)
    → Ends Q R r
    → Ends Q' (λ _. ⊥) r
    → Ends Q (λ _. ⊥) r
Ends-both Q Q' R (up m) h k = h
Ends-both Q Q' R (down d) h k = k

commit_steps-up :
    (start : ℕ) (lh : Header) (m : Machine)
    → 2 * lh.n + 2 ≤ m.left
    → Spends (2 * lh.n + 2) m.left (commit_steps start lh m)
unfolding commit_steps write_head
commit_steps-up start lh m power =
    let k = lh.n in
    let n = m.left in
    Ends-after (λ m. n ≤ m.left + (0 + k)) (λ m. n ≤ m.left + (2 * k + 2)) (λ _. ⊥)
      (write_log start lh k 0 m) _ (write_log-Spends start lh k 0 n 0 m (omega arith) (omega arith))
      λ m' h.
        Ends-after (λ m. n ≤ m.left + (k + 1)) (λ m. n ≤ m.left + (2 * k + 2)) (λ _. ⊥)
          (bwrite start _ m') _ (bwrite-Spends n k start _ m' (omega arith) (omega arith))
          λ m' h.
            Ends-after (λ m. n ≤ m.left + ((k + 1) + k)) (λ m. n ≤ m.left + (2 * k + 2)) (λ _. ⊥)
              (install_trans start lh k 0 m') _
              (install_trans-Spends start lh k 0 n (k + 1) m' (omega arith) h)
              λ m' h.
                let e : 2 * k + 2 ≡ (k + 1 + k) + 1 = omega arith in
                rw e (bwrite-Spends n (k + 1 + k) start _ m' (omega arith) h)

-- With power for 2 n + 2 writes `commit` completes, and leaves the blocks of the transaction at
-- home and the log empty.
pub commit_completes :
    (start size : ℕ) (lh : Header) (m : Machine)
    → CanCommit start size lh m
    → 2 * lh.n + 2 ≤ m.left
    → Ends (Committed start size lh m) (λ _. ⊥) (commit start lh m)
unfolding commit
commit_completes start size lh m can power =
    Ends-both (Committed start size lh m) (λ m'. m.left ≤ m'.left + (2 * lh.n + 2)) _
      (commit start lh m) (commit_lem start size lh m can)
      (elim (Bool-cases (ltb 0 lh.n)) [
        | inl some_blocks ↦ rw some_blocks (commit_steps-up start lh m power)
        | inr none ↦ rw none (omega arith)
      ])

recover-up :
    (start : ℕ) (lh : Header) (d : Disk) (left : ℕ)
    → count_on start d < left
    → Spends (count_on start d + 1) left (recover_from_log start lh (booted d left))
unfolding recover_from_log read_head write_head
recover-up start lh d left power =
    let k = count_on start d in
    Ends-after (λ m. left ≤ m.left + (0 + k)) (λ m. left ≤ m.left + (k + 1)) (λ _. ⊥)
      (install_trans start (read_head start lh (booted d left)) k 0 (booted d left)) _
      (install_trans-Spends start _ k 0 left 0 (booted d left) (omega arith) (omega arith))
      λ m h. bwrite-Spends left k start _ m (omega arith) (omega arith)

-- With power for n + 1 writes `recover_from_log` completes, with every block outside the log
-- replayed and the log empty.
pub recover_completes :
    (start size : ℕ) (lh : Header) (d : Disk) (left : ℕ)
    → logsize ≤ length lh.block
    → IsLogged start size d
    → count_on start d < left
    → Ends (Replayed start size d) (λ _. ⊥) (recover_from_log start lh (booted d left))
recover_completes start size lh d left room logged power =
    Ends-both (Replayed start size d) (λ m. left ≤ m.left + (count_on start d + 1)) _
      (recover_from_log start lh (booted d left)) (recover_lem start size lh d left room logged)
      (recover-up start lh d left power)
