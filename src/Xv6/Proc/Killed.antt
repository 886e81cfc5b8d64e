-- ===== src/Xv6/Proc/Killed.antt =====
-- `kill` of xv6/proc.c for the pid 0, which free slots carry.
use asopracticas.Common.{
  ℕ, ◌+◌, ◌^◌, ◌≤◌, ◌<◌, ◌≡◌, ◌≢◌, refl, sym, ◌∙◌, inl, inr, true, some, arith, suc, ltb, ltb→lt,
  ltb→le, Bool-cases, ne→==, ==_refl,
}
use asopracticas.Xv6.Proc.{
  unused, embryo, System, put, nproc, is_unused, mark_killed, kill, start_fork,
}
use asopracticas.Xv6.Proc.Searches.{kill_from_lem}
use asopracticas.Xv6.Proc.Invariant.{IsFree, IsSound}
use asopracticas.Xv6.Proc.Steps.{kill-IsSound}
use asopracticas.Xv6.Proc.Children.{failed, made, start_fork_lem}

-- In a sound table whose first free slot carries the pid 0: `kill(0)` finds that slot, returns 0,
-- and a `fork` that follows and has memory makes a child that is marked as killed.
pub kill-start_fork :
    (s : System) (c p i stack dir : ℕ)
    → IsSound s
    → s.cpus c ≡ suc p
    → s.nextpid + 1 < 2 ^ 31
    → stack ≢ 0
    → dir ≢ 0
    → i < nproc
    → IsFree (s.procs i)
    → (s.procs i).pid ≡ 0
    → ((l : ℕ) → l < i → (s.procs l).state ≢ unused)
    → (s' s'' : System) × (kill 0 s ≡ some s')
      × (start_fork c stack dir s' ≡ (suc i, s''))
      × ((s''.procs i).state ≡ embryo)
      × ((s''.procs i).killed ≡ true)
unfolding kill
kill-start_fork s c p i stack dir h cur room some_stack some_dir below free no_pid first =
    elim (kill_from_lem nproc 0 0 s.procs) [
      | inl (_, others) ↦ absurd (others i (omega arith) (omega arith) no_pid)
      | inr (j, hit, _, _, zero_pid, others) ↦
          let not_later : i ≤ j = elim (Bool-cases (ltb j i)) [
            | inl sooner ↦
                (let n = h.numbered j (first j (ltb→lt j i sooner)) in absurd (omega arith))
            | inr later ↦ ltb→le j i later
          ] in
          let not_sooner : j ≤ i = elim (Bool-cases (ltb i j)) [
            | inl past ↦ absurd (others i (omega arith) (ltb→lt i j past) no_pid)
            | inr short ↦ ltb→le i j short
          ] in
          let at_i : j ≡ i = omega arith in
          let new = mark_killed (s.procs i) in
          let s' : System = record s { procs = put s.procs i new } in
          let e : kill 0 s ≡ some s' = rw (kill, hit, at_i) refl in
          let still_free : is_unused (s'.procs i).state ≡ true = rw (==_refl i, free) refl in
          elim (start_fork_lem s' (kill-IsSound s s' 0 h e) c p cur room stack dir) [
            | failed _ _ (inl (inl e0)) _ _ ↦ absurd (some_stack e0)
            | failed _ _ (inl (inr e0)) _ _ ↦ absurd (some_dir e0)
            | failed _ _ (inr busy) _ _ ↦ (let b = busy i below in cc)
            | made k s'' e' _ free' first' state _ _ killed _ _ ↦
                let low : k ≤ i = elim (Bool-cases (ltb i k)) [
                  | inl past ↦ (let b = first' i (ltb→lt i k past) in cc)
                  | inr short ↦ ltb→le i k short
                ] in
                let high : i ≤ k = elim (Bool-cases (ltb k i)) [
                  | inl sooner ↦
                      let below_i = ltb→lt k i sooner in
                      let same : s'.procs k ≡ s.procs k =
                        rw (ne→== k i (λ e. absurd (omega arith))) refl in
                      absurd (first k below_i (rw (sym same) free'))
                  | inr later ↦ ltb→le k i later
                ] in
                let at_k : k ≡ i = omega arith in
                let marked : (s'.procs i).killed ≡ true = rw (==_refl i) refl in
                (s', s'', e, rw at_k at e', rw at_k at state, (rw at_k at killed) ∙ marked)
          ]
    ]
