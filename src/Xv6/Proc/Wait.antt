-- ===== src/Xv6/Proc/Wait.antt =====
-- `wait` of xv6/proc.c.
use asopracticas.Common.{
  ℕ, suc, ◌<◌, ◌≡◌, ◌≢◌, refl, sym, ◌∙◌, inl, inr, ◌⊎◌, true, false, ◌||◌, not, ltb, ltb→lt, ltb→le,
  Bool-cases, ==_refl, arith,
}
use asopracticas.Xv6.Proc.{zombie, System, put, nproc, reap, reaped, no_child, waits, wait}
use asopracticas.Xv6.Proc.Searches.{scan_from_lem}
use asopracticas.Xv6.Proc.Invariant.{IsFree, IsSound}
use asopracticas.Xv6.Proc.Steps.{here, sleep-IsSound}
use asopracticas.Xv6.Proc.Births.{freed-IsSound}

-- The ends of one turn of `wait` by the process in slot `p`.
pub data Waited (s : System) (c p : ℕ) : Type 0 where
  -- A dead child is taken out of the table, and its pid returned.
  took :
      (i : ℕ) (s' : System)
      → wait c s ≡ reaped (s.procs i).pid s'
      → (s.procs i).state ≡ zombie
      → (s.procs i).parent ≡ suc p
      → IsFree (s'.procs i)
      → IsSound s'
      → Waited s c p
  -- -1, without a child or when killed.
  gave_up :
      wait c s ≡ no_child
      → ((j : ℕ) → j < nproc → (s.procs j).parent ≢ suc p) ⊎ ((s.procs p).killed ≡ true)
      → Waited s c p
  -- Asleep, with children of which none is dead.
  slept :
      (s' : System)
      → wait c s ≡ waits s'
      → ((j : ℕ) → (s.procs j).parent ≡ suc p → (s.procs j).state ≢ zombie)
      → IsSound s'
      → Waited s c p

-- Every turn of `wait` on CPU `c` in a sound table keeps the table sound, and ends in one of three
-- ways: it frees the slot of a dead child and returns its pid; it returns -1, and there is no child
-- or the process is killed; or it sleeps, and no child is dead.
pub wait_lem : (s : System) (c p : ℕ) → IsSound s → s.cpus c ≡ suc p → Waited s c p
unfolding wait
wait_lem s c p h cur = elim (scan_from_lem nproc 0 (s.cpus c) false s.procs) [
  | inl (i, hit, _, _, own, dead) ↦
      let t = put s.procs i (reap (s.procs i)) in
      took i (record s { procs = t }) (rw (wait, hit) refl) dead (own ∙ cur) (rw (==_refl i) refl)
        (freed-IsSound s i s.nextpid (reap (s.procs i)) h (rw dead refl) refl refl (omega arith))
  | inr (b, missed, quiet, _) ↦
      let back = here s h c p cur in
      let none_dead : (j : ℕ) → (s.procs j).parent ≡ suc p → (s.procs j).state ≢ zombie =
        λ j own dead. elim (Bool-cases (ltb j nproc)) [
          | inl below ↦
              (quiet j (omega arith) (omega (arith, ltb→lt j nproc below)) (own ∙ sym cur)).0 dead
          | inr above ↦ (let free = h.outside j (ltb→le j nproc above) in cc)
        ] in
      elim (Bool-cases (not b || (s.procs p).killed)) [
        | inl quits ↦ gave_up (rw (wait, missed, back, quits) refl) (elim (Bool-cases b) [
          | inl some_kids ↦ inr (rw some_kids at quits)
          | inr childless ↦ inl (λ j below own.
              let has = (quiet j (omega arith) (omega arith) (own ∙ sym cur)).1 in cc)
        ])
        | inr stays ↦
            let (s', e, sound) = sleep-IsSound s h c p cur (s.cpus c) (inr none_dead) in
            slept s' (rw (wait, missed, back, stays, e) refl) none_dead sound
      ]
]
