-- ===== src/Xv6/Proc/Births.antt =====
-- Slots of the process table of xv6/proc.c that are given back.
use asopracticas.Common.{
  ℕ, suc, ◌≤◌, ◌≡◌, ◌≢◌, refl, subst, false, inl, inr, ◌⊎◌, true, ◌==◌, Bool-cases, ==→eq, ==→ne,
  ne→==, ==_refl, arith,
}
use asopracticas.Xv6.Proc.{Proc, unused, Table, System, put}
use asopracticas.Xv6.Proc.Invariant.{is_alive, IsFree, IsSound}

-- A slot and its place in the table after a change of slot `i`.
pub at_or_else :
    (t : Table) (i : ℕ) (p : Proc) (j : ℕ)
    → ((j ≡ i) × (put t i p j ≡ p)) ⊎ ((j ≢ i) × (put t i p j ≡ t j))
at_or_else t i p j = elim (Bool-cases (j == i)) [
  | inl same ↦ inl (==→eq j i same, rw same refl)
  | inr other ↦ inr (==→ne j i other, rw other refl)
]

-- Slot `i`, of no process that can run, is made free or stays free.
pub freed-IsSound :
    (s : System) (i next : ℕ) (p : Proc)
    → IsSound s
    → is_alive (s.procs i).state ≡ false
    → IsFree p
    → p.parent ≡ 0
    → s.nextpid ≤ next
    → IsSound (record s { procs = put s.procs i p; nextpid = next })
freed-IsSound s i next p h idle free fatherless grows =
    let t = put s.procs i p in
    let other : (q : ℕ) → is_alive (s.procs q).state ≡ true → q ≢ i = λ q a e.
      let a' = subst (λ x. is_alive (s.procs x).state ≡ true) e a in ground (arith, a', idle) in
    let same : (j : ℕ) → j ≢ i → t j ≡ s.procs j = λ j ne. rw (ne→== j i ne) refl in
    let used : (j : ℕ) → (t j).state ≢ unused → (j ≢ i) × ((s.procs j).state ≢ unused) =
      λ j u. let ne : j ≢ i = λ e. u (rw (e, ==_refl i) free) in (ne, λ f. u (rw (same j ne) f)) in
    let (z, at_init, live) = h.init in
    record {
      outside = λ j high. elim (at_or_else s.procs i p j) [
        | inl (_, e) ↦ rw e free
        | inr (_, e) ↦ rw e (h.outside j high)
      ];
      orphan = λ j f. elim (at_or_else s.procs i p j) [
        | inl (_, e) ↦ rw e fatherless
        | inr (_, e) ↦ rw e (h.orphan j (rw e at f))
      ];
      root = λ j f. elim (at_or_else s.procs i p j) [
        | inl (_, e) ↦ rw e fatherless
        | inr (_, e) ↦ rw e (h.root j f)
      ];
      adopted = λ j u ne settled.
          let (off, u') = used j u in
          let (q, e, a) = h.adopted j u' ne (λ f. settled (rw (same j off) f)) in
          (q, rw (same j off) e, rw (same q (other q a)) a);
      proper = λ j e. elim (at_or_else s.procs i p j) [
        | inl (_, e') ↦
            (let none_there : p.parent ≡ suc j = rw e' at e in
              omega (arith, fatherless, none_there))
        | inr (_, e') ↦ h.proper j (rw e' at e)
      ];
      numbered = λ j u.
          let (off, u') = used j u in
          let (low, high) = h.numbered j u' in rw (same j off) (low, omega arith);
      distinct = λ a b ua ub e.
          let (na, ua') = used a ua in
          let (nb, ub') = used b ub in h.distinct a b ua' ub' (rw (same a na, same b nb) at e);
      awake = λ q j (asleep, chan) e dead.
          let (nq, _) = used q (λ f. cc) in
          let (nj, _) = used j (λ f. cc) in
          h.awake q j (rw (same q nq) at asleep, rw (same q nq) at chan) (rw (same j nj) at e)
            (rw (same j nj) at dead);
      on_cpu = λ c q e.
          let r = h.on_cpu c q e in let nq : q ≢ i = other q (rw r refl) in rw (same q nq) r;
      one_cpu = h.one_cpu;
      init = (z, at_init, rw (same z (other z live)) live);
    }
