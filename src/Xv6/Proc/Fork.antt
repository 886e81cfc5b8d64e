-- ===== src/Xv6/Proc/Fork.antt =====
-- A slot of the process table of xv6/proc.c becomes a child.
use asopracticas.Common.{
  ℕ, suc, ◌+◌, ◌<◌, ◌≡◌, ◌≢◌, refl, sym, ◌∙◌, ap, subst, inl, inr, ◌⊎◌, true, false, ne→==, ==_refl,
  arith,
}
use asopracticas.Xv6.Proc.{Proc, unused, embryo, sleeping, zombie, System, put, nproc}
use asopracticas.Xv6.Proc.Invariant.{is_alive, IsFree, IsPending, IsSound}
use asopracticas.Xv6.Proc.Births.{at_or_else}

-- A free slot becomes a new one that has no parent yet, or one that can run.
pub born-IsSound :
    (s : System) (i : ℕ) (new : Proc)
    → IsSound s
    → IsFree (s.procs i)
    → i < nproc
    → new.state ≡ embryo
    → new.pid ≡ s.nextpid
    → (new.parent ≡ 0) ⊎ ((p : ℕ) × (new.parent ≡ suc p) × (is_alive (s.procs p).state ≡ true))
    → 0 < s.nextpid
    → IsSound (record s { procs = put s.procs i new; nextpid = s.nextpid + 1 })
born-IsSound s i new h free inside state pid family some_pid =
    let t = put s.procs i new in
    let same : (j : ℕ) → j ≢ i → t j ≡ s.procs j = λ j ne. rw (ne→== j i ne) refl in
    let self : t i ≡ new = rw (==_refl i) refl in
    let other : (q : ℕ) → is_alive (s.procs q).state ≡ true → q ≢ i = λ q a e.
      let a' = subst (λ x. is_alive (s.procs x).state ≡ true) e a in
      let f : is_alive (s.procs i).state ≡ false = rw free refl in ground (arith, a', f) in
    let (z, at_init, live) = h.init in
    record {
      outside = λ j high. rw (same j (λ e. absurd (omega arith))) (h.outside j high);
      orphan = λ j f. elim (at_or_else s.procs i new j) [
        | inl (_, e) ↦ (let f' : new.state ≡ unused = rw e at f in cc)
        | inr (_, e) ↦ rw e (h.orphan j (rw e at f))
      ];
      root = λ j f. rw (same j (λ e. other z live (omega arith))) (h.root j f);
      adopted = λ j u ne settled. elim (at_or_else s.procs i new j) [
        | inl (_, e) ↦ elim family [
          | inl none_yet ↦ absurd (settled (rw e (state, none_yet)))
          | inr (p, parent, alive) ↦ (p, rw e parent, rw (same p (other p alive)) alive)
        ]
        | inr (_, e) ↦
            let (q, e', a) = h.adopted j (rw e at u) ne (λ f. settled (rw e f)) in
            (q, rw e e', rw (same q (other q a)) a)
      ];
      proper = λ j e. elim (at_or_else s.procs i new j) [
        | inl (e1, e') ↦
            let own : new.parent ≡ suc j = rw e' at e in
            elim family [
              | inl none_yet ↦ absurd (omega (arith, own, none_yet))
              | inr (p, parent, alive) ↦ other p alive (omega (arith, own, parent, e1))
            ]
        | inr (_, e') ↦ h.proper j (rw e' at e)
      ];
      numbered = λ j u. elim (at_or_else s.procs i new j) [
        | inl (_, e) ↦ rw (e, pid) (some_pid, omega arith)
        | inr (_, e) ↦ (let (low, high) = h.numbered j (rw e at u) in rw e (low, omega arith))
      ];
      distinct = λ a b ua ub e. elim (at_or_else s.procs i new a) [
        | inl (ea, na) ↦ elim (at_or_else s.procs i new b) [
          | inl (eb, _) ↦ ea ∙ sym eb
          | inr (_, nb) ↦
              (let e' : new.pid ≡ (s.procs b).pid = rw (na, nb) at e in
                let high = (h.numbered b (rw nb at ub)).1 in absurd (omega arith))
        ]
        | inr (_, na) ↦ elim (at_or_else s.procs i new b) [
          | inl (_, nb) ↦
              (let e' : (s.procs a).pid ≡ new.pid = rw (na, nb) at e in
                let high = (h.numbered a (rw na at ua)).1 in absurd (omega arith))
          | inr (_, nb) ↦ h.distinct a b (rw na at ua) (rw nb at ub) (rw (na, nb) at e)
        ]
      ];
      awake = λ q j (asleep, chan) e dead. elim (at_or_else s.procs i new q) [
        | inl (_, nq) ↦ (let a : new.state ≡ sleeping = rw nq at asleep in cc)
        | inr (_, nq) ↦ elim (at_or_else s.procs i new j) [
          | inl (_, nj) ↦ (let d : new.state ≡ zombie = rw nj at dead in cc)
          | inr (_, nj) ↦ h.awake q j (rw nq at asleep, rw nq at chan) (rw nj at e) (rw nj at dead)
        ]
      ];
      on_cpu = λ c q e. let r = h.on_cpu c q e in rw (same q (other q (rw r refl))) r;
      one_cpu = h.one_cpu;
      init = (z, at_init, rw (same z (other z live)) live);
    }

-- A pending slot gets the process in slot `p` as its parent.
pub given-IsSound :
    (s : System) (i p : ℕ) (new : Proc)
    → IsSound s
    → IsPending (s.procs i)
    → is_alive (s.procs p).state ≡ true
    → new.state ≡ embryo
    → new.pid ≡ (s.procs i).pid
    → new.parent ≡ suc p
    → IsSound (record s { procs = put s.procs i new })
given-IsSound s i p new h (old, none_yet) alive state pid parent =
    let t = put s.procs i new in
    let same : (j : ℕ) → j ≢ i → t j ≡ s.procs j = λ j ne. rw (ne→== j i ne) refl in
    let other : (q : ℕ) → is_alive (s.procs q).state ≡ true → q ≢ i = λ q a e.
      let a' = subst (λ x. is_alive (s.procs x).state ≡ true) e a in
      let f : is_alive (s.procs i).state ≡ false = rw old refl in ground (arith, a', f) in
    let used : (j : ℕ) → (t j).state ≢ unused → (s.procs j).state ≢ unused = λ j u.
      elim (at_or_else s.procs i new j) [
        | inl (e, _) ↦ (λ f. let f' = subst (λ x. (s.procs x).state ≡ unused) e f in cc)
        | inr (_, e) ↦ rw e at u
      ] in
    let same_pid : (j : ℕ) → (t j).pid ≡ (s.procs j).pid = λ j. elim (at_or_else s.procs i new j) [
      | inl (e, e') ↦ rw e' (pid ∙ ap (λ x. (s.procs x).pid) (sym e))
      | inr (_, e) ↦ rw e refl
    ] in
    let (z, at_init, live) = h.init in
    record {
      outside = λ j high. elim (at_or_else s.procs i new j) [
        | inl (e, _) ↦ (let f = subst (λ x. (s.procs x).state ≡ unused) e (h.outside j high) in cc)
        | inr (_, e) ↦ rw e (h.outside j high)
      ];
      orphan = λ j f. elim (at_or_else s.procs i new j) [
        | inl (_, e) ↦ (let f' : new.state ≡ unused = rw e at f in cc)
        | inr (_, e) ↦ rw e (h.orphan j (rw e at f))
      ];
      root = λ j f. rw (same j (λ e. other z live (omega arith))) (h.root j f);
      adopted = λ j u ne settled. elim (at_or_else s.procs i new j) [
        | inl (_, e) ↦ (p, rw e parent, rw (same p (other p alive)) alive)
        | inr (_, e) ↦
            let (q, e', a) = h.adopted j (rw e at u) ne (λ f. settled (rw e f)) in
            (q, rw e e', rw (same q (other q a)) a)
      ];
      proper = λ j e. elim (at_or_else s.procs i new j) [
        | inl (e1, e') ↦
            let own : new.parent ≡ suc j = rw e' at e in
            other p alive (omega (arith, own, parent, e1))
        | inr (_, e') ↦ h.proper j (rw e' at e)
      ];
      numbered = λ j u. let n = h.numbered j (used j u) in rw (same_pid j) n;
      distinct =
          λ a b ua ub e. h.distinct a b (used a ua) (used b ub) (sym (same_pid a) ∙ e ∙ same_pid b);
      awake = λ q j (asleep, chan) e dead. elim (at_or_else s.procs i new q) [
        | inl (_, nq) ↦ (let a : new.state ≡ sleeping = rw nq at asleep in cc)
        | inr (_, nq) ↦ elim (at_or_else s.procs i new j) [
          | inl (_, nj) ↦ (let d : new.state ≡ zombie = rw nj at dead in cc)
          | inr (_, nj) ↦ h.awake q j (rw nq at asleep, rw nq at chan) (rw nj at e) (rw nj at dead)
        ]
      ];
      on_cpu = λ c q e. let r = h.on_cpu c q e in rw (same q (other q (rw r refl))) r;
      one_cpu = h.one_cpu;
      init = (z, at_init, rw (same z (other z live)) live);
    }
