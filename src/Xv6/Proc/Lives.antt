-- ===== src/Xv6/Proc/Lives.antt =====
-- `fork`, `exit` and `wait` of xv6/proc.c keep the invariant.
use asopracticas.Common.{
  ℕ, suc, ◌+◌, ◌-◌, ◌<◌, ◌≡◌, ◌≢◌, refl, sym, ◌∙◌, ap, subst, inl, inr, true, false, some, ◌==◌,
  ltb, ltb→lt, ltb→le, if◌then◌else◌, Bool-cases, ==→eq, ==→ne, ne→==, ==_refl, arith,
}
use asopracticas.Xv6.Proc.{
  unused, embryo, sleeping, running, zombie, Table, System, put, nproc, with_state, sched, wakeup1,
  pass_from, exit,
}
use asopracticas.Xv6.Proc.Loops.{
  Kept, Kept_trans, wakeup1_lem, Kept-asleep, Kept-dead, Passed, pass_from-Passed,
}
use asopracticas.Xv6.Proc.Invariant.{is_alive, IsFree, IsPending, WaitsFor, IsSound}
use asopracticas.Xv6.Proc.Steps.{still_on}

-- `exit` by the process in slot `p`, which is not the first one.
module _ (s : System) (h : IsSound s) (c p : ℕ) (cur : s.cpus c ≡ suc p)
    (other : suc p ≢ s.initproc) where
  -- The table before the process becomes a zombie.
  abbrev passed : Table
  passed = pass_from nproc 0 (suc p) s.initproc (wakeup1 (s.procs p).parent s.procs)

  abbrev gone : Table
  gone = put passed p (with_state zombie (passed p))

  abbrev left : System
  left = record s { procs = gone; cpus = λ d. if d == c then 0 else s.cpus d }

  passing : Passed nproc 0 (suc p) s.initproc (wakeup1 (s.procs p).parent s.procs) passed
  passing = pass_from-Passed nproc 0 (suc p) s.initproc (wakeup1 (s.procs p).parent s.procs)

  passed-Kept : (j : ℕ) → Kept (s.procs j) (passed j)
  passed-Kept j =
      Kept_trans (s.procs j) (wakeup1 (s.procs p).parent s.procs j) (passed j)
        (wakeup1_lem (s.procs p).parent s.procs j).0 (passing.kept j)

  runs : (s.procs p).state ≡ running
  runs = h.on_cpu c p cur

  -- Slots of the table past its end are free and have no parent.
  passed_parent :
      (j : ℕ)
      → (passed j).parent ≡ (if (s.procs j).parent == suc p then s.initproc else (s.procs j).parent)
  passed_parent j =
      let same = (wakeup1_lem (s.procs p).parent s.procs j).1 in
      elim (Bool-cases (ltb j nproc)) [
        | inl below ↦ ground (arith, passing.parent j)
        | inr above ↦
            (let free = h.orphan j (h.outside j (ltb→le j nproc above)) in
              ground (arith, passing.parent j))
      ]

  gone_other : (j : ℕ) → j ≢ p → gone j ≡ passed j
  gone_other j ne = rw (ne→== j p ne) refl

  gone_self : gone p ≡ with_state zombie (passed p)
  gone_self = rw (==_refl p) refl

  -- The change of state does not touch the other fields.
  gone_fields : (j : ℕ) → ((gone j).parent ≡ (passed j).parent) × ((gone j).pid ≡ (s.procs j).pid)
  gone_fields j =
      let k = passed-Kept j in
      elim (Bool-cases (j == p)) [
        | inl same ↦ rw (same, ==→eq j p same) (refl, (passed-Kept p).pid)
        | inr ne ↦ rw ne (refl, k.pid)
      ]

  still_alive : (q : ℕ) → q ≢ p → is_alive (s.procs q).state ≡ true → is_alive (gone q).state ≡ true
  still_alive q ne a = let k = passed-Kept q in rw (ne→== q p ne) (ground (arith, k.state))

  gone-IsFree : (j : ℕ) → IsFree (gone j) → (j ≢ p) × IsFree (s.procs j)
  gone-IsFree j free =
      let ne : j ≢ p = λ e.
        let dead = subst (λ x. (gone x).state ≡ unused) e free in
        let dead' : zombie ≡ unused = rw (==_refl p) at dead in cc in
      let free' : IsFree (passed j) = rw (ne→== j p ne) at free in
      let k = passed-Kept j in (ne, ground (arith, k.state))

  IsFree-gone : (j : ℕ) → IsFree (s.procs j) → IsFree (gone j)
  IsFree-gone j free =
      let ne : j ≢ p =
        λ e. let f = subst (λ x. (s.procs x).state ≡ unused) e free in let r = runs in cc in
      let k = passed-Kept j in rw (ne→== j p ne) (ground (arith, k.state))

  adopted_left :
      (j : ℕ)
      → (s.procs j).state ≢ unused
      → suc j ≢ s.initproc
      → (IsPending (s.procs j) → ⊥)
      → (q : ℕ) × ((passed j).parent ≡ suc q) × (is_alive (gone q).state ≡ true)
  adopted_left j used ne settled =
      let (q, e, a) = h.adopted j used ne settled in
      let (z, at_init, live) = h.init in
      elim (Bool-cases ((s.procs j).parent == suc p)) [
        | inl mine ↦ (
          z,
          passed_parent j ∙ rw mine at_init,
          still_alive z (λ e. other (ap suc (sym e) ∙ sym at_init)) live,
        )
        | inr foreign ↦ (
          q,
          passed_parent j ∙ rw foreign e,
          still_alive q (λ e'. ==→ne _ _ foreign (e ∙ ap suc e')) a,
        )
      ]

  -- A process that sleeps in `wait` afterwards slept so before, and was woken neither time.
  awake_left : (q j : ℕ) → WaitsFor gone q → (gone j).parent ≡ suc q → (gone j).state ≢ zombie
  awake_left q j (asleep, chan) e dead =
      let t1 = wakeup1 (s.procs p).parent s.procs in
      let q_ne : q ≢ p = λ same.
        let a = subst (λ x. (gone x).state ≡ sleeping) same asleep in
        let a' : zombie ≡ sleeping = rw (==_refl p) at a in cc in
      let asleep' : (passed q).state ≡ sleeping = rw (ne→== q p q_ne) at asleep in
      let chan' : (passed q).chan ≡ suc q = rw (ne→== q p q_ne) at chan in
      let asleep1 = Kept-asleep (t1 q) (passed q) (passing.kept q) asleep' in
      let chan1 : (t1 q).chan ≡ suc q = sym (passing.kept q).chan ∙ chan' in
      let asleep0 = Kept-asleep (s.procs q) (passed q) (passed-Kept q) asleep' in
      let inside : (l : ℕ) → (s.procs l).state ≢ unused → l < nproc = λ l used.
        elim (Bool-cases (ltb l nproc)) [
          | inl below ↦ ltb→lt l nproc below
          | inr above ↦ absurd (used (h.outside l (ltb→le l nproc above)))
        ] in
      let q_in = inside q (λ f. cc) in
      let parent' : (passed j).parent ≡ suc q = sym (gone_fields j).0 ∙ e in
      elim (Bool-cases (j == p)) [
        | inl same ↦
            let own : (passed p).parent ≡ suc q =
              subst (λ x. (passed x).parent ≡ suc q) (==→eq j p same) parent' in
            let not_self : (s.procs p).parent == suc p ≡ false = ne→== _ _ (h.proper p) in
            let stays : (passed p).parent ≡ (s.procs p).parent =
              passed_parent p ∙ rw not_self refl in
            (wakeup1_lem (s.procs p).parent s.procs q).2 q_in asleep1 (chan1 ∙ sym own ∙ stays)
        | inr ne ↦
            let dead' : (passed j).state ≡ zombie = rw ne at dead in
            let k = passed-Kept j in
            let dead0 : (s.procs j).state ≡ zombie = ground (arith, k.state) in
            let w1 = wakeup1_lem (s.procs p).parent s.procs j in
            let dead1 : (t1 j).state ≡ zombie = Kept-dead (s.procs j) (t1 j) w1.0 dead0 in
            elim (Bool-cases ((s.procs j).parent == suc p)) [
              | inl mine ↦
                  let to_init : (passed j).parent ≡ s.initproc = passed_parent j ∙ rw mine refl in
                  let j_in : j < 0 + nproc = omega (arith, inside j (λ f. cc)) in
                  passing.woken j (omega arith) j_in dead1 (w1.1 ∙ ==→eq _ _ mine) q q_in asleep'
                    (chan' ∙ sym parent' ∙ to_init)
              | inr foreign ↦
                  let same_parent : (passed j).parent ≡ (s.procs j).parent =
                    passed_parent j ∙ rw foreign refl in
                  h.awake q j (asleep0, sym (passed-Kept q).chan ∙ chan')
                    (sym same_parent ∙ parent') dead0
            ]
      ]

  fatherless : (j : ℕ) → (s.procs j).parent ≡ 0 → (gone j).parent ≡ 0
  fatherless j e =
      let apart : 0 == suc p ≡ false = ne→== _ _ (omega arith) in
      (gone_fields j).0 ∙ passed_parent j ∙ rw (e, apart) refl

  IsPending-gone : (j : ℕ) → IsPending (s.procs j) → IsPending (gone j)
  IsPending-gone j (state, none_yet) =
      let ne : j ≢ p =
        λ e. let f = subst (λ x. (s.procs x).state ≡ embryo) e state in let r = runs in cc in
      let k = passed-Kept j in
      let passed_state : (passed j).state ≡ embryo = ground (arith, k.state) in
      (rw (ne→== j p ne) passed_state, fatherless j none_yet)

  left-IsSound : IsSound left
  left-IsSound =
      let (z, at_init, live) = h.init in
      record {
        outside = λ j high. IsFree-gone j (h.outside j high);
        orphan = λ j free. fatherless j (h.orphan j (gone-IsFree j free).1);
        root = λ j e. fatherless j (h.root j e);
        adopted = λ j used ne settled.
            let (q, e, a) =
              adopted_left j (λ f. used (IsFree-gone j f)) ne (λ f. settled (IsPending-gone j f)) in
            (q, (gone_fields j).0 ∙ e, a);
        proper = λ j e.
            let e' : (passed j).parent ≡ suc j = sym (gone_fields j).0 ∙ e in
            elim (Bool-cases ((s.procs j).parent == suc p)) [
              | inl mine ↦
                  let by_init : (passed j).parent ≡ s.initproc = passed_parent j ∙ rw mine refl in
                  let root = h.root j (sym e' ∙ by_init) in
                  let child = ==→eq (s.procs j).parent (suc p) mine in omega (arith, root, child)
              | inr foreign ↦
                  let kept : (passed j).parent ≡ (s.procs j).parent =
                    passed_parent j ∙ rw foreign refl in
                  h.proper j (sym kept ∙ e')
            ];
        numbered = λ j used.
            let (low, high) = h.numbered j (λ f. used (IsFree-gone j f)) in
            (
              subst (λ x. 0 < x) (sym (gone_fields j).1) low,
              subst (λ x. x < s.nextpid) (sym (gone_fields j).1) high,
            );
        distinct = λ i j ui uj e.
            h.distinct i j (λ f. ui (IsFree-gone i f)) (λ f. uj (IsFree-gone j f))
              (sym (gone_fields i).1 ∙ e ∙ (gone_fields j).1);
        awake = awake_left;
        on_cpu = λ d q e.
            let (off, on) = still_on s.cpus c d q e in
            let ne : q ≢ p = λ same. off (h.one_cpu d c p (on ∙ ap suc same) cur) in
            let k = passed-Kept q in
            let was = h.on_cpu d q on in rw (ne→== q p ne) (ground (arith, k.state));
        one_cpu = λ d d' q e e'.
            h.one_cpu d d' q (still_on s.cpus c d q e).1 (still_on s.cpus c d' q e').1;
        init = (z, at_init, still_alive z (λ e. other (ap suc (sym e) ∙ sym at_init)) live);
      }

  -- `exit` makes the process a zombie and hands its children to the first process.
  pub exit-IsSound : (s' : System) × (exit c s ≡ some s') × IsSound s'
  unfolding exit sched
  exit-IsSound =
      let not_init : suc p == s.initproc ≡ false = ne→== _ _ other in
      let back : suc p - 1 ≡ p = omega arith in
      (left, rw (exit, cur, not_init, back, ==_refl p) refl, left-IsSound)
