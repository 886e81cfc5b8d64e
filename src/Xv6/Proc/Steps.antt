-- ===== src/Xv6/Proc/Steps.antt =====
-- The steps of xv6/proc.c that make no process and end none keep the invariant.
use asopracticas.Common.{
  ℕ, suc, ◌-◌, ◌≡◌, ◌≢◌, refl, sym, ◌∙◌, ap, subst, false, inl, inr, ◌⊎◌, true, none, some, ◌==◌,
  if◌then◌else◌, Bool-cases, ==→eq, ==→ne, ne→==, ==_refl, arith,
}
use asopracticas.Xv6.Proc.{
  Proc, ProcState, unused, embryo, sleeping, runnable, running, zombie, Table, System, put, nproc,
  current, with_state, is_runnable, is_sleeping, sched, sleep, end_sleep, yield_cpu, schedule_at,
  wakeup, wakeup1, kill, mark_killed, end_fork,
}
use asopracticas.Xv6.Proc.Loops.{Kept, wakeup1_lem, Kept-asleep, sleeping_of}
use asopracticas.Xv6.Proc.Searches.{kill_from_lem}
use asopracticas.Xv6.Proc.Invariant.{is_alive, IsSound, Moves, put-Moves, moved-IsSound}

put_runs :
    (t : Table) (i : ℕ) (p : Proc)
    → ((t i).state ≡ running → p.state ≡ running)
    → (j : ℕ) → (t j).state ≡ running
    → (put t i p j).state ≡ running
put_runs t i p h j e = elim (Bool-cases (j == i)) [
  | inl same ↦ rw same (h (subst (λ x. (t x).state ≡ running) (==→eq j i same) e))
  | inr other ↦ rw other e
]

-- CPU `c` forgets its process.
pub still_on :
    (cpus : ℕ → ℕ) (c d q : ℕ) → (if d == c then 0 else cpus d) ≡ suc q → (d ≢ c) × (cpus d ≡ suc q)
still_on cpus c d q e = elim (Bool-cases (d == c)) [
  | inl same ↦ (let e' : 0 ≡ suc q = rw same at e in absurd (omega arith))
  | inr other ↦ (==→ne d c other, rw other at e)
]

-- The process that runs on CPU `c`.
module _ (s : System) (h : IsSound s) (c p : ℕ) (cur : s.cpus c ≡ suc p) where
  pub here : current c s ≡ p
  here = rw cur (omega arith)

  pub leave-IsSound :
      (new : Proc)
      → Moves s.procs p new
      → IsSound (record s { procs = put s.procs p new; cpus = λ d. if d == c then 0 else s.cpus d })
  leave-IsSound new m =
      moved-IsSound s (put s.procs p new) (λ d. if d == c then 0 else s.cpus d) h
        (put-Moves s.procs p new m)
        (λ d q e.
          let (off, on) = still_on s.cpus c d q e in
          let ne : q ≢ p = λ same. off (h.one_cpu d c p (on ∙ ap suc same) cur) in
          rw (ne→== q p ne) (h.on_cpu d q on))
        (λ d d' q e e'. h.one_cpu d d' q (still_on s.cpus c d q e).1 (still_on s.cpus c d' q e').1)

  pub sleep-IsSound :
      (chan : ℕ)
      → (chan ≢ suc p) ⊎ ((j : ℕ) → (s.procs j).parent ≡ suc p → (s.procs j).state ≢ zombie)
      → (s' : System) × (sleep c chan s ≡ some s') × IsSound s'
  unfolding sleep sched
  sleep-IsSound chan quiet =
      let runs = h.on_cpu c p cur in
      let new : Proc = record (s.procs p) { chan = chan; state = sleeping } in
      (
        _,
        rw (here, ==_refl p) refl,
        leave-IsSound new record {
          pid = refl;
          parent = refl;
          alive = λ _. refl;
          free = λ e. cc;
          stays_free = λ e. cc;
          pending = λ (e, _). cc;
          dead = λ e. cc;
          waits = λ _ e. elim quiet [
            | inl elsewhere ↦ absurd (elsewhere e)
            | inr none_dead ↦ inr none_dead
          ];
        },
      )

  pub yield_cpu-IsSound : (s' : System) × (yield_cpu c s ≡ some s') × IsSound s'
  unfolding yield_cpu sched
  yield_cpu-IsSound =
      let runs = h.on_cpu c p cur in
      let new : Proc = with_state runnable (s.procs p) in
      (
        _,
        rw (here, ==_refl p) refl,
        leave-IsSound new record {
          pid = refl;
          parent = refl;
          alive = λ _. refl;
          free = λ e. cc;
          stays_free = λ e. cc;
          pending = λ (e, _). cc;
          dead = λ e. cc;
          waits = λ e. cc;
        },
      )

  pub end_sleep-IsSound : IsSound (end_sleep c s)
  unfolding end_sleep
  end_sleep-IsSound = rw here (
      moved-IsSound s (put s.procs p (record (s.procs p) { chan = 0 })) s.cpus h
        (put-Moves s.procs p (record (s.procs p) { chan = 0 })
          record {
            pid = refl;
            parent = refl;
            alive = λ e. e;
            free = λ e. e;
            stays_free = λ e. e;
            pending = λ e. e;
            dead = λ e. e;
            waits = λ _ e. absurd (omega arith);
          })
        (λ d q e. put_runs s.procs p (record (s.procs p) { chan = 0 }) (λ r. r) q (h.on_cpu d q e))
        h.one_cpu)

-- A change of slots that leaves every CPU where it is.
in_place-IsSound :
    (s : System) (t : Table)
    → IsSound s
    → ((j : ℕ) → Moves s.procs j (t j))
    → ((j : ℕ) → (s.procs j).state ≡ running → (t j).state ≡ running)
    → IsSound (record s { procs = t })
in_place-IsSound s t h m runs =
    moved-IsSound s t s.cpus h m (λ d q e. runs q (h.on_cpu d q e)) h.one_cpu

woken-Moves : (t : Table) (j : ℕ) (p : Proc) → Kept (t j) p → p.parent ≡ (t j).parent → Moves t j p
woken-Moves t j p k parent = record {
  pid = k.pid;
  parent = parent;
  alive = λ e. ground (arith, k.state);
  free = λ e. ground (arith, k.state);
  stays_free = λ e. ground (arith, k.state);
  pending = λ (e, none_yet). (ground (arith, k.state), parent ∙ none_yet);
  dead = λ e. ground (arith, k.state);
  waits = λ e e'. inl (Kept-asleep (t j) p k e, sym k.chan ∙ e');
}

pub wakeup-IsSound : (s : System) (chan : ℕ) → IsSound s → IsSound (wakeup chan s)
unfolding wakeup
wakeup-IsSound s chan h =
    in_place-IsSound s (wakeup1 chan s.procs) h
      (λ j.
        let (kept, parent, _) = wakeup1_lem chan s.procs j in
        woken-Moves s.procs j (wakeup1 chan s.procs j) kept parent)
      (λ j e. let kept = (wakeup1_lem chan s.procs j).0 in ground (arith, kept.state))

runnable_of : (st : ProcState) → is_runnable st ≡ true → st ≡ runnable
runnable_of runnable h = refl
runnable_of unused h = cc
runnable_of embryo h = cc
runnable_of sleeping h = cc
runnable_of running h = cc
runnable_of zombie h = cc

killed-Moves : (t : Table) (j : ℕ) → Moves t j (mark_killed (t j))
killed-Moves t j = elim (Bool-cases (is_sleeping (t j).state)) [
  | inl asleep ↦
      let e = sleeping_of (t j).state asleep in
      record {
        pid = refl;
        parent = refl;
        alive = λ a. rw asleep refl;
        free = λ a. let b : runnable ≡ unused = rw asleep at a in cc;
        stays_free = λ a. cc;
        pending = λ (a, _). cc;
        dead = λ a. let b : runnable ≡ zombie = rw asleep at a in cc;
        waits = λ a. let b : runnable ≡ sleeping = rw asleep at a in cc;
      }
  | inr other ↦ record {
    pid = refl;
    parent = refl;
    alive = λ a. rw other a;
    free = λ a. rw other at a;
    stays_free = λ a. rw other a;
    pending = λ (a, b). (rw other a, b);
    dead = λ a. rw other at a;
    waits = λ a b. inl (rw other at a, b);
  }
]

pub kill-IsSound : (s s' : System) (pid : ℕ) → IsSound s → kill pid s ≡ some s' → IsSound s'
unfolding kill
kill-IsSound s s' pid h e = elim (kill_from_lem nproc 0 pid s.procs) [
  | inl (none_there, _) ↦ (let absent : none ≡ some s' = rw (kill, none_there) at e in cc)
  | inr (j, hit, _, _, _, _) ↦
      let t = put s.procs j (mark_killed (s.procs j)) in
      let made : some (record s { procs = t }) ≡ some s' = rw (kill, hit) at e in
      let same : record s { procs = t } ≡ s' = cc in
      subst IsSound same (
        in_place-IsSound s t h
          (put-Moves s.procs j (mark_killed (s.procs j)) (killed-Moves s.procs j))
          (put_runs s.procs j (mark_killed (s.procs j)) (λ r. rw r refl)))
]

pub end_fork-IsSound :
    (s : System) (i : ℕ)
    → IsSound s
    → (s.procs i).state ≡ embryo
    → (s.procs i).parent ≢ 0
    → IsSound (end_fork (suc i) s).1
unfolding end_fork
end_fork-IsSound s i h e given =
    let p = with_state runnable (s.procs i) in
    let back : suc i - 1 ≡ i = omega arith in
    let m : Moves s.procs i p = record {
      pid = refl;
      parent = refl;
      alive = λ _. refl;
      free = λ a. cc;
      stays_free = λ a. cc;
      pending = λ (_, none_yet). absurd (given none_yet);
      dead = λ a. cc;
      waits = λ a. cc;
    } in
    rw back (
      in_place-IsSound s (put s.procs i p) h (put-Moves s.procs i p m)
        (put_runs s.procs i p (λ a. cc)))

now_on :
    (cpus : ℕ → ℕ) (c i d q : ℕ)
    → (if d == c then suc i else cpus d) ≡ suc q
    → ((d ≡ c) × (q ≡ i)) ⊎ ((d ≢ c) × (cpus d ≡ suc q))
now_on cpus c i d q e = elim (Bool-cases (d == c)) [
  | inl same ↦ (let e' : suc i ≡ suc q = rw same at e in inl (==→eq d c same, omega arith))
  | inr other ↦ inr (==→ne d c other, rw other at e)
]

pub schedule_at-IsSound :
    (s : System) (c i : ℕ) → IsSound s → s.cpus c ≡ 0 → IsSound (schedule_at c i s)
unfolding schedule_at
schedule_at-IsSound s c i h idle = elim (Bool-cases (is_runnable (s.procs i).state)) [
  | inr other ↦ rw other h
  | inl ready ↦
      let state = runnable_of (s.procs i).state ready in
      let p = with_state running (s.procs i) in
      let m : Moves s.procs i p = record {
        pid = refl;
        parent = refl;
        alive = λ _. refl;
        free = λ a. cc;
        stays_free = λ a. cc;
        pending = λ (a, _). cc;
        dead = λ a. cc;
        waits = λ a. cc;
      } in
      let runs = put_runs s.procs i p (λ _. refl) in
      rw ready (
        moved-IsSound s (put s.procs i p) (λ d. if d == c then suc i else s.cpus d) h
          (put-Moves s.procs i p m)
          (λ d q e. elim (now_on s.cpus c i d q e) [
            | inl (_, same) ↦ rw (same, ==_refl i) refl
            | inr (_, on) ↦ runs q (h.on_cpu d q on)
          ])
          (λ d d' q e e'. elim (now_on s.cpus c i d q e) [
            | inl (at_c, same) ↦ elim (now_on s.cpus c i d' q e') [
              | inl (at_c', _) ↦ at_c ∙ sym at_c'
              | inr (_, on) ↦
                  (let r = h.on_cpu d' q on in
                    let r' = subst (λ x. (s.procs x).state ≡ running) same r in cc)
            ]
            | inr (_, on) ↦ elim (now_on s.cpus c i d' q e') [
              | inl (_, same) ↦
                  (let r = h.on_cpu d q on in
                    let r' = subst (λ x. (s.procs x).state ≡ running) same r in cc)
              | inr (_, on') ↦ h.one_cpu d d' q on on'
            ]
          ]))
]

-- What the owner of a pending slot does to it without the lock: it keeps the slot pending.
pub kept_slot-IsSound :
    (s : System) (i : ℕ) (new : Proc)
    → IsSound s
    → (s.procs i).state ≡ embryo
    → new.state ≡ embryo
    → new.pid ≡ (s.procs i).pid
    → new.parent ≡ (s.procs i).parent
    → IsSound (record s { procs = put s.procs i new })
kept_slot-IsSound s i new h old state pid parent =
    in_place-IsSound s (put s.procs i new) h
      (put-Moves s.procs i new record {
        pid = pid;
        parent = parent;
        alive =
            λ a. let b : is_alive (s.procs i).state ≡ false = rw old refl in ground (arith, a, b);
        free = λ a. cc;
        stays_free = λ a. cc;
        pending = λ (_, none_yet). (state, parent ∙ none_yet);
        dead = λ a. cc;
        waits = λ a. cc;
      })
      (put_runs s.procs i new (λ a. cc))
