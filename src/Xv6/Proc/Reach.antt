-- ===== src/Xv6/Proc/Reach.antt =====
-- The processes of xv6/proc.c from the boot on, in every order of their steps. What `fork` does
-- between its two locked regions are steps of their own, in which other CPUs see its slot. `Step`
-- allows more orders than the code: it does not say where in its own code a process is.
use asopracticas.Common.{
  ℕ, suc, ◌+◌, ◌^◌, ◌<◌, ◌≡◌, ◌≢◌, refl, sym, ◌∙◌, ap, subst, inl, inr, ◌⊎◌, true, false, Option,
  none, some, ◌==◌, ltb, ltb→lt, ltb→le, Bool-cases, ne→==, ==_refl, arith,
}
use asopracticas.Xv6.Kalloc.{pgsize}
use asopracticas.Xv6.Proc.{
  Proc, unused, embryo, runnable, System, put, nproc, booted, userinit, allocproc, find_unused,
  find_slot, set_stack, copy_parent, end_fork, exit, reaped, waits, wait, sleep, end_sleep, wakeup,
  kill, yield_cpu, schedule_at,
}
use asopracticas.Xv6.Proc.Invariant.{IsPending, IsSound}
use asopracticas.Xv6.Proc.Steps.{
  sleep-IsSound, yield_cpu-IsSound, end_sleep-IsSound, wakeup-IsSound, kill-IsSound,
  end_fork-IsSound, schedule_at-IsSound,
}
use asopracticas.Xv6.Proc.Births.{at_or_else}
use asopracticas.Xv6.Proc.Lives.{exit-IsSound}
use asopracticas.Xv6.Proc.Wait.{took, gave_up, slept, wait_lem}
use asopracticas.Xv6.Proc.Children.{put-put}
use asopracticas.Xv6.Proc.Slots.{find_slot-IsSound, set_stack-IsSound, copy_parent-IsSound}

pub data Step : System → System → Type 0 where
  slot_found :
      {s s' : System} (c p np : ℕ)
      → s.cpus c ≡ suc p
      → s.nextpid + 1 < 2 ^ 31
      → find_slot s ≡ (np, s')
      → Step s s'
  stack_set :
      {s : System} (c p i stack : ℕ)
      → s.cpus c ≡ suc p
      → IsPending (s.procs i)
      → Step s (set_stack stack (suc i) s).1
  parent_copied :
      {s : System} (c p i dir : ℕ)
      → s.cpus c ≡ suc p
      → IsPending (s.procs i)
      → Step s (copy_parent c dir (suc i) s).1
  fork_ends :
      {s : System} (i : ℕ)
      → (s.procs i).state ≡ embryo
      → (s.procs i).parent ≢ 0
      → Step s (end_fork (suc i) s).1
  exits : {s s' : System} (c p : ℕ) → s.cpus c ≡ suc p → exit c s ≡ some s' → Step s s'
  reaps : {s s' : System} (c p pid : ℕ) → s.cpus c ≡ suc p → wait c s ≡ reaped pid s' → Step s s'
  wait_sleeps : {s s' : System} (c p : ℕ) → s.cpus c ≡ suc p → wait c s ≡ waits s' → Step s s'
  sleeps :
      {s s' : System} (c p chan : ℕ)
      → s.cpus c ≡ suc p
      → nproc < chan
      → sleep c chan s ≡ some s'
      → Step s s'
  rises : {s : System} (c p : ℕ) → s.cpus c ≡ suc p → Step s (end_sleep c s)
  wakes : {s : System} (chan : ℕ) → Step s (wakeup chan s)
  kills : {s s' : System} (pid : ℕ) → kill pid s ≡ some s' → Step s s'
  yields : {s s' : System} (c p : ℕ) → s.cpus c ≡ suc p → yield_cpu c s ≡ some s' → Step s s'
  is_picked : {s : System} (c i : ℕ) → s.cpus c ≡ 0 → Step s (schedule_at c i s)

-- What a deterministic step gave is what its lemma says.
agrees : {r : Option System} {s s' : System} → r ≡ some s → r ≡ some s' → IsSound s → IsSound s'
agrees {s} {s'} e e' h = let same : s ≡ s' = cc in subst IsSound same h

exit-not-init :
    (s s' : System) (c p : ℕ) → s.cpus c ≡ suc p → exit c s ≡ some s' → suc p ≢ s.initproc
unfolding exit
exit-not-init s s' c p cur e same =
    let stuck : s.cpus c == s.initproc ≡ true = rw (cur, same) (==_refl s.initproc) in
    let panics : none ≡ some s' = rw (exit, stuck) at e in cc

Step-IsSound : {s s' : System} → Step s s' → IsSound s → IsSound s'
Step-IsSound {s} {s'} (slot_found c p np cur room e) h =
    subst IsSound (ap (λ r. r.1) e) (find_slot-IsSound s h c p cur room)
Step-IsSound {s} (stack_set c p i stack cur pending) h = set_stack-IsSound s h i stack pending
Step-IsSound {s} (parent_copied c p i dir cur pending) h =
    copy_parent-IsSound s h c p cur i dir pending
Step-IsSound {s} (fork_ends i e given) h = end_fork-IsSound s i h e given
Step-IsSound {s} {s'} (exits c p cur e) h =
    let (s1, e1, sound) = exit-IsSound s h c p cur (exit-not-init s s' c p cur e) in
    agrees e1 e sound
Step-IsSound {s} {s'} (reaps c p pid cur e) h = elim (wait_lem s c p h cur) [
  | took i s1 e1 _ _ _ sound ↦ (let same : s1 ≡ s' = cc in subst IsSound same sound)
  | gave_up e1 _ ↦ cc
  | slept s1 e1 _ _ ↦ cc
]
Step-IsSound {s} {s'} (wait_sleeps c p cur e) h = elim (wait_lem s c p h cur) [
  | took i s1 e1 _ _ _ _ ↦ cc
  | gave_up e1 _ ↦ cc
  | slept s1 e1 _ sound ↦ (let same : s1 ≡ s' = cc in subst IsSound same sound)
]
Step-IsSound {s} (sleeps c p chan cur far e) h =
    let inside : p < nproc = elim (Bool-cases (ltb p nproc)) [
      | inl below ↦ ltb→lt p nproc below
      | inr above ↦ (let r = h.on_cpu c p cur in let f = h.outside p (ltb→le p nproc above) in cc)
    ] in
    let (s1, e1, sound) = sleep-IsSound s h c p cur chan (inl (omega arith)) in agrees e1 e sound
Step-IsSound {s} (rises c p cur) h = end_sleep-IsSound s h c p cur
Step-IsSound {s} (wakes chan) h = wakeup-IsSound s chan h
Step-IsSound {s} {s'} (kills pid e) h = kill-IsSound s s' pid h e
Step-IsSound {s} (yields c p cur e) h =
    let (s1, e1, sound) = yield_cpu-IsSound s h c p cur in agrees e1 e sound
Step-IsSound {s} (is_picked c i idle) h = schedule_at-IsSound s c i h idle

pub data Reach (s : System) : System → Type 0 where
  here : Reach s s
  next : {t u : System} → Reach s t → Step t u → Reach s u

abbrev first_proc : ℕ → ℕ → Proc
first_proc stack dir = record {
  sz = pgsize;
  pgdir = dir;
  kstack = stack;
  state = runnable;
  pid = 1;
  parent = 0;
  chan = 0;
  killed = false;
}

-- The table once `userinit` has filled slot 0.
abbrev begun : ℕ → ℕ → System
begun stack dir = record booted {
  procs = put booted.procs 0 (first_proc stack dir);
  nextpid = 2;
  initproc = 1;
}

-- Slot `j` once `userinit` has filled slot 0.
begun_at :
    (stack dir j : ℕ)
    → ((j ≡ 0) × ((begun stack dir).procs j ≡ first_proc stack dir))
      ⊎ ((j ≢ 0) × ((begun stack dir).procs j ≡ booted.procs j))
begun_at stack dir j = at_or_else booted.procs 0 (first_proc stack dir) j

first_alone : (stack dir j : ℕ) → ((begun stack dir).procs j).state ≢ unused → j ≡ 0
first_alone stack dir j used = elim (begun_at stack dir j) [
  | inl (e, _) ↦ e
  | inr (_, e) ↦ absurd (used (rw e refl))
]

parentless : (stack dir j : ℕ) → ((begun stack dir).procs j).parent ≡ 0
parentless stack dir j = elim (begun_at stack dir j) [
  | inl (_, e) ↦ rw e refl
  | inr (_, e) ↦ rw e refl
]

-- `userinit` makes the first process in slot 0.
pub userinit-IsSound :
    (stack dir : ℕ)
    → stack ≢ 0
    → dir ≢ 0
    → (s : System) × (userinit stack dir booted ≡ some s)
      × IsSound s
      × (s.initproc ≡ 1)
      × ((s.procs 0).state ≡ runnable)
unfolding userinit allocproc find_slot set_stack find_unused
userinit-IsSound stack dir some_stack some_dir = (
  begun stack dir,
  rw
      (
        userinit,
        allocproc,
        find_slot,
        set_stack,
        ne→== stack 0 some_stack,
        ne→== dir 0 some_dir,
        put-put,
        put-put,
      )
      refl,
  record {
    outside = λ j high. elim (begun_at stack dir j) [
      | inl (e, _) ↦ absurd (omega arith)
      | inr (_, e) ↦ rw e refl
    ];
    orphan = λ j _. parentless stack dir j;
    adopted = λ j used other _. absurd (other (ap (λ x. suc x) (first_alone stack dir j used)));
    root = λ j _. parentless stack dir j;
    proper = λ j e. let p = parentless stack dir j in absurd (omega arith);
    numbered = λ j used. rw (first_alone stack dir j used) (omega arith, omega arith);
    distinct = λ i j ui uj _. first_alone stack dir i ui ∙ sym (first_alone stack dir j uj);
    awake = λ q j _ e _. let p = parentless stack dir j in absurd (omega arith);
    on_cpu = λ c p e. absurd (omega arith);
    one_cpu = λ c d p e. absurd (omega arith);
    init = (0, refl, refl);
  },
  refl,
  refl,
)

-- From `userinit` on, with memory for its stack and page table, while pids are below 2^31, and in
-- every order of the steps of all processes on all CPUs: the first process and each parent of a
-- process in the table can still run, and each process but the first has a parent, unless it is a
-- slot that `fork` has taken and not yet given to the parent; pids are positive and distinct; a process that sleeps in
-- `wait` has no dead child; a process on a CPU is marked as running, and runs on one CPU only.
pub Reach-IsSound :
    (stack dir : ℕ)
    → stack ≢ 0
    → dir ≢ 0
    → {s s' : System} → userinit stack dir booted ≡ some s
    → Reach s s'
    → IsSound s'
Reach-IsSound stack dir some_stack some_dir e here =
    let (s1, e1, sound, _, _) = userinit-IsSound stack dir some_stack some_dir in agrees e1 e sound
Reach-IsSound stack dir some_stack some_dir e (next r st) =
    Step-IsSound st (Reach-IsSound stack dir some_stack some_dir e r)
