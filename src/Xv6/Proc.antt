-- ===== src/Xv6/Proc.antt =====
-- The process table, xv6/proc.c. `ptable.lock` makes each region that holds it one step; registers,
-- names, open files and current directories are left out. A pointer to slot `i` of the table is the
-- number `suc i`, the null pointer 0, and a sleep channel that is no process is above NPROC.
pub mod Loops
pub mod Searches
pub mod Invariant
pub mod Steps
pub mod Lives
pub mod Births
pub mod Wait
pub mod Fork
pub mod Children
pub mod Slots
pub mod Killed
pub mod Reach
mod Tests
use asopracticas.Common.{
  ℕ, zero, suc, ◌+◌, ◌-◌, Bool, true, false, ◌&&◌, ◌||◌, not, Option, none, some, ◌==◌, ltb,
  if◌then◌else◌, add32,
}
use asopracticas.Xv6.Kalloc.{pgsize}

-- NPROC
abbrev pub nproc : ℕ
nproc = 64

-- `enum procstate`
pub data ProcState : Type 0 where
  unused embryo sleeping runnable running zombie : ProcState

abbrev pub is_unused : ProcState → Bool
is_unused unused = true
is_unused _ = false

abbrev pub is_sleeping : ProcState → Bool
is_sleeping sleeping = true
is_sleeping _ = false

abbrev pub is_runnable : ProcState → Bool
is_runnable runnable = true
is_runnable _ = false

abbrev pub is_running : ProcState → Bool
is_running running = true
is_running _ = false

abbrev pub is_zombie : ProcState → Bool
is_zombie zombie = true
is_zombie _ = false

-- `struct proc`
pub record Proc : Type 0 where
  pub sz : ℕ
  pub pgdir : ℕ
  pub kstack : ℕ
  pub state : ProcState
  pub pid : ℕ
  pub parent : ℕ
  pub chan : ℕ
  pub killed : Bool

abbrev pub Table : Type 0
Table = ℕ → Proc

-- `ptable`, `nextpid`, `initproc`, and `c->proc` of each CPU.
pub record System : Type 0 where
  pub procs : Table
  pub nextpid : ℕ
  pub initproc : ℕ
  pub cpus : ℕ → ℕ

-- The kernel's data at the boot.
abbrev pub booted : System
booted = record {
  procs = λ _. record {
    sz = 0;
    pgdir = 0;
    kstack = 0;
    state = unused;
    pid = 0;
    parent = 0;
    chan = 0;
    killed = false;
  };
  nextpid = 1;
  initproc = 0;
  cpus = λ _. 0;
}

abbrev pub put : Table → ℕ → Proc → Table
put t i p j = if j == i then p else t j

abbrev pub with_state : ProcState → Proc → Proc
with_state st p = record p { state = st }

-- `myproc()`, as the slot that the CPU's pointer names.
abbrev pub current : ℕ → System → ℕ
current c s = s.cpus c - 1

-- The loops go on from slot `i` with `k` slots left.
pub find_unused : ℕ → ℕ → Table → Option ℕ
find_unused zero i t = none
find_unused (suc k) i t =
    let later = find_unused k (i + 1) t in if is_unused (t i).state then some i else later

-- The locked region of `allocproc`: a pointer to a free slot, which is taken, or 0.
pub find_slot : System → ℕ × System
find_slot s = elim (find_unused nproc 0 s.procs) [
  | none ↦ (0, s)
  | some i ↦ (
    suc i,
    record s {
      procs = put s.procs i (record (s.procs i) { state = embryo; pid = s.nextpid });
      nextpid = add32 s.nextpid 1;
    },
  )
]

-- The rest of `allocproc`, which runs without the lock. `stack` is what `kalloc` answers.
pub set_stack : ℕ → ℕ → System → ℕ × System
set_stack stack np s =
    let p = s.procs (np - 1) in
    if stack == 0
    then (0, record s { procs = put s.procs (np - 1) (record p { state = unused; kstack = 0 }) })
    else (np, record s { procs = put s.procs (np - 1) (record p { kstack = stack }) })

-- `allocproc` without a step of another CPU in between.
pub allocproc : ℕ → System → ℕ × System
allocproc stack s = let (np, s1) = find_slot s in if np == 0 then (0, s1) else set_stack stack np s1

-- `userinit`, with what `kalloc` and `setupkvm` answer; `none` is a panic or a null pointer.
pub userinit : ℕ → ℕ → System → Option System
userinit stack dir s =
    let (np, s1) = allocproc stack s in
    if np == 0 || dir == 0
    then none
    else some (record s1 {
      initproc = np;
      procs =
          put s1.procs (np - 1)
            (record (s1.procs (np - 1)) { pgdir = dir; sz = pgsize; state = runnable });
    })

-- What `fork` on CPU `c` does to its new slot without the lock. `dir` is what `copyuvm` answers.
pub copy_parent : ℕ → ℕ → ℕ → System → ℕ × System
copy_parent c dir np s =
    let p = s.procs (np - 1) in
    let cur = s.procs (current c s) in
    if dir == 0
    then (
      0,
      record s {
        procs = put s.procs (np - 1) (record p { pgdir = dir; kstack = 0; state = unused });
      },
    )
    else (
      np,
      record s {
        procs = put s.procs (np - 1) (record p { pgdir = dir; sz = cur.sz; parent = s.cpus c });
      },
    )

-- `fork` on CPU `c` up to its second `acquire`, without a step of another CPU in between. The result
-- is the pointer `np`, or 0 where `fork` returns -1.
pub start_fork : ℕ → ℕ → ℕ → System → ℕ × System
start_fork c stack dir s =
    let (np, s1) = allocproc stack s in if np == 0 then (0, s1) else copy_parent c dir np s1

-- The rest of `fork`, with the pid that it returns.
pub end_fork : ℕ → System → ℕ × System
end_fork np s =
    let p = s.procs (np - 1) in
    (p.pid, record s { procs = put s.procs (np - 1) (with_state runnable p) })

-- `for(p = ptable.proc; …; p++)` with a change of `*p` alone.
pub slots_from : (Proc → Proc) → ℕ → ℕ → Table → Table
slots_from f zero i t = t
slots_from f (suc k) i t = slots_from f k (i + 1) (put t i (f (t i)))

-- The body of the loop of `wakeup1`.
pub wake : ℕ → Proc → Proc
wake chan p = if is_sleeping p.state && p.chan == chan then with_state runnable p else p

pub wakeup1 : ℕ → Table → Table
wakeup1 chan t = slots_from (wake chan) nproc 0 t

pub wakeup : ℕ → System → System
wakeup chan s = record s { procs = wakeup1 chan s.procs }

-- `sched` and the switch to the scheduler, which forgets the process; `none` is a panic.
pub sched : ℕ → System → Option System
sched c s =
    if is_running (s.procs (current c s)).state
    then none
    else some (record s { cpus = λ d. if d == c then 0 else s.cpus d })

-- One turn of the loop of `exit` that hands the children of `cur` to `init`, and the loop.
pub pass_one : ℕ → ℕ → ℕ → Table → Table
pass_one i cur init t =
    let t1 = put t i (record (t i) { parent = init }) in
    if (t i).parent == cur then (if is_zombie (t i).state then wakeup1 init t1 else t1) else t

pub pass_from : ℕ → ℕ → ℕ → ℕ → Table → Table
pass_from zero i cur init t = t
pass_from (suc k) i cur init t = pass_from k (i + 1) cur init (pass_one i cur init t)

-- `exit` once the files are closed; `none` is a panic.
pub exit : ℕ → System → Option System
exit c s =
    let cur = s.cpus c in
    if cur == s.initproc
    then none
    else (let t1 = wakeup1 (s.procs (cur - 1)).parent s.procs in
        let t2 = pass_from nproc 0 cur s.initproc t1 in
        sched c (record s { procs = put t2 (cur - 1) (with_state zombie (t2 (cur - 1))) }))

-- What the scan of `wait` finds: a zombie child, or whether there are children.
pub data Scan : Type 0 where
  found : ℕ → Scan
  kids : Bool → Scan

pub scan_from : ℕ → ℕ → ℕ → Bool → Table → Scan
scan_from zero i cur havekids t = kids havekids
scan_from (suc k) i cur havekids t =
    let p = t i in
    let mine = p.parent == cur in
    let later = scan_from k (i + 1) cur (mine || havekids) t in
    if mine && is_zombie p.state then found i else later

-- What `sleep` does before it gives up the CPU.
pub sleep : ℕ → ℕ → System → Option System
sleep c chan s =
    let i = current c s in
    sched c
      (record s { procs = put s.procs i (record (s.procs i) { chan = chan; state = sleeping }) })

-- One turn of the loop of `wait`: it returns a pid, returns -1, or sleeps.
pub data WaitEnd : Type 0 where
  reaped : ℕ → System → WaitEnd
  no_child : WaitEnd
  waits : System → WaitEnd
  wait_panics : WaitEnd

abbrev pub reap : Proc → Proc
reap p = record p { kstack = 0; pid = 0; parent = 0; killed = false; state = unused }

pub wait : ℕ → System → WaitEnd
wait c s = elim (scan_from nproc 0 (s.cpus c) false s.procs) [
  | found i ↦ reaped (s.procs i).pid (record s { procs = put s.procs i (reap (s.procs i)) })
  | kids havekids ↦
      if not havekids || (s.procs (current c s)).killed
      then no_child
      else elim (sleep c (s.cpus c) s) [ none ↦ wait_panics | some s' ↦ waits s' ]
]

-- `sleep` once it has the CPU again.
pub end_sleep : ℕ → System → System
end_sleep c s =
    let i = current c s in record s { procs = put s.procs i (record (s.procs i) { chan = 0 }) }

-- The scheduler of an idle CPU at slot `i` of its loop.
pub schedule_at : ℕ → ℕ → System → System
schedule_at c i s =
    if is_runnable (s.procs i).state
    then record s {
      procs = put s.procs i (with_state running (s.procs i));
      cpus = λ d. if d == c then suc i else s.cpus d;
    }
    else s

pub yield_cpu : ℕ → System → Option System
yield_cpu c s =
    let i = current c s in
    sched c (record s { procs = put s.procs i (with_state runnable (s.procs i)) })

abbrev pub mark_killed : Proc → Proc
mark_killed p = record p {
  killed = true;
  state = if is_sleeping p.state then runnable else p.state;
}

pub kill_from : ℕ → ℕ → ℕ → Table → Option Table
kill_from zero i pid t = none
kill_from (suc k) i pid t =
    let later = kill_from k (i + 1) pid t in
    if (t i).pid == pid then some (put t i (mark_killed (t i))) else later

-- `none` is -1.
pub kill : ℕ → System → Option System
kill pid s = elim (kill_from nproc 0 pid s.procs) [
  | none ↦ none
  | some t ↦ some (record s { procs = t })
]
