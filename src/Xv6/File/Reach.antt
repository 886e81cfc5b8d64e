-- ===== src/Xv6/File/Reach.antt =====
-- All calls of xv6/sysfile.c on descriptors, in any order.
use asopracticas.Common.{◌<◌, ◌≡◌, refl, subst, false, some, [], arith}
use asopracticas.Xv6.Proc.{nproc}
use asopracticas.Xv6.File.{
  nofile, fd_none, Files, run_call, FileCall, dup, close, pipes, open_inode, forks, exits,
}
use asopracticas.Xv6.File.Counts.{count_none, ndesc, Counts}
use asopracticas.Xv6.File.Calls.{Keeps, sys_dup-Keeps, sys_close-Keeps, open_file-Keeps}
use asopracticas.Xv6.File.Pipes.{sys_pipe-Keeps}
use asopracticas.Xv6.File.Loops.{IsIdle, copy_from-Keeps, close_from-Keeps}

-- The process of a call is one of the table, and the child of a fork has no descriptor in use.
abbrev pub IsAllowed : FileCall → Files → Type 0
IsAllowed (dup p fd) s = p < nproc
IsAllowed (close p fd) s = p < nproc
IsAllowed (pipes p page) s = p < nproc
IsAllowed (open_inode p ip omode) s = p < nproc
IsAllowed (forks p child) s = (p < nproc) × (child < nproc) × IsIdle child 0 s
IsAllowed (exits p) s = p < nproc

pub run_call-Keeps :
    (call : FileCall) (s : Files) → Counts s [] → IsAllowed call s → Keeps (run_call call s)
unfolding run_call
run_call-Keeps (dup p fd) s h a = sys_dup-Keeps p fd s h a
run_call-Keeps (close p fd) s h a = sys_close-Keeps p fd s h a
run_call-Keeps (pipes p page) s h a = sys_pipe-Keeps p page s h a
run_call-Keeps (open_inode p ip omode) s h a = open_file-Keeps p ip omode s h a
run_call-Keeps (forks p child) s h (a, b, idle) =
    copy_from-Keeps nofile 0 p child s h a b (omega arith) idle
run_call-Keeps (exits p) s h a = close_from-Keeps nofile 0 p s h a (omega arith)

-- No file is open at the boot.
abbrev pub at_boot : Files
at_boot = record {
  file =
      λ i. record { type = fd_none; ref = 0; readable = false; writable = false; pipe = 0; ip = 0 };
  ofile = λ d. 0;
  released = [];
}

pub data Reach : Files → Type 0 where
  boots : Reach at_boot
  next :
      {s s' : Files} (call : FileCall)
      → Reach s
      → IsAllowed call s
      → run_call call s ≡ some s'
      → Reach s'

Reach-Counts : {s : Files} → Reach s → Counts s []
Reach-Counts boots = record {
  refs = λ i below. rw (count_none ndesc i) refl;
  inside = λ d below. omega arith;
  free = λ i below e. refl;
}
Reach-Counts (next {s} {s'} call r allowed e) =
    let (s1, e1, c) = run_call-Keeps call s (Reach-Counts r) allowed in
    let same : s1 ≡ s' = cc in subst (λ x. Counts x []) same c

-- After any calls on descriptors since the boot, in any order and by all processes, the next call
-- does not panic, and leaves each file with as many references as descriptors point to it.
pub Reach-Keeps :
    (call : FileCall) (s : Files) → Reach s → IsAllowed call s → Keeps (run_call call s)
Reach-Keeps call s r allowed = run_call-Keeps call s (Reach-Counts r) allowed
