-- ===== src/Xv6/File/Tests.antt =====
-- Runs of the calls of xv6/sysfile.c on descriptors.
use asopracticas.Common.{◌≡◌, refl, true, false, some, none, Option, [], ◌∷◌, arith}
use asopracticas.Xv6.Kalloc.{pgsize}
use asopracticas.Xv6.File.{
  Files, filealloc, find_free, fdalloc, find_null, pipealloc, sys_pipe, sys_dup, argfd, filedup,
  fileclose, run_call, dup, pipes, exits, pipe_close, close_from,
}
use asopracticas.Xv6.File.Calls.{Keeps}
use asopracticas.Xv6.File.Reach.{at_boot, Reach, boots, next, Reach-Keeps}

abbrev done_or : Option Files → Files
done_or none = at_boot
done_or (some s) = s

-- Process 0 makes a pipe.
abbrev with_pipe : Files
with_pipe = done_or (run_call (pipes 0 pgsize) at_boot)

-- It makes a second descriptor for the end that it reads.
abbrev with_dup : Files
with_dup = done_or (run_call (dup 0 0) with_pipe)

with_dup-Reach : Reach with_dup
unfolding run_call sys_pipe pipealloc filealloc find_free fdalloc find_null sys_dup argfd filedup
with_dup-Reach = next (dup 0 0) (next (pipes 0 pgsize) boots (omega arith) refl) (omega arith) refl

two_refs : (with_dup.file 0).ref ≡ 2
unfolding run_call sys_pipe pipealloc filealloc find_free fdalloc find_null sys_dup argfd filedup
two_refs = refl

exit_closes :
    (done_or (run_call (exits 0) with_dup)).released
    ≡ pipe_close pgsize false ∷ pipe_close pgsize true ∷ []
unfolding run_call sys_pipe pipealloc filealloc find_free fdalloc find_null sys_dup argfd filedup
    fileclose close_from
exit_closes = refl

Reach-Keeps_example : Keeps (run_call (exits 0) with_dup)
Reach-Keeps_example = Reach-Keeps (exits 0) with_dup with_dup-Reach (omega arith)
