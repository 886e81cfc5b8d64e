-- ===== src/Xv6/Proc/Tests.antt =====
-- Runs of the process table of xv6/proc.c: the first process forks a child, which exits.
use asopracticas.Common.{ℕ, ◌<◌, ◌≡◌, ◌≢◌, refl, suc, zero, Option, none, some, true, arith}
use asopracticas.Xv6.Proc.{
  System, booted, userinit, find_slot, set_stack, copy_parent, allocproc, find_unused, schedule_at,
  start_fork, end_fork, exit, kill, slots_from, wake, wakeup1, sched, pass_one, pass_from, runnable,
  embryo, unused,
}
use asopracticas.Xv6.Proc.Invariant.{IsSound}
use asopracticas.Xv6.Proc.Wait.{Waited, wait_lem}
use asopracticas.Xv6.Proc.Children.{Forked, start_fork_lem}
use asopracticas.Xv6.Proc.Killed.{kill-start_fork}
use asopracticas.Xv6.Proc.Reach.{
  Reach, here, next, slot_found, stack_set, parent_copied, fork_ends, exits, is_picked,
  userinit-IsSound, Reach-IsSound,
}

abbrev done_or : System → Option System → System
done_or s none = s
done_or s (some s') = s'

abbrev begun : System
begun = done_or booted (userinit 4096 8192 booted)

-- The first process runs on CPU 0.
abbrev first_runs : System
first_runs = schedule_at 0 0 begun

abbrev forking : System
forking = (start_fork 0 12288 16384 first_runs).1

-- Its child runs on CPU 1.
abbrev child_runs : System
child_runs = schedule_at 1 1 (end_fork 2 forking).1

abbrev child_dead : System
child_dead = done_or booted (exit 1 child_runs)

has_begun : userinit 4096 8192 booted ≡ some begun
unfolding userinit allocproc find_slot set_stack find_unused
has_begun = refl

first_on : first_runs.cpus 0 ≡ 1
unfolding userinit allocproc find_slot set_stack find_unused schedule_at
first_on = refl

first_runs-Reach : Reach begun first_runs
unfolding userinit allocproc find_slot set_stack find_unused
first_runs-Reach = next here (is_picked 0 0 refl)

forking-Reach : Reach begun forking
unfolding userinit allocproc find_slot set_stack find_unused schedule_at start_fork copy_parent
forking-Reach =
    next
      (next (next first_runs-Reach (slot_found 0 0 2 refl (omega arith) refl))
        (stack_set 0 0 1 12288 refl (refl, refl)))
      (parent_copied 0 0 1 16384 refl (refl, refl))

child_runs-Reach : Reach begun child_runs
unfolding userinit allocproc find_slot set_stack find_unused schedule_at start_fork copy_parent
    end_fork
child_runs-Reach =
    next (next forking-Reach (fork_ends 1 refl (λ e. absurd (omega arith)))) (is_picked 1 1 refl)

child_dead-Reach : Reach begun child_dead
unfolding userinit allocproc find_slot set_stack find_unused schedule_at start_fork copy_parent
    end_fork exit sched wakeup1 slots_from wake pass_from pass_one
child_dead-Reach = next child_runs-Reach (exits 1 1 refl refl)

Reach-IsSound_example : IsSound child_dead
Reach-IsSound_example =
    Reach-IsSound 4096 8192 (λ e. absurd (omega arith)) (λ e. absurd (omega arith)) has_begun
      child_dead-Reach

first_runs-IsSound : IsSound first_runs
first_runs-IsSound =
    Reach-IsSound 4096 8192 (λ e. absurd (omega arith)) (λ e. absurd (omega arith)) has_begun
      first_runs-Reach

userinit-IsSound_example :
    (s : System) × (userinit 4096 8192 booted ≡ some s)
    × IsSound s
    × (s.initproc ≡ 1)
    × ((s.procs 0).state ≡ runnable)
userinit-IsSound_example =
    userinit-IsSound 4096 8192 (λ e. absurd (omega arith)) (λ e. absurd (omega arith))

child_dead_on : child_dead.cpus 0 ≡ 1
unfolding userinit allocproc find_slot set_stack find_unused schedule_at start_fork copy_parent
    end_fork exit sched
child_dead_on = refl

wait_lem_example : Waited child_dead 0 0
wait_lem_example =
    wait_lem child_dead 0 0
      (Reach-IsSound 4096 8192 (λ e. absurd (omega arith)) (λ e. absurd (omega arith)) has_begun
        child_dead-Reach)
      child_dead_on

start_fork_lem_example : Forked first_runs 0 0 12288 16384
unfolding userinit allocproc find_slot set_stack find_unused schedule_at
start_fork_lem_example =
    start_fork_lem first_runs first_runs-IsSound 0 0 first_on (omega arith) 12288 16384

only_first : (l : ℕ) → l < 1 → (first_runs.procs l).state ≢ unused
unfolding userinit allocproc find_slot set_stack find_unused schedule_at
only_first zero below e = cc
only_first (suc l) below e = absurd (omega arith)

kill-start_fork_example :
    (s' s'' : System) × (kill 0 first_runs ≡ some s')
    × (start_fork 0 12288 16384 s' ≡ (2, s''))
    × ((s''.procs 1).state ≡ embryo)
    × ((s''.procs 1).killed ≡ true)
unfolding userinit allocproc find_slot set_stack find_unused schedule_at
kill-start_fork_example =
    kill-start_fork first_runs 0 0 1 12288 16384 first_runs-IsSound first_on (omega arith)
      (λ e. absurd (omega arith)) (λ e. absurd (omega arith)) (omega arith) refl refl only_first
