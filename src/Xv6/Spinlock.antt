-- ===== src/Xv6/Spinlock.antt =====
-- `acquire` and `release` of xv6/spinlock.c: the CPUs of the machine take turns at one lock, in
-- steps between which any other CPU may run. The debugging array `pcs` is left out.
pub mod Exclusion
mod Tests
use asopracticas.Common.{
  ℕ, zero, suc, ◌+◌, Bool, true, false, ◌&&◌, not, Option, none, some, List, [], ◌∷◌, ◌==◌,
  if◌then◌else◌,
}
use asopracticas.Xv6.Cli.{Cpu, pushcli, popcli}

-- Where a CPU is: not near the lock; in the loop around `xchg`; behind it; back from `acquire`; in
-- `release` with `lk->cpu` cleared.
pub data Place : Type 0 where
  outside spinning taken inside cleared : Place

-- The lock is `locked` and `owner`: `lk->cpu` is `suc i` for CPU `i`, and 0 for none.
pub record System : Type 0 where
  pub locked : Bool
  pub owner : ℕ
  pub cpus : ℕ → Cpu
  pub places : ℕ → Place

-- CPU `i` goes on to a place.
abbrev pub moved : ℕ → Place → Cpu → System → System
moved i p c s = record s {
  cpus = λ j. if j == i then c else s.cpus j;
  places = λ j. if j == i then p else s.places j;
}

pub holding : ℕ → System → Cpu → Option (Bool × Cpu)
holding i s c = elim (popcli (pushcli c)) [
  | none ↦ none
  | some c' ↦ some (s.locked && s.owner == suc i, c')
]

-- `acquire` up to its loop.
pub start_acquire : ℕ → System → Option System
start_acquire i s = elim (holding i s (pushcli (s.cpus i))) [
  | none ↦ none
  | some (held, c) ↦ if held then none else some (moved i spinning c s)
]

-- One turn of `while(xchg(&lk->locked, 1) != 0)`.
pub try_lock : ℕ → System → Option System
try_lock i s =
    if s.locked then some s else some (moved i taken (s.cpus i) (record s { locked = true }))

-- `lk->cpu = mycpu()`
pub set_owner : ℕ → System → Option System
set_owner i s = some (moved i inside (s.cpus i) (record s { owner = suc i }))

-- `release` up to the clearing of `lk->cpu`.
pub start_release : ℕ → System → Option System
start_release i s = elim (holding i s (s.cpus i)) [
  | none ↦ none
  | some (held, c) ↦ if held then some (moved i cleared c (record s { owner = 0 })) else none
]

-- The rest of `release`.
pub unlock : ℕ → System → Option System
unlock i s = elim (popcli (s.cpus i)) [
  | none ↦ none
  | some c ↦ some (moved i outside c (record s { locked = false }))
]

pub advance : Place → ℕ → System → Option System
advance outside i s = start_acquire i s
advance spinning i s = try_lock i s
advance taken i s = set_owner i s
advance inside i s = start_release i s
advance cleared i s = unlock i s

-- The CPUs run in the order of the list; `none` is a panic.
pub schedule : List ℕ → System → Option System
schedule [] s = some s
schedule (i ∷ order) s = elim (advance (s.places i) i s) [
  | none ↦ none
  | some s' ↦ schedule order s'
]
