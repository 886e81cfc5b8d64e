-- ===== src/Xv6/Cli.antt =====
-- `pushcli` and `popcli` of xv6/spinlock.c, on one CPU. `ncli` counts the nested calls, far fewer
-- than an `int` holds.
pub mod Nesting
mod Tests
use asopracticas.Common.{
  ℕ, zero, suc, ◌+◌, ◌-◌, Bool, true, false, ◌&&◌, Option, none, some, List, [], ◌∷◌, ◌==◌,
  if◌then◌else◌,
}

-- FL_IF of the flags, with `ncli` and `intena` of `struct cpu`.
pub record Cpu : Type 0 where
  pub interrupts : Bool
  pub ncli : ℕ
  pub intena : Bool

unfoldable pub pushcli : Cpu → Cpu
pushcli c = record {
  interrupts = false;
  ncli = c.ncli + 1;
  intena = if c.ncli == 0 then c.interrupts else c.intena;
}

-- `none` is one of the two panics.
unfoldable pub popcli : Cpu → Option Cpu
popcli c =
    if c.interrupts
    then none
    else if c.ncli == 0
    then none
    else some (record c { ncli = c.ncli - 1; interrupts = c.ncli - 1 == 0 && c.intena })

pub data Call : Type 0 where
  push pop : Call

-- The calls that the code on one CPU makes, in order.
pub run : List Call → Cpu → Option Cpu
run [] c = some c
run (push ∷ calls) c = run calls (pushcli c)
run (pop ∷ calls) c = elim (popcli c) [ none ↦ none | some c' ↦ run calls c' ]
