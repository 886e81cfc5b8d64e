-- ===== src/Xv6/Cli/Nesting.antt =====
-- `pushcli` and `popcli` of xv6/spinlock.c nest.
use asopracticas.Common.{
  ℕ, zero, suc, ◌-◌, ◌≡◌, refl, Bool, true, false, ◌&&◌, Option, none, some, List, [], ◌∷◌, ◌==◌,
  ne→==, arith,
}
use asopracticas.Xv6.Cli.{Cpu, Call, push, pop, pushcli, popcli, run}

-- How many calls of `pushcli` are open after `calls`, from `d` on; `none` where one of `popcli` has
-- no partner.
abbrev pub open_after : ℕ → List Call → Option ℕ
open_after d [] = some d
open_after d (push ∷ calls) = open_after (suc d) calls
open_after zero (pop ∷ calls) = none
open_after (suc d) (pop ∷ calls) = open_after d calls

-- `d` calls are open, and `flag` said before the first whether interrupts were on.
abbrev pub HasOpen : Bool → ℕ → Cpu → Type 0
HasOpen flag zero c = (c.ncli ≡ 0) × (c.interrupts ≡ flag)
HasOpen flag (suc d) c = (c.ncli ≡ suc d) × (c.interrupts ≡ false) × (c.intena ≡ flag)

-- What is left: a CPU at the given count, or a panic.
abbrev pub Agrees : Bool → Option ℕ → Option Cpu → Type 0
Agrees flag none r = r ≡ none
Agrees flag (some d) r = (c : Cpu) × (r ≡ some c) × HasOpen flag d c

pub pushcli-HasOpen :
    (flag : Bool) (d : ℕ) (c : Cpu) → HasOpen flag d c → HasOpen flag (suc d) (pushcli c)
unfolding pushcli
pushcli-HasOpen flag zero c (n, on) = (omega arith, refl, rw n on)
pushcli-HasOpen flag (suc d) c (n, off, kept) =
    let nested : c.ncli == 0 ≡ false = ne→== _ _ (omega arith) in
    (omega arith, refl, rw nested kept)

-- One call less is open.
closed :
    (flag : Bool) (d : ℕ) (c : Cpu)
    → c.intena ≡ flag
    → HasOpen flag d (record c { ncli = d; interrupts = d == 0 && c.intena })
closed flag zero c kept = (refl, kept)
closed flag (suc d) c kept =
    let more : suc d == 0 ≡ false = ne→== _ _ (omega arith) in (refl, rw more refl, kept)

pub popcli-HasOpen :
    (flag : Bool) (d : ℕ) (c : Cpu)
    → HasOpen flag (suc d) c
    → (c' : Cpu) × (popcli c ≡ some c') × HasOpen flag d c'
unfolding popcli
popcli-HasOpen flag d c h =
    let n : c.ncli ≡ suc d = h.0 in
    let off : c.interrupts ≡ false = h.1 in
    let nested : c.ncli == 0 ≡ false = ne→== _ _ (omega arith) in
    let left : c.ncli - 1 ≡ d = omega arith in
    (
      record c { ncli = c.ncli - 1; interrupts = c.ncli - 1 == 0 && c.intena },
      rw (popcli, off, nested) refl,
      rw left (closed flag d c h.2),
    )

popcli-panics : (flag : Bool) (c : Cpu) → HasOpen flag zero c → popcli c ≡ none
unfolding popcli
popcli-panics true c (n, on) = rw (popcli, on) refl
popcli-panics false c (n, on) = rw (popcli, on, n) refl

-- Whatever calls the code on a CPU makes: if each `popcli` has a `pushcli` before it that is open,
-- there is no panic, interrupts are off while a call is open, and once none is open they are as
-- they were before the first; else there is a panic.
pub run_lem :
    (flag : Bool) (calls : List Call) (d : ℕ) (c : Cpu)
    → HasOpen flag d c
    → Agrees flag (open_after d calls) (run calls c)
unfolding run
run_lem flag [] d c h = (c, refl, h)
run_lem flag (push ∷ calls) d c h =
    run_lem flag calls (suc d) (pushcli c) (pushcli-HasOpen flag d c h)
run_lem flag (pop ∷ calls) zero c h = rw (run, popcli-panics flag c h) refl
run_lem flag (pop ∷ calls) (suc d) c h =
    let (c', e, h') = popcli-HasOpen flag d c h in rw (run, e) (run_lem flag calls d c' h')
