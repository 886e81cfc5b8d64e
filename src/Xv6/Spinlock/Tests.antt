-- ===== src/Xv6/Spinlock/Tests.antt =====
-- Two CPUs at one spin lock.
use asopracticas.Common.{ℕ, ◌≡◌, refl, true, false, Option, none, some, List, [], ◌∷◌}
use asopracticas.Xv6.Cli.{Cpu, pushcli, popcli}
use asopracticas.Xv6.Spinlock.{
  Place, outside, spinning, inside, System, holding, start_acquire, try_lock, set_owner,
  start_release, unlock, advance, schedule,
}
use asopracticas.Xv6.Spinlock.Exclusion.{started, schedule_lem}

abbrev idle : ℕ → Cpu
idle i = record { interrupts = true; ncli = 0; intena = false }

-- CPU 1 finds the lock taken by CPU 0, which then gives it up.
abbrev race : List ℕ
race = 0 ∷ 1 ∷ 0 ∷ 1 ∷ 0 ∷ 1 ∷ 0 ∷ 0 ∷ 1 ∷ 1 ∷ []

place_of : ℕ → Option System → Place
place_of i none = spinning
place_of i (some s) = s.places i

race_run :
    (place_of 0 (schedule race (started idle)) ≡ outside)
    × (place_of 1 (schedule race (started idle)) ≡ inside)
unfolding place_of schedule advance start_acquire try_lock set_owner start_release unlock holding
    pushcli popcli
race_run = (refl, refl)

schedule_lem_example :
    (s : System) × (schedule race (started idle) ≡ some s)
    × ((i j : ℕ) → s.places i ≡ inside → s.places j ≡ inside → i ≡ j)
    × ((i : ℕ) → s.places i ≡ inside → (s.cpus i).interrupts ≡ false)
    × ((i : ℕ) → s.places i ≡ outside → (s.cpus i).interrupts ≡ (idle i).interrupts)
schedule_lem_example = schedule_lem idle (λ i. refl) race
