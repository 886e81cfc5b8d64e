-- ===== src/Xv6/Cli/Tests.antt =====
-- Nested calls of pushcli and popcli.
use asopracticas.Common.{◌≡◌, refl, true, false, some, List, [], ◌∷◌}
use asopracticas.Xv6.Cli.{Cpu, Call, push, pop, pushcli, popcli, run}
use asopracticas.Xv6.Cli.Nesting.{Agrees, open_after, run_lem}

abbrev idle : Cpu
idle = record { interrupts = true; ncli = 0; intena = false }

abbrev nested_calls : List Call
nested_calls = push ∷ push ∷ pop ∷ pop ∷ []

nested_run : run nested_calls idle ≡ some (record { interrupts = true; ncli = 0; intena = true })
unfolding run pushcli popcli
nested_run = refl

run_lem_example : Agrees true (open_after 0 nested_calls) (run nested_calls idle)
run_lem_example = run_lem true nested_calls 0 idle (refl, refl)
