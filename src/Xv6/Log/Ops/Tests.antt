-- ===== src/Xv6/Log/Ops/Tests.antt =====
-- The theorems on the log's operations at small logs, and runs of the operations.
use asopracticas.Common.{◌≡◌, refl, Bool, true, false, none, some, [], ◌∷◌, replicate}
use asopracticas.Xv6.Log.{Log}
use asopracticas.Xv6.Log.Ops.{log_write, enter, find}
use asopracticas.Xv6.Log.Ops.Space.{System}
use asopracticas.Xv6.Log.Ops.Absorb.{Entered, log_write_lem}

-- A log with no operation in progress.
abbrev idle : Log
idle = record {
  start = 2;
  size = 30;
  outstanding = 0;
  committing = false;
  lh = record { n = 0; block = replicate 30 0 };
}

abbrev idle_system : System
idle_system = record { log = idle; allowance = [] }

abbrev busy_system : System
busy_system = record { log = record idle { outstanding = 1 }; allowance = 10 ∷ [] }

-- Of the LOGSIZE blocks that `begin_op` lets operations reserve, the log has no room for the last.
last_panics :
    log_write
      (record idle { outstanding = 1; lh = record { n = 29; block = replicate 30 0 } })
      (record { blockno = 7; dirty = false })
    ≡ none
unfolding log_write
last_panics = refl

abbrev logged : Log
logged = record idle { outstanding = 1; lh = record { n = 1; block = 7 ∷ replicate 29 0 } }

log_write_runs :
    log_write (record idle { outstanding = 1 }) (record { blockno = 7; dirty = false })
    ≡ some (logged, record { blockno = 7; dirty = true })
unfolding log_write enter find
log_write_runs = refl

log_write_lem_example :
    Entered (record { n = 0; block = replicate 30 0 }) 7 logged.lh
    × ◌≡◌ {A = Bool} true true
    × (logged.outstanding ≡ 1)
log_write_lem_example =
    log_write_lem (record idle { outstanding = 1 }) logged (record { blockno = 7; dirty = false })
      (record { blockno = 7; dirty = true }) refl log_write_runs
