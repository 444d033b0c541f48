-- ===== src/Busy/Tests.antt =====
-- Timeouts and traces.
use nextbsd_kernel.Prelude.{◌+◌, ◌^◌, ◌<◌, ◌≤◌, ◌≡◌, ◌⊎◌, refl, arith}
use nextbsd_kernel.Busy.{Bus, match_start, match_end, tick, ticks_budget}
use nextbsd_kernel.Busy.Counter.{Reached}
use nextbsd_kernel.Busy.Timeout.{Covers, ticks_budget-Covers}

abbrev quiet : Bus
quiet = record { busy = 0; quiesce_gen = 0; wakeups = 0 }

-- A match within a match.
nested : Reached 0 1 (match_end (match_end (match_start (match_start quiet))))
nested = Reached.ends_last (
    Reached.ends_one
      (Reached.starts (Reached.starts (Reached.boot refl refl refl) (omega arith)) (omega arith)))

ticks_budget-Covers_example :
    ((1500000 + tick 1000 ≤ 2 ^ 64) × Covers (tick 1000) 1500000 (ticks_budget 1000 1500000))
    ⊎ ((2 ^ 64 < 1500000 + tick 1000) × (ticks_budget 1000 1500000 ≡ 1))
ticks_budget-Covers_example =
    ticks_budget-Covers 1000 1500000 (unfold tick in omega arith) (omega arith) (omega arith)
