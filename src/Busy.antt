-- ===== src/Busy.antt =====
-- The busy state of the device tree, compat/mach/mach_busystate.c: the counter of the matches in
-- progress, and `mach_wait_quiet`, which waits until it is 0.
pub mod Counter
pub mod Timeout
mod Tests
use nextbsd_kernel.Prelude.{
  ℕ, ◌+◌, ◌-◌, ◌*◌, ◌/◌, ◌%◌, ◌^◌, Bool, true, false, Option, none, some, List, [], ◌∷◌, ◌==◌,
  if◌then◌else◌, ltb,
}

-- `bus_busy` and `bus_quiesce_gen`, of type int; `wakeups` counts the calls of `wakeup(&bus_busy)`.
pub record Bus : Type 0 where
  pub busy : ℕ
  pub quiesce_gen : ℕ
  pub wakeups : ℕ

-- `mach_bus_match_start`
unfoldable pub match_start : Bus → Bus
match_start b = record b { busy = (b.busy + 1) % 2 ^ 32 }

-- `mach_bus_match_end`
unfoldable pub match_end : Bus → Bus
match_end b =
    let less = record b { busy = (b.busy + (2 ^ 32 - 1)) % 2 ^ 32 } in
    if b.busy == 1
    then record less { quiesce_gen = (b.quiesce_gen + 1) % 2 ^ 32; wakeups = b.wakeups + 1 }
    else less

-- INT_MAX
abbrev pub int_max : ℕ
int_max = 2 ^ 31 - 1

-- The nanoseconds of a tick.
unfoldable pub tick : ℕ → ℕ
tick hz = 1000000000 / hz

-- `ns + (1000000000ULL / hz) - 1` in uint64_t
unfoldable pub padded : ℕ → ℕ → ℕ
padded hz ns = (ns + tick hz + (2 ^ 64 - 1)) % 2 ^ 64

unfoldable pub clamp : ℕ → ℕ
clamp ticks = if ticks == 0 then 1 else if ltb int_max ticks then int_max else ticks

-- The ticks for a timeout of nanoseconds, at most 2^64 - 1.
unfoldable pub ticks_budget : ℕ → ℕ → ℕ
ticks_budget hz ns = if ns == 0 then int_max else clamp (padded hz ns / tick hz)

-- What `tsleep` gives: a wakeup, EWOULDBLOCK, or another error.
pub data Sleep : Type 0 where
  woken would_block : Sleep
  failed : ℕ → Sleep

pub data Answer : Type 0 where
  success : Answer
  error : ℕ → Answer

-- The loop of `sys_mach_wait_quiet`. Each round has the counter that it reads, and what the sleep
-- then gives; none is a thread that still waits.
unfoldable pub wait_quiet : List (ℕ × Sleep) → Option Answer
wait_quiet [] = none
wait_quiet ((busy, woken) ∷ rounds) =
    let rest = wait_quiet rounds in if busy == 0 then some success else rest
wait_quiet ((busy, would_block) ∷ rounds) = some success
wait_quiet ((busy, failed e) ∷ rounds) = if busy == 0 then some success else some (error e)
