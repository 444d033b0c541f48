-- ===== src/Busy/Counter.antt =====
-- The counter follows the matches in progress.
use nextbsd_kernel.Prelude.{ℕ, suc, ◌%◌, ◌^◌, ◌<◌, ◌≡◌, true, false, ◌==◌, arith}
use nextbsd_kernel.Busy.{Bus, match_start, match_end}

-- A state with `depth` matches in progress, in which the last of them has ended `ends` times.
pub data Reached : ℕ → ℕ → Bus → Type 0 where
  boot : {b : Bus} → b.busy ≡ 0 → b.quiesce_gen ≡ 0 → b.wakeups ≡ 0 → Reached 0 0 b
  starts :
      {depth ends : ℕ} {b : Bus}
      → Reached depth ends b
      → suc depth < 2 ^ 31
      → Reached (suc depth) ends (match_start b)
  ends_one :
      {depth ends : ℕ} {b : Bus}
      → Reached (suc (suc depth)) ends b
      → Reached (suc depth) ends (match_end b)
  ends_last : {ends : ℕ} {b : Bus} → Reached 1 ends b → Reached 0 (suc ends) (match_end b)

abbrev pub Counts : ℕ → ℕ → Bus → Type 0
Counts depth ends b =
    (b.busy ≡ depth) × (depth < 2 ^ 31) × (b.quiesce_gen ≡ ends % 2 ^ 32) × (b.wakeups ≡ ends)

-- However the matches start and end, the counter is the number of matches in progress (fewer than
-- 2^31), and the waiting threads are woken, and the generation goes up by 1 modulo 2^32, each time
-- that the last one ends, and at no other time.
pub Reached-Counts : {depth ends : ℕ} {b : Bus} → Reached depth ends b → Counts depth ends b
unfolding match_start match_end
Reached-Counts (boot busy gen wakeups) = (busy, omega arith, gen, wakeups)
Reached-Counts (starts {depth} {ends} {b} reached more) =
    let (busy, few, gen, wakeups) = Reached-Counts reached in
    (omega (arith, busy), more, gen, wakeups)
Reached-Counts (ends_one {depth} {ends} {b} reached) =
    let (busy, few, gen, wakeups) = Reached-Counts reached in
    let several : (b.busy == 1) ≡ false = ground arith in
    rw several (omega (arith, busy), omega arith, gen, wakeups)
Reached-Counts (ends_last {ends} {b} reached) =
    let (busy, few, gen, wakeups) = Reached-Counts reached in
    let last : (b.busy == 1) ≡ true = ground arith in
    rw last (omega (arith, busy), omega arith, omega (arith, gen), omega (arith, wakeups))
