-- ===== src/Busy/Timeout.antt =====
-- The rounding of a timeout to ticks.
use nextbsd_kernel.Prelude.{
  ℕ, ◌+◌, ◌-◌, ◌*◌, ◌/◌, ◌%◌, ◌^◌, ◌<◌, ◌≤◌, ◌≡◌, ◌⊎◌, refl, sym, ap, subst, ◌∙◌, inl, inr, Bool,
  false, ◌==◌, if◌then◌else◌, ltb, arith, Bool-cases,
}
use native.Mathlib.Nat.{div-add-mod, mod-lt, div-eq_of_lt, div-le_self, mul-le-mul_left}
use nextbsd_kernel.Busy.{int_max, tick, padded, clamp, ticks_budget}

-- The least number of ticks of length `t` that covers the time, or INT_MAX if that is not more.
abbrev pub Covers : ℕ → ℕ → ℕ → Type 0
Covers t ns ticks =
    (1 ≤ ticks) × (ticks ≤ int_max) × (t * ticks < ns + t) × ((ns ≤ t * ticks) ⊎ (ticks ≡ int_max))

-- The budget for a sum that does not wrap.
clamp-Covers : (t ns : ℕ) → 0 < t → 0 < ns → Covers t ns (clamp ((ns + t - 1) / t))
unfolding clamp
clamp-Covers t ns pos some_time =
    let n = ns + t - 1 in
    let whole : t * (n / t) + n % t ≡ n = div-add-mod n t in
    let less : n % t < t = mod-lt n pos in
    elim (Bool-cases (n / t == 0)) [
      | inl empty ↦
          let none_fit : n / t ≡ 0 = ground arith in
          let nothing : t * (n / t) ≡ 0 = ap (λ k. t * k) none_fit ∙ omega arith in
          absurd (omega (arith, whole, less, nothing))
      | inr full ↦ elim (Bool-cases (ltb int_max (n / t))) [
        | inl over ↦
            let longer : int_max ≤ n / t = ground arith in
            let bound = mul-le-mul_left t longer in
            rw (full, over) (omega arith, omega arith, omega (arith, bound, whole), inr refl)
        | inr within ↦
            rw (full, within)
              (ground arith, ground arith, omega (arith, whole), inl (omega (arith, whole, less)))
      ]
    ]

tick-bound : (hz : ℕ) → tick hz ≤ 1000000000
unfolding tick
tick-bound hz = div-le_self 1000000000 hz

-- `sys_mach_wait_quiet` turns a timeout, not 0, into the least number of ticks that covers it, at
-- least 1 and at most INT_MAX; but a timeout within a tick of 2^64 nanoseconds becomes a single
-- tick. A tick is a whole number of nanoseconds, not 0.
pub ticks_budget-Covers :
    (hz ns : ℕ)
    → 0 < tick hz
    → 0 < ns
    → ns < 2 ^ 64
    → ((ns + tick hz ≤ 2 ^ 64) × Covers (tick hz) ns (ticks_budget hz ns))
      ⊎ ((2 ^ 64 < ns + tick hz) × (ticks_budget hz ns ≡ 1))
unfolding ticks_budget padded
ticks_budget-Covers hz ns pos some_time fits =
    let t = tick hz in
    let small = tick-bound hz in
    let timed : (ns == 0) ≡ false = ground arith in
    let go = λ (b : Bool). if b then int_max else clamp (padded hz ns / t) in
    let budget : ticks_budget hz ns ≡ clamp (padded hz ns / t) = ap go timed in
    elim (Bool-cases (ltb (2 ^ 64) (ns + t))) [
      | inl over ↦
          let wraps : 2 ^ 64 < ns + t = ground arith in
          let rest : (ns + t + (2 ^ 64 - 1)) % 2 ^ 64 < t = omega (arith, small, wraps) in
          inr (wraps, budget ∙ ap clamp (div-eq_of_lt rest) ∙ unfold clamp in refl)
      | inr within ↦
          let room : ns + t ≤ 2 ^ 64 = ground arith in
          let same : (ns + t + (2 ^ 64 - 1)) % 2 ^ 64 ≡ ns + t - 1 = omega (arith, room) in
          inl (
            room,
            subst (Covers t ns) (sym (budget ∙ ap (λ n. clamp (n / t)) same))
                (clamp-Covers t ns pos some_time),
          )
    ]
