-- ===== src/Backoff/Samples.antt =====
-- The backoff of `Retries` with its defaults, and the theorems at concrete inputs.
use remoulade.Prelude.{ℕ, ◌+◌, ◌≡◌, refl, true, some, arith}
use remoulade.Backoff.{
  Ratio, whole, Power, exponential, spread_linear, compute_backoff, strategy_backoff,
}
use remoulade.Backoff.Bounds.{PowerIsBetween, UniformIsBelow, InRange, compute_backoff_bounds}

-- Outside functions that meet the assumptions.
abbrev steps : Power
steps b e = whole 1

steps-PowerIsBetween : PowerIsBetween steps
steps-PowerIsBetween b e p q r s = (omega arith, omega arith, omega arith)

zeros : Ratio → Ratio
zeros b = record { num = 0; den = 1 }

zeros-UniformIsBelow : UniformIsBelow zeros
unfolding zeros
zeros-UniformIsBelow b = (omega arith, omega arith)

third_retry :
    compute_backoff steps zeros 2 exponential 15000 3600000 10 true ≡ some (3, whole 45000)
unfolding compute_backoff zeros
third_retry = refl

spread_retry :
    strategy_backoff steps spread_linear 1 10 100 4 ≡ some (record { num = 120; den = 3 })
unfolding strategy_backoff
spread_retry = refl

compute_backoff_bounds_example : (◌≡◌ {A = ℕ} 3 (2 + 1)) × InRange 15000 3600000 true (whole 45000)
compute_backoff_bounds_example =
    compute_backoff_bounds steps zeros 2 15000 3600000 10 exponential true 3 (whole 45000)
      steps-PowerIsBetween zeros-UniformIsBelow (omega arith) (omega arith) (omega arith)
      third_retry
