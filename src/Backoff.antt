-- ===== src/Backoff.antt =====
-- remoulade/helpers/backoff.py. A delay is an exact fraction, where the code computes with floats;
-- `uniform`'s draw and the power of two fractions come from outside and are arguments. The
-- arguments `max_retries` are at least 1: `Retries` fails a message before it gets here with 0.
pub mod Bounds
pub mod Growth
mod Samples
use remoulade.Prelude.{
  ℕ, suc, ◌+◌, ◌-◌, ◌*◌, ◌/◌, ◌^◌, ◌≤◌, ◌<◌, min, Bool, Option, none, some, nat_beq, if◌then◌else◌,
}

pub record Ratio : Type 0 where
  pub num : ℕ
  pub den : ℕ

abbrev pub whole : ℕ → Ratio
whole n = record { num = n; den = 1 }

pub data BackoffStrategy : Type 0 where
  constant linear spread_linear exponential spread_exponential unknown : BackoffStrategy

-- `base ** exponent` of Python.
abbrev pub Power : Type 0
Power = Ratio → Ratio → Ratio

-- With d = max_retries - 1 and e = min(attempts, d), the share `min(attempts / d, 1)` is e / d.
unfoldable pub share : ℕ → ℕ → Ratio
share attempts max_retries = record { num = min attempts (max_retries - 1); den = max_retries - 1 }

-- min + (max - min) * e / d = (min * (d - e) + max * e) / d, also where max < min.
unfoldable pub compute_backoff_spread_linear : ℕ → ℕ → ℕ → ℕ → Ratio
unfolding share
compute_backoff_spread_linear attempts min_backoff max_backoff max_retries =
    let e = share attempts max_retries in
    if nat_beq max_retries 1
    then whole min_backoff
    else record { num = min_backoff * (e.den - e.num) + max_backoff * e.num; den = e.den }

unfoldable pub compute_backoff_exponential : ℕ → ℕ → ℕ → ℕ → Ratio
compute_backoff_exponential attempts min_backoff max_backoff max_retries =
    whole (min (min_backoff * 2 ^ min attempts (max_retries - 1)) max_backoff)

unfoldable pub compute_backoff_spread_exponential : Power → ℕ → ℕ → ℕ → ℕ → Ratio
unfolding share
compute_backoff_spread_exponential power attempts min_backoff max_backoff max_retries =
    let p = power (record { num = max_backoff; den = min_backoff }) (share attempts max_retries) in
    if nat_beq max_retries 1
    then whole min_backoff
    else record { num = min_backoff * p.num; den = p.den }

-- The chain of `if`s: `none` stands for UnknownStrategy.
unfoldable pub strategy_backoff : Power → BackoffStrategy → ℕ → ℕ → ℕ → ℕ → Option Ratio
unfolding compute_backoff_spread_linear compute_backoff_exponential
    compute_backoff_spread_exponential
strategy_backoff power spread_exponential attempts lo hi retries =
    some (compute_backoff_spread_exponential power attempts lo hi retries)
strategy_backoff power constant attempts lo hi retries = some (whole lo)
strategy_backoff power linear attempts lo hi retries = some (whole (min ((attempts + 1) * lo) hi))
strategy_backoff power spread_linear attempts lo hi retries =
    some (compute_backoff_spread_linear attempts lo hi retries)
strategy_backoff power exponential attempts lo hi retries =
    some (compute_backoff_exponential attempts lo hi retries)
strategy_backoff power unknown attempts lo hi retries = none

-- int(backoff * (1 - 1/4) + draw * 1/4)
unfoldable pub jittered : Ratio → Ratio → Ratio
jittered backoff draw =
    whole ((3 * (backoff.num * draw.den) + draw.num * backoff.den) / (4 * (backoff.den * draw.den)))

-- `uniform(0, backoff)` is a function of the delay that it is called with.
unfoldable pub compute_backoff :
    Power → (Ratio → Ratio) → ℕ → BackoffStrategy → ℕ → ℕ → ℕ → Bool → Option (ℕ × Ratio)
unfolding strategy_backoff jittered
compute_backoff power uniform attempts strategy min_backoff max_backoff max_retries jitter =
    elim (strategy_backoff power strategy attempts min_backoff max_backoff max_retries) [
      | none ↦ none
      | some b ↦ some (attempts + 1, if jitter then jittered b (uniform b) else b)
    ]
