-- ===== src/RateLimits/Samples.antt =====
-- Tests of the rate limits.
use remoulade.Prelude.{
  ℕ, suc, Bool, false, ltb, ◌≡◌, refl, List, [], ◌∷◌, Option, some, nat_eq, arith,
}
use remoulade.Prelude.Dict.{Dict, lookup}
use remoulade.RateLimits.{check_limits, parse_limits, hit_limits, rate_limit_exceeded}
use remoulade.RateLimits.Checking.{IsParsed}

-- A specification has two limits, itself and the next number; a limit accepts while the counter is
-- below it.
abbrev parse_sample : ℕ → Option (List ℕ)
parse_sample spec = some (spec ∷ suc spec ∷ [])

abbrev hit_sample : ℕ → ℕ → ℕ → Bool × ℕ
hit_sample limit key count = (ltb count limit, suc count)

abbrev sample_cache : Dict ℕ (List ℕ)
sample_cache = (7, 7 ∷ 8 ∷ []) ∷ []

sample_cache-IsParsed : IsParsed parse_sample hit_sample sample_cache
unfolding IsParsed lookup
sample_cache-IsParsed spec limits e = ground arith

-- The counter is at 7: the limit of 7 refuses, and the limit of 8 is not hit.
test-check_limits :
    (check_limits parse_sample hit_sample (some 7) false 1 sample_cache 7).0
    ≡ (rate_limit_exceeded, 8)
unfolding check_limits parse_limits hit_limits lookup
test-check_limits = refl
