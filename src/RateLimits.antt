-- ===== src/RateLimits.antt =====
-- remoulade/rate_limits/middleware.py: the limits of an actor's messages. Specifications are parsed
-- and hits are counted by the package limits: `parse_many` and the backend's `hit`, on its state of
-- counters, are parameters. Specifications, parsed limits and actors are numbers.
pub mod Checking
mod Samples
use remoulade.Prelude.{
  nat_eq, ℕ, Bool, true, false, List, [], ◌∷◌, Option, none, some, if◌then◌else◌,
}
use remoulade.Prelude.Dict.{Dict, lookup, insert}

-- What check_limits ends with.
pub data Checked : Type 0 where
  passed : Checked
  rate_limit_exceeded : Checked
  specification_error : Checked

module _ {S : Type 0} (parse_many : ℕ → Option (List ℕ)) (hit : ℕ → ℕ → S → Bool × S) where
  -- `_parse_limits`: the limits of a specification, `none` for RateLimitSpecificationError, and the
  -- cache after it.
  unfoldable pub parse_limits : ℕ → Dict ℕ (List ℕ) → Option (List ℕ) × Dict ℕ (List ℕ)
  parse_limits spec cache = elim (lookup spec cache) [
    | some limits ↦ (some limits, cache)
    | none ↦ elim (parse_many spec) [
      | none ↦ (none, cache)
      | some limits ↦ (some limits, insert spec limits cache)
    ]
  ]

  abbrev pub after_hit : (accepted bypass : Bool) → S → Checked × S → Checked × S
  after_hit true bypass s rest = rest
  after_hit false true s rest = rest
  after_hit false false s rest = (rate_limit_exceeded, s)

  -- The loop over the limits.
  unfoldable pub hit_limits : Bool → ℕ → List ℕ → S → Checked × S
  hit_limits bypass key [] s = (passed, s)
  hit_limits bypass key (limit ∷ limits) s =
      let (accepted, s') = hit limit key s in
      after_hit accepted bypass s' (hit_limits bypass key limits s')

  abbrev pub on_limits : Bool → ℕ → S → Option (List ℕ) → Checked × S
  on_limits bypass key s none = (specification_error, s)
  on_limits bypass key s (some limits) = hit_limits bypass key limits s

  -- `_check_limits` with the options found, where an empty specification is none.
  unfoldable pub check_limits :
      Option ℕ → Bool → ℕ → Dict ℕ (List ℕ) → S → (Checked × S) × Dict ℕ (List ℕ)
  unfolding parse_limits hit_limits
  check_limits none bypass key cache s = ((passed, s), cache)
  check_limits (some spec) bypass key cache s =
      let (limits, cache') = parse_limits spec cache in (on_limits bypass key s limits, cache')
