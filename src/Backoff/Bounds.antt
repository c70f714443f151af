-- ===== src/Backoff/Bounds.antt =====
-- Every strategy stays between the two bounds, and the jitter takes a quarter off at most.
use native.Mathlib.Nat.{one-le-pow}
use remoulade.Prelude.{
  ℕ, ◌+◌, ◌-◌, ◌*◌, ◌/◌, ◌≤◌, ◌<◌, min, ◌≡◌, refl, ap, subst, sym, inl, inr, Bool, true, false,
  some, arith, nat_beq, if◌then◌else◌, Bool-cases, Option-cases, some_inj,
}
use remoulade.Backoff.{
  Ratio, whole, BackoffStrategy, constant, linear, spread_linear, exponential, spread_exponential,
  unknown, Power, share, compute_backoff_spread_linear, compute_backoff_exponential,
  compute_backoff_spread_exponential, strategy_backoff, jittered, compute_backoff,
}

-- lo ≤ r ≤ hi, for a fraction.
pub record IsBetween (lo hi : ℕ) (r : Ratio) : Type 0 where
  pub positive : 0 < r.den
  pub above : lo * r.den ≤ r.num
  pub below : r.num ≤ hi * r.den

-- What is relied on of Python's power: a base from 1 on, to an exponent between 0 and 1, lies
-- between 1 and the base.
abbrev pub PowerIsBetween : Power → Type 0
PowerIsBetween power =
    (b e : Ratio)
    → 0 < b.den
    → b.den ≤ b.num
    → 0 < e.den
    → e.num ≤ e.den
    → (0 < (power b e).den)
      × ((power b e).den ≤ (power b e).num)
      × ((power b e).num * b.den ≤ b.num * (power b e).den)

-- `uniform(0, b)` lies between 0 and b.
abbrev pub UniformIsBelow : (Ratio → Ratio) → Type 0
UniformIsBelow uniform =
    (b : Ratio) → (0 < (uniform b).den) × ((uniform b).num * b.den ≤ b.num * (uniform b).den)

mix_above : (lo hi a c : ℕ) → lo ≤ hi → lo * (a + c) ≤ lo * c + hi * a
mix_above lo hi a c h = grind arith

mix_below : (lo hi a c : ℕ) → lo ≤ hi → lo * c + hi * a ≤ hi * (a + c)
mix_below lo hi a c h = grind arith

mul_cancel_le : (a b c : ℕ) → 0 < c → a * c ≤ b * c → a ≤ b
mul_cancel_le a b c h e = grind arith

module _ (attempts lo hi retries : ℕ) (positive : 0 < lo) (ordered : lo ≤ hi)
    (some_retry : 0 < retries) where
  exponential_bounds : IsBetween lo hi (compute_backoff_exponential attempts lo hi retries)
  unfolding compute_backoff_exponential
  exponential_bounds = grind (arith, one-le-pow (min attempts (retries - 1)) 2)

  linear_bounds : IsBetween lo hi (whole (min ((attempts + 1) * lo) hi))
  linear_bounds = grind arith

  spread_linear_bounds : IsBetween lo hi (compute_backoff_spread_linear attempts lo hi retries)
  unfolding compute_backoff_spread_linear
  spread_linear_bounds =
      let d = retries - 1 in
      let a = min attempts d in
      let e : a + (d - a) ≡ d = omega arith in
      ground (
        arith,
        e,
        ap (λ (t : ℕ). lo * t) e,
        ap (λ (t : ℕ). hi * t) e,
        mix_above lo hi a (d - a) ordered,
        mix_below lo hi a (d - a) ordered,
      )

  spread_exponential_bounds :
      (power : Power)
      → PowerIsBetween power
      → IsBetween lo hi (compute_backoff_spread_exponential power attempts lo hi retries)
  unfolding compute_backoff_spread_exponential
  spread_exponential_bounds power ok =
      let base : Ratio = record { num = hi; den = lo } in
      let e = share attempts retries in
      elim (Bool-cases (nat_beq retries 1)) [
        | inl one ↦ rw one (omega arith)
        | inr more ↦
            let (p, q, r) = ok base e positive ordered (ground arith) (omega arith) in
            rw more (record { positive = p; above = grind arith; below = omega arith })
      ]

  strategy_bounds :
      (power : Power) (strategy : BackoffStrategy) (b : Ratio)
      → PowerIsBetween power
      → strategy_backoff power strategy attempts lo hi retries ≡ some b
      → IsBetween lo hi b
  unfolding strategy_backoff
  strategy_bounds power constant b ok e = subst (IsBetween lo hi) (some_inj e) (omega arith)
  strategy_bounds power linear b ok e = subst (IsBetween lo hi) (some_inj e) linear_bounds
  strategy_bounds power spread_linear b ok e =
      subst (IsBetween lo hi) (some_inj e) spread_linear_bounds
  strategy_bounds power exponential b ok e = subst (IsBetween lo hi) (some_inj e) exponential_bounds
  strategy_bounds power spread_exponential b ok e =
      subst (IsBetween lo hi) (some_inj e) (spread_exponential_bounds power ok)
  strategy_bounds power unknown b ok e = cc

quotient_bounds : (n d : ℕ) → 0 < d → (n / d * d ≤ n) × (n < (n / d + 1) * d)
quotient_bounds n d h = grind arith

mul_mono : (a b c : ℕ) → a ≤ b → a * c ≤ b * c
mul_mono a b c h = grind arith

-- q ≤ hi and 3 * lo < 4 * (q + 1), for q the integer part of n / (4 * d).
quarter_bounds :
    (lo hi q n d : ℕ)
    → 0 < d
    → q * (4 * d) ≤ n
    → n < (q + 1) * (4 * d)
    → 3 * (lo * d) ≤ n
    → n ≤ 4 * (hi * d)
    → (3 * lo < 4 * (q + 1)) × (q ≤ hi)
quarter_bounds lo hi q n d pos h1 h2 h3 h4 =
    (ground (arith, mul_mono (4 * (q + 1)) (3 * lo) d), mul_cancel_le q hi d pos (omega arith))

-- Three quarters of the delay, rounded down, at least; and never above it.
jittered_bounds :
    (lo hi : ℕ) (b u : Ratio)
    → IsBetween lo hi b
    → 0 < u.den
    → u.num * b.den ≤ b.num * u.den
    → (3 * lo < 4 * ((jittered b u).num + 1)) × ((jittered b u).num ≤ hi)
unfolding jittered
jittered_bounds lo hi b u between pos below =
    let d = b.den * u.den in
    let n = 3 * (b.num * u.den) + u.num * b.den in
    let d_pos : 0 < d = grind arith in
    let (q1, q2) = quotient_bounds n (4 * d) (omega arith) in
    let low = mul_mono (lo * b.den) b.num u.den between.above in
    let high = mul_mono b.num (hi * b.den) u.den between.below in
    quarter_bounds lo hi (n / (4 * d)) n d d_pos q1 q2 (omega arith) (omega arith)

-- What holds of the delay, with and without the jitter.
abbrev pub InRange : ℕ → ℕ → Bool → Ratio → Type 0
InRange lo hi true delay = (delay.den ≡ 1) × (3 * lo < 4 * (delay.num + 1)) × (delay.num ≤ hi)
InRange lo hi false delay = IsBetween lo hi delay

jitter_InRange :
    (uniform : Ratio → Ratio) (lo hi : ℕ) (b : Ratio) (jitter : Bool)
    → UniformIsBelow uniform
    → IsBetween lo hi b
    → InRange lo hi jitter (if jitter then jittered b (uniform b) else b)
unfolding jittered
jitter_InRange uniform lo hi b true uni between =
    let (low, high) = jittered_bounds lo hi b (uniform b) between (uni b).0 (uni b).1 in
    (refl, low, high)
jitter_InRange uniform lo hi b false uni between = between

-- Every strategy's delay lies between the two bounds; with the jitter it is a whole number, which
-- takes a quarter off the lower bound at most. The counter of attempts goes up by one.
pub compute_backoff_bounds :
    (power : Power) (uniform : Ratio → Ratio) (attempts lo hi retries : ℕ)
    (strategy : BackoffStrategy) (jitter : Bool) (next : ℕ) (delay : Ratio)
    → PowerIsBetween power
    → UniformIsBelow uniform
    → 0 < lo
    → lo ≤ hi
    → 0 < retries
    → compute_backoff power uniform attempts strategy lo hi retries jitter ≡ some (next, delay)
    → (next ≡ attempts + 1) × InRange lo hi jitter delay
unfolding compute_backoff
compute_backoff_bounds power uniform attempts lo hi retries strategy jitter next delay pow uni pos
      ordered some_retry e =
    elim (Option-cases (strategy_backoff power strategy attempts lo hi retries)) [
      | inl failed ↦ absurd (ground arith)
      | inr (b, found) ↦
          let between =
            strategy_bounds attempts lo hi retries pos ordered some_retry power strategy b pow
              found in
          let same : (next ≡ attempts + 1)
              × (delay ≡ (if jitter then jittered b (uniform b) else b)) =
            ground arith in
          (
            same.0,
            subst (InRange lo hi jitter) (sym same.1)
                (jitter_InRange uniform lo hi b jitter uni between),
          )
    ]
