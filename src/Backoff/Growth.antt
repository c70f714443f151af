-- ===== src/Backoff/Growth.antt =====
-- Later attempts wait at least as long.
use native.Mathlib.Nat.{pow-le-pow_right}
use remoulade.Prelude.{
  ℕ, ◌+◌, ◌-◌, ◌*◌, ◌^◌, ◌≤◌, min, ◌≡◌, refl, ap, ◌≢◌, inl, inr, Bool-cases, some, arith, nat_beq,
}
use remoulade.Backoff.{
  Ratio, whole, BackoffStrategy, constant, linear, spread_linear, exponential, spread_exponential,
  unknown, Power, compute_backoff_spread_linear, compute_backoff_exponential, strategy_backoff,
}

-- a ≤ b, for fractions.
infix 50 ◌≤ᵣ◌
abbrev pub ◌≤ᵣ◌ : Ratio → Ratio → Type 0
◌≤ᵣ◌ a b = a.num * b.den ≤ b.num * a.den

mul_mono : (a b c : ℕ) → a ≤ b → c * a ≤ c * b
mul_mono a b c h = grind arith

exponential_grows :
    (a b lo hi retries : ℕ)
    → a ≤ b
    → compute_backoff_exponential a lo hi retries ≤ᵣ compute_backoff_exponential b lo hi retries
unfolding compute_backoff_exponential
exponential_grows a b lo hi retries h =
    let step =
      mul_mono (2 ^ min a (retries - 1)) (2 ^ min b (retries - 1)) lo
        (pow-le-pow_right (omega arith) (omega arith)) in
    omega arith

linear_grows :
    (a b lo hi : ℕ) → a ≤ b → whole (min ((a + 1) * lo) hi) ≤ᵣ whole (min ((b + 1) * lo) hi)
linear_grows a b lo hi h = grind arith

spread_linear_grows :
    (a b lo hi retries : ℕ)
    → a ≤ b
    → lo ≤ hi
    → compute_backoff_spread_linear a lo hi retries ≤ᵣ compute_backoff_spread_linear b lo hi retries
unfolding compute_backoff_spread_linear
spread_linear_grows a b lo hi retries h ordered = elim (Bool-cases (nat_beq retries 1)) [
  | inl one ↦ rw one (omega arith)
  | inr more ↦
      rw more
        (mul_right _ _ d (mix lo hi (min a d) (min b d) d (omega arith) (omega arith) ordered))
]
  where
    d : ℕ
    d = retries - 1

    mul_right : (x y c : ℕ) → x ≤ y → x * c ≤ y * c
    mul_right x y c e = grind arith

    mix : (l u x y n : ℕ) → x ≤ y → y ≤ n → l ≤ u → l * (n - x) + u * x ≤ l * (n - y) + u * y
    mix l u x y n e f g =
        let from_y : n - x ≡ (n - y) + (y - x) = omega arith in
        let from_x : y ≡ x + (y - x) = omega arith in
        omega (
          arith,
          ap (λ (t : ℕ). l * t) from_y,
          ap (λ (t : ℕ). u * t) from_x,
          mul_right l u (y - x) g,
        )

-- Of the strategies that compute with whole numbers: more attempts never wait less.
pub strategy_backoff_grows :
    (power : Power) (strategy : BackoffStrategy) (a b lo hi retries : ℕ) (x y : Ratio)
    → strategy ≢ spread_exponential
    → a ≤ b
    → lo ≤ hi
    → strategy_backoff power strategy a lo hi retries ≡ some x
    → strategy_backoff power strategy b lo hi retries ≡ some y
    → x ≤ᵣ y
unfolding strategy_backoff
strategy_backoff_grows power constant a b lo hi retries x y ne h ordered p q = ground arith
strategy_backoff_grows power linear a b lo hi retries x y ne h ordered p q =
    ground (arith, linear_grows a b lo hi h)
strategy_backoff_grows power spread_linear a b lo hi retries x y ne h ordered p q =
    ground (arith, spread_linear_grows a b lo hi retries h ordered)
strategy_backoff_grows power exponential a b lo hi retries x y ne h ordered p q =
    ground (arith, exponential_grows a b lo hi retries h)
strategy_backoff_grows power spread_exponential a b lo hi retries x y ne h ordered p q =
    absurd (ne refl)
strategy_backoff_grows power unknown a b lo hi retries x y ne h ordered p q = cc
