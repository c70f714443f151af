-- ===== src/RedisResults/Trying.antt =====
-- The retries of get_result end, and find what is there.
use remoulade.Prelude.{
  ℕ, zero, suc, ◌+◌, ◌≤◌, ◌<◌, ◌≡◌, ◌&&◌, Bool-cases, ◌⊎◌, inl, inr, subst, sym, ap, refl, Bool,
  true, false, if◌then◌else◌, none, some, arith,
}
use remoulade.RedisResults.{
  Try, got, nothing_there, broken, Ending, found_data, missing, timed_out, redis_error, after_try,
  try_from, get_result,
}

-- The try `n` is not the last that is made: redis failed before it gave data, and there is time left
-- or nothing to wait for.
abbrev pub GoesOn : (ℕ → Try) → (ℕ → Bool) → Bool → ℕ → Type 0
GoesOn tries late block n = (tries n ≡ broken none) × ((block && late n) ≡ false)

-- What the ending is when the try `n` is the last that is made: an error of redis is raised only after
-- the last retry, or late in a call that waits.
abbrev pub Ends : (max_retries : ℕ) → (ℕ → Try) → (ℕ → Bool) → Bool → ℕ → Ending → Type 0
Ends max_retries tries late block n (found_data d) = (tries n ≡ got d) ⊎ (tries n ≡ broken (some d))
Ends max_retries tries late block n missing = (tries n ≡ nothing_there) × (block ≡ false)
Ends max_retries tries late block n timed_out = (tries n ≡ nothing_there) × (block ≡ true)
Ends max_retries tries late block n redis_error =
    (tries n ≡ broken none) × ((n ≡ max_retries) ⊎ ((block && late n) ≡ true))

late-Ends :
    (max_retries : ℕ) (tries : ℕ → Try) (late : ℕ → Bool) (n : ℕ) (rest : Ending)
    → tries n ≡ broken none
    → late n ≡ true
    → Ends max_retries tries late true n (if late n then redis_error else rest)
late-Ends r tries late n rest e l =
    subst (Ends r tries late true n) (sym (ap (λ b. if b then redis_error else rest) l)) (e, inr l)

-- What a try comes to is its own ending, or what the later ones come to.
after_try-Ends :
    (max_retries : ℕ) (tries : ℕ → Try) (late : ℕ → Bool) (n : ℕ) (t : Try) (block last : Bool)
    (rest : Ending)
    → tries n ≡ t
    → (last ≡ true → n ≡ max_retries)
    → Ends max_retries tries late block n (after_try t block last (late n) rest)
      ⊎ ((last ≡ false) × GoesOn tries late block n × (after_try t block last (late n) rest ≡ rest))
unfolding after_try
after_try-Ends r tries late n (got d) block last rest e f = inl (inl e)
after_try-Ends r tries late n nothing_there true last rest e f = inl (e, refl)
after_try-Ends r tries late n nothing_there false last rest e f = inl (e, refl)
after_try-Ends r tries late n (broken (some d)) block last rest e f = inl (inr e)
after_try-Ends r tries late n (broken none) block true rest e f = inl (e, inl (f refl))
after_try-Ends r tries late n (broken none) false false rest e f = inr (refl, (e, refl), refl)
after_try-Ends r tries late n (broken none) true false rest e f = elim (Bool-cases (late n)) [
  | inl l ↦ inl (late-Ends r tries late n rest e l)
  | inr l ↦ inr (refl, (e, l), ap (λ b. if b then redis_error else rest) l)
]

le-cases : (n j : ℕ) → n ≤ j → (n ≡ j) ⊎ (suc n ≤ j)
le-cases n j h = ground arith

-- The tries from `n` up to `k` go on, and `k` ends the loop.
abbrev pub EndsAt :
    (max_retries : ℕ) → (ℕ → Try) → (ℕ → Bool) → Bool → (n : ℕ) → ℕ → Ending → Type 0
EndsAt r tries late block n k ending =
    (k ≤ r)
    × ((j : ℕ) → n ≤ j → j < k → GoesOn tries late block j)
    × Ends r tries late block k ending

try_from-EndsAt :
    (left n max_retries : ℕ) (tries : ℕ → Try) (late : ℕ → Bool) (block : Bool)
    → n + left ≡ max_retries
    → (k : ℕ) × EndsAt max_retries tries late block n k (try_from left tries late block n)
unfolding try_from
try_from-EndsAt zero n r tries late block h =
    elim (after_try-Ends r tries late n (tries n) block true redis_error refl (λ e. omega arith)) [
      | inl own ↦ (n, (omega arith, (λ j lo hi. absurd (omega arith)), own))
      | inr (more, on, same) ↦ absurd (ground arith)
    ]
try_from-EndsAt (suc left) n r tries late block h =
    elim (after_try-Ends r tries late n (tries n) block false
      (try_from left tries late block (suc n)) refl (λ e. absurd (ground arith))) [
        | inl own ↦ (n, (omega arith, (λ j lo hi. absurd (omega arith)), own))
        | inr (more, on, same) ↦
            let (k, found) = try_from-EndsAt left (suc n) r tries late block (omega arith) in
            let (le, before, ends) = found in
            (
              k,
              (
                le,
                (λ j lo hi. elim (le-cases n j lo) [
                  | inl e ↦ subst (GoesOn tries late block) e on
                  | inr above ↦ before j above hi
                ]),
                subst (Ends r tries late block k) (sym same) ends,
              ),
            )
      ]

-- Whatever the tries end in, get_result ends at some try that is one of its max_retries + 1: every
-- try before it failed in redis without data, with time left if the call waits. Data is returned
-- exactly as that try had it, a missing result or a timeout is reported only if that try found
-- nothing, and an error of redis is raised only if that try ended in one and no retry was left or the
-- time of a waiting call was over.
pub get_result-Ends :
    (max_retries : ℕ) (tries : ℕ → Try) (late : ℕ → Bool) (block : Bool)
    → (k : ℕ) × EndsAt max_retries tries late block 0 k (get_result max_retries tries late block)
unfolding get_result
get_result-Ends max_retries tries late block =
    try_from-EndsAt max_retries 0 max_retries tries late block (omega arith)
