-- ===== src/Consumer/PriorityQueue.antt =====
-- Python's PriorityQueue: a list in the order in which the entries come out. Among equal keys the
-- latest is first, where the heap's order is open.
use remoulade.Prelude.{
  ℕ, ◌≡◌, Bool-cases, inl, inr, Bool, true, false, List, [], ◌∷◌, leb, if◌then◌else◌, arith,
}

abbrev pub Queue : Type 0 → Type 0
Queue A = List (ℕ × A)

-- `before a b` says that the key `a` comes out no later than `b`.
unfoldable pub put : {A : Type 0} → (ℕ → ℕ → Bool) → ℕ → A → Queue A → Queue A
put before k a [] = (k, a) ∷ []
put before k a ((j, b) ∷ q) =
    let rest = put before k a q in if before k j then (k, a) ∷ (j, b) ∷ q else (j, b) ∷ rest

abbrev pub AllAfter : {A : Type 0} → (ℕ → ℕ → Bool) → ℕ → Queue A → Type 0
AllAfter before k [] = Unit
AllAfter before k ((j, b) ∷ q) = (before k j ≡ true) × AllAfter before k q

abbrev pub IsSorted : {A : Type 0} → (ℕ → ℕ → Bool) → Queue A → Type 0
IsSorted before [] = Unit
IsSorted before ((k, a) ∷ q) = AllAfter before k q × IsSorted before q

-- The order of a queue is total and transitive.
pub record IsOrder (before : ℕ → ℕ → Bool) : Type 0 where
  pub total : (a b : ℕ) → before a b ≡ false → before b a ≡ true
  pub trans : (a b c : ℕ) → before a b ≡ true → before b c ≡ true → before a c ≡ true

pub leb-IsOrder : IsOrder leb
leb-IsOrder = record { total = λ a b h. ground arith; trans = λ a b c h g. ground arith }

pub geb-IsOrder : IsOrder (λ a b. leb b a)
geb-IsOrder = record { total = λ a b h. ground arith; trans = λ a b c h g. ground arith }

module _ {A : Type 0} (before : ℕ → ℕ → Bool) (order : IsOrder before) where
  AllAfter-trans :
      (j k : ℕ) (q : Queue A) → before j k ≡ true → AllAfter before k q → AllAfter before j q
  AllAfter-trans j k [] h a = tt
  AllAfter-trans j k ((i, b) ∷ q) h (a, later) =
      (order.trans j k i h a, AllAfter-trans j k q h later)

  AllAfter-put :
      (j k : ℕ) (a : A) (q : Queue A)
      → before j k ≡ true
      → AllAfter before j q
      → AllAfter before j (put before k a q)
  unfolding put
  AllAfter-put j k a [] h later = (h, tt)
  AllAfter-put j k a ((i, b) ∷ q) h (b', later) = elim (Bool-cases (before k i)) [
    | inl e ↦ rw e (h, (b', later))
    | inr e ↦ rw e (b', AllAfter-put j k a q h later)
  ]

  pub put-IsSorted :
      (k : ℕ) (a : A) (q : Queue A) → IsSorted before q → IsSorted before (put before k a q)
  unfolding put
  put-IsSorted k a [] s = (tt, tt)
  put-IsSorted k a ((i, b) ∷ q) (after, s) = elim (Bool-cases (before k i)) [
    | inl e ↦ rw e ((e, AllAfter-trans k i q e after), (after, s))
    | inr e ↦ rw e (AllAfter-put i k a q (order.total k i e) after, put-IsSorted k a q s)
  ]
