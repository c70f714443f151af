-- ===== src/Broker/Middleware/Order.antt =====
-- The list stays sorted by the order of the classes, with the user's own classes at the end.
use remoulade.Prelude.{
  ℕ, zero, suc, ◌+◌, ◌≤◌, ◌<◌, ◌≡◌, List, [], ◌∷◌, ◌++◌, Option, none, some, nat_beq, if◌then◌else◌,
  arith, All, All-append, inl, inr, Bool-cases, Option-cases,
}
use remoulade.Broker.Middleware.{
  Middleware, is_instance, add_from, add_middleware, get_middleware, remove_middleware,
}

-- A known class from `k` on.
abbrev pub IsFrom : ℕ → Option ℕ → Type 0
IsFrom k none = Unit
IsFrom k (some c) = k ≤ c

-- One middleware of each class at most, in the order; the classes that are not in the order last.
abbrev pub IsOrdered : ℕ → List Middleware → Type 0
IsOrdered k [] = Unit
IsOrdered k (x ∷ xs) = elim (x.class) [
  | none ↦ All (λ (y : Middleware). y.class ≡ none) xs
  | some c ↦ (k ≤ c) × IsOrdered (suc c) xs
]

IsOrdered-weaken : (j k : ℕ) (xs : List Middleware) → j ≤ k → IsOrdered k xs → IsOrdered j xs
IsOrdered-weaken j k [] h o = tt
IsOrdered-weaken j k (x ∷ xs) h o = ground arith

IsOrdered-none :
    (k : ℕ) (xs : List Middleware) → All (λ (y : Middleware). y.class ≡ none) xs → IsOrdered k xs
IsOrdered-none k [] a = tt
IsOrdered-none k (x ∷ xs) a = ground arith

-- The user's own class: the walk passes the known ones, and it goes last.
append_own :
    (k : ℕ) (m : Middleware) (xs : List Middleware)
    → m.class ≡ none
    → IsOrdered k xs
    → IsOrdered k (xs ++ m ∷ [])
append_own k m [] e o = ground arith
append_own k m (x ∷ xs) e o = elim (Option-cases x.class) [
  | inl own ↦ ground (arith, All-append (λ (y : Middleware). y.class ≡ none) xs (m ∷ []))
  | inr (c, known) ↦ ground (arith, append_own (suc c) m xs e)
]

add_from-IsOrdered :
    (rounds k : ℕ) (m : Middleware) (xs : List Middleware)
    → ((c : ℕ) → m.class ≡ some c → (k ≤ c) × (c < k + rounds))
    → IsOrdered k xs
    → IsOrdered k (add_from rounds k m xs)
unfolding add_from
add_from-IsOrdered zero k m xs range o = elim (Option-cases m.class) [
  | inl own ↦ append_own k m xs own o
  | inr (c, known) ↦ let r = range c known in absurd (omega arith)
]
add_from-IsOrdered (suc rounds) k m [] range o = elim (Option-cases m.class) [
  | inl own ↦ ground arith
  | inr (c, known) ↦ ground (arith, range c known)
]
add_from-IsOrdered (suc rounds) k m (x ∷ xs) range o = elim (Bool-cases (is_instance k m)) [
  | inl here ↦ rw here (ground (arith, IsOrdered-none (suc k) xs))
  | inr further ↦
      let beyond = λ (c : ℕ) (e : m.class ≡ some c).
        let r : (suc k ≤ c) × (c < suc k + rounds) = ground (arith, range c e) in r in
      elim (Bool-cases (is_instance k x)) [
        | inl passed ↦
            rw (further, passed) (ground (arith, add_from-IsOrdered rounds (suc k) m xs beyond))
        | inr stays ↦
            rw (further, stays)
              (IsOrdered-weaken k (suc k) _ (omega arith)
                (add_from-IsOrdered rounds (suc k) m (x ∷ xs) beyond (ground arith)))
      ]
]

-- A middleware's class is none of the order's, or one of its `count` classes.
abbrev pub IsClass : ℕ → Option ℕ → Type 0
IsClass count none = Unit
IsClass count (some c) = c < count

-- Whatever is added to a sorted list, with one of each known class at most, the list is so again.
pub add_middleware-IsOrdered :
    (count : ℕ) (m : Middleware) (xs : List Middleware)
    → IsClass count m.class
    → IsOrdered 0 xs
    → IsOrdered 0 (add_middleware count m xs)
unfolding add_middleware
add_middleware-IsOrdered count m xs valid o =
    add_from-IsOrdered count 0 m xs (λ c e. ground arith) o

get_middleware-add_from :
    (rounds k j c : ℕ) (m : Middleware) (xs : List Middleware)
    → m.class ≡ some c
    → k ≤ c
    → c < k + rounds
    → get_middleware j (add_from rounds k m xs)
      ≡ (if nat_beq c j then some m else get_middleware j xs)
unfolding add_from get_middleware
get_middleware-add_from zero k j c m xs e low high = absurd (omega arith)
get_middleware-add_from (suc rounds) k j c m [] e low high = ground arith
get_middleware-add_from (suc rounds) k j c m (x ∷ xs) e low high = ground (
  arith,
  get_middleware-add_from rounds (suc k) j c m xs,
  get_middleware-add_from rounds (suc k) j c m (x ∷ xs),
)

-- A known class that is added is then the one that is found, in place of one that was there before;
-- every other class is found as before.
pub get_middleware-add_middleware :
    (count j c : ℕ) (m : Middleware) (xs : List Middleware)
    → m.class ≡ some c
    → c < count
    → get_middleware j (add_middleware count m xs)
      ≡ (if nat_beq c j then some m else get_middleware j xs)
unfolding add_middleware
get_middleware-add_middleware count j c m xs e valid =
    get_middleware-add_from count 0 j c m xs e (omega arith) (omega arith)

-- A class that is removed is not found, and every other class is found as before.
pub get_middleware-remove_middleware :
    (k j : ℕ) (xs : List Middleware)
    → get_middleware j (remove_middleware k xs)
      ≡ (if nat_beq k j then none else get_middleware j xs)
unfolding get_middleware remove_middleware
get_middleware-remove_middleware k j [] = ground arith
get_middleware-remove_middleware k j (x ∷ xs) =
    ground (arith, get_middleware-remove_middleware k j xs)
