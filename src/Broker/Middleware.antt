-- ===== src/Broker/Middleware.antt =====
-- `add_middleware`, `get_middleware` and `remove_middleware`: the list of middleware is kept in the
-- order of `_get_middleware_order`. A middleware is the position of its class in that order, or
-- none for a class of the user's, and an identity.
pub mod Order
use remoulade.Prelude.{
  ℕ, zero, suc, Bool, true, false, not, ◌&&◌, List, [], ◌∷◌, ◌++◌, Option, none, some, nat_beq,
  filter, if◌then◌else◌,
}

pub record Middleware : Type 0 where
  pub class : Option ℕ
  pub name : ℕ

-- `isinstance(middleware, middleware_order[k])`
abbrev pub is_instance : ℕ → Middleware → Bool
is_instance k m = elim (m.class) [ none ↦ false | some c ↦ nat_beq c k ]

-- `isinstance(self.middleware[i], current)`, and `self.middleware[i] = m` or
-- `self.middleware.insert(i, m)`, at the entry where the walk stands.
unfoldable pub put : ℕ → Middleware → List Middleware → List Middleware
put k m [] = m ∷ []
put k m (x ∷ xs) = if is_instance k x then m ∷ xs else m ∷ x ∷ xs

-- The walk of `add_middleware`. `rounds` classes of the order are left, of which the next is `k`;
-- the list is what stands from `added_middleware_count` on. Where the walk ends by its test, the
-- middleware goes to the end.
unfoldable pub add_from : (rounds k : ℕ) → Middleware → List Middleware → List Middleware
unfolding put
add_from zero k m xs = xs ++ m ∷ []
add_from (suc rounds) k m [] = m ∷ []
add_from (suc rounds) k m (x ∷ xs) =
    let passed = x ∷ add_from rounds (suc k) m xs in
    let stays = add_from rounds (suc k) m (x ∷ xs) in
    if is_instance k m then put k m (x ∷ xs) else if is_instance k x then passed else stays

-- `add_middleware` with an order of `count` classes.
unfoldable pub add_middleware : ℕ → Middleware → List Middleware → List Middleware
unfolding add_from
add_middleware count m xs = add_from count 0 m xs

unfoldable pub get_middleware : ℕ → List Middleware → Option Middleware
get_middleware k [] = none
get_middleware k (x ∷ xs) = if is_instance k x then some x else get_middleware k xs

unfoldable pub remove_middleware : ℕ → List Middleware → List Middleware
remove_middleware k xs = filter (λ x. not (is_instance k x)) xs
