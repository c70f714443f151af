-- ===== src/Reduce.antt =====
-- remoulade/helpers/reduce.py: messages are merged in groups of `size`, round after round.
pub mod Leaves
mod Samples
use remoulade.Prelude.{
  ℕ, zero, suc, ◌+◌, ◌-◌, List, [], ◌∷◌, ◌++◌, Option, none, some, true, false, length, take, drop,
  nat_beq, if◌then◌else◌,
}

-- A message, or the group of some of them followed by the merge actor's message.
mutual
  pub data Node : Type 0 where
    single : ℕ → Node
    merged : Nodes → Node

  pub data Nodes : Type 0 where
    nil : Nodes
    cons : Node → Nodes → Nodes

abbrev pub nodes : List Node → Nodes
nodes [] = nil
nodes (x ∷ xs) = cons x (nodes xs)

-- The `for` loop of a round over what is left of the messages. Its test `i == len(messages) -
-- (size - 1)` says that `size - 1` of them are left. The fuel is the number that is left.
unfoldable pub reduce_round : ℕ → ℕ → List Node → List Node
reduce_round zero size xs = []
reduce_round (suc fuel) size [] = []
reduce_round (suc fuel) size (x ∷ xs) =
    let rest = reduce_round fuel size (drop size (x ∷ xs)) in
    if nat_beq (length (x ∷ xs) + 1) size
    then x ∷ rest
    else merged (nodes (take size (x ∷ xs))) ∷ rest

-- The `while` loop: `none` where the fuel runs out, or where there is no message at all.
unfoldable pub reduce_loop : ℕ → ℕ → List Node → Option Node
reduce_loop zero size xs = none
reduce_loop (suc fuel) size [] = none
reduce_loop (suc fuel) size (x ∷ []) = some x
reduce_loop (suc fuel) size (x ∷ y ∷ xs) =
    reduce_loop fuel size (reduce_round (length (x ∷ y ∷ xs)) size (x ∷ y ∷ xs))

-- A list of n messages takes less than n rounds.
unfoldable pub reduce : ℕ → List Node → Option Node
unfolding reduce_loop
reduce size xs = reduce_loop (length xs) size xs
