-- ===== src/Reduce/Samples.antt =====
-- Reductions of a few messages.
use remoulade.Prelude.{◌≡◌, refl, List, [], ◌∷◌, some, arith}
use remoulade.Reduce.{Node, single, merged, nil, cons, reduce}
use remoulade.Reduce.Leaves.{leaves, all_leaves, reduce-leaves, reduce_drops}

abbrev five : List Node
five = single 1 ∷ single 2 ∷ single 3 ∷ single 4 ∷ single 5 ∷ []

-- Three messages in pairs are two merges.
reduce-three :
    reduce 2 (single 1 ∷ single 2 ∷ single 3 ∷ [])
    ≡ some (merged (cons (merged (cons (single 1) (cons (single 2) nil))) (cons (single 3) nil)))
unfolding reduce remoulade.Reduce.reduce_round
reduce-three = refl

reduce-leaves_example : (r : Node) × (reduce 2 five ≡ some r) × (leaves r ≡ all_leaves five)
reduce-leaves_example = reduce-leaves five (omega arith)

-- With size 3, a reduction of two messages is the first of them.
reduce_drops_example : reduce 3 (single 1 ∷ single 2 ∷ []) ≡ some (single 1)
reduce_drops_example = reduce_drops 0 (single 1) (single 2 ∷ []) refl
