-- ===== src/Reduce/Leaves.antt =====
-- Which messages a reduction keeps.
use remoulade.Prelude.{
  ℕ, zero, suc, ◌+◌, ◌*◌, ◌≤◌, ◌<◌, ◌≡◌, refl, ap, sym, ◌∙◌, List, [], ◌∷◌, ◌++◌, some, true, false,
  nat_beq, length, drop, arith, append_assoc, append-nil,
}
use remoulade.Reduce.{Node, single, merged, Nodes, nil, cons, reduce_round, reduce_loop, reduce}

abbrev mutual
  pub leaves : Node → List ℕ
  leaves (single i) = i ∷ []
  leaves (merged xs) = leaves_of xs

  pub leaves_of : Nodes → List ℕ
  leaves_of nil = []
  leaves_of (cons x xs) = leaves x ++ leaves_of xs

abbrev pub all_leaves : List Node → List ℕ
all_leaves [] = []
all_leaves (x ∷ xs) = leaves x ++ all_leaves xs

-- Pairs: a round keeps every message, in order, and halves their number.
round_of_two :
    (fuel : ℕ) (xs : List Node)
    → length xs ≤ fuel
    → (all_leaves (reduce_round fuel 2 xs) ≡ all_leaves xs)
      × (2 * length (reduce_round fuel 2 xs) ≤ length xs + 1)
      × (1 ≤ length xs → 1 ≤ length (reduce_round fuel 2 xs))
unfolding reduce_round
round_of_two zero [] h = (refl, omega arith, omega arith)
round_of_two zero (x ∷ xs) h = absurd (omega arith)
round_of_two (suc fuel) [] h = (refl, omega arith, omega arith)
round_of_two (suc fuel) (x ∷ []) h =
    let (kept, shorter, some_left) = round_of_two fuel [] (omega arith) in
    (ap (λ l. leaves x ++ l) kept, omega arith, omega arith)
round_of_two (suc fuel) (x ∷ y ∷ xs) h =
    let (kept, shorter, some_left) = round_of_two fuel xs (omega arith) in
    let test : nat_beq (length (x ∷ y ∷ xs) + 1) 2 ≡ false = ground arith in
    rw test (
      ap (λ l. (leaves x ++ (leaves y ++ [])) ++ l) kept
          ∙ append_assoc (leaves x) (leaves y ++ []) (all_leaves xs)
          ∙ ap (λ l. leaves x ++ l) (append_assoc (leaves y) [] (all_leaves xs)),
      omega arith,
      λ _. omega arith,
    )

loop_of_two :
    (fuel : ℕ) (x : Node) (xs : List Node)
    → length (x ∷ xs) ≤ fuel
    → (r : Node) × (reduce_loop fuel 2 (x ∷ xs) ≡ some r) × (leaves r ≡ all_leaves (x ∷ xs))
unfolding reduce_loop
loop_of_two zero x xs h = absurd (omega arith)
loop_of_two (suc fuel) x [] h = (x, refl, sym (append-nil (leaves x)))
loop_of_two (suc fuel) x (y ∷ ys) h =
    let xs = x ∷ y ∷ ys in
    let (kept, shorter, some_left) = round_of_two (length xs) xs (omega arith) in
    next (loop_of_two fuel) (reduce_round (length xs) 2 xs) kept (omega arith)
      (some_left (omega arith))
  where
    next :
        ((z : Node) (zs : List Node)
          → length (z ∷ zs) ≤ fuel
          → (r : Node) × (reduce_loop fuel 2 (z ∷ zs) ≡ some r) × (leaves r ≡ all_leaves (z ∷ zs)))
        → (zs : List Node) → all_leaves zs ≡ all_leaves (x ∷ y ∷ ys)
        → length zs ≤ fuel
        → 1 ≤ length zs
        → (r : Node) × (reduce_loop fuel 2 zs ≡ some r) × (leaves r ≡ all_leaves (x ∷ y ∷ ys))
    next rec [] e short pos = absurd (omega arith)
    next rec (z ∷ zs) e short pos = let (r, found, kept) = rec z zs short in (r, found, kept ∙ e)

-- With pairs, the default, a reduction ends and keeps every message, in order.
pub reduce-leaves :
    (xs : List Node)
    → 0 < length xs
    → (r : Node) × (reduce 2 xs ≡ some r) × (leaves r ≡ all_leaves xs)
unfolding reduce
reduce-leaves [] h = absurd (omega arith)
reduce-leaves (x ∷ xs) h = loop_of_two (length (x ∷ xs)) x xs (omega arith)

drop-all : (n : ℕ) (xs : List Node) → length xs ≤ n → drop n xs ≡ []
drop-all zero [] h = refl
drop-all zero (x ∷ xs) h = absurd (omega arith)
drop-all (suc n) [] h = refl
drop-all (suc n) (x ∷ xs) h = drop-all n xs (omega arith)

reduce_round-nil : (fuel size : ℕ) → reduce_round fuel size [] ≡ []
unfolding reduce_round
reduce_round-nil zero size = refl
reduce_round-nil (suc fuel) size = refl

round_short :
    (fuel n : ℕ) (x : Node) (xs : List Node)
    → length xs ≡ suc n
    → reduce_round (suc fuel) (suc (suc (suc n))) (x ∷ xs) ≡ x ∷ []
unfolding reduce_round
round_short fuel n x xs h =
    let test : nat_beq (length (x ∷ xs) + 1) (suc (suc (suc n))) ≡ true = ground arith in
    rw test (
      ap (◌∷◌ x) (
        ap (reduce_round fuel (suc (suc (suc n))))
          (drop-all (suc (suc (suc n))) (x ∷ xs) (omega arith))
        ∙ reduce_round-nil fuel (suc (suc (suc n)))))

-- With three or more at once, a list that is one message short of a full group is not merged at all:
-- the result is its first message, and the others are dropped.
pub reduce_drops :
    (n : ℕ) (x : Node) (xs : List Node)
    → length xs ≡ suc n
    → reduce (suc (suc (suc n))) (x ∷ xs) ≡ some x
unfolding reduce
reduce_drops n x [] h = absurd (omega arith)
reduce_drops n x (y ∷ ys) h =
    ap (reduce_loop (suc (length ys)) (suc (suc (suc n))))
      (round_short (suc (length ys)) n x (y ∷ ys) (omega arith))
