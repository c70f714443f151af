-- ===== src/Rabbitmq/Queues/Joining.antt =====
-- What is known when `join` returns.
use remoulade.Prelude.{
  text_eq, ℕ, zero, suc, ◌+◌, ◌≤◌, ◌<◌, ◌≡◌, ap, ◌∙◌, Option, leb, nat_beq, nat_beq_iff,
  if◌then◌else◌, Bool-cases, inl, inr, arith,
}
use remoulade.QueueNames.{Name}
use remoulade.Rabbitmq.Queues.{Settings, joined, total_messages, join_from, join}

last_quiet : (t successes : ℕ) → 0 < (if nat_beq t 0 then suc successes else 0) → t ≡ 0
last_quiet t successes h = ground (arith, nat_beq_iff t 0)

join_from-quiet :
    (fuel : ℕ) (s : Settings) (counts : ℕ → Name → ℕ) (clock : ℕ → ℕ) (deadline : Option ℕ)
    (min_successes : ℕ) (q : Name) (n successes k i : ℕ)
    → ((j : ℕ) → n ≤ j + successes → j < n → total_messages s (counts j) q ≡ 0)
    → join_from fuel s counts clock deadline min_successes q n successes ≡ joined k
    → k ≤ i + min_successes
    → i < k
    → total_messages s (counts i) q ≡ 0
unfolding join_from
join_from-quiet zero s counts clock deadline min_successes q n successes k i quiet e h g =
    ground arith
join_from-quiet (suc fuel) s counts clock deadline min_successes q n successes k i quiet e h g =
    elim (Bool-cases (leb min_successes successes)) [
      | inl done ↦ ground (arith, quiet i)
      | inr more ↦
          let t = total_messages s (counts n) q in
          let found = if nat_beq t 0 then suc successes else 0 in
          join_from-quiet fuel s counts clock deadline min_successes q (suc n) found k i
            (λ j a b. elim (Bool-cases (nat_beq j n)) [
              | inl same ↦
                  ap (λ m. total_messages s (counts m) q) ((nat_beq_iff j n).0 same)
                  ∙ last_quiet t successes (ground (arith, nat_beq_iff j n))
              | inr before ↦
                  quiet j (ground (arith, nat_beq_iff j n)) (ground (arith, nat_beq_iff j n))
            ])
            (ground arith) h g
    ]

-- When `join` returns after `k` polls, the queue and its delay queue were empty at each of the last
-- `min_successes` of them, however the counts went before and whatever the deadline.
pub join-quiet :
    (fuel : ℕ) (s : Settings) (counts : ℕ → Name → ℕ) (clock : ℕ → ℕ) (deadline : Option ℕ)
    (min_successes : ℕ) (q : Name) (k i : ℕ)
    → join fuel s counts clock deadline min_successes q ≡ joined k
    → k ≤ i + min_successes
    → i < k
    → total_messages s (counts i) q ≡ 0
unfolding join
join-quiet fuel s counts clock deadline min_successes q k i e h g =
    join_from-quiet fuel s counts clock deadline min_successes q 0 0 k i
      (λ j a b. absurd (omega arith)) e h g
