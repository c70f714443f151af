-- ===== src/Consumer/Delays.antt =====
-- When delayed messages leave the consumer's memory.
use remoulade.Prelude.{
  ℕ, suc, ◌+◌, ◌≤◌, ◌<◌, ◌≡◌, refl, ap, [], ◌∷◌, ◌++◌, none, some, inl, inr, Bool-cases, ltb, leb,
  All, arith,
}
use remoulade.QueueNames.{q_name}
use remoulade.QueueNames.Laws.{names_lem}
use remoulade.Message.{Message, message, options, copy, header, flags}
use remoulade.Consumer.PriorityQueue.{Queue, put, AllAfter, IsSorted}
use remoulade.Consumer.{due, ready, apply_delay}

-- What the loop makes of a queue: it parts it in two, in order; what was sent was due by the last
-- reading `latest`, and what stays was not due at `earliest`.
pub record IsSplit (earliest latest : ℕ) (q sent rest : Queue Message) : Type 0 where
  pub whole : sent ++ rest ≡ q
  pub on_time : All (λ e. e.0 ≤ latest) sent
  pub kept : All (λ e. earliest < e.0) rest

pub put-first :
    (k : ℕ) (m : Message) (q : Queue Message) → AllAfter leb k q → put leb k m q ≡ (k, m) ∷ q
unfolding put
put-first k m [] h = refl
put-first k m ((j, n) ∷ q) h = ground arith

All-later : (now k : ℕ) (q : Queue Message) → now < k → AllAfter leb k q → All (λ e. now < e.0) q
All-later now k [] h a = tt
All-later now k ((j, n) ∷ q) h (a, later) = (ground arith, All-later now k q h later)

-- One pass over a sorted delay queue loses nothing and keeps the order: the messages that are sent
-- and those that stay make up the queue. No message leaves before its eta, and every message whose
-- eta had passed when the pass began leaves.
pub due-IsSplit :
    (clock : ℕ → ℕ) (earliest latest : ℕ) (q : Queue Message)
    → ((n : ℕ) → earliest ≤ clock n)
    → ((n : ℕ) → clock n ≤ latest)
    → IsSorted leb q
    → IsSplit earliest latest q (due clock q).0 (due clock q).1
unfolding due
due-IsSplit clock earliest latest [] lo hi s = record { whole = refl; on_time = tt; kept = tt }
due-IsSplit clock earliest latest ((eta, m) ∷ q) lo hi (after, s) =
    elim (Bool-cases (ltb (clock 0) eta)) [
      | inl e ↦
          rw (e, put-first eta m q after)
            (record {
              whole = refl;
              on_time = tt;
              kept = (ground (arith, lo 0), All-later earliest eta q (ground (arith, lo 0)) after);
            })
      | inr e ↦
          let rest =
            due-IsSplit (λ n. clock (suc n)) earliest latest q (λ n. lo (suc n)) (λ n. hi (suc n))
              s in
          rw e (record {
            whole = ap (◌∷◌ (eta, m)) rest.whole;
            on_time = (ground (arith, hi 0), rest.on_time);
            kept = rest.kept;
          })
    ]

-- Sending a message with a delay and then taking it off the delay queue gives it back on its
-- canonical queue, without an eta, with its arguments, actor and identifier.
pub ready-apply_delay :
    (now delay : ℕ) (m : Message)
    → (header (ready (apply_delay now (some delay) m))
        ≡ record (header m) { queue_name = q_name (header m).queue_name })
      × ((flags (ready (apply_delay now (some delay) m))).eta ≡ none)
      × ((flags (apply_delay now (some delay) m)).eta ≡ some (now + delay))
unfolding ready apply_delay copy
ready-apply_delay now delay (message h (options t f)) =
    (ap (λ n. record h { queue_name = n }) (names_lem h.queue_name).0, refl, refl)
