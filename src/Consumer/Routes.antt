-- ===== src/Consumer/Routes.antt =====
-- Every message that a consumer receives is in one place: its delay queue, the work queue, settled
-- with the broker, or forgotten after an exception; and none is acknowledged before it is sent on.
use remoulade.Prelude.{ℕ, suc, ◌+◌, ◌≤◌, ◌≡◌, Bool, [], ◌∷◌, inl, inr, Bool-cases, ltb, leb, nat_eq}
use remoulade.Prelude.Dict.{Dict}
use remoulade.Message.{Message}
use remoulade.Consumer.PriorityQueue.{Queue, IsSorted}
use remoulade.Consumer.{Consumer, due}
use remoulade.Consumer.Delays.{put-first}
use remoulade.Consumer.Turns.{enqueues, acks, accounted}

due-IsSorted : (clock : ℕ → ℕ) (q : Queue Message) → IsSorted leb q → IsSorted leb (due clock q).1
unfolding due
due-IsSorted clock [] s = tt
due-IsSorted clock ((eta, m) ∷ q) (after, s) = elim (Bool-cases (ltb (clock 0) eta)) [
  | inl e ↦ rw (e, put-first eta m q after) (after, s)
  | inr e ↦ rw e (due-IsSorted (λ n. clock (suc n)) q s)
]

module _ (p : Message → Bool) where
  -- What one turn adds to the counts.
  abbrev Counts : (arrived : ℕ) → Consumer → Consumer → Type 0
  Counts n c c' =
      (accounted p c' ≡ accounted p c + n)
      × (acks p c'.log + enqueues p c.log ≤ enqueues p c'.log + acks p c.log)
