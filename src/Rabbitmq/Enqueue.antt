-- ===== src/Rabbitmq/Enqueue.antt =====
-- `_enqueue`: the declaration of the queues at the first message, the publication, and the retries.
pub mod Retrying
use remoulade.Prelude.{
  ℕ, zero, suc, ◌+◌, Bool, true, false, not, ◌&&◌, ◌||◌, List, [], ◌∷◌, ◌++◌, Option, none, some,
  ltb, leb, if◌then◌else◌, ◌⊎◌, inl, inr,
}

abbrev pub max_enqueue_attempts : ℕ
max_enqueue_attempts = 6

pub data Error : Type 0 where
  amqp_connection_error amqp_channel_error other : Error

-- What RabbitMQ does at a given attempt: the declarations' error, and the publication's
-- confirmation or error.
pub record Server : Type 0 where
  pub declares : ℕ → Option Error
  pub publishes : ℕ → Bool ⊎ Error

-- The broker's state: what it has declared, and the numbers of publications that RabbitMQ took in,
-- of connections dropped, of times the pools were cleared and of pauses.
pub record Broker : Type 0 where
  pub queues_declared : Bool
  pub published : ℕ
  pub dropped : ℕ
  pub cleared : ℕ
  pub slept : ℕ

pub data Outcome : Type 0 where
  sent message_not_delivered connection_closed raised out_of_fuel : Outcome

-- What one pass through the `try` ends with.
pub data Attempt : Type 0 where
  returned not_delivered : Attempt
  broken : Error → Attempt

-- The publication, with `confirm_delivery`.
unfoldable pub publish : Bool → Bool ⊎ Error → Broker → Attempt × Broker
publish confirm (inl confirmation) b = (
  if confirm && not confirmation then not_delivered else returned,
  record b { published = suc b.published },
)
publish confirm (inr e) b = (broken e, b)

unfoldable pub try_once : Bool → Option Error → Bool ⊎ Error → Broker → Attempt × Broker
unfolding publish
try_once confirm declares publishes b = elim (if b.queues_declared then none else declares) [
  | none ↦ publish confirm publishes (record b { queues_declared = true })
  | some e ↦ (broken e, b)
]

-- `del self.connection` for an error of the connection, and `self.clear_channel_pools()`.
abbrev pub reset : Error → Broker → Broker
reset amqp_connection_error b = record b { dropped = suc b.dropped; cleared = suc b.cleared }
reset amqp_channel_error b = record b { cleared = suc b.cleared }
reset other b = b

-- Whether an exception of attempt `attempts` is the last.
abbrev pub stops : Bool → ℕ → Bool
stops has_transaction attempts = has_transaction || ltb max_enqueue_attempts (suc attempts)

-- `while True`, from a given attempt; `retry` is the rest of the loop.
unfoldable pub after_attempt :
    Bool → ℕ → (Broker → Outcome × Broker) → Attempt × Broker → Outcome × Broker
after_attempt has_transaction attempts retry (returned, b) = (sent, b)
after_attempt has_transaction attempts retry (not_delivered, b) =
    if stops has_transaction attempts
    then (message_not_delivered, b)
    else retry (record b { slept = suc b.slept })
after_attempt has_transaction attempts retry (broken other, b) = (raised, b)
after_attempt has_transaction attempts retry (broken e, b) =
    let b' = reset e b in
    if stops has_transaction attempts then (connection_closed, b') else retry b'

unfoldable pub enqueue_loop : ℕ → Server → Bool → Bool → ℕ → Broker → Outcome × Broker
unfolding try_once after_attempt
enqueue_loop zero s confirm has_transaction attempts b = (out_of_fuel, b)
enqueue_loop (suc n) s confirm has_transaction attempts b =
    after_attempt has_transaction attempts
      (λ b'. enqueue_loop n s confirm has_transaction (suc attempts) b')
      (try_once confirm (s.declares attempts) (s.publishes attempts) b)

-- `_enqueue`; `wants_confirm` is the value of the option `confirm_delivery`.
unfoldable pub enqueue : Server → Bool → Bool → Broker → Outcome × Broker
unfolding enqueue_loop
enqueue s wants_confirm has_transaction b =
    enqueue_loop max_enqueue_attempts s (wants_confirm && not has_transaction) has_transaction 1 b
