-- ===== src/Rabbitmq/Samples.antt =====
-- A pool of two channels, and a broker that takes a message at the third attempt.
use remoulade.Prelude.{nat_beq, ◌*◌}
use remoulade.Rabbitmq.Consuming.{
  next_inbound, next_message, wait_from, Inbound, arrived, nothing_yet,
}
use remoulade.Prelude.{
  ◌+◌, ◌≤◌, ◌≡◌, ◌≢◌, refl, true, false, List, [], ◌∷◌, none, inl, inr, if◌then◌else◌, leb, arith,
}
use remoulade.Rabbitmq.ChannelPool.{new}
use remoulade.Rabbitmq.ChannelPool.Sharing.{
  Step, acquired, released, cleared, steps, IsShared, steps-IsShared,
}
use remoulade.Prelude.{ℕ, zero, suc}
use remoulade.QueueNames.{Name}
use remoulade.Rabbitmq.Queues.{Settings}
use remoulade.Rabbitmq.Enqueue.{Server, Broker, sent, out_of_fuel, amqp_channel_error, enqueue}
use remoulade.Rabbitmq.Enqueue.Retrying.{OnlyAmqp, enqueue-Ends, enqueue-sent}

-- Two threads take a channel each, the pool is cleared, and one comes back.
abbrev uses : List Step
uses = acquired ∷ acquired ∷ cleared ∷ released 0 false ∷ acquired ∷ []

steps-IsShared_example : IsShared (steps uses (new 2))
steps-IsShared_example = steps-IsShared 2 uses

abbrev slow_server : Server
slow_server = record {
  declares = λ i. none;
  publishes = λ i. if leb 3 i then inl true else inr amqp_channel_error;
}

abbrev broker : Broker
broker = record { queues_declared = false; published = 0; dropped = 0; cleared = 0; slept = 0 }

enqueue-Ends_example :
    ((enqueue slow_server true false broker).0 ≢ out_of_fuel)
    × ((enqueue slow_server true false broker).1.published
          + (enqueue slow_server true false broker).1.cleared
        ≤ 0 + 0 + 6)
    × ((enqueue slow_server true false broker).1.published ≤ 0 + 6)
enqueue-Ends_example = enqueue-Ends slow_server true false broker

slow_server-OnlyAmqp : OnlyAmqp slow_server
slow_server-OnlyAmqp = record {
  declares = λ i. λ e. ground arith;
  publishes = λ i. λ e. ground arith;
}

enqueue-sent_example : (enqueue slow_server true false broker).0 ≡ sent
enqueue-sent_example =
    enqueue-sent slow_server true broker 3 slow_server-OnlyAmqp (omega arith) (omega arith) refl
      refl

abbrev settings : Settings
settings = record { max_priority = none; dead_queue_max_length = none; is_quorum = false }

-- One message is there at the first poll, and none after it.
abbrev counts : ℕ → Name → ℕ
counts zero q = 1
counts (suc n) q = 0

abbrev third_look : ℕ → Inbound
third_look n = if nat_beq n 2 then arrived 7 else nothing_yet

test-next_inbound : next_inbound 10 (λ n. n * 100) third_look 0 500 ≡ next_message 7
unfolding next_inbound wait_from
test-next_inbound = refl
