-- ===== src/Rabbitmq/Consuming.antt =====
-- The connection of brokers/rabbitmq.py and its consumer: which connection is used, what an error
-- makes of it, and the loop that waits for a message. What RabbitMQ and its client answer is given;
-- connections and messages are numbers, and times are milliseconds.
use remoulade.Prelude.{
  ◌-◌, Bool-cases, ℕ, zero, suc, ◌+◌, ◌≤◌, ◌<◌, ◌≡◌, refl, Bool, true, false, Option, none, some,
  ltb, arith, inl, inr, if◌then◌else◌,
}

-- The connection, and how often the channel pools were cleared.
pub record Broker : Type 0 where
  pub connection : Option ℕ
  pub pools_cleared : ℕ

-- What the client does: whether a connection is closed, and the one that opening gives, if it does
-- not fail.
pub record Client : Type 0 where
  pub is_closed : ℕ → Bool
  pub opened : Option ℕ

abbrev pub open_connection : Option ℕ → Broker → Option ℕ × Broker
open_connection none b = (none, b)
open_connection (some c) b = (some c, record b { connection = some c })

-- The property `connection`; `none` where opening fails.
unfoldable pub get_connection : Client → Broker → Option ℕ × Broker
get_connection client b = elim b.connection [
  | none ↦ open_connection client.opened b
  | some c ↦ if client.is_closed c then open_connection client.opened b else (some c, b)
]

-- `del self.connection`
unfoldable pub delete_connection : Broker → Broker
delete_connection b = record b { connection = none }

unfoldable pub clear_channel_pools : Broker → Broker
clear_channel_pools b = record b { pools_cleared = suc b.pools_cleared }

unfoldable pub close : Broker → Broker
unfolding delete_connection clear_channel_pools
close b = clear_channel_pools (delete_connection b)

-- How declaring the queues ends.
pub data Declared : Type 0 where
  declared connection_error channel_error : Declared

pub data Consuming : Type 0 where
  consumes : (connection : ℕ) → Consuming
  connection_closed not_opened : Consuming

abbrev pub consumer_on : Option ℕ × Broker → Consuming × Broker
consumer_on (none, b) = (not_opened, b)
consumer_on (some c, b) = (consumes c, b)

-- `consume`
unfoldable pub consume : Declared → Client → Broker → Consuming × Broker
unfolding get_connection delete_connection clear_channel_pools
consume declared client b = consumer_on (get_connection client b)
consume connection_error client b = (connection_closed, clear_channel_pools (delete_connection b))
consume channel_error client b = (connection_closed, clear_channel_pools b)

-- `ack`, `nack`: whether ConnectionClosed is raised; any other error is logged.
pub data Settled : Type 0 where
  settled lost other_error : Settled

unfoldable pub raises_closed : Settled → Bool
raises_closed settled = false
raises_closed lost = true
raises_closed other_error = false

-- A look at the inbound messages: one, none, or a broken connection.
pub data Inbound : Type 0 where
  arrived : ℕ → Inbound
  nothing_yet broken : Inbound

pub data Next : Type 0 where
  next_message : ℕ → Next
  no_message closed out_of_fuel : Next

abbrev pub after_look : Inbound → Next → Next
after_look (arrived m) rest = next_message m
after_look nothing_yet rest = rest
after_look broken rest = closed

-- The loop of `__next__` from the n-th look on, which is at `clock n` if that is before the deadline.
unfoldable pub wait_from :
    (fuel : ℕ) → (clock : ℕ → ℕ) → (looks : ℕ → Inbound) → (deadline n : ℕ) → Next
wait_from zero clock looks deadline n = out_of_fuel
wait_from (suc fuel) clock looks deadline n =
    let rest = wait_from fuel clock looks deadline (suc n) in
    if ltb (clock n) deadline then after_look (looks n) rest else no_message

-- `__next__`, where `start` is the reading of the clock that the timeout is added to.
unfoldable pub next_inbound :
    ℕ → (clock : ℕ → ℕ) → (looks : ℕ → Inbound) → (start timeout : ℕ) → Next
unfolding wait_from
next_inbound fuel clock looks start timeout = wait_from fuel clock looks (start + timeout) 0

-- Between two looks the clock goes on by the sleep, at least.
abbrev pub Sleeps : (ℕ → ℕ) → Type 0
Sleeps clock = (n : ℕ) → clock n < clock (suc n)

-- The looks from the n-th on before the k-th found nothing.
abbrev pub AllEmpty : (ℕ → Inbound) → (n k : ℕ) → Type 0
AllEmpty looks n k = (j : ℕ) → n ≤ j → j < k → looks j ≡ nothing_yet

-- How the loop ended, at the k-th look.
abbrev pub EndsAt : (ℕ → ℕ) → (ℕ → Inbound) → (deadline k : ℕ) → Next → Type 0
EndsAt clock looks deadline k (next_message m) = (clock k < deadline) × (looks k ≡ arrived m)
EndsAt clock looks deadline k no_message = deadline ≤ clock k
EndsAt clock looks deadline k closed = (clock k < deadline) × (looks k ≡ broken)
EndsAt clock looks deadline k out_of_fuel = ⊥

AllEmpty-here : (looks : ℕ → Inbound) (n : ℕ) → AllEmpty looks n n
AllEmpty-here looks n j low high = absurd (omega arith)

AllEmpty-before :
    (looks : ℕ → Inbound) (n k : ℕ)
    → looks n ≡ nothing_yet
    → AllEmpty looks (suc n) k
    → AllEmpty looks n k
AllEmpty-before looks n k e later j low high = ground (arith, later j)

EndsSomewhere : (ℕ → ℕ) → (ℕ → Inbound) → (deadline n : ℕ) → Next → Type 0
EndsSomewhere clock looks deadline n r =
    (k : ℕ) × AllEmpty looks n k × EndsAt clock looks deadline k r

after_look-ends :
    (clock : ℕ → ℕ) (looks : ℕ → Inbound) (deadline n : ℕ) (look : Inbound) (rest : Next)
    → looks n ≡ look
    → clock n < deadline
    → EndsSomewhere clock looks deadline (suc n) rest
    → EndsSomewhere clock looks deadline n (after_look look rest)
unfolding EndsSomewhere
after_look-ends clock looks deadline n (arrived m) rest e early ends =
    (n, AllEmpty-here looks n, (early, e))
after_look-ends clock looks deadline n nothing_yet rest e early (k, empty, ends) =
    (k, AllEmpty-before looks n k e empty, ends)
after_look-ends clock looks deadline n broken rest e early ends =
    (n, AllEmpty-here looks n, (early, e))

wait_from-ends :
    (fuel deadline n : ℕ) (clock : ℕ → ℕ) (looks : ℕ → Inbound)
    → Sleeps clock
    → deadline - clock n < fuel
    → EndsSomewhere clock looks deadline n (wait_from fuel clock looks deadline n)
unfolding wait_from EndsSomewhere
wait_from-ends zero deadline n clock looks sleeps enough = absurd (omega arith)
wait_from-ends (suc fuel) deadline n clock looks sleeps enough =
    elim (Bool-cases (ltb (clock n) deadline)) [
      | inl early ↦ rw early (
          after_look-ends clock looks deadline n (looks n) _ refl (ground arith)
            (wait_from-ends fuel deadline (suc n) clock looks sleeps (ground (arith, sleeps n))))
      | inr late ↦ rw late (n, AllEmpty-here looks n, ground arith)
    ]

-- Where the clock goes on between two looks, the wait for a message ends within timeout + 1 looks, at
-- the first that finds one or breaks, or, if all before found none, once the timeout has passed.
pub next_inbound-ends :
    (start timeout : ℕ) (clock : ℕ → ℕ) (looks : ℕ → Inbound)
    → Sleeps clock
    → start ≤ clock 0
    → (k : ℕ) × AllEmpty looks 0 k
      × EndsAt clock looks
          (start + timeout)
          k
          (next_inbound (suc timeout) clock looks start timeout)
unfolding next_inbound EndsSomewhere
next_inbound-ends start timeout clock looks sleeps le =
    wait_from-ends (suc timeout) (start + timeout) 0 clock looks sleeps (omega arith)
