-- ===== src/Consumer.antt =====
-- remoulade/worker.py: what a consumer thread does with the messages it receives (`handle_message`
-- and `handle_delayed_messages`), and `_apply_delay` of brokers/stub.py, which sends them there.
pub mod PriorityQueue
pub mod Restarting
pub mod Delays
pub mod Turns
pub mod Routes
mod Samples
use remoulade.Prelude.{
  nat_eq, ℕ, zero, suc, ◌+◌, Bool, true, false, List, [], ◌∷◌, ◌++◌, Option, none, some, ltb, leb,
  if◌then◌else◌,
}
use remoulade.Prelude.Dict.{Dict, lookup}
use remoulade.QueueNames.{Name, q_name, dq_name}
use remoulade.Message.{
  Message, message, Options, options, no_target, Flags, no_flags, Header, copy, header, flags,
}
use remoulade.Consumer.PriorityQueue.{Queue, put}

-- The calls that leave the consumer: the hook of a delayed message, `broker.enqueue`, and
-- `post_process_message` of a message that is failed (at true) or not. A message is forgotten that
-- leaves memory without being settled: the broker still has it, unacknowledged.
pub data Event : Type 0 where
  delayed enqueued : Message → Event
  processed : Bool → Message → Event
  forgotten : Message → Event

-- An exception of the calls to the broker: ConnectionError, or another one.
pub data Failure : Type 0 where
  connection_error unexpected : Failure

-- How sending one delayed message on goes: `broker.enqueue` or then `post_process_message` may raise.
pub data Attempt : Type 0 where
  went_well : Attempt
  enqueue_raises settle_raises : Failure → Attempt

-- The entries of the delay queue, by their eta, and of the work queue, by descending priority.
pub record Consumer : Type 0 where
  pub delay_queue : Queue Message
  pub work_queue : Queue Message
  pub log : List Event

abbrev pub note : List Event → Consumer → Consumer
note es c = record c { log = c.log ++ es }

-- `eta` goes, and the queue becomes the canonical one.
abbrev pub without_eta : Message → Message
without_eta (message h (options t f)) = message h (options t (record f { eta = none }))

unfoldable pub ready : Message → Message
unfolding copy
ready m = without_eta (
    copy (record (header m) { queue_name = q_name (header m).queue_name })
      (options no_target no_flags) m)

-- The loop on the queue. `clock n` is the n-th reading of the time; the result has the entries that
-- were sent on, in order, and the queue that is left.
unfoldable pub due : (ℕ → ℕ) → Queue Message → List (ℕ × Message) × Queue Message
unfolding put
due clock [] = ([], [])
due clock ((eta, m) ∷ q) =
    let (sent, rest) = due (λ n. clock (suc n)) q in
    if ltb (clock 0) eta then ([], put leb eta m q) else ((eta, m) ∷ sent, rest)

abbrev pub forget_all : Queue Message → List Event
forget_all [] = []
forget_all ((eta, m) ∷ q) = forgotten m ∷ forget_all q

-- What `run` does with an exception at the message `m`, with `q` left in the delay queue: an error of
-- the connection empties it. Another one does not, since `close` gives the queue as a generator to
-- `requeue`, which no broker reads.
abbrev pub abandon : Failure → Message → Queue Message → List Event × Queue Message
abandon connection_error m q = (forgotten m ∷ forget_all q, [])
abandon unexpected m q = (forgotten m ∷ [], q)

-- One message; `later` is what the loop does next.
abbrev pub sent_on :
    Attempt → Message → Queue Message → List Event × Queue Message → List Event × Queue Message
sent_on went_well m q later = (enqueued (ready m) ∷ processed false m ∷ later.0, later.1)
sent_on (enqueue_raises f) m q later = abandon f m q
sent_on (settle_raises f) m q later = (enqueued (ready m) ∷ (abandon f m q).0, (abandon f m q).1)

-- The loop on the messages that are due; the n-th attempt goes as `attempts` says.
unfoldable pub deliver :
    (attempts : ℕ → Attempt) → (sent rest : Queue Message) → List Event × Queue Message
deliver attempts [] rest = ([], rest)
deliver attempts ((eta, m) ∷ sent) rest =
    sent_on (attempts 0) m (sent ++ rest) (deliver (λ n. attempts (suc n)) sent rest)

unfoldable pub handle_delayed_messages : (ℕ → ℕ) → (ℕ → Attempt) → Consumer → Consumer
unfolding due deliver
handle_delayed_messages clock attempts c =
    let (sent, rest) = due clock c.delay_queue in
    let (es, q) = deliver attempts sent rest in note es (record c { delay_queue = q })

-- What an undefined actor's message comes to, which is failed and settled.
abbrev pub to_dead : Message → Option Failure → Consumer → Consumer
to_dead m none c = note (processed true m ∷ []) c
to_dead m (some f) c =
    let (es, q) = abandon f m c.delay_queue in note es (record c { delay_queue = q })

-- What follows the look-up of the actor.
unfoldable pub to_work : Message → Option Failure → Option ℕ → Consumer → Consumer
unfolding put
to_work m fails none c = to_dead m fails c
to_work m fails (some priority) c = record c {
  work_queue = put (λ a b. leb b a) priority m c.work_queue;
}

-- `actors` gives the priority of every declared actor; `fails` is the exception of settling the message
-- of an undefined one, if any. The hook of a delayed message raises none.
unfoldable pub route : Dict ℕ ℕ → Option Failure → Option ℕ → Message → Consumer → Consumer
unfolding put
route actors fails (some eta) m c =
    note (delayed m ∷ []) (record c { delay_queue = put leb eta m c.delay_queue })
route actors fails none m c = to_work m fails (lookup (header m).actor_name actors) c

unfoldable pub handle_message : Dict ℕ ℕ → Option Failure → Message → Consumer → Consumer
unfolding route
handle_message actors fails m c = route actors fails (flags m).eta m c

-- `_apply_delay` at the time `now`.
unfoldable pub apply_delay : ℕ → Option ℕ → Message → Message
unfolding copy
apply_delay now none m = m
apply_delay now (some delay) m =
    copy (record (header m) { queue_name = dq_name (header m).queue_name })
      (options no_target (record no_flags { eta = some (now + delay) })) m
