-- ===== src/StubBroker.antt =====
-- remoulade/brokers/stub.py: the in-memory broker's queues, with `Broker.enqueue` of broker.py.
pub mod Fifo
mod Samples
use remoulade.Prelude.{
  text_eq, ℕ, Bool, true, false, List, [], ◌∷◌, ◌++◌, Option, none, some, map, any, text_beq,
  if◌then◌else◌,
}
use remoulade.Prelude.Dict.{Dict, lookup, insert, has, keys}
use remoulade.QueueNames.{Name, dq_name}
use remoulade.Message.{Message, header}
use remoulade.Consumer.{apply_delay}

-- The hooks that the broker calls.
pub data Event : Type 0 where
  before_declare_queue after_declare_queue after_declare_delay_queue : Name → Event
  before_enqueue after_enqueue : Message → Event
  after_enqueue_failed : Message → Event

pub record StubBroker : Type 0 where
  pub queues : Dict Name (List Message)
  pub delay_queues : List Name
  pub dead_letters : List Message
  pub log : List Event

abbrev pub note : List Event → StubBroker → StubBroker
note es b = record b { log = b.log ++ es }

-- `self.delay_queues.add(name)`
abbrev pub add_name : Name → List Name → List Name
add_name n ns = if any (text_beq n) ns then ns else ns ++ n ∷ []

unfoldable pub declare_queue : Name → StubBroker → StubBroker
declare_queue queue_name b =
    if has queue_name b.queues
    then b
    else let delayed = dq_name queue_name in
      note
        (before_declare_queue queue_name
          ∷ after_declare_queue queue_name
          ∷ after_declare_delay_queue delayed
          ∷ [])
        (record b {
          queues = insert delayed [] (insert queue_name [] b.queues);
          delay_queues = add_name delayed b.delay_queues;
        })

-- `declare_actor`: the actor's queues, of which one is there already on a second declaration.
unfoldable pub declare_queues : List Name → StubBroker → StubBroker
unfolding declare_queue
declare_queues [] b = b
declare_queues (n ∷ ns) b = declare_queues ns (declare_queue n b)

-- `_enqueue`: `none` stands for QueueNotFound.
unfoldable pub put_message : Message → StubBroker → Option StubBroker
put_message m b = elim (lookup (header m).queue_name b.queues) [
  | none ↦ none
  | some ms ↦ some (record b { queues = insert (header m).queue_name (ms ++ m ∷ []) b.queues })
]

-- `Broker.enqueue` at the time `now`, with hooks that raise nothing: the flag says whether it returned.
unfoldable pub enqueue : ℕ → Option ℕ → Message → StubBroker → Bool × StubBroker
unfolding put_message
enqueue now delay m b =
    let m' = apply_delay now delay m in
    let b' = note (before_enqueue m' ∷ []) b in
    elim (put_message m' b') [
      | none ↦ (false, note (after_enqueue_failed m' ∷ []) b')
      | some b'' ↦ (true, note (after_enqueue m' ∷ []) b'')
    ]

-- The next message of a consumer of the queue, where there is one.
unfoldable pub take_from : Name → StubBroker → Option (List Message) → Option Message × StubBroker
take_from queue_name b none = (none, b)
take_from queue_name b (some []) = (none, b)
take_from queue_name b (some (m ∷ ms)) =
    (some m, record b { queues = insert queue_name ms b.queues })

unfoldable pub take_message : Name → StubBroker → Option Message × StubBroker
unfolding take_from
take_message queue_name b = take_from queue_name b (lookup queue_name b.queues)

-- `nack` of the consumer; `ack` changes nothing here.
unfoldable pub nack : Message → StubBroker → StubBroker
nack m b = record b { dead_letters = b.dead_letters ++ m ∷ [] }

unfoldable pub flush : Name → StubBroker → StubBroker
flush queue_name b = record b { queues = insert queue_name [] b.queues }

unfoldable pub flush_names : List Name → StubBroker → StubBroker
unfolding flush
flush_names [] b = b
flush_names (n ∷ ns) b = flush_names ns (flush n b)

unfoldable pub flush_all : StubBroker → StubBroker
unfolding flush_names
flush_all b = flush_names (keys b.queues ++ b.delay_queues) b
