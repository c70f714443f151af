-- ===== src/Worker/Shutdown.antt =====
-- The class Worker: which consumers it starts, and `stop`, which gives the messages in memory back.
pub mod Requeue
use remoulade.Prelude.{
  text_eq, ℕ, Bool, true, false, not, ◌&&◌, List, [], ◌∷◌, ◌++◌, Option, none, some, map, any,
  text_beq, if◌then◌else◌,
}
use remoulade.Prelude.Dict.{Dict, lookup, insert, has, keys}
use remoulade.QueueNames.{Name, q_name}
use remoulade.Message.{Message, header}

-- A consumer thread: the number of messages that it prefetches, whether it ever connected, and the
-- messages of its delay queue in the order in which they come out.
pub record Consumer : Type 0 where
  pub prefetch : ℕ
  pub is_connected : Bool
  pub delay_queue : List Message

-- The consumers by queue.
abbrev pub Consumers : Type 0
Consumers = Dict Name Consumer

abbrev pub new_consumer : ℕ → Consumer
new_consumer prefetch = record { prefetch = prefetch; is_connected = false; delay_queue = [] }

-- `self.consumer_whitelist and canonical_name not in self.consumer_whitelist`
abbrev pub is_dropped : List Name → Name → Bool
is_dropped [] name = false
is_dropped (n ∷ ns) name = not (any (text_beq name) (n ∷ ns))

unfoldable pub add_consumer :
    (queue_prefetch delay_prefetch : ℕ) → List Name → Name → Bool → Consumers → Consumers
add_consumer queue_prefetch delay_prefetch whitelist queue_name delay consumers =
    if has queue_name consumers
    then consumers
    else if is_dropped whitelist (q_name queue_name)
    then consumers
    else insert queue_name (new_consumer (if delay then delay_prefetch else queue_prefetch))
        consumers

-- `messages_by_queue`, a defaultdict of lists.
abbrev pub or_empty : Option (List Message) → List Message
or_empty none = []
or_empty (some ms) = ms

unfoldable pub add_by_queue : List Message → Dict Name (List Message) → Dict Name (List Message)
add_by_queue [] d = d
add_by_queue (m ∷ ms) d =
    let queue_name = (header m).queue_name in
    add_by_queue ms (insert queue_name (or_empty (lookup queue_name d) ++ m ∷ []) d)

-- What `stop` does, in order; the messages of a queue that could not be given back are lost to the
-- worker, and RabbitMQ still has them unacknowledged.
pub data Event : Type 0 where
  before_worker_shutdown threads_stopped after_worker_shutdown : Event
  requeued requeue_failed : Name → List Message → Event
  closed : Name → Event

-- A KeyError ends `stop`, as does the AttributeError of a consumer thread that never connected.
pub data Outcome : Type 0 where
  stopped key_error attribute_error : Outcome

-- `requeue_messages`, where `fails` says whether the connection does.
abbrev pub requeue : Bool → Name → List Message → Event
requeue true q ms = requeue_failed q ms
requeue false q ms = requeued q ms

abbrev pub then_events : List Event → List Event × Outcome → List Event × Outcome
then_events es (fs, o) = (es ++ fs, o)

-- The call for one queue, and what comes after it.
abbrev pub requeue_with :
    (fails : Bool)
    → Name
    → List Message
    → Option Consumer
    → List Event × Outcome
    → List Event × Outcome
requeue_with fails q ms none rest = ([], key_error)
requeue_with fails q ms (some c) rest =
    if c.is_connected then then_events (requeue fails q ms ∷ []) rest else ([], attribute_error)

-- The loop over `messages_by_queue`; `rest` is what `stop` does after it.
unfoldable pub requeue_all :
    (fails : Name → Bool)
    → Consumers
    → Dict Name (List Message)
    → List Event × Outcome
    → List Event × Outcome
requeue_all fails consumers [] rest = rest
requeue_all fails consumers ((q, ms) ∷ d) rest =
    requeue_with (fails q) q ms (lookup q consumers) (requeue_all fails consumers d rest)

-- `close` of one consumer: its delay queue is given back, unless the connection fails.
unfoldable pub close : (fails : Bool) → Name → Consumer → List Event
close true q c = if c.is_connected then requeue_failed q c.delay_queue ∷ [] else []
close false q c = if c.is_connected then requeued q c.delay_queue ∷ closed q ∷ [] else []

unfoldable pub close_all : (fails : Name → Bool) → Consumers → List Event
unfolding close
close_all fails [] = []
close_all fails ((q, c) ∷ consumers) = close (fails q) q c ++ close_all fails consumers

-- `stop`, with the messages of the work queue in the order in which they come out, and whether the
-- connection of a queue fails in the loop and as its consumer is closed.
unfoldable pub stop :
    (requeue_fails close_fails : Name → Bool) → Consumers → List Message → List Event × Outcome
unfolding add_by_queue requeue_all close_all
stop requeue_fails close_fails consumers work_queue =
    then_events (before_worker_shutdown ∷ threads_stopped ∷ []) (
      requeue_all requeue_fails consumers (add_by_queue work_queue [])
        (close_all close_fails consumers ++ after_worker_shutdown ∷ [], stopped))
