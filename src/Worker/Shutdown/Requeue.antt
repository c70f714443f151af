-- ===== src/Worker/Shutdown/Requeue.antt =====
-- A worker that stops gives every message in memory back to its queue, once.
use remoulade.Prelude.{
  text_eq, ◌≡◌, refl, Bool, true, List, [], ◌∷◌, ◌++◌, none, some, text_beq, if◌then◌else◌,
}
use remoulade.Prelude.Dict.{Dict, lookup, insert}
use remoulade.QueueNames.{Name}
use remoulade.Message.{Message, header}
use remoulade.Worker.Shutdown.{
  Consumer, Consumers, add_by_queue, Event, before_worker_shutdown, threads_stopped,
  after_worker_shutdown, requeued, requeue_failed, closed, key_error, requeue_all, stop,
}

-- All the messages that `requeue_messages` gave back to a queue, over all its calls.
abbrev pub given_back : Name → List Event → List Message
given_back q [] = []
given_back q (requeued r ms ∷ es) = (if text_beq r q then ms else []) ++ given_back q es
given_back q (requeue_failed r ms ∷ es) = given_back q es
given_back q (before_worker_shutdown ∷ es) = given_back q es
given_back q (threads_stopped ∷ es) = given_back q es
given_back q (after_worker_shutdown ∷ es) = given_back q es
given_back q (closed r ∷ es) = given_back q es

-- The messages of the delay queues of a queue's consumers that connected.
abbrev pub delayed : Name → Consumers → List Message
delayed q [] = []
delayed q ((r, c) ∷ consumers) =
    (if text_beq r q then if c.is_connected then c.delay_queue else [] else [])
    ++ delayed q consumers

-- A consumer for the queue that has connected once.
abbrev pub IsServed : Consumers → Name → Type 0
IsServed consumers q = (c : Consumer) × (lookup q consumers ≡ some c) × (c.is_connected ≡ true)

abbrev AreKeys : (Name → Type 0) → Dict Name (List Message) → Type 0
AreKeys P [] = Unit
AreKeys P ((k, ms) ∷ d) = P k × AreKeys P d

-- No queue stands in the dict twice.
abbrev IsDistinct : Dict Name (List Message) → Type 0
IsDistinct [] = Unit
IsDistinct ((k, ms) ∷ d) = (lookup k d ≡ none) × IsDistinct d

-- A message in memory whose queue has no consumer ends `stop` with a KeyError, so that no consumer is
-- closed, where it is the first queue that is given messages back.
stop-key_error :
    (requeue_fails close_fails : Name → Bool) (consumers : Consumers) (m : Message)
    → lookup (header m).queue_name consumers ≡ none
    → stop requeue_fails close_fails consumers (m ∷ [])
      ≡ (before_worker_shutdown ∷ threads_stopped ∷ [], key_error)
unfolding stop requeue_all add_by_queue insert lookup
stop-key_error requeue_fails close_fails consumers m e = rw e refl
