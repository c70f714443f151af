-- ===== src/Actor/Sending.antt =====
-- Actors send to queues that are theirs and that exist.
use remoulade.Prelude.{
  ◌⊎◌, nat_eq, text_eq, ◌≡◌, true, none, some, any, text_beq, text_beq_iff, Option-cases, arith,
}
use remoulade.Message.{Message, message, header, Options}
use remoulade.StubBroker.{StubBroker}
use remoulade.Actor.{Actor, Broker, Request, built, queue_names, chosen_queue, message_with_options}

-- A message that an actor builds carries the actor's name and goes to one of the actor's queues:
-- the one that was asked for, if any.
pub message_with_options-queue :
    (b : Broker) (a : Actor) (r : Request) (o : Options) (m : Message)
    → message_with_options b a r o ≡ built m
    → ((header m).actor_name ≡ a.actor_name)
      × (any (text_beq (header m).queue_name) (queue_names a) ≡ true)
      × (r.queue_name ≡ none × ((header m).queue_name ≡ a.queue_name)
          ⊎ (r.queue_name ≡ some (header m).queue_name))
unfolding message_with_options chosen_queue queue_names
message_with_options-queue b a r o (message h p) e =
    ground (arith, text_beq_iff a.queue_name a.queue_name, Option-cases r.queue_name)
