-- ===== src/StubBroker/Samples.antt =====
-- Two queues of which one is read.
use remoulade.Prelude.{text_eq, ℕ, ◌≡◌, refl, List, [], ◌∷◌, ◌++◌, some}
use remoulade.Prelude.Dict.{lookup, insert, has}
use remoulade.Message.{Message, message, options, no_target, no_flags}
use remoulade.StubBroker.{StubBroker, declare_queue}
use remoulade.StubBroker.Fifo.{Step, put_in, taken_from, steps, put_into, taken, steps-fifo}

abbrev sample : ℕ → Message
sample id =
    message
      (record {
        queue_name = b'q' ∷ [];
        actor_name = 3;
        args = [];
        message_id = id;
        message_timestamp = 0;
      })
      (options no_target no_flags)

abbrev broker : StubBroker
broker = declare_queue (b'r' ∷ []) (
    declare_queue (b'q' ∷ [])
      (record { queues = []; delay_queues = []; dead_letters = []; log = [] }))

abbrev four_steps : List Step
four_steps =
    put_in (sample 1) ∷ put_in (sample 2) ∷ taken_from (b'q' ∷ []) ∷ taken_from (b'r' ∷ []) ∷ []

steps-fifo_example :
    (rest : List Message) × (lookup (b'q' ∷ []) (steps four_steps broker).queues ≡ some rest)
    × (taken (b'q' ∷ []) four_steps broker ++ rest ≡ [] ++ put_into (b'q' ∷ []) four_steps)
unfolding declare_queue lookup has insert remoulade.QueueNames.dq_name
steps-fifo_example = steps-fifo (b'q' ∷ []) four_steps broker [] refl
