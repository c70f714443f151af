-- ===== src/Consumer/Samples.antt =====
-- A consumer with two delayed messages.
use remoulade.Prelude.{nat_eq, ℕ, ◌≡◌, refl, List, [], ◌∷◌, Option, none, some, arith}
use remoulade.Prelude.{true, length, replicate, min}
use remoulade.Consumer.Restarting.{rounds, refused, count_sleeps, rounds-refused}
use remoulade.Message.{Message, message, options, no_target, no_flags, header}
use remoulade.Consumer.{Consumer, connection_error, went_well, settle_raises, due}
use remoulade.Consumer.PriorityQueue.{Queue}
use remoulade.Consumer.Turns.{Turn, received, passed}

abbrev sample : ℕ → Option ℕ → Message
sample id eta =
    message
      (record {
        queue_name = b'q' ∷ [];
        actor_name = 3;
        args = [];
        message_id = id;
        message_timestamp = 0;
      })
      (options no_target (record no_flags { eta = eta }))

abbrev delays : Queue Message
delays = (10, sample 1 (some 10)) ∷ (30, sample 2 (some 30)) ∷ []

-- At 20 the first of them leaves.
due_at_20 : due (λ n. 20) delays ≡ ((10, sample 1 (some 10)) ∷ [], (30, sample 2 (some 30)) ∷ [])
unfolding due
due_at_20 = refl

abbrev idle : Consumer
idle = record { delay_queue = []; work_queue = []; log = [] }

-- A delayed message, one for the worker, one of an unknown actor, and two looks at the delays: at the
-- first the connection fails behind the enqueueing.
abbrev five_turns : List Turn
five_turns =
    received none (sample 1 (some 10))
    ∷ received none (sample 2 none)
    ∷ received none
        (message (record (header (sample 3 none)) { actor_name = 4 }) (options no_target no_flags))
    ∷ passed (λ n. 20) (λ n. settle_raises connection_error)
    ∷ passed (λ n. 30) (λ n. went_well)
    ∷ []

rounds-refused_example :
    ((rounds 2 (replicate 5 refused) 0).1.running ≡ true)
    × (length (rounds 2 (replicate 5 refused) 0).0 ≡ 5)
    × (count_sleeps (rounds 2 (replicate 5 refused) 0).0 ≡ min 5 3)
rounds-refused_example = rounds-refused 2 5 (omega arith)
