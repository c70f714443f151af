-- ===== src/Worker/Samples.antt =====
-- A worker with two middleware on a message whose actor fails it.
use remoulade.Prelude.{ℕ, ◌+◌, ◌≤◌, ◌≡◌, refl, true, false, [], ◌∷◌}
use remoulade.Broker.Signals.{Outcome, fine, raised, error, Run, Hooks}
use remoulade.Prelude.{text_beq}
use remoulade.Message.{Message, message, options, no_target, no_flags}
use remoulade.Worker.Running.{
  Thread, steps, step, turn, pause, takes_turn, paused_now, processed, slept, join_all, join_from,
}
use remoulade.Worker.Shutdown.{Consumer, Consumers}
use remoulade.QueueNames.{Name}
use remoulade.Prelude.{Bool, List, text_eq}
use remoulade.Worker.{World, run_message, handle, attempt}
use remoulade.Worker.Tally.{tally, is_ack, is_nack, is_done, is_actor, is_verdict}
use remoulade.Worker.Verdict.{run_message_once, run_message_verdict}

abbrev quiet_hooks : Hooks
quiet_hooks = record { before = λ m s f. (f, fine); after = λ m s f. (f, fine) }

abbrev failing : World
failing = record {
  middleware = 1 ∷ 2 ∷ [];
  hooks = quiet_hooks;
  declared = true;
  actor = λ f. (true, raised error);
  settles = λ rejects. fine;
}

abbrev start : Run
start = record { failed = false; log = [] }

run_message_once_example :
    (tally is_verdict (run_message failing start).0.log ≤ 0 + 1)
    × (tally is_actor (run_message failing start).0.log ≤ 0 + 1)
    × (tally is_done (run_message failing start).0.log ≤ 0 + 1)
run_message_once_example = run_message_once failing start

run_message_verdict_example :
    (tally is_nack (run_message failing start).0.log ≡ 0 + 1)
    × (tally is_ack (run_message failing start).0.log ≡ 0 + 0)
    × (tally is_done (run_message failing start).0.log ≡ 0 + 1)
unfolding run_message handle attempt remoulade.Broker.Signals.emit_before
    remoulade.Broker.Signals.emit_after
run_message_verdict_example = run_message_verdict failing start refl

abbrev waiting : ℕ → ℕ → Message
waiting queue id =
    message
      (record {
        queue_name = queue ∷ [];
        actor_name = 3;
        args = [];
        message_id = id;
        message_timestamp = 0;
      })
      (options no_target no_flags)

abbrev consumer_of : Message → Consumer
consumer_of m = record { prefetch = 1; is_connected = true; delay_queue = m ∷ [] }

abbrev two_consumers : Consumers
two_consumers = (2 ∷ [], consumer_of (waiting 2 8)) ∷ (1 ∷ [], consumer_of (waiting 1 9)) ∷ []

abbrev in_memory : List Message
in_memory = waiting 2 5 ∷ waiting 1 6 ∷ waiting 2 7 ∷ []

-- The connection of the queue 1 fails.
abbrev one_fails : Name → Bool
one_fails q = text_beq q (1 ∷ [])

abbrev busy : Thread
busy = record { running = true; paused = false; paused_event = false }

test-turns :
    steps (takes_turn true ∷ paused_now ∷ takes_turn true ∷ []) busy ≡ processed ∷ slept ∷ []
unfolding steps step turn pause
test-turns = refl

-- Four threads that need 100 each: the last is not waited for, though 200 of the 500 are left.
test-join_all : join_all 500 (100 ∷ 100 ∷ 100 ∷ 100 ∷ []) ≡ 100 ∷ 100 ∷ 100 ∷ 0 ∷ []
unfolding join_all join_from
test-join_all = refl
