-- ===== src/Pipelines/Samples.antt =====
-- A group of two messages, of which the first is processed twice.
use remoulade.Prelude.{nat_eq, ℕ, true, false, [], ◌∷◌, none, some}
use remoulade.Message.{
  GroupInfo, atom, many, nil, cons, message, options, no_target, no_flags, target, Messages, end,
  next,
}
use remoulade.Pipelines.{Processed, World, State}

abbrev pair : GroupInfo
pair = record { group_id = 9; children_count = 2 }

abbrev follower : Messages
follower =
    next
      (message
        (record {
          queue_name = b'q' ∷ [];
          actor_name = 3;
          args = [];
          message_id = 5;
          message_timestamp = 0;
        })
        (options no_target no_flags))
      end

abbrev member : ℕ → Processed
member id = record {
  message_id = id;
  pipe_target = target follower;
  group_info = some pair;
  pipe_on_error = false;
  failed = false;
  result = atom id;
  exception = none;
}

abbrev world : World
world = record {
  result_backend = true;
  group_results = λ g raises. some (many (cons (atom 1) (cons (atom 2) nil)));
  actor_pipe_ignore = λ a. none;
}

abbrev start : State
start = record { completions = []; enqueued = []; piped = 0 }
