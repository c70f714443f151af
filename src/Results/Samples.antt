-- ===== src/Results/Samples.antt =====
-- A caller who waits for a result, and a message that fails in front of another.
use remoulade.Prelude.{nat_eq, ◌*◌, ◌≢◌, true, false, [], ◌∷◌, none, some, arith}
use remoulade.Message.{
  null, atom, Message, message, options, no_target, no_flags, target, end, next,
}
use remoulade.Results.{BackendResult, out_of_fuel, Waiting, get_result, Processed}
use remoulade.Results.Polling.{get_result-ends}

abbrev waiting : Waiting
waiting = record { clock = λ n. 100 * n; seen = λ n. []; delay = λ n. 100 }

get_result-ends_example : get_result 301 waiting 5 300 true false true ≢ out_of_fuel
get_result-ends_example =
    get_result-ends waiting 5 300 true false true (λ i. (omega arith, omega arith))

abbrev seven : BackendResult
seven = record { result = atom 7; error = none; forgot = false; actor_name = some 3 }

abbrev child : Message
child =
    message
      (record {
        queue_name = b'q' ∷ [];
        actor_name = 4;
        args = [];
        message_id = 6;
        message_timestamp = 0;
      })
      (options no_target no_flags)

abbrev failed_parent : Processed
failed_parent = record {
  message_id = 5;
  actor_name = 3;
  pipe_target = target (next child end);
  store_results = true;
  pipe_on_error = false;
  failed = true;
  result = null;
  exception = some 1;
}
