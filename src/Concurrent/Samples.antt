-- ===== src/Concurrent/Samples.antt =====
-- A key with two slots.
use remoulade.Prelude.{nat_eq, ◌≡◌, refl, false, List, [], ◌∷◌, none, some, arith}
use remoulade.Prelude.Dict.{lookup}
use remoulade.Concurrent.{
  Lease, Backend, Call, acquire_call, release_call, calls, tokens, live, acquire, release,
}
use remoulade.Concurrent.Leases.{
  Middleware, Options, pos, acquired, before_process_message, release_leases,
}
use remoulade.Concurrent.Leases.Held.{
  Step, started, over, steps, before_process_message-release_leases,
}

abbrev nobody : Backend
nobody = []

-- Three messages ask for the key 7, then the first one's lease goes.
abbrev three_calls : List Call
three_calls =
    acquire_call 7 2 1000 1 10
    ∷ acquire_call 7 2 1000 2 20
    ∷ acquire_call 7 2 1000 3 30
    ∷ release_call (record { key = 7; token = 1; ttl_ms = 1000; expires_at_ms = 1010 })
    ∷ []

abbrev granted : Lease
granted = record { key = 7; token = 1; ttl_ms = 1000; expires_at_ms = 1010 }

abbrev limited : Options
limited = record {
  concurrency_limit = some (pos 1);
  concurrency_ttl = none;
  concurrency_key = 7;
  bypass_concurrency_limits = false;
}

abbrev idle : Middleware
idle = record { backend = []; leases = [] }

-- Two messages start beside it, the first of which takes a slot of another key, and one ends.
abbrev beside : List Step
beside =
    started 300000 20 6 (record limited { concurrency_key = 8 })
    ∷ started 300000 30 9 limited
    ∷ over 6
    ∷ []

before_process_message-release_leases_example :
    lookup 5 (
      tokens 7
        (release_leases 5
          (steps beside (before_process_message 300000 10 5 limited idle).1)).backend)
    ≡ none
unfolding before_process_message remoulade.Concurrent.Leases.enforce
    remoulade.Concurrent.Leases.acquire_for acquire lookup
before_process_message-release_leases_example =
    before_process_message-release_leases 300000 10 5 limited idle beside refl (
      ((λ e. omega arith), omega arith),
      (((λ e. omega arith), omega arith), ((λ e. omega arith), tt)),
    )
