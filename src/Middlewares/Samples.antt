-- ===== src/Middlewares/Samples.antt =====
-- Tests of the middleware.
use remoulade.Prelude.{◌≡◌, refl, List, [], ◌∷◌, none, some, any, nat_beq, nat_eq}
use remoulade.Prelude.Dict.{lookup, insert}
use remoulade.Message.{atom}
use remoulade.Middlewares.{get_option, option_is}
use remoulade.Middlewares.Stopping.{
  MaxTasks, stops, count_stops, after_worker_thread_process_message,
}
use remoulade.Middlewares.TimeLimit.{
  soft_kill_handle, hard_kill_handle, before_process_message, after_process_message,
}
use remoulade.Middlewares.Deadlines.{
  Step, started, ended, soft_pass, steps, step, running, is_late, Overdue, soft_kill-steps,
  hard_kill-Overdue,
}
use remoulade.Middlewares.Metadata.{Level, callable, merge_levels, merge_metadata, join}

abbrev two_tasks : MaxTasks
two_tasks = record { max_tasks = 2; tasks_count = 0 }

-- Thread 1 is at message 11 with a limit of 100, thread 2 has ended message 12.
abbrev at_work : List Step
at_work = started 0 100 1 11 ∷ started 5 10 2 12 ∷ soft_pass 20 ∷ ended 2 ∷ []

soft_kill-steps_example :
    any (nat_beq 1) (soft_kill_handle 100 (steps at_work [])).0
    ≡ is_late 100 (running 1 at_work none)
soft_kill-steps_example = soft_kill-steps at_work 100 1

hard_kill-Overdue_example : Overdue 400 300 11 (λ thread. running thread at_work none)
unfolding steps step before_process_message after_process_message soft_kill_handle hard_kill_handle
    insert
hard_kill-Overdue_example = hard_kill-Overdue at_work 400 300 11 refl

abbrev actor_level : Level
actor_level = record { logging_metadata = some ((1, atom 5) ∷ []); logging_metadata_getter = none }

abbrev message_level : Level
message_level = record {
  logging_metadata = some ((2, atom 6) ∷ []);
  logging_metadata_getter = some (callable ((1, atom 7) ∷ []));
}

test-stops : count_stops (stops 5 two_tasks) ≡ 1
unfolding stops after_worker_thread_process_message
test-stops = refl

-- The message's getter has the last word.
test-metadata :
    merge_levels (actor_level ∷ message_level ∷ []) [] ≡ some ((1, atom 7) ∷ (2, atom 6) ∷ [])
unfolding merge_levels merge_metadata join insert
test-metadata = refl

-- The pipe target of a message (option 1) that has none is looked for at its actor.
test-pipe_target : get_option 1 [] (some ((1, atom 9) ∷ [])) none ≡ option_is (some (atom 9))
unfolding get_option lookup
test-pipe_target = refl
