-- ===== src/CollectionResults/Samples.antt =====
-- Tests of collections of results.
use remoulade.Prelude.{
  nat_eq, nat_beq, suc, false, if◌then◌else◌, ℕ, ◌≡◌, ◌↔◌, ◌≤◌, true, [], ◌∷◌, none, length,
}
use remoulade.Message.{atom, no_options, message, Message}
use remoulade.Composition.{
  pipeline, done, then_message, group, empty, and_message, and_pipeline, group_ids,
}
use remoulade.Results.{returned, result_missing, Store}
use remoulade.CollectionResults.{
  Children, result, collection, no_children, child, Backend, message_ids, completed,
  completed_count, from_message_ids, group_results,
}
use remoulade.CollectionResults.Rebuilding.{from_message_ids-group_ids}
use remoulade.CollectionResults.Completion.{AllStored, completed-AllStored}

-- A backend that counts its calls and has no result of message 9.
abbrev counting : Backend ℕ
counting = record {
  clock = λ calls. calls;
  get_result =
      λ timeout i calls. (if nat_beq i 9 then result_missing else returned (atom i), suc calls);
}

abbrev nested_children : Children
nested_children =
    child (result 1)
      (child (collection (child (result 2) no_children)) (child (result 9) no_children))

abbrev of_id : ℕ → Message
of_id i =
    message
      (record { queue_name = []; actor_name = 0; args = []; message_id = i; message_timestamp = 0 })
      no_options

from_message_ids-group_ids_example :
    from_message_ids (
      group_ids (
        group 0 true (
          and_message (of_id 1) (
            and_pipeline
              (pipeline true (then_message (of_id 2) (then_message (of_id 3) done)))
              empty))))
    ≡ group_results (
        group 0 true (
          and_message (of_id 1) (
            and_pipeline
              (pipeline true (then_message (of_id 2) (then_message (of_id 3) done)))
              empty)))
from_message_ids-group_ids_example = from_message_ids-group_ids (
    group 0 true (
      and_message (of_id 1) (
        and_pipeline (pipeline true (then_message (of_id 2) (then_message (of_id 3) done))) empty)))

abbrev sample_store : Store
sample_store =
    (1, (record { result = atom 4; error = none; forgot = false; actor_name = none }, 100)) ∷ []

completed-AllStored_example :
    ((completed 5 sample_store nested_children ≡ true) ↔ AllStored 5 sample_store nested_children)
    × (completed_count 5 sample_store nested_children ≤ length (message_ids nested_children))
completed-AllStored_example = completed-AllStored 5 sample_store nested_children
