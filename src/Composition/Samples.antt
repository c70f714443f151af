-- ===== src/Composition/Samples.antt =====
-- A pipeline of a message and a group of two, and the group alone.
use remoulade.Prelude.{ℕ, ◌≡◌, refl, true, false, [], ◌∷◌, some, any, all}
use mathlib.Core.Option
use remoulade.Message.{Message, message, options, no_target, no_flags, target, from_list, end, next}
use remoulade.Composition.{
  Pipeline, pipeline, Stages, done, then_message, then_group, Group, group, empty, and_message,
  Events, run_pipeline, pipeline_ids, group_ids, flatten, node, leaf, tree, none_left,
}
use remoulade.Composition.Reach.{occurs_in, mem, run_pipeline_reaches}
use remoulade.Composition.Stamps.{stamped_in, run_pipeline_stamped}
use remoulade.Composition.Order.{Chain, levels, run_pipeline-Chain}

abbrev sample : ℕ → Message
sample id =
    message
      (record {
        queue_name = b'q' ∷ [];
        actor_name = 3;
        args = [];
        message_id = id;
        message_timestamp = 0;
      })
      (options no_target no_flags)

abbrev two : Group
two = group 9 false (and_message (sample 2) (and_message (sample 3) empty))

abbrev stages : Stages
stages = then_message (sample 1) (then_group two done)

-- A message of the group, with the group's options.
abbrev built : ℕ → Message
built id =
    message
      (record {
        queue_name = b'q' ∷ [];
        actor_name = 3;
        args = [];
        message_id = id;
        message_timestamp = 0;
      })
      (options no_target (record no_flags {
        group_info = some (record { group_id = 9; children_count = 2 });
        composition_id = some 7;
        cancel_on_error = some true;
      }))

-- What the run of the pipeline with the composition id 7 enqueues: the first message, which targets
-- the two messages of the group.
abbrev first : Message
first =
    message
      (record {
        queue_name = b'q' ∷ [];
        actor_name = 3;
        args = [];
        message_id = 1;
        message_timestamp = 0;
      })
      (options (target (next (built 2) (next (built 3) end)))
        (record no_flags { composition_id = some 7; cancel_on_error = some true }))

-- A message of the group when the group is run by itself.
abbrev lone : ℕ → Message
lone id =
    message
      (record {
        queue_name = b'q' ∷ [];
        actor_name = 3;
        args = [];
        message_id = id;
        message_timestamp = 0;
      })
      (options no_target (record no_flags {
        group_info = some (record { group_id = 9; children_count = 2 });
        composition_id = some 9;
        cancel_on_error = some false;
      }))

abbrev told : Events
told = (9, tree (leaf 2) (tree (leaf 3) none_left)) ∷ []

run_stages : run_pipeline (pipeline true stages) 7 ≡ some (first ∷ [], told)
unfolding run_pipeline remoulade.Composition.member_ids
run_stages = refl

run_pipeline_reaches_example :
    any (occurs_in 3) (first ∷ []) ≡ mem 3 (flatten (pipeline_ids (pipeline true stages)))
run_pipeline_reaches_example =
    run_pipeline_reaches (pipeline true stages) 7 (first ∷ []) told (refl, ((refl, (refl, tt)), tt))
      run_stages 3

run_pipeline_stamped_example : all (stamped_in 7 true) (first ∷ []) ≡ true
run_pipeline_stamped_example =
    run_pipeline_stamped stages true 7 (first ∷ []) told (refl, ((refl, (refl, tt)), tt)) run_stages

run_pipeline-Chain_example : Chain (levels stages) (target (from_list (first ∷ [])))
run_pipeline-Chain_example =
    run_pipeline-Chain stages true 7 (first ∷ []) told (refl, ((refl, (refl, tt)), tt)) run_stages
