-- ===== src/CollectionResults/Rebuilding.antt =====
-- The results that are rebuilt from nested identifiers are those of the composition.
use remoulade.Prelude.{◌≡◌, refl, ap, some}
use remoulade.Message.{message_id}
use remoulade.Composition.{
  pipeline, Stages, done, then_message, then_group, Group, group, Members, empty, and_message,
  and_pipeline, pipeline_ids, stage_ids, group_ids, member_ids,
}
use remoulade.CollectionResults.{
  in_front, as_collection, from_message_ids, from_last, group_results, member_results, last_result,
  result,
}

mutual
  unfolding from_message_ids group_results pipeline_ids

  from_group_ids : (g : Group) → from_message_ids (group_ids g) ≡ group_results g
  from_group_ids (group i c ms) = from_message_ids-member_ids ms

  from_message_ids-member_ids :
      (ms : Members) → from_message_ids (member_ids ms) ≡ member_results ms
  from_message_ids-member_ids empty = refl
  from_message_ids-member_ids (and_message m ms) =
      ap (in_front (some (result (message_id m)))) (from_message_ids-member_ids ms)
  from_message_ids-member_ids (and_pipeline (pipeline c s) ms) =
      rw (from_last-stage_ids s, from_message_ids-member_ids ms) refl

  from_last-stage_ids : (s : Stages) → from_last (stage_ids s) ≡ last_result s
  from_last-stage_ids done = refl
  from_last-stage_ids (then_message m done) = refl
  from_last-stage_ids (then_message m (then_message n s)) = from_last-stage_ids (then_message n s)
  from_last-stage_ids (then_message m (then_group g s)) = from_last-stage_ids (then_group g s)
  from_last-stage_ids (then_group g done) = ap as_collection (from_group_ids g)
  from_last-stage_ids (then_group g (then_message n s)) = from_last-stage_ids (then_message n s)
  from_last-stage_ids (then_group g (then_group h s)) = from_last-stage_ids (then_group h s)

-- The results that from_message_ids makes of a group's message_ids are the group's own `results`:
-- of a pipeline in the group the last message's result or the last group's results. Both raise
-- where a pipeline in it has no children.
pub from_message_ids-group_ids : (g : Group) → from_message_ids (group_ids g) ≡ group_results g
from_message_ids-group_ids g = from_group_ids g
