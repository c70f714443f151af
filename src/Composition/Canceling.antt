-- ===== src/Composition/Canceling.antt =====
-- `cancel` of pipeline and group: every message of a composition is marked in the cancel backend, the
-- nested ones too.
use remoulade.Prelude.{
  nat_eq, nat_beq, nat_beq_iff, ℕ, ◌+◌, ◌≡◌, refl, List, [], ◌∷◌, some, any, ltb, arith,
  if◌then◌else◌,
}
use remoulade.Prelude.Dict.{Dict, lookup, insert, lookup-insert}
use remoulade.Composition.{Pipeline, Group, pipeline_ids, group_ids, flatten}
use remoulade.Cancel.{cancel, key_is_canceled}

unfoldable pub cancel_pipeline : ℕ → Pipeline → Dict ℕ ℕ → Dict ℕ ℕ
unfolding flatten cancel
cancel_pipeline now p d = cancel now (flatten (pipeline_ids p)) d

unfoldable pub cancel_group : ℕ → Group → Dict ℕ ℕ → Dict ℕ ℕ
unfolding flatten cancel
cancel_group now g d = cancel now (flatten (group_ids g)) d

lookup-cancel :
    (now i : ℕ) (is : List ℕ) (d : Dict ℕ ℕ)
    → lookup i (cancel now is d) ≡ (if any (nat_beq i) is then some now else lookup i d)
unfolding cancel
lookup-cancel now i [] d = refl
lookup-cancel now i (j ∷ is) d = ground (
  arith,
  lookup-cancel now i is (insert j now d),
  lookup-insert j i now d,
  nat_beq_iff i j,
  nat_beq_iff j i,
)

-- After a group is cancelled, a message is cancelled by its own identifier exactly if it is one of
-- the group's, in a pipeline of it or not, until the time to live has passed; whether another message
-- is cancelled has not changed.
pub key_is_canceled-cancel_group :
    (now later ttl i : ℕ) (g : Group) (d : Dict ℕ ℕ)
    → key_is_canceled later ttl (some i) (cancel_group now g d) ≡ (
        if any (nat_beq i) (flatten (group_ids g))
        then ltb later (now + ttl)
        else key_is_canceled later ttl (some i) d)
unfolding key_is_canceled cancel_group
key_is_canceled-cancel_group now later ttl i g d =
    ground (arith, lookup-cancel now i (flatten (group_ids g)) d)

-- The same of a pipeline.
key_is_canceled-cancel_pipeline :
    (now later ttl i : ℕ) (p : Pipeline) (d : Dict ℕ ℕ)
    → key_is_canceled later ttl (some i) (cancel_pipeline now p d) ≡ (
        if any (nat_beq i) (flatten (pipeline_ids p))
        then ltb later (now + ttl)
        else key_is_canceled later ttl (some i) d)
unfolding key_is_canceled cancel_pipeline
key_is_canceled-cancel_pipeline now later ttl i p d =
    ground (arith, lookup-cancel now i (flatten (pipeline_ids p)) d)
