-- ===== src/Results/Saving.antt =====
-- The identifiers of a group's messages in the result backend, and `retry` of results/backend.py:
-- what happens to a message whose result cannot be stored. Delays are milliseconds.
use remoulade.Prelude.{
  nat_eq, nat_beq, ℕ, zero, suc, ◌+◌, ◌*◌, ◌/◌, ◌≡◌, refl, List, [], ◌∷◌, Option, none, some, ltb,
  arith, if◌then◌else◌,
}
use remoulade.Prelude.Dict.{Dict, lookup, insert, remove, lookup-insert, lookup-remove}
use remoulade.Composition.{Forest}

-- The message ids of groups, with their expiration.
abbrev pub GroupIds : Type 0
GroupIds = Dict ℕ (Forest × ℕ)

unfoldable pub set_group_message_ids : (now ttl group_id : ℕ) → Forest → GroupIds → GroupIds
set_group_message_ids now ttl group_id ids d = insert group_id (ids, now + ttl / 1000 * 1000) d

abbrev pub unexpired_ids : ℕ → Option (Forest × ℕ) → Option Forest
unexpired_ids now none = none
unexpired_ids now (some (ids, expiration)) = if ltb now expiration then some ids else none

-- `none` is MessageIdsMissing.
unfoldable pub get_group_message_ids : (now group_id : ℕ) → GroupIds → Option Forest
get_group_message_ids now group_id d = unexpired_ids now (lookup group_id d)

unfoldable pub delete_group_message_ids : ℕ → GroupIds → GroupIds
delete_group_message_ids group_id d = remove group_id d

-- What `retry` does once its body raised: the message is enqueued again with one retry more, with the
-- delay that the backoff gives, or the retries are exceeded.
pub data Retried : Type 0 where
  enqueued_again : (retries delay : ℕ) → Retried
  retries_exceeded : Retried

-- `backoff` is compute_backoff with a least delay of 500.
unfoldable pub retry : (backoff : ℕ → ℕ) → (retries_result_backend : ℕ) → Retried
retry backoff retries =
    if ltb retries 3 then enqueued_again (suc retries) (backoff retries) else retries_exceeded

-- The retries of a message whose result can never be stored.
unfoldable pub retried_from : (fuel : ℕ) → (backoff : ℕ → ℕ) → ℕ → List Retried
unfolding retry
retried_from zero backoff retries = []
retried_from (suc fuel) backoff retries = elim (retry backoff retries) [
  | enqueued_again retries' delay ↦
      enqueued_again retries' delay ∷ retried_from fuel backoff retries'
  | retries_exceeded ↦ retries_exceeded ∷ []
]

-- A message whose result can never be stored is enqueued three times more, and then given up.
pub retried_from-three :
    (fuel : ℕ) (backoff : ℕ → ℕ)
    → retried_from (suc (suc (suc (suc fuel)))) backoff 0
      ≡ enqueued_again 1 (backoff 0)
        ∷ enqueued_again 2 (backoff 1)
        ∷ enqueued_again 3 (backoff 2)
        ∷ retries_exceeded
        ∷ []
unfolding retried_from retry
retried_from-three fuel backoff = refl

-- The identifiers of a group are read until they expire or are deleted, and those of another group
-- are not touched.
pub get-set_group_message_ids :
    (now later ttl group_id other : ℕ) (ids : Forest) (d : GroupIds)
    → (get_group_message_ids later other (set_group_message_ids now ttl group_id ids d) ≡ (
        if nat_beq group_id other
        then unexpired_ids later (some (ids, now + ttl / 1000 * 1000))
        else get_group_message_ids later other d))
      × (get_group_message_ids later other (delete_group_message_ids group_id d)
          ≡ (if nat_beq group_id other then none else get_group_message_ids later other d))
unfolding get_group_message_ids set_group_message_ids delete_group_message_ids
get-set_group_message_ids now later ttl group_id other ids d = (
  ground (arith, lookup-insert group_id other (ids, now + ttl / 1000 * 1000) d),
  ground (arith, lookup-remove group_id other d),
)
