-- ===== src/Middlewares/Metadata.antt =====
-- remoulade/middleware/logging_metadata.py and worker_thread_logging.py: the metadata of a message,
-- from the middleware, its actor and its own options. Keys are numbers.
use remoulade.Prelude.{
  nat_eq, nat_beq, ℕ, ◌≡◌, refl, ap, ◌∙◌, List, [], ◌∷◌, Option, none, some, arith, if◌then◌else◌,
  Option-cases, inl, inr,
}
use remoulade.Prelude.Dict.{Dict, lookup, insert, lookup-insert}
use remoulade.Message.{Value, or_else}

-- `{**first, **second}`
unfoldable pub join : Dict ℕ Value → Dict ℕ Value → Dict ℕ Value
join first [] = first
join first ((key, value) ∷ rest) = join (insert key value first) rest

-- A level's metadata and what its getter returns; a getter that is not callable raises.
pub data Getter : Type 0 where
  callable : Dict ℕ Value → Getter
  not_callable : Getter

pub record Level : Type 0 where
  pub logging_metadata : Option (Dict ℕ Value)
  pub logging_metadata_getter : Option Getter

abbrev pub join_some : Dict ℕ Value → Option (Dict ℕ Value) → Dict ℕ Value
join_some total none = total
join_some total (some metadata) = join total metadata

-- `merge_metadata`: `none` is the TypeError.
unfoldable pub merge_metadata :
    Dict ℕ Value → Option (Dict ℕ Value) → Option Getter → Option (Dict ℕ Value)
unfolding join
merge_metadata total metadata none = some (join_some total metadata)
merge_metadata total metadata (some (callable gotten)) =
    some (join (join_some total metadata) gotten)
merge_metadata total metadata (some not_callable) = none

unfoldable pub merge_levels : List Level → Dict ℕ Value → Option (Dict ℕ Value)
unfolding merge_metadata
merge_levels [] total = some total
merge_levels (l ∷ ls) total =
    elim (merge_metadata total l.logging_metadata l.logging_metadata_getter) [
      | none ↦ none
      | some total' ↦ merge_levels ls total'
    ]

-- What `update_options_before_create_message` leaves under logging_metadata in the options: an empty
-- total is not written, which leaves what was there.
abbrev pub written_metadata : Option (Dict ℕ Value) → Dict ℕ Value → Option (Dict ℕ Value)
written_metadata old [] = old
written_metadata old (entry ∷ rest) = some (entry ∷ rest)

unfoldable pub update_options : (middleware actor message : Level) → Option (Option (Dict ℕ Value))
unfolding merge_levels
update_options middleware actor message =
    elim (merge_levels (middleware ∷ actor ∷ message ∷ []) []) [
      | none ↦ none
      | some total ↦ some (written_metadata message.logging_metadata total)
    ]

-- `build_extra`: the message's own entries come last.
unfoldable pub build_extra :
    (message_id_key input_key : ℕ)
    → Option (Dict ℕ Value)
    → (message_id input : Value) → Dict ℕ Value
unfolding join
build_extra message_id_key input_key metadata message_id input =
    join (join_some [] metadata) ((message_id_key, message_id) ∷ (input_key, input) ∷ [])

-- The value of a key in a dict written as it is, of which the last entry counts.
abbrev pub last_value : ℕ → Dict ℕ Value → Option Value
last_value key [] = none
last_value key ((other, value) ∷ rest) =
    or_else (last_value key rest) (if nat_beq other key then some value else none)

abbrev pub given_value : ℕ → Option (Dict ℕ Value) → Option Value
given_value key none = none
given_value key (some d) = last_value key d

abbrev pub gotten_value : ℕ → Option Getter → Option Value
gotten_value key none = none
gotten_value key (some not_callable) = none
gotten_value key (some (callable d)) = last_value key d

-- The value of a key, of the last level that has it, its getter before its metadata.
abbrev pub level_value : ℕ → List Level → Option Value → Option Value
level_value key [] old = old
level_value key (l ∷ ls) old = level_value key ls (
    or_else (gotten_value key l.logging_metadata_getter)
      (or_else (given_value key l.logging_metadata) old))

lookup-join :
    (key : ℕ) (first second : Dict ℕ Value)
    → lookup key (join first second) ≡ or_else (last_value key second) (lookup key first)
unfolding join
lookup-join key first [] = refl
lookup-join key first ((other, value) ∷ rest) =
    ground
      (arith, lookup-join key (insert other value first) rest, lookup-insert other key value first)

lookup-merge_metadata :
    (key : ℕ) (total : Dict ℕ Value) (metadata : Option (Dict ℕ Value)) (getter : Option Getter)
    (merged : Dict ℕ Value)
    → merge_metadata total metadata getter ≡ some merged
    → lookup key merged
      ≡ or_else (gotten_value key getter) (or_else (given_value key metadata) (lookup key total))
unfolding merge_metadata
lookup-merge_metadata key total none none merged e = ground arith
lookup-merge_metadata key total (some d) none merged e = ground (arith, lookup-join key total d)
lookup-merge_metadata key total none (some (callable g)) merged e =
    ground (arith, lookup-join key total g)
lookup-merge_metadata key total (some d) (some (callable g)) merged e =
    ground (arith, lookup-join key total d, lookup-join key (join total d) g)
lookup-merge_metadata key total metadata (some not_callable) merged e = ground arith

-- In the metadata of a message each key has the value of the last level that gives it one: the
-- message's over the actor's over the middleware's, and at each level the getter's over the dict's.
pub lookup-merge_levels :
    (key : ℕ) (ls : List Level) (total merged : Dict ℕ Value)
    → merge_levels ls total ≡ some merged
    → lookup key merged ≡ level_value key ls (lookup key total)
unfolding merge_levels
lookup-merge_levels key [] total merged e = ground arith
lookup-merge_levels key (l ∷ ls) total merged e =
    elim (Option-cases (merge_metadata total l.logging_metadata l.logging_metadata_getter)) [
      | inl raised ↦ ground arith
      | inr (total', done) ↦
          lookup-merge_levels key ls total' merged (ground arith)
          ∙ ap (level_value key ls) (
              lookup-merge_metadata key total l.logging_metadata l.logging_metadata_getter total'
                done)
    ]
