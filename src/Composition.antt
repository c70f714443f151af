-- ===== src/Composition.antt =====
-- remoulade/composition.py: pipelines and groups, and how they are built into messages.
-- `build` hands back the options dict that it was given, since it writes to it.
pub mod Reach
pub mod Stamps
pub mod Chaining
pub mod Canceling
pub mod Sharing
pub mod Order
mod Samples
use remoulade.Prelude.{
  ◌≡◌, refl, ◌≢◌, arith, ℕ, ◌+◌, Bool, true, false, List, [], ◌∷◌, ◌++◌, Option, none, some, length,
  if◌then◌else◌, ◌||◌,
}
use remoulade.Message.{
  GroupInfo, Flags, no_flags, Message, message, Options, options, Target, no_target, target,
  Messages, end, next, message_id, flags_of, target_of, no_options, or_else, update, build_message,
  append_messages, to_list,
}

mutual
  pub data Pipeline : Type 0 where
    pipeline : (cancel_on_error : Bool) → Stages → Pipeline

  -- The children of a pipeline.
  pub data Stages : Type 0 where
    done : Stages
    then_message : Message → Stages → Stages
    then_group : Group → Stages → Stages

  pub data Group : Type 0 where
    group : (group_id : ℕ) (cancel_on_error : Bool) → Members → Group

  -- The children of a group.
  pub data Members : Type 0 where
    empty : Members
    and_message : Message → Members → Members
    and_pipeline : Pipeline → Members → Members

-- Nested identifiers, as `message_ids` yields them.
mutual
  pub data Ids : Type 0 where
    leaf : ℕ → Ids
    node : Forest → Ids

  pub data Forest : Type 0 where
    none_left : Forest
    tree : Ids → Forest → Forest

-- `message_ids` of a pipeline and of a group.
unfoldable mutual
  pub pipeline_ids : Pipeline → Forest
  pipeline_ids (pipeline c s) = stage_ids s

  pub stage_ids : Stages → Forest
  stage_ids done = none_left
  stage_ids (then_message m s) = tree (leaf (message_id m)) (stage_ids s)
  stage_ids (then_group g s) = tree (node (group_ids g)) (stage_ids s)

  pub group_ids : Group → Forest
  group_ids (group i c ms) = member_ids ms

  pub member_ids : Members → Forest
  member_ids empty = none_left
  member_ids (and_message m ms) = tree (leaf (message_id m)) (member_ids ms)
  member_ids (and_pipeline p ms) = tree (node (pipeline_ids p)) (member_ids ms)

-- `flatten` of remoulade/common.py.
unfoldable mutual
  pub flatten_ids : Ids → List ℕ
  flatten_ids (leaf i) = i ∷ []
  flatten_ids (node f) = flatten f

  pub flatten : Forest → List ℕ
  flatten none_left = []
  flatten (tree t f) = flatten_ids t ++ flatten f

abbrev pub size : Members → ℕ
size empty = 0
size (and_message m ms) = 1 + size ms
size (and_pipeline p ms) = 1 + size ms

-- What `emit_before("build_group_pipeline", group_id, message_ids)` was called with, in order.
abbrev pub Events : Type 0
Events = List (ℕ × Forest)

-- The messages built so far (none of them where the code has None or an empty list), the shared
-- options dict, and the calls of the middleware.
pub record Built : Type 0 where
  pub messages : Messages
  pub shared : Options
  pub events : Events

-- options["composition_id"] = ..., options["cancel_on_error"] = ...
unfoldable pub stamp : ℕ → Bool → Options → Options
stamp composition_id cancel (options t f) =
    options t (record f { composition_id = some composition_id; cancel_on_error = some cancel })

-- The options for a child of a pipeline, from those of the next child that has messages.
unfoldable pub child_options : Messages → Options → Options
child_options end last_options = last_options
child_options (next m ms) last_options = options (target (next m ms)) no_flags

-- The dict of a group's children: its own entries, overridden by the caller's.
unfoldable pub group_options : ℕ → ℕ → Bool → Options → Options
unfolding update
group_options group_id count cancel given =
    update
      (options no_target (record no_flags {
        group_info = some (record { group_id = group_id; children_count = count });
        composition_id = or_else (flags_of given).composition_id (some group_id);
        cancel_on_error = some cancel;
      }))
      given

abbrev pub get_or {ℓ} : {A : Type ℓ} → Option A → A → A
get_or none a = a
get_or (some b) a = b

-- The middleware is told of a group only when it stands in a pipeline.
abbrev pub announce : Option Options → ℕ × Forest → Events
announce none e = []
announce (some o) e = e ∷ []

infixl 5 ◌>>=◌
abbrev pub ◌>>=◌ : {A B : Type 0} → Option A → (A → Option B) → Option B
none >>= f = none
some a >>= f = f a

abbrev pub first_or : Messages → Messages → Messages
first_or end ns = ns
first_or (next m ms) ns = next m ms

-- The shared dict of a pipeline after one more child: written to if no later child has messages.
abbrev pub shared_after : Messages → Options → Options → Options
shared_after end shared given = given
shared_after (next m ms) shared given = shared

-- `messages += built`, where a pipeline without messages gives None.
abbrev pub some_messages : Built → Option Built
some_messages b = elim (b.messages) [ end ↦ none | next m ms ↦ some b ]

unfoldable mutual
  unfolding stamp child_options group_options build_message

  -- `none` stands for the TypeError that a pipeline without messages causes in a group.
  pub build_pipeline : Pipeline → Options → ℕ → Bool → Option Built
  build_pipeline (pipeline c s) last_options composition_id cancel =
      build_stages s last_options composition_id (cancel || c)

  -- The loop over the reversed children: the children behind are built first.
  pub build_stages : Stages → Options → ℕ → Bool → Option Built
  build_stages done last_options composition_id cancel =
      some (record { messages = end; shared = last_options; events = [] })
  build_stages (then_message m s) last_options composition_id cancel = do
    after ← build_stages s last_options composition_id cancel
    let given = stamp composition_id cancel (child_options after.messages after.shared)
    some (record {
      messages = next (build_message given m) end;
      shared = shared_after after.messages after.shared given;
      events = after.events;
    })
  build_stages (then_group g s) last_options composition_id cancel = do
    after ← build_stages s last_options composition_id cancel
    let given = stamp composition_id cancel (child_options after.messages after.shared)
    built ← build_group g (some given)
    some (record {
      messages = first_or built.messages after.messages;
      shared = shared_after after.messages after.shared given;
      events = after.events ++ built.events;
    })

  pub build_group : Group → Option Options → Option Built
  build_group (group group_id c ms) given = do
    let known = get_or given no_options
    let shared = group_options group_id (size ms) c known
    built ←
        build_members ms shared (get_or (flags_of known).composition_id group_id)
          (get_or (flags_of known).cancel_on_error c)
    some (record built { events = announce given (group_id, member_ids ms) ++ built.events })

  pub build_members : Members → Options → ℕ → Bool → Option Built
  build_members empty shared composition_id cancel =
      some (record { messages = end; shared = shared; events = [] })
  build_members (and_message m ms) shared composition_id cancel = do
    rest ← build_members ms shared composition_id cancel
    some (record rest { messages = next (build_message shared m) rest.messages })
  build_members (and_pipeline p ms) shared composition_id cancel = do
    built ← build_pipeline p shared composition_id cancel
    first ← some_messages built
    rest ← build_members ms first.shared composition_id cancel
    some (record {
      messages = append_messages first.messages rest.messages;
      shared = rest.shared;
      events = first.events ++ rest.events;
    })

-- The messages that `pipeline.run` hands to the broker: `build` draws a fresh composition id, and
-- enqueueing None fails.
unfoldable pub run_pipeline : Pipeline → ℕ → Option (List Message × Events)
unfolding build_pipeline
run_pipeline p unique_id = do
  built ← build_pipeline p no_options unique_id false
  first ← some_messages built
  some (to_list first.messages, first.events)

-- The messages that `group.run` hands to the broker.
unfoldable pub run_group : Group → Option (List Message)
unfolding build_pipeline
run_group g = do built ← build_group g none; some (to_list built.messages)

pub >>=-eq-some :
    {A B : Type 0} (m : Option A) (f : A → Option B) {b : B}
    → (m >>= f) ≡ some b
    → (a : A) × (m ≡ some a) × (f a ≡ some b)
>>=-eq-some none f h = cc
>>=-eq-some (some a) f h = (a, refl, h)

pub some_messages_eq : (b c : Built) → some_messages b ≡ some c → (b ≡ c) × (b.messages ≢ end)
some_messages_eq b c e = ground arith
