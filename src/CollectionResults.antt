-- ===== src/CollectionResults.antt =====
-- remoulade/collection_results.py and result.py: the results of groups and pipelines, with the
-- accessors of composition.py that make them and `get_results` of results/backend.py. The backend's
-- `get_result` is a function on a state that also holds the clock; that clock moves while a result
-- is waited for.
pub mod Rebuilding
pub mod Batches
pub mod Completion
mod Samples
use remoulade.Prelude.{
  nat_beq, ℕ, zero, suc, ◌+◌, ◌-◌, Bool, List, [], ◌∷◌, ◌++◌, Option, none, some, length, any, not,
  if◌then◌else◌,
}
use remoulade.Message.{Value, Values, nil, cons, many, Message, message_id}
use remoulade.Composition.{
  Pipeline, pipeline, Stages, done, then_message, then_group, Group, group, Members, empty,
  and_message, and_pipeline, Ids, leaf, node, Forest, none_left, tree, pipeline_ids, group_ids,
}
use remoulade.Results.{Answer, returned, Store, get_status}

-- A result, by its message, or the results of a group or a pipeline.
mutual
  pub data Child : Type 0 where
    result : ℕ → Child
    collection : Children → Child

  pub data Children : Type 0 where
    no_children : Children
    child : Child → Children → Children

abbrev pub in_front : Option Child → Option Children → Option Children
in_front (some c) (some cs) = some (child c cs)
in_front c cs = none

abbrev pub as_collection : Option Children → Option Child
as_collection none = none
as_collection (some cs) = some (collection cs)

-- `from_message_ids`; a list in the list is a pipeline, of which the last identifier counts, and
-- `none` is the IndexError of an empty one.
unfoldable mutual
  pub from_message_ids : Forest → Option Children
  from_message_ids none_left = some no_children
  from_message_ids (tree i f) = in_front (from_id i) (from_message_ids f)

  pub from_id : Ids → Option Child
  from_id (leaf i) = some (result i)
  from_id (node f) = from_last f

  pub from_last : Forest → Option Child
  from_last none_left = none
  from_last (tree i none_left) = from_last_id i
  from_last (tree i (tree j f)) = from_last (tree j f)

  pub from_last_id : Ids → Option Child
  from_last_id (leaf i) = some (result i)
  from_last_id (node f) = as_collection (from_message_ids f)

-- `group.results` and `pipeline.result`; `none` is the IndexError of a pipeline without children.
unfoldable mutual
  pub group_results : Group → Option Children
  group_results (group i c ms) = member_results ms

  pub member_results : Members → Option Children
  member_results empty = some no_children
  member_results (and_message m ms) = in_front (some (result (message_id m))) (member_results ms)
  member_results (and_pipeline p ms) = in_front (pipeline_result p) (member_results ms)

  pub pipeline_result : Pipeline → Option Child
  pipeline_result (pipeline c s) = last_result s

  pub last_result : Stages → Option Child
  last_result done = none
  last_result (then_message m done) = some (result (message_id m))
  last_result (then_message m (then_message n s)) = last_result (then_message n s)
  last_result (then_message m (then_group g s)) = last_result (then_group g s)
  last_result (then_group g done) = as_collection (group_results g)
  last_result (then_group g (then_message n s)) = last_result (then_message n s)
  last_result (then_group g (then_group h s)) = last_result (then_group h s)

-- `pipeline.results`
unfoldable pub stage_results : Stages → Option Children
unfolding group_results
stage_results done = some no_children
stage_results (then_message m s) = in_front (some (result (message_id m))) (stage_results s)
stage_results (then_group g s) = in_front (as_collection (group_results g)) (stage_results s)

unfoldable pub message_ids : Children → List ℕ
message_ids no_children = []
message_ids (child (result i) cs) = i ∷ message_ids cs
message_ids (child (collection ds) cs) = message_ids ds ++ message_ids cs

-- `completed_count`, `completed`, and `completed` of a single result.
unfoldable pub completed_count : ℕ → Store → Children → ℕ
unfolding message_ids
completed_count now s cs = get_status now (message_ids cs) s

unfoldable pub completed : ℕ → Store → Children → Bool
unfolding completed_count message_ids
completed now s cs = nat_beq (completed_count now s cs) (length (message_ids cs))

unfoldable pub result_completed : ℕ → Store → ℕ → Bool
result_completed now s i = nat_beq (get_status now (i ∷ []) s) 1

-- The backend, as a collection uses it: the clock in milliseconds, and get_result with a timeout,
-- for a fixed choice of the other arguments.
pub record Backend (S : Type 0) : Type 0 where
  pub clock : S → ℕ
  pub get_result : Option ℕ → ℕ → S → Answer × S

-- What a generator yields, how it ends if it raises, and the state that it leaves.
pub record Run (S : Type 0) : Type 0 where
  pub yielded : List Value
  pub raised : Option Answer
  pub left : S

abbrev pub values : List Value → Values
values [] = nil
values (v ∷ vs) = cons v (values vs)

-- `if timeout: deadline = time.monotonic() + timeout / 1000`
abbrev pub deadline_of : Option ℕ → ℕ → Option ℕ
deadline_of none now = none
deadline_of (some zero) now = none
deadline_of (some (suc n)) now = some (now + suc n)

-- `if deadline: timeout = max(0, int((deadline - time.monotonic()) * 1000))`
abbrev pub time_left : Option ℕ → Option ℕ → ℕ → Option ℕ
time_left none timeout now = timeout
time_left (some deadline) timeout now = some (deadline - now)

module _ {S : Type 0} where
  abbrev pub finished : S → Run S
  finished s = record { yielded = []; raised = none; left = s }

  -- One generator after the other, unless the first raises.
  unfoldable pub and_then : Run S → (S → Run S) → Run S
  and_then r next = elim r.raised [
    | some e ↦ r
    | none ↦
        let rest = next r.left in
        record { yielded = r.yielded ++ rest.yielded; raised = rest.raised; left = rest.left }
  ]

  -- `yield backend.get_result(...)`
  unfoldable pub yielding : Answer × S → Run S
  yielding (returned v, s) = record { yielded = v ∷ []; raised = none; left = s }
  yielding (e, s) = record { yielded = []; raised = some e; left = s }

  -- `yield list(child.get(...))`
  unfoldable pub listed : Run S → Run S
  listed r = elim r.raised [
    | some e ↦ record { yielded = []; raised = some e; left = r.left }
    | none ↦ record { yielded = many (values r.yielded) ∷ []; raised = none; left = r.left }
  ]

  -- The loop of get_results.
  unfoldable pub fetch_each : Backend S → Option ℕ → Option ℕ → List ℕ → S → Run S
  unfolding and_then yielding
  fetch_each b deadline timeout [] s = finished s
  fetch_each b deadline timeout (i ∷ is) s =
      let remaining = time_left deadline timeout (b.clock s) in
      and_then (yielding (b.get_result remaining i s)) (fetch_each b deadline remaining is)

  unfoldable pub get_results : Backend S → Option ℕ → List ℕ → S → Run S
  unfolding fetch_each
  get_results b timeout ids s = fetch_each b (deadline_of timeout (b.clock s)) timeout ids s

  -- `if message_ids: yield from self._backend.get_results(message_ids, ...)`
  unfoldable pub get_pending : Backend S → Option ℕ → List ℕ → S → Run S
  unfolding get_results
  get_pending b timeout [] s = finished s
  get_pending b timeout (i ∷ is) s = get_results b timeout (i ∷ is) s

  -- The loop over the children, with the plain results that are still to be asked for.
  unfoldable pub get_children : Backend S → Option ℕ → Option ℕ → List ℕ → Children → S → Run S
  unfolding get_pending and_then listed
  get_children b deadline timeout pending no_children s = get_pending b timeout pending s
  get_children b deadline timeout pending (child (result i) cs) s =
      get_children b deadline (time_left deadline timeout (b.clock s)) (pending ++ i ∷ []) cs s
  get_children b deadline timeout pending (child (collection ds) cs) s =
      let remaining = time_left deadline timeout (b.clock s) in
      and_then (get_pending b remaining pending s) λ s'.
        and_then (listed (get_children b (deadline_of remaining (b.clock s')) remaining [] ds s'))
          (get_children b deadline remaining [] cs)

  unfoldable pub get : Backend S → Option ℕ → Children → S → Run S
  unfolding get_children
  get b timeout cs s = get_children b (deadline_of timeout (b.clock s)) timeout [] cs s

  -- `wait` consumes the generator.
  unfoldable pub wait : Backend S → Option ℕ → Children → S → Option Answer × S
  unfolding get
  wait b timeout cs s = let r = get b timeout cs s in (r.raised, r.left)
