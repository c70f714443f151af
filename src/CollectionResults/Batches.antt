-- ===== src/CollectionResults/Batches.antt =====
-- Asking for the plain results in batches is asking for every result in turn.
use remoulade.Prelude.{List, ◌++◌, Option, none}
use remoulade.Message.{Value}
use remoulade.Results.{Answer}
use remoulade.CollectionResults.{
  Children, result, collection, no_children, child, Backend, Run, finished, and_then, yielding,
  listed,
}

module _ {S : Type 0} where
  -- Each child in turn, with no timeout.
  abbrev pub in_turn : Backend S → Children → S → Run S
  in_turn b no_children s = finished s
  in_turn b (child (result i) cs) s = and_then (yielding (b.get_result none i s)) (in_turn b cs)
  in_turn b (child (collection ds) cs) s = and_then (listed (in_turn b ds s)) (in_turn b cs)

  after_yields : List Value → Run S → Run S
  after_yields ys r = record { yielded = ys ++ r.yielded; raised = r.raised; left = r.left }

  run_of : List Value → Option Answer → S → Run S
  run_of ys o s = record { yielded = ys; raised = o; left = s }
