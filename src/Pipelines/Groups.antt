-- ===== src/Pipelines/Groups.antt =====
-- What comes after a group is sent when its last message finishes, and once.
use remoulade.Prelude.{if◌then◌else◌, nat_eq, ℕ, ◌≡◌, List, [], ◌∷◌, ◌++◌, none, some}
use remoulade.Prelude.Dict.{lookup}
use remoulade.Message.{GroupInfo, Value, Message, message, Messages, end, next, target}
use remoulade.Pipelines.{
  Processed, World, State, fine, add_to_set, or_empty, ignores, after_process_message,
}

-- The hook on one message after another.
unfoldable pub after_all : World → List Processed → State → State
unfolding after_process_message
after_all w [] s = s
after_all w (p ∷ ps) s = after_all w ps (after_process_message w p s).0

abbrev pub completed : ℕ → State → List ℕ
completed group_id s = or_empty (lookup group_id s.completions)

-- A message of the group `g` with the target `ms` that went well.
pub record IsMember (g : GroupInfo) (ms : Messages) (p : Processed) : Type 0 where
  pub aims : p.pipe_target ≡ target ms
  pub grouped : p.group_info ≡ some g
  pub fine : p.exception ≡ none

-- The messages of the group that have finished, as a set.
abbrev pub finished : List Processed → List ℕ → List ℕ
finished [] ids = ids
finished (p ∷ ps) ids = finished ps (add_to_set p.message_id ids)

-- A target's message with the results of the group as its last argument.
abbrev pub with_argument : Value → Message → Message
with_argument r (message h o) = message (record h { args = h.args ++ r ∷ [] }) o

-- What a target's messages are sent as: a message that ignores the results gets none.
abbrev pub follow_ups : World → Value → Messages → List Message
follow_ups w r end = []
follow_ups w r (next m ms) = (if ignores w m then m else with_argument r m) ∷ follow_ups w r ms
