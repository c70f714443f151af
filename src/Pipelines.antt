-- ===== src/Pipelines.antt =====
-- remoulade/middleware/pipelines.py: what follows a message with a pipe target, and the count of a
-- group's finished messages in results/backends/stub.py.
pub mod Groups
mod Samples
use remoulade.Prelude.{
  nat_eq, ℕ, zero, suc, ◌+◌, Bool, true, false, not, ◌&&◌, List, [], ◌∷◌, ◌++◌, Option, none, some,
  length, leb, any, nat_beq, if◌then◌else◌,
}
use remoulade.Prelude.Dict.{Dict, lookup, insert, remove}
use remoulade.Message.{
  GroupInfo, Value, null, error_text, Header, Message, message, Options, options, no_target, target,
  Target, Messages, end, next, no_options, copy, header, flags, to_list,
}

-- A message that was processed, as the hook sees it: its options and how it went. The exception is
-- the number of its text.
pub record Processed : Type 0 where
  pub message_id : ℕ
  pub pipe_target : Target
  pub group_info : Option GroupInfo
  pub pipe_on_error : Bool
  pub failed : Bool
  pub result : Value
  pub exception : Option ℕ

-- Whether the broker has a result backend, the results of a group as `_group_results` reads them
-- (it raises on an error that is stored, if it is told so), and the option `pipe_ignore` of the
-- declared actors.
pub record World : Type 0 where
  pub result_backend : Bool
  pub group_results : ℕ → Bool → Option Value
  pub actor_pipe_ignore : ℕ → Option Bool

-- The sets of finished messages, the messages enqueued, and the hooks called.
pub record State : Type 0 where
  pub completions : Dict ℕ (List ℕ)
  pub enqueued : List Message
  pub piped : ℕ

pub data Outcome : Type 0 where
  fine failed raised : Outcome

-- A set as a list: `s | {x}`
abbrev pub add_to_set : ℕ → List ℕ → List ℕ
add_to_set x s = if any (nat_beq x) s then s else s ++ x ∷ []

abbrev pub or_empty : Option (List ℕ) → List ℕ
or_empty none = []
or_empty (some s) = s

unfoldable pub increment_group_completion : ℕ → ℕ → Dict ℕ (List ℕ) → ℕ × Dict ℕ (List ℕ)
increment_group_completion group_id message_id d =
    let completed = add_to_set message_id (or_empty (lookup group_id d)) in
    (length completed, insert group_id completed d)

-- `self.get_option("pipe_ignore", default=False)` of the next message.
abbrev pub or_false : Option Bool → Option Bool → Bool
or_false (some b) o = b
or_false none (some b) = b
or_false none none = false

unfoldable pub ignores : World → Message → Bool
ignores w m = or_false (flags m).pipe_ignore (w.actor_pipe_ignore (header m).actor_name)

unfoldable pub with_result : Value → Message → Message
unfolding copy
with_result v m = copy (record (header m) { args = (header m).args ++ v ∷ [] }) no_options m

-- The result that is fed into the next messages: of the group if there is one.
unfoldable pub fed : World → Option GroupInfo → Bool → Value → Option Value
fed w none raises v = some v
fed w (some g) raises v = w.group_results g.group_id raises

-- `_send_next_message`: the messages enqueued, and whether it raised.
unfoldable pub send_next_message :
    World → Option GroupInfo → Bool → Value → Messages → List Message × Outcome
unfolding ignores with_result fed
send_next_message w group raises v end = ([], fine)
send_next_message w group raises v (next m ms) =
    let rest = send_next_message w group raises v ms in
    if ignores w m then (m ∷ rest.0, rest.1) else elim (fed w group raises v) [
      | none ↦ ([], raised)
      | some r ↦ (with_result r m ∷ rest.0, rest.1)
    ]

-- The result to pipe, where there is one.
unfoldable pub piped_result : Processed → Option Value
piped_result p = elim p.exception [
  | none ↦ some p.result
  | some e ↦ if p.pipe_on_error && p.failed then some (error_text e) else none
]

-- `after_enqueue_pipe_target` of the middleware Results, on the count of a group.
unfoldable pub forget_group : Option GroupInfo → Dict ℕ (List ℕ) → Dict ℕ (List ℕ)
forget_group none d = d
forget_group (some g) d = remove g.group_id d

-- The messages are enqueued, and the hook `enqueue_pipe_target` is called if that went well.
unfoldable pub deliver : Option GroupInfo → List Message × Outcome → State → State × Outcome
unfolding forget_group
deliver group (ms, fine) s = (
  record s {
    enqueued = s.enqueued ++ ms;
    piped = suc s.piped;
    completions = forget_group group s.completions;
  },
  fine,
)
deliver group (ms, o) s = (record s { enqueued = s.enqueued ++ ms }, o)

-- `_group_completed`, then the rest.
unfoldable pub pipe :
    World → Processed → Option GroupInfo → Value → Messages → State → State × Outcome
unfolding increment_group_completion send_next_message deliver
pipe w p none v ms s = deliver none (send_next_message w none (not p.pipe_on_error) v ms) s
pipe w p (some g) v ms s =
    let (completion, d) = increment_group_completion g.group_id p.message_id s.completions in
    let s' = record s { completions = d } in
    if w.result_backend
    then if leb g.children_count completion
      then deliver (some g) (send_next_message w (some g) (not p.pipe_on_error) v ms) s'
      else (s', fine)
    else (s, failed)

unfoldable pub pipe_result : World → Processed → Target → Option Value → State → State × Outcome
unfolding pipe
pipe_result w p no_target r s = (s, fine)
pipe_result w p (target ms) none s = (s, fine)
pipe_result w p (target ms) (some v) s = pipe w p p.group_info v ms s

unfoldable pub after_process_message : World → Processed → State → State × Outcome
unfolding pipe_result piped_result
after_process_message w p s = pipe_result w p p.pipe_target (piped_result p) s
