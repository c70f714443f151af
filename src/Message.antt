-- ===== src/Message.antt =====
-- remoulade/message.py: messages and their options. Identifiers, values and times are numbers; a key
-- of the options dict that the code reads is a field, and one that is absent (or None) is `none`.
-- The messages that a pipe target holds make the type recursive.
use remoulade.Prelude.{ℕ, Bool, List, [], ◌∷◌, Option, none, some}
use remoulade.Prelude.Dict.{Dict}
use remoulade.QueueNames.{Name}

pub record GroupInfo : Type 0 where
  pub group_id : ℕ
  pub children_count : ℕ

-- An actor's argument or result: any value, an error's text, or a list of results.
mutual
  pub data Value : Type 0 where
    null : Value
    atom : ℕ → Value
    error_text : ℕ → Value
    many : Values → Value

  pub data Values : Type 0 where
    nil : Values
    cons : Value → Values → Values

-- The options that are no messages themselves.
pub record Flags : Type 0 where
  pub group_info : Option GroupInfo
  pub composition_id : Option ℕ
  pub cancel_on_error : Option Bool
  pub eta : Option ℕ
  pub retries : Option ℕ
  pub priority : Option ℕ
  pub pipe_ignore : Option Bool
  pub traceback : Option ℕ
  pub increase_priority_on_retry : Option Bool
  pub escalation_queue_mapping : Option (Dict Name Name)

abbrev pub no_flags : Flags
no_flags = record {
  group_info = none;
  composition_id = none;
  cancel_on_error = none;
  eta = none;
  retries = none;
  priority = none;
  pipe_ignore = none;
  traceback = none;
  increase_priority_on_retry = none;
  escalation_queue_mapping = none;
}

-- The fields of a message besides its options.
pub record Header : Type 0 where
  pub queue_name : Name
  pub actor_name : ℕ
  pub args : List Value
  pub message_id : ℕ
  pub message_timestamp : ℕ

mutual
  pub data Message : Type 0 where
    message : Header → Options → Message

  pub data Options : Type 0 where
    options : Target → Flags → Options

  pub data Target : Type 0 where
    no_target : Target
    target : Messages → Target

  pub data Messages : Type 0 where
    end : Messages
    next : Message → Messages → Messages

abbrev pub header : Message → Header
header (message h o) = h

abbrev pub message_id : Message → ℕ
message_id (message h o) = h.message_id

abbrev pub options_of : Message → Options
options_of (message h o) = o

abbrev pub flags_of : Options → Flags
flags_of (options t f) = f

abbrev pub target_of : Options → Target
target_of (options t f) = t

abbrev pub flags : Message → Flags
flags (message h (options t f)) = f

abbrev pub pipe_target : Message → Target
pipe_target (message h (options t f)) = t

abbrev pub no_options : Options
no_options = options no_target no_flags

-- `a if a is present else b`, of one key.
abbrev pub or_else {ℓ} : {A : Type ℓ} → Option A → Option A → Option A
or_else none b = b
or_else (some a) b = some a

abbrev pub or_target : Target → Target → Target
or_target no_target t = t
or_target (target ms) t = target ms

abbrev pub update_flags : Flags → Flags → Flags
update_flags old new = record {
  group_info = or_else new.group_info old.group_info;
  composition_id = or_else new.composition_id old.composition_id;
  cancel_on_error = or_else new.cancel_on_error old.cancel_on_error;
  eta = or_else new.eta old.eta;
  retries = or_else new.retries old.retries;
  priority = or_else new.priority old.priority;
  pipe_ignore = or_else new.pipe_ignore old.pipe_ignore;
  traceback = or_else new.traceback old.traceback;
  increase_priority_on_retry =
      or_else new.increase_priority_on_retry old.increase_priority_on_retry;
  escalation_queue_mapping = or_else new.escalation_queue_mapping old.escalation_queue_mapping;
}

-- `old.update(new)` of two option dicts.
unfoldable pub update : Options → Options → Options
update (options t f) (options t' f') = options (or_target t' t) (update_flags f f')

-- `Message.copy(options=...)`, which is `Message.build` too.
unfoldable pub build_message : Options → Message → Message
unfolding update
build_message new (message h o) = message h (update o new)

-- `Message.copy(queue_name=..., args=..., options=...)`: the header's fields that change are given in it.
unfoldable pub copy : Header → Options → Message → Message
unfolding update
copy h new (message old o) = message h (update o new)

abbrev pub append_messages : Messages → Messages → Messages
append_messages end ns = ns
append_messages (next m ms) ns = next m (append_messages ms ns)

abbrev pub to_list : Messages → List Message
to_list end = []
to_list (next m ms) = m ∷ to_list ms

abbrev pub from_list : List Message → Messages
from_list [] = end
from_list (m ∷ ms) = next m (from_list ms)
