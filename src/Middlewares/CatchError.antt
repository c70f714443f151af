-- ===== src/Middlewares/CatchError.antt =====
-- remoulade/middleware/catch_error.py: what is enqueued when a message failed, and the option
-- on_failure of a new message. The name of an exception's type is a number.
use remoulade.Prelude.{nat_eq, ℕ, ◌≡◌, Bool, true, false, List, [], ◌∷◌, Option, none, some, arith}
use remoulade.Message.{
  Value, atom, many, nil, cons, Values, Message, message, header, message_id, no_options, copy,
}

-- What on_failure is given as, and what the options hold of it: a message as its dict, an actor by
-- its name.
pub data OnFailure : Type 0 where
  a_message : Message → OnFailure
  an_actor : (actor_name : ℕ) → OnFailure
  a_name : ℕ → OnFailure
  anything_else : OnFailure

pub data Stored : Type 0 where
  name_stored : ℕ → Stored
  dict_stored : Message → Stored

-- `update_options_before_create_message`: the outer `none` is the TypeError.
unfoldable pub update_on_failure : Option OnFailure → Option (Option Stored)
update_on_failure none = some none
update_on_failure (some (a_message m)) = some (some (dict_stored m))
update_on_failure (some (an_actor name)) = some (some (name_stored name))
update_on_failure (some (a_name name)) = some (some (name_stored name))
update_on_failure (some anything_else) = none

abbrev pub as_values : List Value → Values
as_values [] = nil
as_values (v ∷ vs) = cons v (as_values vs)

-- The arguments that the message on failure gets: the actor's name, that of the exception's type, and
-- the arguments of the message that failed.
abbrev pub failure_args : Message → (exception_name : ℕ) → (kwargs : Value) → List Value
failure_args m exception_name kwargs =
    atom (header m).actor_name
    ∷ atom exception_name
    ∷ many (as_values (header m).args)
    ∷ kwargs
    ∷ []

-- What is done: an actor is sent the arguments, or a message is enqueued.
pub data Sent : Type 0 where
  nothing : Sent
  sent_to : (actor_name : ℕ) → List Value → Sent
  enqueued : Message → Sent

-- `after_process_message`
unfoldable pub after_process_message :
    (failed : Bool) → Option Stored → Message → (exception_name : ℕ) → (kwargs : Value) → Sent
unfolding copy
after_process_message false stored m exception_name kwargs = nothing
after_process_message true none m exception_name kwargs = nothing
after_process_message true (some (name_stored name)) m exception_name kwargs =
    sent_to name (failure_args m exception_name kwargs)
after_process_message true (some (dict_stored target)) m exception_name kwargs = enqueued (
    copy (record (header target) { args = failure_args m exception_name kwargs }) no_options target)

abbrev pub on_failure_sent : Option (Option Stored) → Message → ℕ → Value → Option Sent
on_failure_sent none m exception_name kwargs = none
on_failure_sent (some stored) m exception_name kwargs =
    some (after_process_message true stored m exception_name kwargs)

-- The message that on_failure names is enqueued once a message with that option has failed: it keeps
-- its identifier, queue and options, and its arguments tell of the failure.
on_failure-message :
    (t m : Message) (exception_name : ℕ) (kwargs : Value) (sent : Message)
    → on_failure_sent (update_on_failure (some (a_message t))) m exception_name kwargs
      ≡ some (enqueued sent)
    → (message_id sent ≡ message_id t)
      × ((header sent).queue_name ≡ (header t).queue_name)
      × ((header sent).args ≡ failure_args m exception_name kwargs)
unfolding update_on_failure after_process_message copy
on_failure-message (message h o) m exception_name kwargs sent e = ground arith
