-- ===== src/State/Middleware.antt =====
-- remoulade/state/middleware.py: MessageState, which saves a message's state at the hooks of its way
-- through broker and worker. A message's keyword arguments are given beside it; `clock` is the
-- monotonic clock and `today` the date and time.
use remoulade.Prelude.{ℕ, zero, suc, Bool, true, false, Option, none, some, if◌then◌else◌}
use remoulade.Prelude.Dict.{Dict}
use remoulade.Message.{Value, Message, header, options_of}
use remoulade.State.{
  Status, started, pending, skipped, canceled, failure, success, State, Encoder, States, set_state,
}

-- The middleware with its backend's settings.
pub record MessageState : Type 0 where
  pub encoder : Encoder
  pub max_size : ℕ
  pub state_ttl : Option ℕ

-- The times and the two other fields that a hook gives.
pub record Extra : Type 0 where
  pub priority : Option ℕ
  pub composition_id : Option ℕ
  pub enqueued_datetime : Option ℕ
  pub started_datetime : Option ℕ
  pub end_datetime : Option ℕ

abbrev pub no_extra : Extra
no_extra = record {
  priority = none;
  composition_id = none;
  enqueued_datetime = none;
  started_datetime = none;
  end_datetime = none;
}

-- A message with its keyword arguments.
abbrev pub Task : Type 0
Task = Message × Dict ℕ Value

unfoldable pub saved_state : Task → Status → Extra → State
saved_state (m, kwargs) status extra = record {
  message_id = (header m).message_id;
  status = some status;
  actor_name = some (header m).actor_name;
  args = some (header m).args;
  kwargs = some kwargs;
  options = some (options_of m);
  priority = extra.priority;
  progress = none;
  enqueued_datetime = extra.enqueued_datetime;
  started_datetime = extra.started_datetime;
  end_datetime = extra.end_datetime;
  queue_name = some (header m).queue_name;
  composition_id = extra.composition_id;
}

-- `save`, where the time to live is not None and positive.
unfoldable pub save_for : Option ℕ → MessageState → Task → Status → Extra → ℕ → States → States
unfolding saved_state
save_for none c task status extra clock states = states
save_for (some zero) c task status extra clock states = states
save_for (some (suc n)) c task status extra clock states =
    set_state c.encoder c.max_size (saved_state task status extra) (suc n) clock states

unfoldable pub save : MessageState → Task → Status → Extra → ℕ → States → States
unfolding save_for
save c task status extra clock states = save_for c.state_ttl c task status extra clock states

-- The hooks. The priority is the actor's, and the composition id is what get_option finds.
unfoldable pub before_enqueue : MessageState → ℕ → Option ℕ → Task → ℕ → ℕ → States → States
unfolding save
before_enqueue c priority composition_id task today clock states =
    save c task pending
      (record no_extra {
        enqueued_datetime = some today;
        priority = some priority;
        composition_id = composition_id;
      })
      clock states

-- The flag says whether an exception is given.
unfoldable pub after_enqueue : MessageState → Bool → Task → ℕ → ℕ → States → States
unfolding save
after_enqueue c true task today clock states =
    save c task failure (record no_extra { end_datetime = some today }) clock states
after_enqueue c false task today clock states = states

unfoldable pub after_skip_message : MessageState → Task → ℕ → States → States
unfolding save
after_skip_message c task clock states = save c task skipped no_extra clock states

unfoldable pub after_message_canceled : MessageState → Task → ℕ → States → States
unfolding save
after_message_canceled c task clock states = save c task canceled no_extra clock states

unfoldable pub after_process_message : MessageState → Bool → Task → ℕ → ℕ → States → States
unfolding save
after_process_message c raised task today clock states =
    save c task (if raised then failure else success)
      (record no_extra { end_datetime = some today }) clock states

unfoldable pub before_process_message : MessageState → Task → ℕ → ℕ → States → States
unfolding save
before_process_message c task today clock states =
    save c task started (record no_extra { started_datetime = some today }) clock states
