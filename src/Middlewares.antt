-- ===== src/Middlewares.antt =====
-- remoulade/middleware: the option that a middleware reads (`get_option` of middleware.py), and the
-- middleware that have no module of their own. Option names are numbers.
pub mod Stopping
pub mod TimeLimit
pub mod Deadlines
pub mod CatchError
pub mod Notifications
pub mod Heartbeat
pub mod Metadata
mod Samples
use remoulade.Prelude.{
  nat_eq, ℕ, zero, suc, ◌-◌, Bool, true, false, List, [], ◌∷◌, Option, none, some, leb,
  if◌then◌else◌,
}
use remoulade.Prelude.Dict.{Dict, lookup}
use remoulade.Message.{Value, Message, or_else}

-- What get_option finds, or that the message's actor is not declared.
pub data Found (V : Type 0) : Type 0 where
  actor_not_found : Found V
  option_is : Option V → Found V

-- The option at the level of the message, else of the actor, else the middleware's attribute or the
-- default. The test that is to keep pipe_target and group_info at the level of the message looks at
-- the option and not at its name, so it never holds.
unfoldable pub get_option : {V : Type 0} → ℕ → Dict ℕ V → Option (Dict ℕ V) → Option V → Found V
get_option name message_options actor_options attribute = elim (lookup name message_options) [
  | some v ↦ option_is (some v)
  | none ↦ elim actor_options [
    | none ↦ actor_not_found
    | some options ↦ option_is (or_else (lookup name options) attribute)
  ]
]

-- AgeLimit.before_process_message with the option max_age: whether the message is failed and
-- AgeLimitException is raised.
unfoldable pub is_too_old : (now message_timestamp : ℕ) → Option ℕ → Bool
is_too_old now message_timestamp none = false
is_too_old now message_timestamp (some zero) = false
is_too_old now message_timestamp (some (suc n)) = leb (suc n) (now - message_timestamp)

-- CurrentMessage: the message of each thread.
abbrev pub CurrentMessages : Type 0
CurrentMessages = ℕ → Option Message
