-- ===== src/Retries.antt =====
-- remoulade/middleware/retries.py: what happens to a message whose processing failed. The traceback is
-- a number that stands for its text.
pub mod Limits
pub mod Once
mod Samples
use remoulade.Prelude.{
  text_eq, ℕ, zero, suc, ◌+◌, min, Bool, true, false, not, ◌||◌, ◌&&◌, List, [], ◌∷◌, Option, none,
  some, leb, if◌then◌else◌,
}
use remoulade.Prelude.Dict.{Dict, lookup}
use remoulade.QueueNames.{Name}
use remoulade.Message.{
  Flags, no_flags, Header, Message, message, Options, options, Target, no_target, copy, or_else,
  header, flags, target_of,
}
use remoulade.Backoff.{Ratio, Power, BackoffStrategy, compute_backoff}

-- What the options are at the level of the actor or else of the middleware.
pub record Settings : Type 0 where
  pub max_retries : Option ℕ
  pub retry_when : Option (ℕ → ℕ → Bool)
  pub min_backoff : ℕ
  pub max_backoff : ℕ
  pub backoff_strategy : BackoffStrategy
  pub jitter : Bool
  pub increase_priority_on_retry : Bool
  pub escalation_queue_mapping : Dict Name Name

-- What the broker and the clock give: its highest priority where it has one, the text of the
-- traceback, and the functions that the backoff calls.
pub record Outside : Type 0 where
  pub max_priority : Option ℕ
  pub traceback : ℕ
  pub power : Power
  pub uniform : Ratio → Ratio

-- The message is left alone, failed, or enqueued again with a delay in milliseconds; an unknown
-- strategy raises.
pub data Decision : Type 0 where
  nothing failed : Decision
  retry : Message → Ratio → Decision
  unknown_strategy : Decision

abbrev pub or_default {ℓ} : {A : Type ℓ} → A → Option A → A
or_default a none = a
or_default a (some b) = b

-- `message.options.setdefault("retries", 0)`
abbrev pub retries_of : Message → ℕ
retries_of m = or_default 0 (flags m).retries

-- `retry_when is not None and not retry_when(retries, exception)`
abbrev pub refuses : Option (ℕ → ℕ → Bool) → ℕ → ℕ → Bool
refuses none retries exception = false
refuses (some when) retries exception = not (when retries exception)

-- `max_retries is not None and retries >= max_retries`
abbrev pub exceeded : Option ℕ → ℕ → Bool
exceeded none retries = false
exceeded (some limit) retries = leb limit retries

-- `retry_when is None and not max_retries`
abbrev pub without_rule : Option (ℕ → ℕ → Bool) → Option ℕ → Bool
without_rule none none = true
without_rule none (some zero) = true
without_rule none (some (suc n)) = false
without_rule (some when) limit = false

unfoldable pub gives_up : Settings → ℕ → ℕ → Bool
gives_up s retries exception =
    without_rule s.retry_when s.max_retries
    || refuses s.retry_when retries exception
    || exceeded s.max_retries retries

-- The queue of the mapping, unless its name is empty.
abbrev pub nonempty : Option Name → Option Name
nonempty none = none
nonempty (some []) = none
nonempty (some (c ∷ s)) = some (c ∷ s)

unfoldable pub escalation_queue : Settings → Message → Option Name
escalation_queue s m = nonempty (
    lookup (header m).queue_name
      (or_default s.escalation_queue_mapping (flags m).escalation_queue_mapping))

-- The queue of the retry, and the options that the copy gets: an escalated message escalates once.
unfoldable pub escalate : Message → Option Name → Message
unfolding copy
escalate m none = copy (header m) (options no_target no_flags) m
escalate m (some queue) =
    copy (record (header m) { queue_name = queue })
      (options no_target (record no_flags { escalation_queue_mapping = some [] })) m

abbrev pub with_flags : Flags → Message → Message
with_flags f (message h (options t old)) = message h (options t f)

-- `getattr(broker, "max_priority", None) is not None` with the option.
unfoldable pub raise_priority : Settings → Option ℕ → Flags → Flags
raise_priority s none f = f
raise_priority s (some highest) f =
    if or_default s.increase_priority_on_retry f.increase_priority_on_retry
    then record f {
      priority = some (min (or_default 0 f.priority + 1) highest);
      increase_priority_on_retry = some false;
    }
    else f

-- The message that is enqueued again.
unfoldable pub new_message : Outside → Settings → Message → Message
unfolding escalation_queue escalate raise_priority
new_message x s m =
    let m' = escalate m (escalation_queue s m) in
    let f = raise_priority s x.max_priority (flags m') in
    with_flags (record f { retries = some (retries_of m + 1); traceback = some x.traceback }) m'

-- `max_retries or 10`
abbrev pub or_ten : Option ℕ → ℕ
or_ten none = 10
or_ten (some zero) = 10
or_ten (some (suc n)) = suc n

unfoldable pub backoff : Outside → Settings → ℕ → Option (ℕ × Ratio)
unfolding compute_backoff
backoff x s retries =
    compute_backoff x.power x.uniform retries s.backoff_strategy s.min_backoff s.max_backoff
      (or_ten s.max_retries) s.jitter

unfoldable pub after_process_message : Outside → Settings → Option ℕ → Message → Decision
unfolding gives_up
after_process_message x s none m = nothing
after_process_message x s (some exception) m =
    if gives_up s (retries_of m) exception then failed else elim (backoff x s (retries_of m)) [
      | none ↦ unknown_strategy
      | some b ↦ retry (new_message x s m) b.1
    ]
