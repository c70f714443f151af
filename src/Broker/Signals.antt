-- ===== src/Broker/Signals.antt =====
-- `emit_before` and `emit_after`: the hooks of the middleware, in order and in reverse order.
pub mod Calls
use remoulade.Prelude.{ℕ, Bool, true, false, List, [], ◌∷◌, ◌++◌, reverse}

-- What a hook or an actor may raise. The first three are MiddlewareErrors, `error` is any other
-- Exception, and `interrupt` is a BaseException that is no Exception (TimeLimitExceeded, Shutdown).
pub data Exception : Type 0 where
  skip_message message_canceled middleware_error error interrupt : Exception

pub data Outcome : Type 0 where
  fine : Outcome
  raised : Exception → Outcome

pub data Signal : Type 0 where
  process_message actor_execution skip canceled ack nack : Signal
  process_message_failed : Exception → Signal

pub data Event : Type 0 where
  called_before called_after : (middleware : ℕ) → Signal → Event
  called_actor acked nacked task_done : Event

-- What the world has seen of a message: the flag that `message.fail()` sets, and the calls so far.
pub record Run : Type 0 where
  pub failed : Bool
  pub log : List Event

-- How the hooks behave, which are the user's: from the middleware, the signal and the message's
-- flag, the new flag and the outcome.
pub record Hooks : Type 0 where
  pub before : ℕ → Signal → Bool → Bool × Outcome
  pub after : ℕ → Signal → Bool → Bool × Outcome

-- One call of a hook.
unfoldable pub call : Event → Bool × Outcome → Run → Run × Outcome
call e (failed, out) r = (record { failed = failed; log = r.log ++ e ∷ [] }, out)

-- `emit_before`: a MiddlewareError ends the loop, as does a BaseException; any other is logged.
unfoldable pub emit_before : Hooks → Signal → List ℕ → Run → Run × Outcome
unfolding call
emit_before h s [] r = (r, fine)
emit_before h s (m ∷ ms) r =
    let (r', out) = call (called_before m s) (h.before m s r.failed) r in
    let rest = emit_before h s ms r' in
    elim out [ fine ↦ rest | raised error ↦ rest | raised e ↦ (r', raised e) ]

-- The loop of `emit_after` over the reversed list: only a BaseException ends it.
unfoldable pub emit_after_from : Hooks → Signal → List ℕ → Run → Run × Outcome
unfolding call
emit_after_from h s [] r = (r, fine)
emit_after_from h s (m ∷ ms) r =
    let (r', out) = call (called_after m s) (h.after m s r.failed) r in
    let rest = emit_after_from h s ms r' in
    elim out [ raised interrupt ↦ (r', raised interrupt) | other ↦ rest ]

unfoldable pub emit_after : Hooks → Signal → List ℕ → Run → Run × Outcome
unfolding emit_after_from
emit_after h s ms r = emit_after_from h s (reverse ms) r
