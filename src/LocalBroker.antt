-- ===== src/LocalBroker.antt =====
-- remoulade/brokers/local.py: the broker that runs a message when it is enqueued, in the caller's
-- thread. Hooks and actor are as in Worker, but no exception of a hook is caught.
pub mod Executing
mod Samples
use remoulade.Prelude.{ℕ, Bool, true, false, List, [], ◌∷◌, ◌++◌, reverse, if◌then◌else◌}
use remoulade.Broker.Signals.{
  Exception, skip_message, error, call, Outcome, fine, raised, Signal, process_message, skip, ack,
  nack, process_message_failed, Event, called_before, called_after, called_actor, Run, Hooks,
}
use remoulade.Worker.{World, ◌then_run◌, ◌finally_run◌, verdict_signal}

unfoldable pub emit_before : Hooks → Signal → List ℕ → Run → Run × Outcome
unfolding call
emit_before h s [] r = (r, fine)
emit_before h s (m ∷ ms) r =
    call (called_before m s) (h.before m s r.failed) r then_run emit_before h s ms

unfoldable pub emit_after_from : Hooks → Signal → List ℕ → Run → Run × Outcome
unfolding call
emit_after_from h s [] r = (r, fine)
emit_after_from h s (m ∷ ms) r =
    call (called_after m s) (h.after m s r.failed) r then_run emit_after_from h s ms

unfoldable pub emit_after : Hooks → Signal → List ℕ → Run → Run × Outcome
unfolding emit_after_from
emit_after h s ms r = emit_after_from h s (reverse ms) r

-- The body of the `try`.
unfoldable pub attempt : World → Run → Run × Outcome
unfolding emit_before emit_after
attempt w r =
    emit_before w.hooks process_message w.middleware r
    then_run (λ r₁. if r₁.failed then (r₁, fine) else call called_actor (w.actor r₁.failed) r₁)
    then_run emit_after w.hooks process_message w.middleware

-- The `except` clauses: only SkipMessage is not raised again.
unfoldable pub handle : World → Run × Outcome → Run × Outcome
unfolding emit_after
handle w (r, fine) = (r, fine)
handle w (r, raised skip_message) = emit_after w.hooks skip w.middleware r
handle w (r, raised e) =
    emit_after w.hooks (process_message_failed e) w.middleware r then_run (λ r₁. (r₁, raised e))

-- The `finally` clause: the hooks of a verdict, with nothing to settle.
unfoldable pub verdict : World → Run → Run × Outcome
unfolding emit_before emit_after
verdict w r =
    emit_before w.hooks (verdict_signal r.failed) w.middleware r
    then_run emit_after w.hooks (verdict_signal r.failed) w.middleware

-- `_enqueue`; where the actor is not declared nothing is called.
unfoldable pub put_message : World → Run → Run × Outcome
unfolding attempt handle verdict
put_message w r =
    if w.declared then handle w (attempt w r) finally_run verdict w else (r, raised error)
