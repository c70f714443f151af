-- ===== src/Worker.antt =====
-- remoulade/worker.py: what a worker thread does with one message (`process_message`, `call_actor`
-- and the consumer's `post_process_message`).
pub mod Running
pub mod Shutdown
pub mod Tally
pub mod Verdict
mod Samples
use remoulade.Prelude.{ℕ, Bool, true, false, List, [], ◌∷◌, ◌++◌, if◌then◌else◌}
use remoulade.Broker.Signals.{
  Exception, skip_message, message_canceled, error, call, Outcome, fine, raised, Signal,
  process_message, actor_execution, skip, canceled, ack, nack, process_message_failed, Event,
  called_actor, acked, nacked, task_done, Run, Hooks, emit_before, emit_after,
}

-- `a; b`, where an exception of `a` leaves `b` out.
infixl 5 ◌then_run◌ ◌finally_run◌
abbrev pub ◌then_run◌ : Run × Outcome → (Run → Run × Outcome) → Run × Outcome
◌then_run◌ (r, fine) f = f r
◌then_run◌ (r, raised e) f = (r, raised e)

-- `try: a finally: b`: an exception of `b` takes the place of one of `a`.
abbrev pub later : Outcome → Outcome → Outcome
later a fine = a
later a (raised e) = raised e

abbrev pub ◌finally_run◌ : Run × Outcome → (Run → Run × Outcome) → Run × Outcome
◌finally_run◌ (r, a) f = let (r', b) = f r in (r', later a b)

-- What the outside world does: the middleware and their hooks, whether the actor is declared, what
-- the actor does, from the message's flag, and what the consumer's `nack` (at true) and `ack` do.
pub record World : Type 0 where
  pub middleware : List ℕ
  pub hooks : Hooks
  pub declared : Bool
  pub actor : Bool → Bool × Outcome
  pub settles : Bool → Outcome

unfoldable pub note : Event → Run → Run
note e r = record r { log = r.log ++ e ∷ [] }

-- `self.consumer.nack(message)` or `self.consumer.ack(message)`
unfoldable pub settle : World → Bool → Run → Run × Outcome
unfolding note
settle w rejects r = elim (w.settles rejects) [
  | fine ↦ (note (if rejects then nacked else acked) r, fine)
  | raised e ↦ (r, raised e)
]

abbrev pub verdict_signal : Bool → Signal
verdict_signal rejects = if rejects then nack else ack

unfoldable pub post_process_message : World → Run → Run × Outcome
unfolding settle
post_process_message w r =
    emit_before w.hooks (verdict_signal r.failed) w.middleware r
    then_run settle w r.failed
    then_run emit_after w.hooks (verdict_signal r.failed) w.middleware

unfoldable pub call_actor : World → Run → Run × Outcome
call_actor w r =
    if w.declared
    then emit_before w.hooks actor_execution w.middleware r then_run (λ r₁.
      call called_actor (w.actor r₁.failed) r₁
      finally_run emit_after w.hooks actor_execution w.middleware)
    else (r, raised error)

-- The body of the `try`.
unfoldable pub attempt : World → Run → Run × Outcome
unfolding call_actor
attempt w r =
    emit_before w.hooks process_message w.middleware r
    then_run (λ r₁. if r₁.failed then (r₁, fine) else call_actor w r₁)
    then_run emit_after w.hooks process_message w.middleware

-- The `except` clauses.
unfoldable pub handle : World → Run × Outcome → Run × Outcome
handle w (r, fine) = (r, fine)
handle w (r, raised skip_message) = emit_after w.hooks skip w.middleware r
handle w (r, raised message_canceled) = emit_after w.hooks canceled w.middleware r
handle w (r, raised e) = emit_after w.hooks (process_message_failed e) w.middleware r

-- `_WorkerThread.process_message`; `task_done` tells the work queue.
unfoldable pub run_message : World → Run → Run × Outcome
unfolding attempt handle post_process_message note
run_message w r =
    handle w (attempt w r)
    finally_run (λ r₁. post_process_message w r₁ then_run (λ r₂. (note task_done r₂, fine)))
