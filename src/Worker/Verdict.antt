-- ===== src/Worker/Verdict.antt =====
-- Each message that a worker takes is acknowledged or rejected once.
use remoulade.Prelude.{
  ℕ, ◌+◌, ◌≡◌, refl, ◌≤◌, ◌⊎◌, Bool, true, false, List, [], ◌∷◌, arith, Bool-cases, if◌then◌else◌,
}
use remoulade.Broker.Signals.{
  interrupt, error, skip_message, message_canceled, middleware_error, call, Outcome, fine, raised,
  Signal, skip, canceled, called_before, Run, Hooks, emit_before,
}
use remoulade.Broker.Signals.Calls.{NoInterrupt, emit_after-calls}
use remoulade.Worker.{World, settle, verdict_signal, attempt, handle, run_message}
use remoulade.Worker.Tally.{
  tally, is_ack, is_nack, is_done, is_actor, is_verdict, tally-attempt, tally-run_message,
  is_verdict-IsQuiet, is_actor-IsQuiet, is_done-IsQuiet, is_nack-IsQuiet, is_ack-IsQuiet,
}

-- Whatever the hooks, the actor and the connection do, a message is acknowledged or rejected at most
-- once, its actor is called at most once, and the work queue is told at most once.
pub run_message_once :
    (w : World) (r : Run)
    → let log = (run_message w r).0.log in
      (tally is_verdict log ≤ tally is_verdict r.log + 1)
      × (tally is_actor log ≤ tally is_actor r.log + 1)
      × (tally is_done log ≤ tally is_done r.log + 1)
run_message_once w r = (
  ground (
    arith,
    tally-run_message is_verdict is_verdict-IsQuiet w r,
    tally-attempt is_verdict is_verdict-IsQuiet w r,
    flag,
  ),
  ground (
    arith,
    tally-run_message is_actor is_actor-IsQuiet w r,
    tally-attempt is_actor is_actor-IsQuiet w r,
    flag,
  ),
  ground (
    arith,
    tally-run_message is_done is_done-IsQuiet w r,
    tally-attempt is_done is_done-IsQuiet w r,
    flag,
  ),
)
  where
    flag : ((handle w (attempt w r)).0.failed ≡ true) ⊎ ((handle w (attempt w r)).0.failed ≡ false)
    flag = Bool-cases _

-- If no exception leaves `process_message`, the message was rejected once if it was marked as failed
-- when the hooks were through, and acknowledged once otherwise, and the queue was told once.
pub run_message_verdict :
    (w : World) (r : Run)
    → (run_message w r).1 ≡ fine
    → let log = (run_message w r).0.log in
      let failed = (handle w (attempt w r)).0.failed in
      (tally is_nack log ≡ tally is_nack r.log + (if failed then 1 else 0))
      × (tally is_ack log ≡ tally is_ack r.log + (if failed then 0 else 1))
      × (tally is_done log ≡ tally is_done r.log + 1)
run_message_verdict w r e = (
  ground (
    arith,
    tally-run_message is_nack is_nack-IsQuiet w r,
    tally-attempt is_nack is_nack-IsQuiet w r,
    flag,
  ),
  ground (
    arith,
    tally-run_message is_ack is_ack-IsQuiet w r,
    tally-attempt is_ack is_ack-IsQuiet w r,
    flag,
  ),
  ground (
    arith,
    tally-run_message is_done is_done-IsQuiet w r,
    tally-attempt is_done is_done-IsQuiet w r,
    flag,
  ),
)
  where
    flag : ((handle w (attempt w r)).0.failed ≡ true) ⊎ ((handle w (attempt w r)).0.failed ≡ false)
    flag = Bool-cases _

emit_before-fine :
    (h : Hooks) (s : Signal) (ms : List ℕ) (r : Run)
    → ((m : ℕ) (f : Bool) → (h.before m s f).1 ≡ fine)
    → (emit_before h s ms r).1 ≡ fine
unfolding emit_before
emit_before-fine h s [] r ok = refl
emit_before-fine h s (m ∷ ms) r ok = ground (
  arith,
  ok m r.failed,
  emit_before-fine h s ms (call (called_before m s) (h.before m s r.failed) r).0 ok,
)

-- No exception leaves `process_message` if no BaseException hits an after-hook, the hooks around the
-- verdict raise nothing beforehand, and the connection holds; whatever the actor and the other hooks do.
pub run_message_returns :
    (w : World) (r : Run)
    → NoInterrupt w.hooks
    → ((m : ℕ) (rejects f : Bool) → (w.hooks.before m (verdict_signal rejects) f).1 ≡ fine)
    → ((rejects : Bool) → w.settles rejects ≡ fine)
    → (run_message w r).1 ≡ fine
unfolding run_message settle
run_message_returns w r quiet ready holds =
    let d = (handle w (attempt w r)).0 in
    let s = verdict_signal d.failed in
    let b = emit_before w.hooks s w.middleware d in
    let c = settle w d.failed b.0 in
    ground (
      arith,
      handled (attempt w r).0 (attempt w r).1,
      emit_before-fine w.hooks s w.middleware d (λ m f. ready m d.failed f),
      holds d.failed,
      (emit_after-calls w.hooks s w.middleware c.0 quiet).0,
    )
  where
    handled : (q : Run) (o : Outcome) → (handle w (q, o)).1 ≡ fine
    handled q fine = refl
    handled q (raised skip_message) = (emit_after-calls w.hooks skip w.middleware q quiet).0
    handled q (raised message_canceled) = (emit_after-calls w.hooks canceled w.middleware q quiet).0
    handled q (raised middleware_error) = (emit_after-calls w.hooks _ w.middleware q quiet).0
    handled q (raised error) = (emit_after-calls w.hooks _ w.middleware q quiet).0
    handled q (raised interrupt) = (emit_after-calls w.hooks _ w.middleware q quiet).0
