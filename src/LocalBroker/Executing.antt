-- ===== src/LocalBroker/Executing.antt =====
-- What the caller of the local broker sees.
use remoulade.Prelude.{ℕ, ◌≡◌, refl, ap, ◌∙◌, Bool, true, false, List, [], ◌∷◌, reverse, arith}
use remoulade.Broker.Signals.{
  skip_message, message_canceled, middleware_error, error, interrupt, call, Outcome, fine, raised,
  Signal, process_message, process_message_failed, Event, called_before, called_after, Run, Hooks,
  skip,
}
use remoulade.Worker.{World, verdict_signal, ◌then_run◌, ◌finally_run◌, later}
use remoulade.LocalBroker.{
  emit_before, emit_after, emit_after_from, attempt, handle, verdict, put_message,
}

-- Hooks that raise nothing and leave the message's flag.
pub record IsQuiet (h : Hooks) : Type 0 where
  pub quiet_before : (m : ℕ) (s : Signal) (b : Bool) → h.before m s b ≡ (b, fine)
  pub quiet_after : (m : ℕ) (s : Signal) (b : Bool) → h.after m s b ≡ (b, fine)

-- A run that went on, with the flag as it was.
abbrev GoesOn : Run → Run × Outcome → Type 0
GoesOn r (r', out) = (out ≡ fine) × (r'.failed ≡ r.failed)

then_run-GoesOn :
    (r : Run) (x : Run × Outcome) (f : Run → Run × Outcome)
    → GoesOn r x
    → ((r' : Run) → GoesOn r' (f r'))
    → GoesOn r (x then_run f)
then_run-GoesOn r (r', fine) f (e, same) next = ((next r').0, (next r').1 ∙ same)
then_run-GoesOn r (r', raised x) f (e, same) next = absurd (ground arith)

call-GoesOn :
    (event : Event) (x : Bool × Outcome) (r : Run)
    → x ≡ (r.failed, fine)
    → GoesOn r (call event x r)
unfolding call
call-GoesOn event x r e = rw e (refl, refl)

module _ (w : World) (quiet : IsQuiet w.hooks) (s : Signal) where
  emit_before-GoesOn : (ms : List ℕ) (r : Run) → GoesOn r (emit_before w.hooks s ms r)
  unfolding emit_before
  emit_before-GoesOn [] r = (refl, refl)
  emit_before-GoesOn (m ∷ ms) r =
      then_run-GoesOn r _ _ (call-GoesOn (called_before m s) _ r (quiet.quiet_before m s r.failed))
        (emit_before-GoesOn ms)

  after_from-GoesOn : (ms : List ℕ) (r : Run) → GoesOn r (emit_after_from w.hooks s ms r)
  unfolding emit_after_from
  after_from-GoesOn [] r = (refl, refl)
  after_from-GoesOn (m ∷ ms) r =
      then_run-GoesOn r _ _ (call-GoesOn (called_after m s) _ r (quiet.quiet_after m s r.failed))
        (after_from-GoesOn ms)

  emit_after-GoesOn : (r : Run) → GoesOn r (emit_after w.hooks s w.middleware r)
  unfolding emit_after
  emit_after-GoesOn r = after_from-GoesOn (reverse w.middleware) r

-- What reaches the caller of what the actor came to.
abbrev pub to_caller : Outcome → Outcome
to_caller (raised skip_message) = fine
to_caller out = out

then_run-fine : (x : Run × Outcome) (f : Run → Run × Outcome) → x.1 ≡ fine → (x then_run f) ≡ f x.0
then_run-fine (r, fine) f e = refl
then_run-fine (r, raised x) f e = absurd (ground arith)

finally-fine :
    (x : Run × Outcome) (f : Run → Run × Outcome)
    → ((r : Run) → (f r).1 ≡ fine)
    → (x finally_run f).1 ≡ x.1
finally-fine (r, out) f h = ap (later out) (h r)

module _ (w : World) (quiet : IsQuiet w.hooks) where
  verdict-fine : (r : Run) → (verdict w r).1 ≡ fine
  unfolding verdict
  verdict-fine r =
      (then_run-GoesOn r _ _ (emit_before-GoesOn w quiet (verdict_signal r.failed) w.middleware r)
        (emit_after-GoesOn w quiet (verdict_signal r.failed))).0

  handle-outcome : (r : Run) (out : Outcome) → (handle w (r, out)).1 ≡ to_caller out
  unfolding handle
  handle-outcome r fine = refl
  handle-outcome r (raised skip_message) = (emit_after-GoesOn w quiet skip r).0
  handle-outcome r (raised message_canceled) =
      ap (λ x. x.1)
        (then_run-fine _ _
          (emit_after-GoesOn w quiet (process_message_failed message_canceled) r).0)
  handle-outcome r (raised middleware_error) =
      ap (λ x. x.1)
        (then_run-fine _ _
          (emit_after-GoesOn w quiet (process_message_failed middleware_error) r).0)
  handle-outcome r (raised error) =
      ap (λ x. x.1)
        (then_run-fine _ _ (emit_after-GoesOn w quiet (process_message_failed error) r).0)
  handle-outcome r (raised interrupt) =
      ap (λ x. x.1)
        (then_run-fine _ _ (emit_after-GoesOn w quiet (process_message_failed interrupt) r).0)

  called-then :
      (x : Run × Outcome) → (x then_run emit_after w.hooks process_message w.middleware).1 ≡ x.1
  called-then (r, fine) = (emit_after-GoesOn w quiet process_message r).0
  called-then (r, raised e) = refl

  attempt-outcome : (r : Run) → r.failed ≡ false → (attempt w r).1 ≡ (w.actor false).1
  unfolding attempt call
  attempt-outcome r e =
      let (on, same) = emit_before-GoesOn w quiet process_message w.middleware r in
      called-then _
      ∙ ap (λ x. x.1) (then_run-fine (emit_before w.hooks process_message w.middleware r) _ on)
      ∙ rw (same, e) refl

  -- With hooks that raise nothing, whoever enqueues a message on the local broker gets the exception
  -- of its actor, whatever it is, but for SkipMessage; nothing is raised where the actor returns.
  pub put_message-outcome :
      (r : Run)
      → w.declared ≡ true
      → r.failed ≡ false
      → (put_message w r).1 ≡ to_caller (w.actor false).1
  unfolding put_message
  put_message-outcome r declared e = rw declared (
      finally-fine (handle w (attempt w r)) (verdict w) verdict-fine
      ∙ handle-outcome (attempt w r).0 (attempt w r).1
      ∙ ap to_caller (attempt-outcome r e))
