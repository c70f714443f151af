-- ===== src/Worker/Tally.antt =====
-- The calls of one kind in the log of a message that a worker runs.
use remoulade.Prelude.{
  ℕ, ◌+◌, ◌≡◌, refl, ◌≢◌, ◌⊎◌, Bool, true, false, List, [], ◌∷◌, ◌++◌, arith, if◌then◌else◌,
  reverse,
}
use remoulade.Broker.Signals.{
  interrupt, error, skip_message, message_canceled, middleware_error, call, Outcome, fine, raised,
  Signal, process_message, actor_execution, skip, canceled, Event, called_before, called_after,
  called_actor, acked, nacked, task_done, Run, Hooks, emit_before, emit_after, emit_after_from,
}
use remoulade.Worker.{
  World, settle, verdict_signal, post_process_message, call_actor, attempt, handle, run_message,
}

-- How often an event of one kind stands in a log.
abbrev pub tally : (Event → ℕ) → List Event → ℕ
tally k [] = 0
tally k (e ∷ es) = k e + tally k es

abbrev pub is_ack : Event → ℕ
is_ack acked = 1
is_ack e = 0

abbrev pub is_nack : Event → ℕ
is_nack nacked = 1
is_nack e = 0

abbrev pub is_done : Event → ℕ
is_done task_done = 1
is_done e = 0

abbrev pub is_actor : Event → ℕ
is_actor called_actor = 1
is_actor e = 0

tally-append : (k : Event → ℕ) (xs ys : List Event) → tally k (xs ++ ys) ≡ tally k xs + tally k ys
tally-append k [] ys = omega arith
tally-append k (x ∷ xs) ys = omega (arith, tally-append k xs ys)

-- Calls of hooks are not counted.
abbrev pub IsQuiet : (Event → ℕ) → Type 0
IsQuiet k = (m : ℕ) (s : Signal) → (k (called_before m s) ≡ 0) × (k (called_after m s) ≡ 0)

module _ (k : Event → ℕ) (quiet : IsQuiet k) (h : Hooks) (s : Signal) where
  tally-emit_before : (ms : List ℕ) (r : Run) → tally k (emit_before h s ms r).0.log ≡ tally k r.log
  unfolding emit_before
  tally-emit_before [] r = refl
  tally-emit_before (m ∷ ms) r =
      let r' : Run = (call (called_before m s) (h.before m s r.failed) r).0 in
      ground (
        arith,
        tally-emit_before ms r',
        (quiet m s).0,
        tally-append k r.log (called_before m s ∷ []),
      )

  tally-emit_after_from :
      (ms : List ℕ) (r : Run) → tally k (emit_after_from h s ms r).0.log ≡ tally k r.log
  unfolding emit_after_from
  tally-emit_after_from [] r = refl
  tally-emit_after_from (m ∷ ms) r =
      let r' : Run = (call (called_after m s) (h.after m s r.failed) r).0 in
      ground (
        arith,
        tally-emit_after_from ms r',
        (quiet m s).1,
        tally-append k r.log (called_after m s ∷ []),
      )

  tally-emit_after : (ms : List ℕ) (r : Run) → tally k (emit_after h s ms r).0.log ≡ tally k r.log
  unfolding emit_after
  tally-emit_after ms r = tally-emit_after_from (reverse ms) r

abbrev verdict : Bool → Event
verdict rejects = if rejects then nacked else acked

module _ (k : Event → ℕ) (quiet : IsQuiet k) (w : World) where
  tally-settle :
      (rejects : Bool) (r : Run)
      → ((tally k (settle w rejects r).0.log ≡ tally k r.log + k (verdict rejects))
          × ((settle w rejects r).1 ≡ fine))
        ⊎ ((tally k (settle w rejects r).0.log ≡ tally k r.log) × ((settle w rejects r).1 ≢ fine))
  unfolding settle
  tally-settle true r = ground (arith, tally-append k r.log (nacked ∷ []))
  tally-settle false r = ground (arith, tally-append k r.log (acked ∷ []))

  tally-post_process_message :
      (r : Run)
      → (tally k (post_process_message w r).0.log ≡ tally k r.log + k (verdict r.failed))
        ⊎ ((tally k (post_process_message w r).0.log ≡ tally k r.log)
            × ((post_process_message w r).1 ≢ fine))
  unfolding post_process_message
  tally-post_process_message r =
      let s = verdict_signal r.failed in
      let b = emit_before w.hooks s w.middleware r in
      let c = settle w r.failed b.0 in
      ground (
        arith,
        tally-emit_before k quiet w.hooks s w.middleware r,
        tally-settle r.failed b.0,
        tally-emit_after k quiet w.hooks s w.middleware c.0,
      )

  tally-call_actor :
      (r : Run)
      → (tally k (call_actor w r).0.log ≡ tally k r.log + k called_actor)
        ⊎ (tally k (call_actor w r).0.log ≡ tally k r.log)
  unfolding call_actor call
  tally-call_actor r =
      let b = emit_before w.hooks actor_execution w.middleware r in
      let c = call called_actor (w.actor b.0.failed) b.0 in
      ground (
        arith,
        tally-emit_before k quiet w.hooks actor_execution w.middleware r,
        tally-append k b.0.log (called_actor ∷ []),
        tally-emit_after k quiet w.hooks actor_execution w.middleware c.0,
      )

  pub tally-attempt :
      (r : Run)
      → (tally k (attempt w r).0.log ≡ tally k r.log + k called_actor)
        ⊎ (tally k (attempt w r).0.log ≡ tally k r.log)
  unfolding attempt
  tally-attempt r =
      let b = emit_before w.hooks process_message w.middleware r in
      let c = call_actor w b.0 in
      ground (
        arith,
        tally-emit_before k quiet w.hooks process_message w.middleware r,
        tally-call_actor b.0,
        tally-emit_after k quiet w.hooks process_message w.middleware b.0,
        tally-emit_after k quiet w.hooks process_message w.middleware c.0,
      )

  tally-handle : (r : Run) (o : Outcome) → tally k (handle w (r, o)).0.log ≡ tally k r.log
  unfolding handle
  tally-handle r fine = refl
  tally-handle r (raised skip_message) = tally-emit_after k quiet w.hooks skip w.middleware r
  tally-handle r (raised message_canceled) =
      tally-emit_after k quiet w.hooks canceled w.middleware r
  tally-handle r (raised middleware_error) = tally-emit_after k quiet w.hooks _ w.middleware r
  tally-handle r (raised error) = tally-emit_after k quiet w.hooks _ w.middleware r
  tally-handle r (raised interrupt) = tally-emit_after k quiet w.hooks _ w.middleware r

  -- The flag that decides, and the log that it is decided at.
  abbrev pub decided : Run → Run
  decided r = (handle w (attempt w r)).0

  tally-decided : (r : Run) → tally k (decided r).log ≡ tally k (attempt w r).0.log
  tally-decided r = tally-handle (attempt w r).0 (attempt w r).1

  pub tally-run_message :
      (r : Run)
      → let n = tally k (attempt w r).0.log in
        let v = k (verdict (decided r).failed) in
        ((tally k (run_message w r).0.log ≡ n + v + k task_done))
        ⊎ (((tally k (run_message w r).0.log ≡ n) ⊎ (tally k (run_message w r).0.log ≡ n + v))
            × ((run_message w r).1 ≢ fine))
  unfolding run_message
  tally-run_message r =
      let d = decided r in
      let p = post_process_message w d in
      ground (
        arith,
        tally-decided r,
        tally-post_process_message d,
        tally-append k p.0.log (task_done ∷ []),
      )

abbrev pub is_verdict : Event → ℕ
is_verdict e = is_ack e + is_nack e

pub is_verdict-IsQuiet : IsQuiet is_verdict
is_verdict-IsQuiet m s = (refl, refl)

pub is_actor-IsQuiet : IsQuiet is_actor
is_actor-IsQuiet m s = (refl, refl)

pub is_done-IsQuiet : IsQuiet is_done
is_done-IsQuiet m s = (refl, refl)

pub is_nack-IsQuiet : IsQuiet is_nack
is_nack-IsQuiet m s = (refl, refl)

pub is_ack-IsQuiet : IsQuiet is_ack
is_ack-IsQuiet m s = (refl, refl)
