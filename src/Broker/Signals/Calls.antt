-- ===== src/Broker/Signals/Calls.antt =====
-- Which hooks a signal reaches.
use remoulade.Prelude.{
  ℕ, ◌≡◌, refl, ◌≢◌, inl, inr, Bool, true, false, Bool-cases, List, [], ◌∷◌, ◌++◌, map, reverse,
  arith, append_assoc, append-nil, sym, ap,
}
use remoulade.Broker.Signals.{
  interrupt, error, Outcome, fine, raised, Signal, called_before, called_after, Run, Hooks, call,
  emit_before, emit_after, emit_after_from,
}

-- No after-hook is hit by a BaseException.
abbrev pub NoInterrupt : Hooks → Type 0
NoInterrupt h = (m : ℕ) (s : Signal) (f : Bool) → (h.after m s f).1 ≢ raised interrupt

emit_after_from-calls :
    (h : Hooks) (s : Signal) (ms : List ℕ) (r : Run)
    → NoInterrupt h
    → ((emit_after_from h s ms r).1 ≡ fine)
      × ((emit_after_from h s ms r).0.log ≡ r.log ++ map (λ m. called_after m s) ms)
unfolding emit_after_from
emit_after_from-calls h s [] r quiet = (refl, sym (append-nil r.log))
emit_after_from-calls h s (m ∷ ms) r quiet =
    let r' : Run = (call (called_after m s) (h.after m s r.failed) r).0 in
    ground (
      arith,
      quiet m s r.failed,
      emit_after_from-calls h s ms r' quiet,
      append_assoc r.log (called_after m s ∷ []) (map (λ k. called_after k s) ms),
    )

-- Unless a hook is interrupted by a BaseException, `emit_after` raises nothing and calls the hook of
-- every middleware once, the last one first, whatever the hooks raise.
pub emit_after-calls :
    (h : Hooks) (s : Signal) (ms : List ℕ) (r : Run)
    → NoInterrupt h
    → ((emit_after h s ms r).1 ≡ fine)
      × ((emit_after h s ms r).0.log ≡ r.log ++ map (λ m. called_after m s) (reverse ms))
unfolding emit_after
emit_after-calls h s ms r quiet = emit_after_from-calls h s (reverse ms) r quiet

abbrev goes_on : Outcome → Bool
goes_on fine = true
goes_on (raised error) = true
goes_on (raised e) = false

-- `emit_before` calls the hooks of a first part of the middleware, in order, each once, and lets no
-- exception through but a MiddlewareError or a BaseException.
pub emit_before-calls :
    (h : Hooks) (s : Signal) (ms : List ℕ) (r : Run)
    → (reached rest : List ℕ) × (ms ≡ reached ++ rest)
      × ((emit_before h s ms r).0.log ≡ r.log ++ map (λ m. called_before m s) reached)
      × ((emit_before h s ms r).1 ≢ raised error)
unfolding emit_before
emit_before-calls h s [] r = ([], [], refl, sym (append-nil r.log), λ e. cc)
emit_before-calls h s (m ∷ ms) r =
    let r' : Run = (call (called_before m s) (h.before m s r.failed) r).0 in
    let (reached, rest, split, log, no_error) = emit_before-calls h s ms r' in
    let assoc =
      append_assoc r.log (called_before m s ∷ []) (map (λ k. called_before k s) reached) in
    elim (Bool-cases (goes_on (h.before m s r.failed).1)) [
      | inl on ↦ (
        m ∷ reached,
        rest,
        ap (◌∷◌ m) split,
        ground (arith, log, assoc),
        ground (arith, no_error),
      )
      | inr stops ↦ (m ∷ [], ms, refl, ground arith, ground arith)
    ]

-- If `emit_before` raises nothing, it has called the hook of every middleware, in order.
pub emit_before-whole :
    (h : Hooks) (s : Signal) (ms : List ℕ) (r : Run)
    → (emit_before h s ms r).1 ≡ fine
    → (emit_before h s ms r).0.log ≡ r.log ++ map (λ m. called_before m s) ms
unfolding emit_before
emit_before-whole h s [] r e = sym (append-nil r.log)
emit_before-whole h s (m ∷ ms) r e =
    let r' : Run = (call (called_before m s) (h.before m s r.failed) r).0 in
    let assoc = append_assoc r.log (called_before m s ∷ []) (map (λ k. called_before k s) ms) in
    ground (arith, emit_before-whole h s ms r', assoc)
