-- ===== src/Middlewares/Deadlines.antt =====
-- Which messages the timers of the time limit interrupt and kill.
use remoulade.Prelude.{
  nat_eq, nat_beq, nat_beq_iff, ℕ, ◌+◌, ◌≤◌, ◌≡◌, refl, sym, ap, ◌∙◌, Bool, false, List, [], ◌∷◌,
  Option, none, some, leb, any, Bool-cases, inl, inr, arith, if◌then◌else◌,
}
use remoulade.Prelude.Dict.{lookup, lookup-insert, insert}
use remoulade.Middlewares.TimeLimit.{
  Row, Deadlines, soft_kill_handle, hard_kill_handle, before_process_message, after_process_message,
}

-- What happens in the worker, each step with its time: a thread starts a message with a limit, ends
-- it, and a pass of the soft timer.
pub data Step : Type 0 where
  started : (now limit thread message_id : ℕ) → Step
  ended : (thread : ℕ) → Step
  soft_pass : (now : ℕ) → Step

unfoldable pub step : Step → Deadlines → Deadlines
unfolding before_process_message after_process_message soft_kill_handle
step (started now limit thread message_id) d = before_process_message now limit thread message_id d
step (ended thread) d = after_process_message thread d
step (soft_pass now) d = (soft_kill_handle now d).1

unfoldable pub steps : List Step → Deadlines → Deadlines
unfolding step
steps [] d = d
steps (s ∷ ss) d = steps ss (step s d)

-- The message that a thread is at, with its deadline.
abbrev pub Running : Type 0
Running = Option (ℕ × ℕ)

-- What the steps make of the message that a thread is at.
abbrev pub running : ℕ → List Step → Running → Running
running thread [] r = r
running thread (started now limit other message_id ∷ ss) r =
    running thread ss (if nat_beq other thread then some (now + limit, message_id) else r)
running thread (ended other ∷ ss) r = running thread ss (if nat_beq other thread then none else r)
running thread (soft_pass now ∷ ss) r = running thread ss r

abbrev pub row_running : Option (Option Row) → Running
row_running none = none
row_running (some none) = none
row_running (some (some row)) = some (row.deadline, row.message_id)

abbrev pub is_late : ℕ → Running → Bool
is_late now none = false
is_late now (some (deadline, message_id)) = leb deadline now

soft-lookup :
    (now thread : ℕ) (d : Deadlines)
    → row_running (lookup thread (soft_kill_handle now d).1) ≡ row_running (lookup thread d)
unfolding soft_kill_handle lookup
soft-lookup now thread [] = refl
soft-lookup now thread ((other, none) ∷ rest) = ground (arith, soft-lookup now thread rest)
soft-lookup now thread ((other, some row) ∷ rest) = ground (arith, soft-lookup now thread rest)

step-lookup :
    (thread : ℕ) (s : Step) (d : Deadlines)
    → row_running (lookup thread (step s d))
      ≡ running thread (s ∷ []) (row_running (lookup thread d))
unfolding step before_process_message after_process_message
step-lookup thread (started now limit other message_id) d = ground (
  arith,
  lookup-insert other thread
      (some (record { deadline = now + limit; message_id = message_id; exception_sent = false })) d,
)
step-lookup thread (ended other) d = ground (arith, lookup-insert other thread none d)
step-lookup thread (soft_pass now) d = soft-lookup now thread d

steps-lookup :
    (thread : ℕ) (ss : List Step) (d : Deadlines)
    → row_running (lookup thread (steps ss d)) ≡ running thread ss (row_running (lookup thread d))
unfolding steps
steps-lookup thread [] d = refl
steps-lookup thread (started now limit other message_id ∷ ss) d =
    steps-lookup thread ss _
    ∙ ap (running thread ss) (step-lookup thread (started now limit other message_id) d)
steps-lookup thread (ended other ∷ ss) d =
    steps-lookup thread ss _ ∙ ap (running thread ss) (step-lookup thread (ended other) d)
steps-lookup thread (soft_pass now ∷ ss) d =
    steps-lookup thread ss _ ∙ ap (running thread ss) (step-lookup thread (soft_pass now) d)

-- A dict has each key once.
abbrev IsDict : Deadlines → Type 0
IsDict [] = Unit
IsDict ((key, row) ∷ rest) = (lookup key rest ≡ none) × IsDict rest

lookup-soft_none :
    (now key : ℕ) (d : Deadlines)
    → lookup key d ≡ none
    → lookup key (soft_kill_handle now d).1 ≡ none
unfolding soft_kill_handle lookup
lookup-soft_none now key [] h = refl
lookup-soft_none now key ((other, none) ∷ rest) h = ground (arith, lookup-soft_none now key rest)
lookup-soft_none now key ((other, some row) ∷ rest) h =
    ground (arith, lookup-soft_none now key rest)

soft-IsDict : (now : ℕ) (d : Deadlines) → IsDict d → IsDict (soft_kill_handle now d).1
unfolding soft_kill_handle
soft-IsDict now [] h = tt
soft-IsDict now ((key, none) ∷ rest) (fresh, h) =
    (lookup-soft_none now key rest fresh, soft-IsDict now rest h)
soft-IsDict now ((key, some row) ∷ rest) (fresh, h) =
    ground (arith, lookup-soft_none now key rest fresh, soft-IsDict now rest h)

insert-IsDict : (key : ℕ) (row : Option Row) (d : Deadlines) → IsDict d → IsDict (insert key row d)
unfolding insert lookup
insert-IsDict key row [] h = (refl, tt)
insert-IsDict key row ((other, old) ∷ rest) (fresh, h) =
    ground
      (arith, insert-IsDict key row rest h, lookup-insert key other row rest, nat_beq_iff key other)

steps-IsDict : (ss : List Step) (d : Deadlines) → IsDict d → IsDict (steps ss d)
unfolding steps step before_process_message after_process_message
steps-IsDict [] d h = h
steps-IsDict (started now limit thread message_id ∷ ss) d h = steps-IsDict ss _ (
    insert-IsDict thread
      (some (record { deadline = now + limit; message_id = message_id; exception_sent = false })) d
      h)
steps-IsDict (ended thread ∷ ss) d h = steps-IsDict ss _ (insert-IsDict thread none d h)
steps-IsDict (soft_pass now ∷ ss) d h = steps-IsDict ss _ (soft-IsDict now d h)

soft-absent :
    (now thread : ℕ) (d : Deadlines)
    → lookup thread d ≡ none
    → any (nat_beq thread) (soft_kill_handle now d).0 ≡ false
unfolding soft_kill_handle lookup
soft-absent now thread [] h = refl
soft-absent now thread ((other, none) ∷ rest) h = ground (arith, soft-absent now thread rest)
soft-absent now thread ((other, some row) ∷ rest) h =
    ground (arith, soft-absent now thread rest, nat_beq_iff thread other, nat_beq_iff other thread)

soft-late :
    (now thread : ℕ) (d : Deadlines)
    → IsDict d
    → any (nat_beq thread) (soft_kill_handle now d).0 ≡ is_late now (row_running (lookup thread d))
unfolding soft_kill_handle lookup
soft-late now thread [] h = refl
soft-late now thread ((other, none) ∷ rest) (fresh, h) =
    ground (
      arith,
      soft-late now thread rest h,
      soft-absent now other rest fresh,
      nat_beq_iff other thread,
    )
soft-late now thread ((other, some row) ∷ rest) (fresh, h) = ground (
  arith,
  soft-late now thread rest h,
  soft-absent now other rest fresh,
  nat_beq_iff other thread,
  nat_beq_iff thread other,
)

-- Whatever messages the threads of a worker started and ended and whatever passes the timer has made
-- before, a pass raises TimeLimitExceeded in a thread exactly if the thread is at a message, which is
-- the last one it started and has not ended, and that message's time limit has passed.
pub soft_kill-steps :
    (ss : List Step) (now thread : ℕ)
    → any (nat_beq thread) (soft_kill_handle now (steps ss [])).0
      ≡ is_late now (running thread ss none)
unfolding lookup
soft_kill-steps ss now thread =
    soft-late now thread (steps ss []) (steps-IsDict ss [] tt)
    ∙ ap (is_late now) (steps-lookup thread ss [])

-- What a pass of the hard timer finds.
abbrev pub is_overdue : (now exit_delay : ℕ) → Running → Bool
is_overdue now exit_delay none = false
is_overdue now exit_delay (some (deadline, message_id)) = leb (deadline + exit_delay) now

-- A thread that is at the message `i`, overdue.
abbrev pub Overdue : (now exit_delay i : ℕ) → (ℕ → Running) → Type 0
Overdue now exit_delay i at =
    (thread : ℕ) × (deadline : ℕ) × (at thread ≡ some (deadline, i)) × (deadline + exit_delay ≤ now)

hard-none :
    (now exit_delay thread : ℕ) (d : Deadlines)
    → (hard_kill_handle now exit_delay d).0 ≡ none
    → is_overdue now exit_delay (row_running (lookup thread d)) ≡ false
unfolding hard_kill_handle lookup
hard-none now exit_delay thread [] h = refl
hard-none now exit_delay thread ((other, none) ∷ rest) h =
    ground (arith, hard-none now exit_delay thread rest)
hard-none now exit_delay thread ((other, some row) ∷ rest) h =
    ground (arith, hard-none now exit_delay thread rest)

behind :
    (now exit_delay i other : ℕ) (row : Option Row) (rest : Deadlines)
    → lookup other rest ≡ none
    → Overdue now exit_delay i (λ thread. row_running (lookup thread rest))
    → Overdue now exit_delay i (λ thread. row_running (lookup thread ((other, row) ∷ rest)))
unfolding lookup
behind now exit_delay i other row rest fresh (thread, deadline, at, late) =
    (thread, deadline, ground (arith, nat_beq_iff other thread), late)

hard-some :
    (now exit_delay i : ℕ) (d : Deadlines)
    → IsDict d
    → (hard_kill_handle now exit_delay d).0 ≡ some i
    → Overdue now exit_delay i (λ thread. row_running (lookup thread d))
unfolding hard_kill_handle lookup
hard-some now exit_delay i [] h e = ground arith
hard-some now exit_delay i ((other, none) ∷ rest) (fresh, h) e =
    behind now exit_delay i other none rest fresh (hard-some now exit_delay i rest h e)
hard-some now exit_delay i ((other, some row) ∷ rest) (fresh, h) e =
    elim (Bool-cases (leb (row.deadline + exit_delay) now)) [
      | inl late ↦ (other, row.deadline, ground (arith, nat_beq_iff other other), ground arith)
      | inr early ↦
          behind now exit_delay i other (some row) rest fresh
            (hard-some now exit_delay i rest h (ground arith))
    ]

-- After any steps, a pass of the hard timer ends the process only for a message that some thread is
-- at, and that is past its time limit by the exit delay.
pub hard_kill-Overdue :
    (ss : List Step) (now exit_delay i : ℕ)
    → (hard_kill_handle now exit_delay (steps ss [])).0 ≡ some i
    → Overdue now exit_delay i (λ thread. running thread ss none)
unfolding lookup
hard_kill-Overdue ss now exit_delay i e =
    let (thread, deadline, at, late) =
      hard-some now exit_delay i (steps ss []) (steps-IsDict ss [] tt) e in
    (thread, deadline, sym (steps-lookup thread ss []) ∙ at, late)

-- Where it lets the process live, no thread is at such a message.
hard_kill-spares :
    (ss : List Step) (now exit_delay thread : ℕ)
    → (hard_kill_handle now exit_delay (steps ss [])).0 ≡ none
    → is_overdue now exit_delay (running thread ss none) ≡ false
unfolding lookup
hard_kill-spares ss now exit_delay thread e =
    ap (is_overdue now exit_delay) (sym (steps-lookup thread ss []))
    ∙ hard-none now exit_delay thread (steps ss []) e
