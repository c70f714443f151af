-- ===== src/Middlewares/TimeLimit.antt =====
-- remoulade/middleware/time_limit.py: the deadlines of the threads, and the two timers that look at
-- them. Times are milliseconds.
use remoulade.Prelude.{
  nat_eq, ℕ, ◌+◌, Bool, true, false, List, [], ◌∷◌, Option, none, some, leb, if◌then◌else◌,
}
use remoulade.Prelude.Dict.{Dict, insert}

-- A deadline, the message, and whether the exception was sent.
pub record Row : Type 0 where
  pub deadline : ℕ
  pub message_id : ℕ
  pub exception_sent : Bool

abbrev pub Deadlines : Type 0
Deadlines = Dict ℕ (Option Row)

-- `soft_kill_handle`: the threads in which TimeLimitExceeded is raised.
unfoldable pub soft_kill_handle : ℕ → Deadlines → List ℕ × Deadlines
soft_kill_handle now [] = ([], [])
soft_kill_handle now ((thread, none) ∷ rest) =
    let (others, after) = soft_kill_handle now rest in (others, (thread, none) ∷ after)
soft_kill_handle now ((thread, some row) ∷ rest) =
    let (others, after) = soft_kill_handle now rest in
    if leb row.deadline now
    then (thread ∷ others, (thread, some (record row { exception_sent = true })) ∷ after)
    else (others, (thread, some row) ∷ after)

-- `hard_kill_handle`: the message for which the process exits, which is cancelled before if there is
-- a cancel backend; the loop does not go beyond it.
unfoldable pub hard_kill_handle : (now exit_delay : ℕ) → Deadlines → Option ℕ × Deadlines
hard_kill_handle now exit_delay [] = (none, [])
hard_kill_handle now exit_delay ((thread, none) ∷ rest) =
    let (killed, after) = hard_kill_handle now exit_delay rest in (killed, (thread, none) ∷ after)
hard_kill_handle now exit_delay ((thread, some row) ∷ rest) =
    let (killed, after) = hard_kill_handle now exit_delay rest in
    if leb (row.deadline + exit_delay) now
    then (some row.message_id, (thread, none) ∷ rest)
    else (killed, (thread, some row) ∷ after)

-- `before_process_message` on a thread, with the option time_limit.
unfoldable pub before_process_message : (now limit thread message_id : ℕ) → Deadlines → Deadlines
before_process_message now limit thread message_id d =
    insert thread
      (some (record { deadline = now + limit; message_id = message_id; exception_sent = false })) d

-- `after_process_message`, also after_skip_message and after_message_canceled.
unfoldable pub after_process_message : ℕ → Deadlines → Deadlines
after_process_message thread d = insert thread none d
