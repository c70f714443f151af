-- ===== src/Consumer/Restarting.antt =====
-- `_ConsumerThread.run` of worker.py: how a consumer thread goes on after its connection broke. What
-- the thread does with messages is in Consumer; here a round of the loop is how it ended.
use remoulade.Prelude.{
  ℕ, zero, suc, ◌+◌, ◌-◌, ◌≤◌, ◌<◌, ◌≡◌, Bool, true, false, not, ◌&&◌, List, [], ◌∷◌, ltb, leb, min,
  arith, replicate, length, if◌then◌else◌,
}

-- How a round ended: by an error, before or after the broker let it consume, or because the iteration
-- was left. `Paused` rounds only sleep.
pub data Outcome : Type 0 where
  connection_error : (connected : Bool) → Outcome
  unexpected_error : (connected : Bool) → Outcome
  iteration_left : Outcome

pub record Loop : Type 0 where
  pub running : Bool
  pub attempts : ℕ

-- What a round does in the end: it sleeps for the backoff of so many attempts, or only reports that
-- it could not reconnect, or neither.
pub data Rest : Type 0 where
  sleeps : (attempts : ℕ) → Rest
  reports nothing : Rest

-- `attempts = 0` once the broker lets the thread consume.
abbrev pub attempts_after : Outcome → ℕ → ℕ
attempts_after (connection_error connected) attempts = if connected then 0 else attempts
attempts_after (unexpected_error connected) attempts = if connected then 0 else attempts
attempts_after iteration_left attempts = 0

-- An error stops the thread where no restart is allowed; `stopped` says whether `stop` was called in
-- the round.
abbrev pub runs_after : (max_retries : ℕ) → Outcome → (stopped : Bool) → Bool
runs_after max_retries (connection_error connected) stopped = not stopped && ltb 0 max_retries
runs_after max_retries (unexpected_error connected) stopped = not stopped && ltb 0 max_retries
runs_after max_retries iteration_left stopped = not stopped

-- A round of a loop that runs and is not paused, with CONSUMER_RESTART_MAX_RETRIES.
unfoldable pub round : (max_retries : ℕ) → Outcome → (stopped : Bool) → ℕ → Rest × Loop
round max_retries outcome stopped before =
    let attempts = attempts_after outcome before in
    let running = runs_after max_retries outcome stopped in
    if running && leb attempts max_retries
    then (sleeps attempts, record { running = running; attempts = suc attempts })
    else if leb max_retries attempts && ltb 0 max_retries
    then (reports, record { running = running; attempts = attempts })
    else (nothing, record { running = running; attempts = attempts })

-- The rounds of the loop, of which each ends as given, until it does not run.
unfoldable pub rounds : (max_retries : ℕ) → List (Outcome × Bool) → ℕ → List Rest × Loop
unfolding round
rounds max_retries [] attempts = ([], record { running = true; attempts = attempts })
rounds max_retries ((outcome, stopped) ∷ later) attempts =
    let (rest, loop) = round max_retries outcome stopped attempts in
    let (others, end) = rounds max_retries later loop.attempts in
    if loop.running then (rest ∷ others, end) else (rest ∷ [], loop)

-- A round that cannot connect.
abbrev pub refused : Outcome × Bool
refused = (connection_error false, false)

abbrev pub count_sleeps : List Rest → ℕ
count_sleeps [] = 0
count_sleeps (sleeps n ∷ rs) = suc (count_sleeps rs)
count_sleeps (reports ∷ rs) = count_sleeps rs
count_sleeps (nothing ∷ rs) = count_sleeps rs

refused-rounds :
    (max_retries n attempts : ℕ)
    → 0 < max_retries
    → attempts ≤ suc max_retries
    → ((rounds max_retries (replicate n refused) attempts).1.running ≡ true)
      × ((rounds max_retries (replicate n refused) attempts).1.attempts
          ≡ min (attempts + n) (suc max_retries))
      × (length (rounds max_retries (replicate n refused) attempts).0 ≡ n)
      × (count_sleeps (rounds max_retries (replicate n refused) attempts).0
          ≡ min n (suc max_retries - attempts))
unfolding rounds round
refused-rounds max_retries zero attempts positive le = ground arith
refused-rounds max_retries (suc n) attempts positive le = ground (
  arith,
  refused-rounds max_retries n (suc attempts) positive,
  refused-rounds max_retries n attempts positive,
)

-- Where restarts are allowed and the broker can never be reached, the thread runs on however many
-- rounds pass: it sleeps before each of the first max_retries + 1 restarts, and after that it tries
-- again at once, for ever, and only reports.
pub rounds-refused :
    (max_retries n : ℕ)
    → 0 < max_retries
    → ((rounds max_retries (replicate n refused) 0).1.running ≡ true)
      × (length (rounds max_retries (replicate n refused) 0).0 ≡ n)
      × (count_sleeps (rounds max_retries (replicate n refused) 0).0 ≡ min n (suc max_retries))
rounds-refused max_retries n positive =
    let (running, attempts, count, slept) = refused-rounds max_retries n 0 positive (omega arith) in
    (running, count, omega (arith, slept))
