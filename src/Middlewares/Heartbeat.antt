-- ===== src/Middlewares/Heartbeat.antt =====
-- remoulade/middleware/heartbeat.py: the beats of a thread, in seconds.
use remoulade.Prelude.{
  ℕ, ◌+◌, ◌≤◌, ◌<◌, Bool, true, false, List, [], ◌∷◌, ltb, arith, if◌then◌else◌,
}

-- `heartbeat`: whether the file is written, and the time of the last beat after it.
unfoldable pub heartbeat : (interval now ts : ℕ) → Bool × ℕ
heartbeat interval now ts = if ltb (ts + interval) now then (true, now) else (false, ts)

-- The times at which the file is written, of the calls at the times given.
unfoldable pub beats : ℕ → List ℕ → ℕ → List ℕ
unfolding heartbeat
beats interval [] ts = []
beats interval (now ∷ later) ts =
    let (written, last) = heartbeat interval now ts in
    if written then now ∷ beats interval later last else beats interval later last

-- Each time is more than the interval after the one before, beginning with the first.
abbrev pub IsSpaced : ℕ → ℕ → List ℕ → Type 0
IsSpaced interval first [] = Unit
IsSpaced interval first (t ∷ ts) = (first + interval < t) × IsSpaced interval t ts

-- After each call the last beat is no more than the interval ago.
abbrev pub IsFresh : ℕ → List ℕ → ℕ → Type 0
IsFresh interval [] ts = Unit
IsFresh interval (now ∷ later) ts =
    (now ≤ (heartbeat interval now ts).1 + interval)
    × IsFresh interval later (heartbeat interval now ts).1

beats-IsSpaced : (interval ts : ℕ) (calls : List ℕ) → IsSpaced interval ts (beats interval calls ts)
unfolding beats heartbeat
beats-IsSpaced interval ts [] = tt
beats-IsSpaced interval ts (now ∷ later) =
    ground (arith, beats-IsSpaced interval now later, beats-IsSpaced interval ts later)

calls-IsFresh : (interval : ℕ) (calls : List ℕ) (ts : ℕ) → IsFresh interval calls ts
unfolding heartbeat
calls-IsFresh interval [] ts = tt
calls-IsFresh interval (now ∷ later) ts = (ground arith, calls-IsFresh interval later _)

-- Whenever a thread calls heartbeat, the beats that it writes are more than the interval apart, and
-- after each call the last one is no older than the interval.
pub heartbeat-bounds :
    (interval ts : ℕ) (calls : List ℕ)
    → IsSpaced interval ts (beats interval calls ts) × IsFresh interval calls ts
heartbeat-bounds interval ts calls =
    (beats-IsSpaced interval ts calls, calls-IsFresh interval calls ts)
