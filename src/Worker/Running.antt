-- ===== src/Worker/Running.antt =====
-- The threads of worker.py and their control: run, pause, resume and stop of a worker thread, whose
-- flags a consumer thread has too, and join_all of helpers/queues.py, with which a worker waits for
-- its threads. Times are milliseconds.
use remoulade.Prelude.{
  ℕ, ◌+◌, ◌-◌, ◌≤◌, ◌≡◌, refl, Bool, true, false, List, [], ◌∷◌, ◌++◌, any, min, arith,
  if◌then◌else◌,
}

pub record Thread : Type 0 where
  pub running : Bool
  pub paused : Bool
  pub paused_event : Bool

-- A thread that is made and not started.
abbrev pub new_thread : Thread
new_thread = record { running = false; paused = false; paused_event = false }

unfoldable pub pause : Thread → Thread
pause t = record t { paused = true; paused_event = false }

unfoldable pub resume : Thread → Thread
resume t = record t { paused = false; paused_event = false }

unfoldable pub stop : Thread → Thread
stop t = record t { running = false }

-- The start of `run`.
unfoldable pub boot : Thread → Thread
boot t = record t { running = true }

-- What one turn of the loop of `run` does: it is over, the thread sleeps, a message is processed, or
-- the work queue was empty for the timeout.
pub data Turn : Type 0 where
  over slept processed found_empty : Turn

-- One turn, where a message can be had from the work queue or not.
unfoldable pub turn : (available : Bool) → Thread → Turn × Thread
turn available t =
    if t.running
    then (if t.paused
        then (slept, record t { paused_event = true })
        else (if available then processed else found_empty, t))
    else (over, t)

-- What happens to a thread in the course of time.
pub data Step : Type 0 where
  paused_now resumed_now stopped_now : Step
  takes_turn : (available : Bool) → Step

unfoldable pub step : Step → Thread → List Turn × Thread
unfolding pause resume stop turn
step paused_now t = ([], pause t)
step resumed_now t = ([], resume t)
step stopped_now t = ([], stop t)
step (takes_turn available) t = let (what, t') = turn available t in (what ∷ [], t')

unfoldable pub steps : List Step → Thread → List Turn
unfolding step
steps [] t = []
steps (s ∷ ss) t = let (turns, t') = step s t in turns ++ steps ss t'

abbrev pub is_processed : Turn → Bool
is_processed processed = true
is_processed _ = false

-- No step resumes the thread.
abbrev pub resumes : Step → Bool
resumes resumed_now = true
resumes _ = false

stopped-steps :
    (ss : List Step) (t : Thread) → t.running ≡ false → any is_processed (steps ss t) ≡ false
unfolding steps step pause resume stop turn
stopped-steps [] t h = refl
stopped-steps (paused_now ∷ ss) t h = stopped-steps ss _ h
stopped-steps (resumed_now ∷ ss) t h = stopped-steps ss _ h
stopped-steps (stopped_now ∷ ss) t h = stopped-steps ss _ refl
stopped-steps (takes_turn available ∷ ss) t h = ground (arith, stopped-steps ss t h)

paused-steps :
    (ss : List Step) (t : Thread)
    → t.paused ≡ true
    → any resumes ss ≡ false
    → any is_processed (steps ss t) ≡ false
unfolding steps step pause resume stop turn
paused-steps [] t h none_resumes = refl
paused-steps (paused_now ∷ ss) t h none_resumes = paused-steps ss _ refl none_resumes
paused-steps (resumed_now ∷ ss) t h none_resumes = ground arith
paused-steps (stopped_now ∷ ss) t h none_resumes = paused-steps ss _ h none_resumes
paused-steps (takes_turn available ∷ ss) t h none_resumes = ground (
  arith,
  paused-steps ss t h none_resumes,
  paused-steps ss (record t { paused_event = true }) h none_resumes,
)

-- Once a running thread is stopped it processes no message, whatever is asked of it then, and once it
-- is paused it processes none until it is resumed.
pub stop-steps :
    (ss : List Step) (t : Thread)
    → (any is_processed (steps ss (stop t)) ≡ false)
      × ((if any resumes ss then false else any is_processed (steps ss (pause t))) ≡ false)
unfolding stop pause
stop-steps ss t = (
  stopped-steps ss _ refl,
  ground (arith, paused-steps ss (record t { paused = true; paused_event = false }) refl),
)

-- A stop that comes before `run` begins is undone by its start.
pub boot-stop : (t : Thread) → boot (stop t) ≡ boot t
unfolding boot stop
boot-stop t = refl

-- `join_all`, where each thread in turn ends after a time of its own from when it is waited for: the
-- time that is waited for each. `elapsed` is the time since the first wait began, and it is taken off
-- what a subtraction has left before.
unfoldable pub join_from : (elapsed timeout : ℕ) → List ℕ → List ℕ
join_from elapsed timeout [] = []
join_from elapsed timeout (needed ∷ rest) =
    let waited = min needed timeout in
    waited ∷ join_from (elapsed + waited) (timeout - (elapsed + waited)) rest

unfoldable pub join_all : (timeout : ℕ) → List ℕ → List ℕ
unfolding join_from
join_all timeout needed = join_from 0 timeout needed

abbrev pub total : List ℕ → ℕ
total [] = 0
total (t ∷ ts) = t + total ts

join_from-total :
    (elapsed timeout : ℕ) (needed : List ℕ) → total (join_from elapsed timeout needed) ≤ timeout
unfolding join_from
join_from-total elapsed timeout [] = omega arith
join_from-total elapsed timeout (t ∷ ts) =
    let waited = min t timeout in
    omega (arith, join_from-total (elapsed + waited) (timeout - (elapsed + waited)) ts)

-- The wait for all threads is never longer than the timeout. It can be much shorter: see the tests.
pub join_all-total : (timeout : ℕ) (needed : List ℕ) → total (join_all timeout needed) ≤ timeout
unfolding join_all
join_all-total timeout needed = join_from-total 0 timeout needed
