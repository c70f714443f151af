-- ===== src/Middlewares/Stopping.antt =====
-- remoulade/middleware/max_tasks.py and max_memory.py: when a worker thread is stopped.
use remoulade.Prelude.{
  nat_beq, ℕ, zero, suc, ◌+◌, ◌≡◌, Bool, true, false, ◌&&◌, List, [], ◌∷◌, arith, ltb, leb,
  if◌then◌else◌,
}

pub record MaxTasks : Type 0 where
  pub max_tasks : ℕ
  pub tasks_count : ℕ

-- `after_worker_thread_process_message`: whether the thread is stopped.
unfoldable pub after_worker_thread_process_message : MaxTasks → Bool × MaxTasks
after_worker_thread_process_message m =
    let count = suc m.tasks_count in (nat_beq count m.max_tasks, record m { tasks_count = count })

-- The same hook of MaxMemory, with the resident memory that is measured.
unfoldable pub exceeds_memory : (max_memory used_memory : ℕ) → Bool
exceeds_memory max_memory used_memory = ltb max_memory used_memory

-- After each of a number of messages, whether its thread was stopped.
unfoldable pub stops : ℕ → MaxTasks → List Bool
unfolding after_worker_thread_process_message
stops zero m = []
stops (suc n) m =
    let (stopped, after) = after_worker_thread_process_message m in stopped ∷ stops n after

abbrev pub count_stops : List Bool → ℕ
count_stops [] = 0
count_stops (true ∷ bs) = suc (count_stops bs)
count_stops (false ∷ bs) = count_stops bs

-- Whichever threads the messages ran on, MaxTasks stops a thread after exactly one of them, the one
-- that makes the count max_tasks, if that many are still to come, and else none.
pub count_stops-stops :
    (n : ℕ) (m : MaxTasks)
    → count_stops (stops n m)
      ≡ (if ltb m.tasks_count m.max_tasks && leb m.max_tasks (m.tasks_count + n) then 1 else 0)
unfolding stops after_worker_thread_process_message
count_stops-stops zero m = ground arith
count_stops-stops (suc n) m =
    ground (arith, count_stops-stops n (record m { tasks_count = suc m.tasks_count }))
