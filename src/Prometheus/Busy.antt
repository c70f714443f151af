-- ===== src/Prometheus/Busy.antt =====
-- When the gauge says that the worker is busy.
use remoulade.Prelude.{
  nat_eq, nat_beq_iff, ℕ, ◌≡◌, ◌≢◌, refl, sym, ap, ◌∙◌, Bool, true, false, List, [], ◌∷◌, ◌++◌,
  arith, if◌then◌else◌,
}
use remoulade.Prelude.Dict.{lookup, insert, remove, lookup-insert}
use remoulade.Prometheus.{
  Prometheus, Processing, Labels, Call, worker_busy, errored, retried, rejected, duration,
  time_in_queue, initialized, message_start_times, or_no_times, before_process_message,
  after_process_message,
}

-- The value of the gauge after some calls: what it was set to last.
abbrev pub gauge : List Call → ℕ → ℕ
gauge [] value = value
gauge (worker_busy n ∷ cs) value = gauge cs n
gauge (errored l ∷ cs) value = gauge cs value
gauge (retried l ∷ cs) value = gauge cs value
gauge (rejected l ∷ cs) value = gauge cs value
gauge (duration l t ∷ cs) value = gauge cs value
gauge (time_in_queue l t ∷ cs) value = gauge cs value
gauge (initialized l ∷ cs) value = gauge cs value

gauge-append : (cs ds : List Call) (value : ℕ) → gauge (cs ++ ds) value ≡ gauge ds (gauge cs value)
gauge-append [] ds value = refl
gauge-append (worker_busy n ∷ cs) ds value = gauge-append cs ds n
gauge-append (errored l ∷ cs) ds value = gauge-append cs ds value
gauge-append (retried l ∷ cs) ds value = gauge-append cs ds value
gauge-append (rejected l ∷ cs) ds value = gauge-append cs ds value
gauge-append (duration l t ∷ cs) ds value = gauge-append cs ds value
gauge-append (time_in_queue l t ∷ cs) ds value = gauge-append cs ds value
gauge-append (initialized l ∷ cs) ds value = gauge-append cs ds value

gauge-idle :
    (cs : List Call) (l : Labels) (t : ℕ) (raised : Bool)
    → gauge
        (cs ++ (duration l t ∷ ((if raised then errored l ∷ [] else []) ++ worker_busy 0 ∷ [])))
        0
      ≡ 0
gauge-idle cs l t true = gauge-append cs _ 0
gauge-idle cs l t false = gauge-append cs _ 0

-- The gauge is 1 from when a message begins.
gauge-before_process_message :
    (clock now : ℕ) (m : Processing) (p : Prometheus)
    → gauge (before_process_message clock now m p).calls 0 ≡ 1
unfolding before_process_message
gauge-before_process_message clock now m p = gauge-append p.calls _ 0

times-before_other :
    (clock now thread : ℕ) (m : Processing) (p : Prometheus)
    → m.thread ≢ thread
    → message_start_times thread (before_process_message clock now m p)
      ≡ message_start_times thread p
unfolding before_process_message message_start_times
times-before_other clock now thread m p other = ground (
  arith,
  lookup-insert m.thread thread
      (insert m.message_id clock (or_no_times (lookup m.thread p.start_times))) p.start_times,
)

times-before_own :
    (clock now : ℕ) (m : Processing) (p : Prometheus)
    → message_start_times m.thread (before_process_message clock now m p)
      ≡ insert m.message_id clock (message_start_times m.thread p)
unfolding before_process_message message_start_times
times-before_own clock now m p = ground (
  arith,
  nat_beq_iff m.thread m.thread,
  lookup-insert m.thread m.thread
      (insert m.message_id clock (or_no_times (lookup m.thread p.start_times))) p.start_times,
)

times-after_other :
    (clock thread : ℕ) (raised : Bool) (m : Processing) (p : Prometheus)
    → m.thread ≢ thread
    → message_start_times thread (after_process_message clock raised m p)
      ≡ message_start_times thread p
unfolding after_process_message message_start_times
times-after_other clock thread raised m p other = ground (
  arith,
  lookup-insert m.thread thread (remove m.message_id (or_no_times (lookup m.thread p.start_times)))
      p.start_times,
)

remove-insert : (key value : ℕ) → remove key (insert key value []) ≡ []
unfolding remove insert
remove-insert key value = ground (arith, nat_beq_iff key key)

gauge-after_process_message :
    (clock : ℕ) (raised : Bool) (m : Processing) (p : Prometheus)
    → remove m.message_id (message_start_times m.thread p) ≡ []
    → gauge (after_process_message clock raised m p).calls 0 ≡ 0
unfolding after_process_message
gauge-after_process_message clock raised m p e = rw e (gauge-idle p.calls m.labels _ raised)

-- Where two threads of a worker are at messages at once, the gauge worker_busy is 0 from when one of
-- them ends its message, while the other is still at its own, if that thread had no other message:
-- the start times are the thread's own.
pub gauge-two_threads :
    (clock clock' later now now' : ℕ) (raised : Bool) (m n : Processing) (p : Prometheus)
    → m.thread ≢ n.thread
    → message_start_times n.thread p ≡ []
    → let both = before_process_message clock' now' n (before_process_message clock now m p) in
      (gauge both.calls 0 ≡ 1)
      × (gauge (after_process_message later raised n both).calls 0 ≡ 0)
      × (message_start_times m.thread (after_process_message later raised n both)
          ≡ insert m.message_id clock (message_start_times m.thread p))
gauge-two_threads clock clock' later now now' raised m n p apart idle =
    let first = before_process_message clock now m p in
    let both = before_process_message clock' now' n first in
    let free = times-before_other clock now n.thread m p apart ∙ idle in
    (
      gauge-before_process_message clock' now' n first,
      gauge-after_process_message later raised n both (
          ap (remove n.message_id)
            (times-before_own clock' now' n first ∙ ap (insert n.message_id clock') free)
          ∙ remove-insert n.message_id clock'),
      times-after_other later m.thread raised n both (λ e. apart (sym e))
          ∙ times-before_other clock' now' m.thread n first (λ e. apart (sym e))
          ∙ times-before_own clock now m p,
    )
