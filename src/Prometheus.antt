-- ===== src/Prometheus.antt =====
-- remoulade/middleware/prometheus.py: what the middleware tells its metrics. The metrics are of the
-- package prometheus_client, so a call is an entry of a log; times are milliseconds, and labels and
-- threads are numbers.
pub mod Busy
mod Samples
use remoulade.Prelude.{
  nat_eq, ℕ, ◌-◌, Bool, true, false, List, [], ◌∷◌, ◌++◌, Option, none, some, any, text_beq, filter,
  if◌then◌else◌,
}
use remoulade.Prelude.Dict.{Dict, lookup, insert, remove}
use remoulade.QueueNames.{Name}

-- The name of the queue, and the label of the actor.
abbrev pub Labels : Type 0
Labels = Name × ℕ

pub data Call : Type 0 where
  worker_busy : ℕ → Call
  errored retried rejected : Labels → Call
  duration time_in_queue : Labels → ℕ → Call
  initialized : Labels → Call

-- The start times of each thread, which are local to it, and the calls so far.
pub record Prometheus : Type 0 where
  pub start_times : Dict ℕ (Dict ℕ ℕ)
  pub calls : List Call

abbrev pub tell : List Call → Prometheus → Prometheus
tell cs p = record p { calls = p.calls ++ cs }

-- `actor.options.get(..., ...)`, and the label.
unfoldable pub get_label :
    (use_default_prometheus_label : Option Bool) (use_default_label : Bool)
    (prometheus_label : Option ℕ) (default_label actor_name : ℕ)
    → ℕ
get_label (some true) use_default label default_label actor_name = default_label
get_label (some false) use_default none default_label actor_name = actor_name
get_label (some false) use_default (some label) default_label actor_name = label
get_label none true label default_label actor_name = default_label
get_label none false none default_label actor_name = actor_name
get_label none false (some label) default_label actor_name = label

abbrev pub or_no_times : Option (Dict ℕ ℕ) → Dict ℕ ℕ
or_no_times none = []
or_no_times (some times) = times

-- `message_start_times` on a thread
unfoldable pub message_start_times : ℕ → Prometheus → Dict ℕ ℕ
message_start_times thread p = or_no_times (lookup thread p.start_times)

-- What a hook knows of the message.
pub record Processing : Type 0 where
  pub thread : ℕ
  pub message_id : ℕ
  pub message_timestamp : ℕ
  pub labels : Labels

-- The queues of an actor whose metrics begin at 0: those that the worker consumes.
unfoldable pub init_labels : List Name → Option (List Name) → ℕ → Prometheus → Prometheus
init_labels [] whitelist label p = p
init_labels (q ∷ qs) none label p = init_labels qs none label (tell (initialized (q, label) ∷ []) p)
init_labels (q ∷ qs) (some []) label p =
    init_labels qs (some []) label (tell (initialized (q, label) ∷ []) p)
init_labels (q ∷ qs) (some (w ∷ ws)) label p =
    init_labels qs (some (w ∷ ws)) label
      (if any (text_beq q) (w ∷ ws) then tell (initialized (q, label) ∷ []) p else p)

-- `after_worker_boot` and `after_worker_shutdown`
unfoldable pub after_worker_boot : Prometheus → Prometheus
after_worker_boot p = tell (worker_busy 0 ∷ []) p

unfoldable pub after_worker_shutdown : Prometheus → Prometheus
after_worker_shutdown p = tell (worker_busy 0 ∷ []) p

unfoldable pub after_nack : Labels → Prometheus → Prometheus
after_nack labels p = tell (rejected labels ∷ []) p

-- The flag says whether the message has the option retries.
unfoldable pub after_enqueue : Bool → Labels → Prometheus → Prometheus
after_enqueue has_retries labels p = if has_retries then tell (retried labels ∷ []) p else p

-- With the monotonic clock and the time of day.
unfoldable pub before_process_message : (clock now : ℕ) → Processing → Prometheus → Prometheus
unfolding message_start_times
before_process_message clock now m p =
    tell (time_in_queue m.labels (now - m.message_timestamp) ∷ worker_busy 1 ∷ []) (record p {
      start_times =
          insert m.thread (insert m.message_id clock (message_start_times m.thread p))
            p.start_times;
    })

abbrev pub time_since : ℕ → Option ℕ → ℕ
time_since clock none = 0
time_since clock (some start) = clock - start

abbrev pub if_idle : Dict ℕ ℕ → List Call
if_idle [] = worker_busy 0 ∷ []
if_idle (entry ∷ rest) = []

-- Also after_skip_message and after_message_canceled, with no exception.
unfoldable pub after_process_message : (clock : ℕ) → Bool → Processing → Prometheus → Prometheus
unfolding message_start_times
after_process_message clock raised m p =
    let times = message_start_times m.thread p in
    let left = remove m.message_id times in
    let failure = if raised then errored m.labels ∷ [] else [] in
    tell
      (duration m.labels (time_since clock (lookup m.message_id times)) ∷ (failure ++ if_idle left))
      (record p { start_times = insert m.thread left p.start_times })
