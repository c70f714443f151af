-- ===== src/Prometheus/Samples.antt =====
-- Tests of the metrics.
use remoulade.Prelude.{nat_eq, ℕ, ◌≡◌, refl, false, [], arith}
use remoulade.Prelude.Dict.{insert, lookup}
use remoulade.Prometheus.{
  Prometheus, Processing, before_process_message, after_process_message, message_start_times,
}
use remoulade.Prometheus.Busy.{gauge, gauge-two_threads}

abbrev idle : Prometheus
idle = record { start_times = []; calls = [] }

abbrev on_thread : ℕ → Processing
on_thread thread = record {
  thread = thread;
  message_id = thread;
  message_timestamp = 0;
  labels = ([], 3);
}

abbrev both_busy : Prometheus
both_busy =
    before_process_message 7 70 (on_thread 2) (before_process_message 5 50 (on_thread 1) idle)

gauge-two_threads_example :
    (gauge both_busy.calls 0 ≡ 1)
    × (gauge (after_process_message 9 false (on_thread 2) both_busy).calls 0 ≡ 0)
    × (message_start_times 1 (after_process_message 9 false (on_thread 2) both_busy)
        ≡ insert 1 5 (message_start_times 1 idle))
unfolding message_start_times lookup
gauge-two_threads_example =
    gauge-two_threads 5 7 9 50 70 false (on_thread 1) (on_thread 2) idle (λ e. ground arith) refl
