-- ===== src/Retries/Samples.antt =====
-- A message that fails twice, and one that escalates.
use remoulade.Prelude.{text_eq, ℕ, ◌≤◌, ◌≡◌, refl, true, false, [], ◌∷◌, none, some, arith}
use remoulade.Prelude.Dict.{lookup}
use remoulade.Message.{Message, message, options, no_target, no_flags}
use remoulade.Backoff.{Power, whole, constant}
use remoulade.Retries.{Settings, Outside, new_message, backoff, after_process_message}
use remoulade.Retries.Limits.{tries, tries-bounded}

abbrev sample : Message
sample =
    message
      (record {
        queue_name = 1 ∷ [];
        actor_name = 3;
        args = [];
        message_id = 5;
        message_timestamp = 0;
      })
      (options no_target no_flags)

abbrev settings : Settings
settings = record {
  max_retries = some 2;
  retry_when = none;
  min_backoff = 1000;
  max_backoff = 5000;
  backoff_strategy = constant;
  jitter = false;
  increase_priority_on_retry = true;
  escalation_queue_mapping = (1 ∷ [], 2 ∷ []) ∷ [];
}

abbrev ones : Power
ones b e = whole 1

abbrev outside : Outside
outside = record { max_priority = some 9; traceback = 77; power = ones; uniform = λ b. whole 0 }

-- Two retries, then the message is failed.
three_tries : tries 3 outside settings (λ n. n) sample ≡ some 3
unfolding tries after_process_message new_message lookup backoff
three_tries = refl

tries-bounded_example : (k : ℕ) × (tries 3 outside settings (λ n. n) sample ≡ some k) × (k ≤ 3)
tries-bounded_example =
    tries-bounded outside settings 2 2 (λ n. n) sample refl (λ e. cc) (omega arith)

abbrev second_run : Message
second_run = new_message outside settings sample
