-- ===== src/Scheduler/Samples.antt =====
-- Jobs in a zone where every day has 86400 seconds.
use remoulade.Prelude.{nat_eq, ℕ, ◌+◌, ◌/◌, ◌%◌, true, false, List, [], ◌∷◌, none, some}
use remoulade.Scheduler.{ScheduledJob, Zones, second}
use remoulade.Scheduler.Encoding.{Given, encode}
use remoulade.Scheduler.Store.{Redis, Readings}

abbrev utc : Zones
utc tz t = record {
  date = t / second / 86400;
  time = t / second % 86400;
  isoweekday = t / second / 86400 % 7 + 1;
}

abbrev nightly : ScheduledJob
nightly = record {
  actor_name = 3;
  interval = 86400;
  daily_time = some 60000000;
  iso_weekday = none;
  enabled = true;
  last_queued = none;
  tz = 0;
}

abbrev each_minute : ScheduledJob
each_minute = record nightly { interval = 60; daily_time = none }

abbrev at : ℕ → Readings
at t = record { now = t; now_utc = t + 1; later = t + 2000 }

abbrev three_turns : List Readings
three_turns = at 10500000 ∷ at 70500000 ∷ at 80500000 ∷ []

abbrev hash : ScheduledJob → ℕ
hash j = j.interval

abbrev queued_nightly : ScheduledJob
queued_nightly = record nightly { last_queued = some 5000000 }

abbrev old_redis : Redis
old_redis = (86400, encode queued_nightly) ∷ (60, encode each_minute) ∷ []

-- A job as it is configured, with a time of day of a minute and half a second.
abbrev given_nightly : Given
given_nightly = record {
  actor_name = 3;
  interval = none;
  daily_time = some (60500000, false);
  iso_weekday = none;
  enabled = none;
  last_queued = none;
  tz = none;
}

abbrev late_nightly : ScheduledJob
late_nightly = record nightly { daily_time = some 60500000 }
