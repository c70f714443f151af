-- ===== src/Scheduler/Encoding.antt =====
-- ScheduledJob of remoulade/scheduler/scheduler.py: `__init__`, and `encode` and `decode`, by which a
-- job is kept in redis. The encoder is left out, since it gives back the dict that it was given; so are
-- the arguments, which it alone reads. Times are microseconds.
use remoulade.Prelude.{
  ℕ, ◌*◌, ◌/◌, ◌≡◌, Bool, true, false, not, ◌&&◌, ◌||◌, Option, none, some, nat_beq, if◌then◌else◌,
  arith,
}
use remoulade.Scheduler.{ScheduledJob, second, whole_seconds, is_some}

-- The arguments of `__init__`; a time comes with whether it has a zone of its own.
pub record Given : Type 0 where
  pub actor_name : ℕ
  pub interval : Option ℕ
  pub daily_time : Option (ℕ × Bool)
  pub iso_weekday : Option ℕ
  pub enabled : Option Bool
  pub last_queued : Option (ℕ × Bool)
  pub tz : Option ℕ

abbrev pub or_default {ℓ} : {A : Type ℓ} → A → Option A → A
or_default d none = d
or_default d (some a) = a

abbrev pub map_option {ℓ ℓ'} : {A : Type ℓ} {B : Type ℓ'} → (A → B) → Option A → Option B
map_option f none = none
map_option f (some a) = some (f a)

abbrev pub has_zone : Option (ℕ × Bool) → Bool
has_zone none = false
has_zone (some (t, zone)) = zone

abbrev pub naive : ℕ × Bool → ℕ
naive (t, zone) = t

abbrev pub a_day : ℕ
a_day = 86400

-- `interval not in (3600 * 24, None)`
abbrev pub other_interval : Option ℕ → Bool
other_interval none = false
other_interval (some i) = not (nat_beq i a_day)

-- `none` is a ValueError; the defaults are an interval of a day, and enabled.
unfoldable pub new_job : (utc : ℕ) → Given → Option ScheduledJob
new_job utc g =
    if has_zone g.daily_time || has_zone g.last_queued
    then none
    else if is_some g.daily_time && other_interval g.interval
    then none
    else some (record {
      actor_name = g.actor_name;
      interval = or_default a_day g.interval;
      daily_time = map_option naive g.daily_time;
      iso_weekday = g.iso_weekday;
      enabled = or_default true g.enabled;
      last_queued = map_option naive g.last_queued;
      tz = or_default utc g.tz;
    })

-- The dict of `as_dict(encode=True)`, whose times are numbers of seconds.
pub record Encoded : Type 0 where
  pub actor_name : ℕ
  pub interval : ℕ
  pub daily_time : Option ℕ
  pub iso_weekday : Option ℕ
  pub enabled : Bool
  pub last_queued : Option ℕ
  pub tz : ℕ

unfoldable pub encode : ScheduledJob → Encoded
encode j = record {
  actor_name = j.actor_name;
  interval = j.interval;
  daily_time = map_option (λ t. t / second) j.daily_time;
  iso_weekday = j.iso_weekday;
  enabled = j.enabled;
  last_queued = map_option (λ t. t / second) j.last_queued;
  tz = j.tz;
}

-- `strptime` gives a time without a zone.
abbrev pub parsed : ℕ → ℕ × Bool
parsed s = (s * second, false)

abbrev pub given_of : Encoded → Given
given_of e = record {
  actor_name = e.actor_name;
  interval = some e.interval;
  daily_time = map_option parsed e.daily_time;
  iso_weekday = e.iso_weekday;
  enabled = some e.enabled;
  last_queued = map_option parsed e.last_queued;
  tz = some e.tz;
}

unfoldable pub decode : (utc : ℕ) → Encoded → Option ScheduledJob
unfolding new_job
decode utc e = new_job utc (given_of e)

-- The job without the fractions of its seconds.
abbrev pub rounded : ScheduledJob → ScheduledJob
rounded j = record j {
  daily_time = map_option whole_seconds j.daily_time;
  last_queued = map_option whole_seconds j.last_queued;
}

-- A job with a time of the day has an interval of a day.
abbrev pub daily_interval : Option ℕ → ℕ → Bool
daily_interval daily_time interval = not (is_some daily_time) || nat_beq interval a_day

pub decode-encode_from :
    (utc : ℕ) (j : ScheduledJob)
    → daily_interval j.daily_time j.interval ≡ true
    → decode utc (encode j) ≡ some (rounded j)
unfolding decode encode new_job
decode-encode_from utc j e = ground arith

new_job-daily_interval :
    (utc : ℕ) (g : Given) (j : ScheduledJob)
    → new_job utc g ≡ some j
    → daily_interval j.daily_time j.interval ≡ true
unfolding new_job
new_job-daily_interval utc g j e = ground arith

pub decode-daily_interval :
    (utc : ℕ) (e : Encoded) (j : ScheduledJob)
    → decode utc e ≡ some j
    → daily_interval j.daily_time j.interval ≡ true
unfolding decode
decode-daily_interval utc e j h = new_job-daily_interval utc (given_of e) j h
