-- ===== src/Scheduler.antt =====
-- remoulade/scheduler/scheduler.py: which jobs a turn of the scheduler sends, and the schedule that is
-- kept in redis. Times are microseconds in UTC; what a time is in a zone comes from outside.
pub mod Daily
pub mod Encoding
pub mod Store
pub mod Config
mod Samples
use remoulade.Prelude.{
  nat_eq, ℕ, zero, suc, ◌+◌, ◌-◌, ◌*◌, ◌/◌, Bool, true, false, not, ◌&&◌, ◌||◌, List, [], ◌∷◌, ◌++◌,
  Option, none, some, ltb, leb, nat_beq, any, filter, if◌then◌else◌,
}
use remoulade.Prelude.Dict.{Dict, lookup, insert, has}

-- A time on a zone's wall clock: the day's number, the time of the day, the ISO weekday.
pub record Local : Type 0 where
  pub date : ℕ
  pub time : ℕ
  pub isoweekday : ℕ

pub record ScheduledJob : Type 0 where
  pub actor_name : ℕ
  pub interval : ℕ
  pub daily_time : Option ℕ
  pub iso_weekday : Option ℕ
  pub enabled : Bool
  pub last_queued : Option ℕ
  pub tz : ℕ

abbrev pub Zones : Type 0
Zones = ℕ → ℕ → Local

abbrev pub second : ℕ
second = 1000000

-- What `strftime` leaves of a time when the job is written to redis.
abbrev pub whole_seconds : ℕ → ℕ
whole_seconds t = t / second * second

abbrev pub is_some {ℓ} : {A : Type ℓ} → Option A → Bool
is_some none = false
is_some (some a) = true

-- `job.iso_weekday is not None or job.daily_time is not None`
abbrev pub is_daily : ScheduledJob → Bool
is_daily j = is_some j.iso_weekday || is_some j.daily_time

-- Each `continue` of a job with a day or a time, negated.
abbrev pub weekday_matches : Option ℕ → Local → Bool
weekday_matches none now = true
weekday_matches (some d) now = nat_beq d now.isoweekday

abbrev pub time_reached : Option ℕ → Local → Bool
time_reached none now = true
time_reached (some t) now = not (ltb now.time t)

abbrev pub not_today : Zones → ℕ → Option ℕ → Local → Bool
not_today zones tz none now = true
not_today zones tz (some t) now = not (nat_beq now.date (zones tz t).date)

-- `timedelta(0) < now_utc - last_queued < timedelta(seconds=interval)`, negated.
abbrev pub interval_over : ℕ → Option ℕ → ℕ → Bool
interval_over interval none now = true
interval_over interval (some t) now = not (ltb t now && ltb now (t + interval * second))

-- `now` and `now_utc` are two readings of the clock.
unfoldable pub is_due : Zones → (now now_utc : ℕ) → ScheduledJob → Bool
is_due zones now now_utc j =
    let wall = zones j.tz now in
    j.enabled
    && (if is_daily j
        then weekday_matches j.iso_weekday wall
          && time_reached j.daily_time wall
          && not_today zones j.tz j.last_queued wall
        else interval_over j.interval j.last_queued now_utc)

-- A new job whose time of day has passed by `now` waits for tomorrow, as if run at `later`.
unfoldable pub fresh_job : Zones → (now later : ℕ) → ScheduledJob → ScheduledJob
fresh_job zones now later j = elim j.daily_time [
  | none ↦ j
  | some t ↦ if ltb t (zones j.tz now).time then record j { last_queued = some later } else j
]
