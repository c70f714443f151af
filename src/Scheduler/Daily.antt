-- ===== src/Scheduler/Daily.antt =====
-- How often a job is sent.
use remoulade.Prelude.{ℕ, ◌+◌, ◌≡◌, List, [], ◌∷◌, Option, none, some}
use remoulade.Scheduler.{ScheduledJob, Zones}
use remoulade.Scheduler.Encoding.{Encoded, encode, decode}
use remoulade.Scheduler.Store.{Readings, visit}

-- What a turn makes of the entry of a job in redis, where the key of the entry is the hash of the job
-- that is read: a job that is sent is written back under it.
abbrev pub entry_after : Encoded → Option ScheduledJob → Encoded
entry_after e none = e
entry_after e (some j) = encode j

abbrev pub one_if_sent : Option ScheduledJob → ℕ
one_if_sent none = 0
one_if_sent (some j) = 1

abbrev pub visited : Zones → List ℕ → Readings → Option ScheduledJob → Option ScheduledJob
visited zones actors t none = none
visited zones actors t (some j) = visit zones actors t j

-- The number of times that the job of an entry is sent in turns with given readings.
unfoldable pub sends : (utc : ℕ) → Zones → List ℕ → List Readings → Encoded → ℕ
unfolding visit decode encode
sends utc zones actors [] e = 0
sends utc zones actors (t ∷ ts) e =
    let sent = visited zones actors t (decode utc e) in
    one_if_sent sent + sends utc zones actors ts (entry_after e sent)

-- The job was last queued on the day `d` of its zone.
abbrev pub QueuedOn : Zones → ℕ → ScheduledJob → Type 0
QueuedOn zones d j = (t : ℕ) × (j.last_queued ≡ some t) × ((zones j.tz t).date ≡ d)
