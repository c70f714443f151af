-- ===== src/Scheduler/Config.antt =====
-- What the schedule in redis holds after `sync_config`.
use remoulade.Prelude.{nat_eq, ℕ, ◌≡◌, [], ◌∷◌, Option, none, some}
use remoulade.Prelude.Dict.{Dict, lookup}
use remoulade.Scheduler.{ScheduledJob, Zones, fresh_job}
use remoulade.Scheduler.Encoding.{Encoded, encode, decode}
use remoulade.Scheduler.Store.{Redis}

-- No key stands in the dict twice.
abbrev IsDistinct : Dict ℕ ScheduledJob → Type 0
IsDistinct [] = Unit
IsDistinct ((k, j) ∷ d) = (lookup k d ≡ none) × IsDistinct d

abbrev pub fresh_entry : Zones → (now later : ℕ) → Option ScheduledJob → Option Encoded
fresh_entry zones now later none = none
fresh_entry zones now later (some j) = some (encode (fresh_job zones now later j))

module _ (hash : ScheduledJob → ℕ) (utc : ℕ) where
  -- The key of each entry is the hash of the job that is read from it.
  abbrev pub IsKeyed : Redis → Type 0
  IsKeyed [] = Unit
  IsKeyed ((h, e) ∷ r) = ((j : ScheduledJob) × (decode utc e ≡ some j) × (hash j ≡ h)) × IsKeyed r

  -- The hash is not taken of the last run.
  abbrev pub IgnoresLastRun : Type 0
  IgnoresLastRun = (j : ScheduledJob) (l : Option ℕ) → hash (record j { last_queued = l }) ≡ hash j

  abbrev IsConfig : Dict ℕ ScheduledJob → Type 0
  IsConfig [] = Unit
  IsConfig ((h, j) ∷ d) = (hash j ≡ h) × IsConfig d
