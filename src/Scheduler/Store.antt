-- ===== src/Scheduler/Store.antt =====
-- The schedule in redis: how it is read and written, a turn of the loop of `start`, and `sync_config`.
-- The hash of a job comes from outside, and the time zone of the defaults.
use remoulade.Prelude.{
  nat_eq, nat_beq, ℕ, suc, ◌&&◌, List, [], ◌∷◌, Option, none, some, any, if◌then◌else◌,
}
use remoulade.Prelude.Dict.{Dict, insert, remove, has}
use remoulade.Scheduler.{ScheduledJob, Zones, is_due, fresh_job}
use remoulade.Scheduler.Encoding.{Encoded, encode, decode}

abbrev pub Redis : Type 0
Redis = Dict ℕ Encoded

-- The clock as one job is visited: `now` and `now_utc`, and `later` after it was sent.
pub record Readings : Type 0 where
  pub now : ℕ
  pub now_utc : ℕ
  pub later : ℕ

-- What the loop does with one job: whether it is sent, and the job that is then flushed.
unfoldable pub visit : Zones → List ℕ → Readings → ScheduledJob → Option ScheduledJob
unfolding is_due
visit zones actors t j =
    if is_due zones t.now t.now_utc j && any (λ a. nat_beq a j.actor_name) actors
    then some (record j { last_queued = some t.later })
    else none

-- `hdel` of the jobs that are no longer configured.
unfoldable pub drop_old : (schedule config : Dict ℕ ScheduledJob) → Redis → Redis
drop_old [] config r = r
drop_old ((h, j) ∷ schedule) config r =
    drop_old schedule config (if has h config then r else remove h r)

module _ (hash : ScheduledJob → ℕ) (utc : ℕ) where
  unfoldable pub flush : ScheduledJob → Redis → Redis
  unfolding encode
  flush j r = insert (hash j) (encode j) r

  -- The loop of `get_redis_schedule`: each value is decoded, under the hash of the job that is read;
  -- `none` is its exception.
  unfoldable pub read_from : Redis → Dict ℕ ScheduledJob → Option (Dict ℕ ScheduledJob)
  unfolding decode
  read_from [] schedule = some schedule
  read_from ((h, e) ∷ r) schedule = elim (decode utc e) [
    | none ↦ none
    | some j ↦ read_from r (insert (hash j) j schedule)
  ]

  unfoldable pub get_redis_schedule : Redis → Option (Dict ℕ ScheduledJob)
  unfolding read_from
  get_redis_schedule r = read_from r []

  abbrev pub after_visit :
      Option ScheduledJob → ScheduledJob → List ScheduledJob × Redis → List ScheduledJob × Redis
  after_visit none j rest = rest
  after_visit (some j') j rest = (j ∷ rest.0, rest.1)

  abbrev pub flushed : Option ScheduledJob → Redis → Redis
  flushed none r = r
  flushed (some j) r = flush j r

  -- One turn over the schedule that was read: the jobs sent, and redis after it.
  unfoldable pub pass :
      Zones → List ℕ → (ℕ → Readings) → Dict ℕ ScheduledJob → Redis → List ScheduledJob × Redis
  unfolding visit flush
  pass zones actors clock [] r = ([], r)
  pass zones actors clock ((h, j) ∷ schedule) r =
      let sent = visit zones actors (clock 0) j in
      after_visit sent j (pass zones actors (λ n. clock (suc n)) schedule (flushed sent r))

  unfoldable pub turn : Zones → List ℕ → (ℕ → Readings) → Redis → Option (List ScheduledJob × Redis)
  unfolding get_redis_schedule pass
  turn zones actors clock r = elim (get_redis_schedule r) [
    | none ↦ none
    | some schedule ↦ some (pass zones actors clock schedule r)
  ]

  -- The configured jobs that redis has not; `now h` and `later h` are the readings of the clock at the
  -- job with the hash `h`.
  unfoldable pub add_new :
      Zones → (now later : ℕ → ℕ) → (config schedule : Dict ℕ ScheduledJob) → Redis → Redis
  unfolding fresh_job flush
  add_new zones now later [] schedule r = r
  add_new zones now later ((h, j) ∷ config) schedule r =
      add_new zones now later config schedule
        (if has h schedule then r else flush (fresh_job zones (now h) (later h) j) r)

  -- `{job.get_hash(): job for job in self.schedule}`
  unfoldable pub config_schedule : List ScheduledJob → Dict ℕ ScheduledJob → Dict ℕ ScheduledJob
  config_schedule [] d = d
  config_schedule (j ∷ js) d = config_schedule js (insert (hash j) j d)

  unfoldable pub sync_config :
      Zones → (now later : ℕ → ℕ) → List ScheduledJob → Redis → Option Redis
  unfolding get_redis_schedule drop_old add_new config_schedule
  sync_config zones now later jobs r = elim (get_redis_schedule r) [
    | none ↦ none
    | some schedule ↦
        let config = config_schedule jobs [] in
        some (add_new zones now later config schedule (drop_old schedule config r))
  ]
