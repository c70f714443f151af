-- ===== src/Concurrent/RedisScripts.antt =====
-- remoulade/concurrent/backends/redis.py: the acquire and release scripts, which run one at a time in
-- the server. The commands on sorted sets are a parameter.
use remoulade.Prelude.{ℕ, zero, suc, ◌+◌, Option, none, some, leb, if◌then◌else◌}
use remoulade.Concurrent.{Lease}

-- The commands that the scripts call, on the server's state.
pub record Server (S : Type 0) : Type 0 where
  pub zremrangebyscore : (key highest : ℕ) → S → S
  pub zcard : (key : ℕ) → S → ℕ
  pub zadd : (key score token : ℕ) → S → S
  pub pexpire : (key ttl : ℕ) → S → S
  pub zrem : (key token : ℕ) → S → S

-- `if not expires_at: return None`
abbrev pub lease_until : (key token ttl_ms expires_at : ℕ) → Option Lease
lease_until key token ttl_ms zero = none
lease_until key token ttl_ms (suc n) =
    some (record { key = key; token = token; ttl_ms = ttl_ms; expires_at_ms = suc n })

module _ {S : Type 0} (server : Server S) where
  -- ACQUIRE_LUA
  unfoldable pub acquire_lua : (key limit now ttl token : ℕ) → S → ℕ × S
  acquire_lua key limit now ttl token s =
      let s' = server.zremrangebyscore key now s in
      if leb limit (server.zcard key s')
      then (0, s')
      else (now + ttl, server.pexpire key ttl (server.zadd key (now + ttl) token s'))

  -- `acquire`, where the server does not fail: a RedisError gives no lease.
  unfoldable pub acquire : (key limit ttl_ms token now : ℕ) → S → Option Lease × S
  unfolding acquire_lua
  acquire key limit ttl_ms token now s =
      let (expires_at, s') = acquire_lua key limit now ttl_ms token s in
      (lease_until key token ttl_ms expires_at, s')

  -- RELEASE_LUA and `release`
  unfoldable pub release : Lease → S → S
  release l s = server.zrem l.key l.token s
