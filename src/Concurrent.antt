-- ===== src/Concurrent.antt =====
-- remoulade/concurrent: the in-memory backend, and the middleware that takes and returns leases.
-- Times are whole milliseconds.
pub mod Limit
pub mod Slots
pub mod RedisScripts
pub mod Leases
mod Samples
use remoulade.Prelude.{
  nat_eq, ℕ, zero, suc, ◌+◌, ◌-◌, ◌*◌, Bool, true, false, List, [], ◌∷◌, ◌++◌, Option, none, some,
  length, ltb, leb, filter, if◌then◌else◌,
}
use remoulade.Prelude.Dict.{Dict, lookup, insert, remove}

pub record Lease : Type 0 where
  pub key : ℕ
  pub token : ℕ
  pub ttl_ms : ℕ
  pub expires_at_ms : ℕ

-- `self._leases`: for each key the tokens with their expiry.
abbrev pub Backend : Type 0
Backend = Dict ℕ (Dict ℕ ℕ)

abbrev pub or_empty {ℓ} : {A : Type ℓ} → Option (List A) → List A
or_empty none = []
or_empty (some xs) = xs

-- What `self._leases[key]` reads, a defaultdict.
unfoldable pub tokens : ℕ → Backend → Dict ℕ ℕ
tokens key b = or_empty (lookup key b)

-- The entries of one key that a purge leaves.
unfoldable pub live : ℕ → Dict ℕ ℕ → Dict ℕ ℕ
live now_ms ts = filter (λ e. ltb now_ms e.1) ts

unfoldable pub purge : ℕ → ℕ → Backend → Backend
unfolding live
purge key now_ms b = elim (lookup key b) [ none ↦ b | some ts ↦ insert key (live now_ms ts) b ]

-- `acquire` at the time `now`.
unfoldable pub acquire : (key limit ttl_ms token now : ℕ) → Backend → Option Lease × Backend
unfolding tokens purge
acquire key limit ttl_ms token now b =
    let b' = purge key now b in
    let ts = tokens key b' in
    if leb limit (length ts) then (none, insert key ts b') else (
      some (record { key = key; token = token; ttl_ms = ttl_ms; expires_at_ms = now + ttl_ms }),
      insert key (insert token (now + ttl_ms) ts) b',
    )

unfoldable pub release : Lease → Backend → Backend
release l b = elim (lookup l.key b) [ none ↦ b | some ts ↦ insert l.key (remove l.token ts) b ]

-- The calls a client makes, in the order the lock gives them: an acquire with its limit and time,
-- a release of a lease.
pub data Call : Type 0 where
  acquire_call : (key limit ttl_ms token now : ℕ) → Call
  release_call : Lease → Call

unfoldable pub call : Call → Backend → Backend
unfolding acquire release
call (acquire_call key limit ttl_ms token now) b = (acquire key limit ttl_ms token now b).1
call (release_call l) b = release l b

unfoldable pub calls : List Call → Backend → Backend
calls [] b = b
calls (c ∷ cs) b = calls cs (call c b)
