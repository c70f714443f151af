-- ===== src/Concurrent/Leases.antt =====
-- remoulade/concurrent/middleware.py: the leases that a process holds for the messages it runs.
pub mod Held
use remoulade.Prelude.{
  nat_eq, ℕ, zero, suc, ◌+◌, ◌*◌, Bool, true, false, List, [], ◌∷◌, ◌++◌, Option, none, some, ltb,
  filter, if◌then◌else◌,
}
use remoulade.Prelude.Dict.{Dict, lookup, insert, remove}
use remoulade.Concurrent.{Lease, Backend, acquire, release, or_empty}

-- Python's int.
pub data ℤ : Type 0 where
  pos negsuc : ℕ → ℤ

abbrev pub default_ttl_ms : ℕ
default_ttl_ms = 5 * 60 * 1000

abbrev pub Leases : Type 0
Leases = Dict ℕ (List Lease)

-- `lease.expires_at_ms > now_with_buffer`, the buffer moved to the other side.
unfoldable pub fresh : ℕ → List Lease → List Lease
fresh now ls = filter (λ l. ltb now (l.expires_at_ms + default_ttl_ms)) ls

-- An entry stays by the leases in it that stay.
abbrev pub entry : ℕ → List Lease → Leases → Leases
entry id [] m = m
entry id (l ∷ ls) m = (id, l ∷ ls) ∷ m

unfoldable pub purge_leases : ℕ → Leases → Leases
unfolding fresh
purge_leases now [] = []
purge_leases now ((id, ls) ∷ m) = entry id (fresh now ls) (purge_leases now m)

unfoldable pub store_lease : ℕ → ℕ → Lease → Leases → Leases
unfolding purge_leases
store_lease now message_id l leases =
    let m = purge_leases now leases in
    insert message_id (or_empty (lookup message_id m) ++ l ∷ []) m

unfoldable pub pop_leases : ℕ → Leases → List Lease × Leases
pop_leases message_id leases = (or_empty (lookup message_id leases), remove message_id leases)

-- The middleware's table with the backend that it calls.
pub record Middleware : Type 0 where
  pub backend : Backend
  pub leases : Leases

-- What `get_option` returns for the message, and the key that `_resolve_key` gives.
pub record Options : Type 0 where
  pub concurrency_limit : Option ℤ
  pub concurrency_ttl : Option ℕ
  pub concurrency_key : ℕ
  pub bypass_concurrency_limits : Bool

pub data Outcome : Type 0 where
  unlimited acquired bypassed concurrency_limit_exceeded value_error : Outcome

-- `get_option(...) or self.default_ttl_ms`
unfoldable pub ttl_of : ℕ → Option ℕ → ℕ
ttl_of default none = default
ttl_of default (some zero) = default
ttl_of default (some (suc n)) = suc n

-- What `before_process_message` does with the backend's answer.
unfoldable pub settle :
    (now message_id : ℕ) → Options → Leases → Option Lease → Backend → Outcome × Middleware
settle now message_id o leases none b = (
  if o.bypass_concurrency_limits then bypassed else concurrency_limit_exceeded,
  record { backend = b; leases = leases },
)
settle now message_id o leases (some l) b =
    (acquired, record { backend = b; leases = store_lease now message_id l leases })

unfoldable pub acquire_for :
    (default limit now message_id : ℕ) → Options → Middleware → Outcome × Middleware
unfolding settle
acquire_for default limit now message_id o s =
    let ttl_ms = ttl_of default o.concurrency_ttl in
    let (l, b) = acquire o.concurrency_key limit ttl_ms message_id now s.backend in
    settle now message_id o s.leases l b

-- The tests on the limit that the option gives.
unfoldable pub enforce :
    (default now message_id : ℕ) → Options → Middleware → Option ℤ → Outcome × Middleware
enforce default now message_id o s none = (unlimited, s)
enforce default now message_id o s (some (pos zero)) = (unlimited, s)
enforce default now message_id o s (some (pos (suc limit))) =
    acquire_for default (suc limit) now message_id o s
enforce default now message_id o s (some (negsuc _)) = (value_error, s)

unfoldable pub before_process_message :
    (default now message_id : ℕ) → Options → Middleware → Outcome × Middleware
before_process_message default now message_id o s =
    enforce default now message_id o s o.concurrency_limit

unfoldable pub release_all : List Lease → Backend → Backend
unfolding release
release_all [] b = b
release_all (l ∷ ls) b = release_all ls (release l b)

-- `after_process_message`, `after_skip_message` and `after_message_canceled`
unfoldable pub release_leases : ℕ → Middleware → Middleware
unfolding pop_leases release_all
release_leases message_id s =
    let (ls, leases) = pop_leases message_id s.leases in
    record { backend = release_all ls s.backend; leases = leases }
