-- ===== src/Concurrent/Limit.antt =====
-- The limit of a key is kept by every sequence of calls.
use remoulade.Prelude.{
  nat_eq, ℕ, ◌≡◌, List, [], ◌∷◌, Option, none, some, filter, ltb, if◌then◌else◌, nat_beq,
  nat_beq_iff, arith,
}
use remoulade.Prelude.Dict.{Dict, insert, remove, lookup-insert}
use remoulade.Concurrent.{
  Lease, Backend, Call, acquire_call, release_call, call, tokens, live, purge, acquire, release,
}

-- What the calls leave under a key, in terms of what stood there.
pub tokens-purge :
    (key j now : ℕ) (b : Backend)
    → tokens j (purge key now b) ≡ (if nat_beq key j then live now (tokens j b) else tokens j b)
unfolding tokens purge live
tokens-purge key j now b =
    ground (arith, nat_beq_iff key j, lookup-insert key j (live now (tokens key b)) b)

pub tokens-insert :
    (key j : ℕ) (ts : Dict ℕ ℕ) (b : Backend)
    → tokens j (insert key ts b) ≡ (if nat_beq key j then ts else tokens j b)
unfolding tokens
tokens-insert key j ts b = ground (arith, nat_beq_iff key j, lookup-insert key j ts b)

pub tokens-release :
    (l : Lease) (j : ℕ) (b : Backend)
    → tokens j (release l b) ≡ (if nat_beq l.key j then remove l.token (tokens j b) else tokens j b)
unfolding tokens release remove
tokens-release l j b =
    ground (arith, nat_beq_iff l.key j, lookup-insert l.key j (remove l.token (tokens l.key b)) b)

-- A call on `key` uses the limit that the key is declared with.
abbrev pub Declared : (ℕ → ℕ) → Call → Type 0
Declared limits (acquire_call key limit ttl_ms token now) = limit ≡ limits key
Declared limits (release_call l) = Unit

abbrev pub AllDeclared : (ℕ → ℕ) → List Call → Type 0
AllDeclared limits [] = Unit
AllDeclared limits (c ∷ cs) = Declared limits c × AllDeclared limits cs

-- The leases in use, by key and token with their expiry: those that the calls returned, less those
-- released and those that had expired when somebody last asked for the key. It is kept from what
-- `acquire` returns, not from what the backend holds.
abbrev pub InUse : Type 0
InUse = ℕ → Dict ℕ ℕ

abbrev pub unexpired : ℕ → Dict ℕ ℕ → Dict ℕ ℕ
unexpired now ts = filter (λ e. ltb now e.1) ts

abbrev pub granted : Option Lease → Dict ℕ ℕ → Dict ℕ ℕ
granted none ts = ts
granted (some l) ts = insert l.token l.expires_at_ms ts

unfoldable pub hold : Call → Backend → InUse → InUse
unfolding acquire
hold (acquire_call key limit ttl_ms token now) b u j =
    if nat_beq key j
    then granted (acquire key limit ttl_ms token now b).0 (unexpired now (u j))
    else u j
hold (release_call l) b u j = if nat_beq l.key j then remove l.token (u j) else u j

-- The leases in use after some calls.
unfoldable pub held : List Call → Backend → InUse → InUse
unfolding hold call
held [] b u = u
held (c ∷ cs) b u = held cs (call c b) (hold c b u)
