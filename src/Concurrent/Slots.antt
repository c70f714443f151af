-- ===== src/Concurrent/Slots.antt =====
-- When an acquire is granted, and that a release gives the slot back.
use remoulade.Prelude.{
  nat_eq, ℕ, ◌+◌, ◌≤◌, ◌<◌, ◌≡◌, [], ◌∷◌, none, some, length, ltb, nat_beq_iff, arith,
  length-filter-le, ◌↔◌, ◌≢◌,
}
use remoulade.Prelude.Dict.{Dict, insert, remove, length-remove-le}
use remoulade.Concurrent.{Lease, Backend, tokens, live, purge, acquire, release}
use remoulade.Concurrent.Limit.{tokens-purge, tokens-insert, tokens-release}

length-remove-insert-le : (k v : ℕ) (m : Dict ℕ ℕ) → length (remove k (insert k v m)) ≤ length m
unfolding remove insert
length-remove-insert-le k v [] = ground (arith, nat_beq_iff k k)
length-remove-insert-le k v ((j, w) ∷ m) =
    ground (arith, nat_beq_iff j k, length-remove-insert-le k v m, length-remove-le k m)

length-live-le : (now : ℕ) (ts : Dict ℕ ℕ) → length (live now ts) ≤ length ts
unfolding live
length-live-le now ts = length-filter-le (λ e. ltb now e.1) ts

tokens-purge-same :
    (key now : ℕ) (b : Backend) → tokens key (purge key now b) ≡ live now (tokens key b)
tokens-purge-same key now b = ground (arith, nat_beq_iff key key, tokens-purge key key now b)

-- An acquire is refused exactly when the tokens of the key that have not expired reach the limit.
pub acquire-full :
    (key limit ttl_ms token now : ℕ) (b : Backend)
    → (acquire key limit ttl_ms token now b).0 ≡ none ↔ limit ≤ length (live now (tokens key b))
unfolding acquire
acquire-full key limit ttl_ms token now b = ground (arith, tokens-purge-same key now b)

tokens-acquire-release :
    (key limit ttl_ms token now : ℕ) (b : Backend) (l : Lease)
    → (acquire key limit ttl_ms token now b).0 ≡ some l
    → length (tokens key (release l (acquire key limit ttl_ms token now b).1)) < limit
unfolding acquire
tokens-acquire-release key limit ttl_ms token now b l e =
    let b' = purge key now b in
    let ts = tokens key b' in
    let b'' = insert key (insert token (now + ttl_ms) ts) b' in
    ground (
      arith,
      nat_beq_iff key key,
      tokens-insert key key (insert token (now + ttl_ms) ts) b',
      tokens-release l key b'',
      length-remove-insert-le token (now + ttl_ms) ts,
    )

-- Releasing a lease that was granted frees its slot: whoever asks next for the key, at any time and
-- with the same limit, is granted a lease.
pub acquire-release :
    (key limit ttl_ms token now : ℕ) (b : Backend) (l : Lease)
    → (acquire key limit ttl_ms token now b).0 ≡ some l
    → (ttl_ms' token' now' : ℕ)
    → (acquire key limit ttl_ms' token' now' (release l (acquire key limit ttl_ms token now b).1)).0
      ≢ none
acquire-release key limit ttl_ms token now b l e ttl_ms' token' now' =
    let b' = release l (acquire key limit ttl_ms token now b).1 in
    ground (
      arith,
      acquire-full key limit ttl_ms' token' now' b',
      tokens-acquire-release key limit ttl_ms token now b l e,
      length-live-le now' (tokens key b'),
    )
