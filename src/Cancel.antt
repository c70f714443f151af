-- ===== src/Cancel.antt =====
-- remoulade/cancel: the in-memory backend (backends/stub.py) and the middleware that refuses cancelled
-- messages (middleware.py). A message's and a composition's identifier are keys of one table; one
-- that is None or empty is none.
pub mod Spreading
mod Samples
use remoulade.Prelude.{
  nat_eq, ℕ, ◌+◌, Bool, true, false, ◌||◌, List, [], ◌∷◌, Option, none, some, ltb, if◌then◌else◌,
}
use remoulade.Prelude.Dict.{Dict, lookup, insert}

-- `self.cancellations.get(key, -inf) > time.time() - self.cancellation_ttl`, the time to live moved to
-- the other side.
abbrev pub is_fresh : ℕ → ℕ → Option ℕ → Bool
is_fresh now ttl none = false
is_fresh now ttl (some timestamp) = ltb now (timestamp + ttl)

unfoldable pub key_is_canceled : ℕ → ℕ → Option ℕ → Dict ℕ ℕ → Bool
key_is_canceled now ttl none d = false
key_is_canceled now ttl (some key) d = is_fresh now ttl (lookup key d)

unfoldable pub is_canceled : ℕ → ℕ → Option ℕ → Option ℕ → Dict ℕ ℕ → Bool
unfolding key_is_canceled
is_canceled now ttl message_id composition_id d =
    key_is_canceled now ttl message_id d || key_is_canceled now ttl composition_id d

unfoldable pub cancel : ℕ → List ℕ → Dict ℕ ℕ → Dict ℕ ℕ
cancel now [] d = d
cancel now (i ∷ is) d = cancel now is (insert i now d)

-- What the hooks read of a message.
pub record Processed : Type 0 where
  pub message_id : ℕ
  pub composition_id : Option ℕ
  pub cancel_on_error : Bool
  pub raises : Bool

-- Whether `before_process_message` raises MessageCanceled.
unfoldable pub before_process_message : ℕ → ℕ → Processed → Dict ℕ ℕ → Bool
unfolding is_canceled
before_process_message now ttl p d = is_canceled now ttl (some p.message_id) p.composition_id d

-- `message.options["composition_id"]` raises a KeyError, here `none`, where it is not set.
unfoldable pub cancel_composition : ℕ → Option ℕ → Dict ℕ ℕ → Option (Dict ℕ ℕ)
unfolding cancel
cancel_composition now none d = none
cancel_composition now (some c) d = some (cancel now (c ∷ []) d)

unfoldable pub after_process_message : ℕ → Processed → Dict ℕ ℕ → Option (Dict ℕ ℕ)
unfolding cancel_composition
after_process_message now p d =
    if p.raises
    then if p.cancel_on_error then cancel_composition now p.composition_id d else some d
    else some d
