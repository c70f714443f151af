-- ===== src/Rabbitmq/ChannelPool.antt =====
-- The class ChannelPool, with the channels that threads hold. A channel is a number; None in the
-- pool stands for one that is made when it is asked for.
pub mod Sharing
use remoulade.Prelude.{
  nat_eq, ℕ, zero, suc, ◌+◌, Bool, true, false, List, [], ◌∷◌, ◌++◌, Option, none, some, length,
  leb, nat_beq, any, replicate, if◌then◌else◌,
}

-- `fresh` is the next channel that the factory makes, `held` are the channels in use.
pub record ChannelPool : Type 0 where
  pub pool_size : ℕ
  pub pool : List (Option ℕ)
  pub held : List ℕ
  pub fresh : ℕ

-- `put_nowait` on a LifoQueue, where Full is passed over.
unfoldable pub put : ℕ → Option ℕ → List (Option ℕ) → List (Option ℕ)
put pool_size channel pool = if leb pool_size (length pool) then pool else channel ∷ pool

unfoldable pub put_nones : ℕ → ℕ → List (Option ℕ) → List (Option ℕ)
unfolding put
put_nones zero pool_size pool = pool
put_nones (suc n) pool_size pool = put_nones n pool_size (put pool_size none pool)

unfoldable pub new : ℕ → ChannelPool
unfolding put_nones
new pool_size = record {
  pool_size = pool_size;
  pool = put_nones pool_size pool_size [];
  held = [];
  fresh = 0;
}

-- `get` and the factory; an empty pool raises ChannelPoolTimeout, here `none`.
unfoldable pub acquire : ChannelPool → Option ℕ × ChannelPool
acquire p = elim p.pool [
  | [] ↦ (none, p)
  | none ∷ pool ↦
      (some p.fresh, record p { pool = pool; held = p.fresh ∷ p.held; fresh = suc p.fresh })
  | some c ∷ pool ↦ (some c, record p { pool = pool; held = c ∷ p.held })
]

unfoldable pub take_out : ℕ → List ℕ → List ℕ
take_out c [] = []
take_out c (d ∷ ds) = if nat_beq c d then ds else d ∷ take_out c ds

-- The `finally` of `acquire`, for a channel that is held.
unfoldable pub release : ℕ → Bool → ChannelPool → ChannelPool
unfolding put take_out
release c is_closed p =
    if any (nat_beq c) p.held
    then record p {
      pool = put p.pool_size (if is_closed then none else some c) p.pool;
      held = take_out c p.held;
    }
    else p

-- `while len(self) > 0: self._pool.get_nowait()`, with the channels that are closed.
unfoldable pub drain : List (Option ℕ) → List ℕ
drain [] = []
drain (none ∷ pool) = drain pool
drain (some c ∷ pool) = c ∷ drain pool

unfoldable pub clear : ChannelPool → List ℕ × ChannelPool
unfolding drain put_nones
clear p = (drain p.pool, record p { pool = put_nones p.pool_size p.pool_size [] })
