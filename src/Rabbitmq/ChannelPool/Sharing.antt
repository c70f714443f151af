-- ===== src/Rabbitmq/ChannelPool/Sharing.antt =====
-- No channel is in two hands, and the pool never outgrows its size.
use remoulade.Prelude.{
  ℕ, zero, suc, ◌+◌, ◌≤◌, ◌≡◌, refl, Bool, true, List, [], ◌∷◌, Option, none, some, length, ltb,
  nat_beq, nat_beq_iff, any, if◌then◌else◌, arith,
}
use remoulade.Rabbitmq.ChannelPool.{
  ChannelPool, put, put_nones, new, acquire, take_out, release, drain, clear,
}

-- What threads do with the pool, in the order of its queue's lock.
pub data Step : Type 0 where
  acquired cleared : Step
  released : ℕ → Bool → Step

unfoldable pub step : Step → ChannelPool → ChannelPool
unfolding acquire release clear
step acquired p = (acquire p).1
step cleared p = (clear p).1
step (released c is_closed) p = release c is_closed p

unfoldable pub steps : List Step → ChannelPool → ChannelPool
steps [] p = p
steps (s ∷ ss) p = steps ss (step s p)

abbrev pub count : ℕ → List ℕ → ℕ
count c [] = 0
count c (d ∷ ds) = (if nat_beq c d then 1 else 0) + count c ds

-- A channel is once in the pool or in a thread's hands at most, and only if it has been made.
pub record IsShared (p : ChannelPool) : Type 0 where
  pub bounded : length p.pool ≤ p.pool_size
  pub once : (c : ℕ) → count c (drain p.pool) + count c p.held ≤ (if ltb c p.fresh then 1 else 0)

length-put :
    (n : ℕ) (c : Option ℕ) (pool : List (Option ℕ)) → length pool ≤ n → length (put n c pool) ≤ n
unfolding put
length-put n c pool h = ground arith

length-put_nones :
    (k n : ℕ) (pool : List (Option ℕ)) → length pool ≤ n → length (put_nones k n pool) ≤ n
unfolding put_nones
length-put_nones zero n pool h = h
length-put_nones (suc k) n pool h =
    length-put_nones k n (put n none pool) (length-put n none pool h)

drain-put_nones : (k n : ℕ) (pool : List (Option ℕ)) → drain (put_nones k n pool) ≡ drain pool
unfolding put_nones drain put
drain-put_nones zero n pool = refl
drain-put_nones (suc k) n pool =
    ground (arith, drain-put_nones k n pool, drain-put_nones k n (none ∷ pool))

count-take_out :
    (c d : ℕ) (ds : List ℕ)
    → any (nat_beq d) ds ≡ true
    → count c (take_out d ds) + (if nat_beq c d then 1 else 0) ≡ count c ds
unfolding take_out
count-take_out c d [] h = ground arith
count-take_out c d (e ∷ ds) h =
    ground (arith, nat_beq_iff d e, nat_beq_iff c e, nat_beq_iff c d, count-take_out c d ds)

count-put :
    (c n : ℕ) (d : ℕ) (is_closed : Bool) (pool : List (Option ℕ))
    → count c (drain (put n (if is_closed then none else some d) pool))
      ≤ count c (drain pool) + (if nat_beq c d then 1 else 0)
unfolding put drain
count-put c n d is_closed pool = ground arith

acquire-IsShared : (p : ChannelPool) → IsShared p → IsShared (acquire p).1
unfolding acquire drain
acquire-IsShared p h = record {
  bounded = ground (arith, h.bounded);
  once = λ c. ground (arith, h.once c, nat_beq_iff c p.fresh);
}

release-IsShared :
    (c : ℕ) (is_closed : Bool) (p : ChannelPool) → IsShared p → IsShared (release c is_closed p)
unfolding release
release-IsShared c is_closed p h = record {
  bounded =
      ground (arith, h.bounded, length-put p.pool_size (if is_closed then none else some c) p.pool);
  once = λ d.
      ground
        (arith, h.once d, count-put d p.pool_size c is_closed p.pool, count-take_out d c p.held);
}

clear-IsShared : (p : ChannelPool) → IsShared p → IsShared (clear p).1
unfolding clear
clear-IsShared p h = record {
  bounded = length-put_nones p.pool_size p.pool_size [] (omega arith);
  once = λ c. ground (arith, h.once c, drain-put_nones p.pool_size p.pool_size []);
}

step-IsShared : (s : Step) (p : ChannelPool) → IsShared p → IsShared (step s p)
unfolding step
step-IsShared acquired p h = acquire-IsShared p h
step-IsShared cleared p h = clear-IsShared p h
step-IsShared (released c is_closed) p h = release-IsShared c is_closed p h

new-IsShared : (n : ℕ) → IsShared (new n)
unfolding new drain
new-IsShared n = record {
  bounded = length-put_nones n n [] (omega arith);
  once = λ c. ground (arith, drain-put_nones n n []);
}

steps_keep : (ss : List Step) (p : ChannelPool) → IsShared p → IsShared (steps ss p)
unfolding steps
steps_keep [] p h = h
steps_keep (s ∷ ss) p h = steps_keep ss (step s p) (step-IsShared s p h)

-- After any sequence of acquires, releases and clears of a new pool, of any number of threads, no
-- channel is in two threads' hands, nor in one's and in the pool at once, and the pool holds no
-- more than `pool_size` entries.
pub steps-IsShared : (n : ℕ) (ss : List Step) → IsShared (steps ss (new n))
steps-IsShared n ss = steps_keep ss (new n) (new-IsShared n)
