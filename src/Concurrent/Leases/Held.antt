-- ===== src/Concurrent/Leases/Held.antt =====
-- A message that has been processed, skipped or cancelled holds no lease, whatever the messages that
-- ran beside it did.
use remoulade.Prelude.{
  nat_eq, ℕ, zero, suc, ◌+◌, ◌<◌, ◌≡◌, ◌≢◌, ◌⊎◌, inl, inr, refl, sym, ap, ◌∙◌, subst, List, [], ◌∷◌,
  ◌++◌, Option, none, some, Bool-cases, nat_beq_iff, ltb, arith,
}
use remoulade.Prelude.Dict.{lookup, insert, remove, lookup-insert, lookup-remove}
use remoulade.Concurrent.{Lease, Backend, tokens, acquire, release, or_empty}
use remoulade.Concurrent.Limit.{tokens-release}
use remoulade.Concurrent.Leases.{
  ℤ, pos, negsuc, Leases, Middleware, Options, acquired, default_ttl_ms, fresh, entry, purge_leases,
  store_lease, pop_leases, acquire_for, settle, enforce, before_process_message, release_all,
  release_leases, ttl_of,
}

-- What the process does for its messages, in the order that the table's lock gives: one starts, at a
-- time, or one is over.
pub data Step : Type 0 where
  started : (default now message_id : ℕ) → Options → Step
  over : (message_id : ℕ) → Step

unfoldable pub step : Step → Middleware → Middleware
unfolding before_process_message release_leases
step (started default now message_id o) s = (before_process_message default now message_id o s).1
step (over message_id) s = release_leases message_id s

unfoldable pub steps : List Step → Middleware → Middleware
unfolding step
steps [] s = s
steps (t ∷ ts) s = steps ts (step t s)

-- A step of another message, before a given time.
abbrev pub IsOther : (message_id until : ℕ) → Step → Type 0
IsOther i until (started default now j o) = (j ≢ i) × (now < until)
IsOther i until (over j) = j ≢ i

abbrev pub AreOthers : (message_id until : ℕ) → List Step → Type 0
AreOthers i until [] = Unit
AreOthers i until (t ∷ ts) = IsOther i until t × AreOthers i until ts

abbrev In : Lease → List Lease → Type 0
In l [] = ⊥
In l (x ∷ xs) = (x ≡ l) ⊎ In l xs

-- The table has the lease under the message.
abbrev Keeps : ℕ → Lease → Leases → Type 0
Keeps i l m = (ls : List Lease) × (lookup i m ≡ some ls) × In l ls

In-last : (l : Lease) (ls : List Lease) → In l (ls ++ l ∷ [])
In-last l [] = inl refl
In-last l (x ∷ ls) = inr (In-last l ls)

In-fresh :
    (now : ℕ) (l : Lease) (ls : List Lease)
    → now < l.expires_at_ms + default_ttl_ms
    → In l ls
    → In l (fresh now ls)
unfolding fresh
In-fresh now l [] h i = elim i [ ]
In-fresh now l (x ∷ ls) h (inl e) = elim (Bool-cases (ltb now (x.expires_at_ms + default_ttl_ms))) [
  | inl b ↦ rw b (inl e)
  | inr b ↦ absurd (ground (arith, ap (λ y. y.expires_at_ms) e))
]
In-fresh now l (x ∷ ls) h (inr i) = elim (Bool-cases (ltb now (x.expires_at_ms + default_ttl_ms))) [
  | inl b ↦ rw b (inr (In-fresh now l ls h i))
  | inr b ↦ rw b (In-fresh now l ls h i)
]

entry-same : (k : ℕ) (l : Lease) (ls : List Lease) (m : Leases) → In l ls → Keeps k l (entry k ls m)
unfolding lookup
entry-same k l [] m i = elim i [ ]
entry-same k l (x ∷ ls) m i = (x ∷ ls, ground (arith, nat_beq_iff k k), i)

entry-other :
    (i k : ℕ) (ls : List Lease) (m : Leases) → k ≢ i → lookup i (entry k ls m) ≡ lookup i m
unfolding lookup
entry-other i k [] m h = refl
entry-other i k (x ∷ ls) m h = ground (arith, nat_beq_iff k i)

Keeps-same :
    (i : ℕ) (l : Lease) (m m' : Leases) → lookup i m ≡ lookup i m' → Keeps i l m' → Keeps i l m
Keeps-same i l m m' e (ls, f, inside) = (ls, e ∙ f, inside)

lookup-head :
    (i k : ℕ) (xs ls : List Lease) (m : Leases)
    → lookup i ((k, xs) ∷ m) ≡ some ls
    → ((k ≡ i) × (xs ≡ ls)) ⊎ ((k ≢ i) × (lookup i m ≡ some ls))
unfolding lookup
lookup-head i k xs ls m e = ground (arith, nat_beq_iff k i)

Keeps-purge_leases :
    (now i : ℕ) (l : Lease) (m : Leases)
    → now < l.expires_at_ms + default_ttl_ms
    → Keeps i l m
    → Keeps i l (purge_leases now m)
unfolding lookup purge_leases
Keeps-purge_leases now i l [] h (ls, e, inside) = absurd (ground arith)
Keeps-purge_leases now i l ((k, xs) ∷ m) h (ls, e, inside) = elim (lookup-head i k xs ls m e) [
  | inl (same, whole) ↦
      subst (λ j. Keeps j l (purge_leases now ((k, xs) ∷ m))) same
        (entry-same k l (fresh now xs) (purge_leases now m)
          (In-fresh now l xs h (subst (In l) (sym whole) inside)))
  | inr (apart, later) ↦
      Keeps-same i l (entry k (fresh now xs) (purge_leases now m)) (purge_leases now m)
        (entry-other i k (fresh now xs) (purge_leases now m) apart)
        (Keeps-purge_leases now i l m h (ls, later, inside))
]

Keeps-store_lease :
    (now i j : ℕ) (l x : Lease) (m : Leases)
    → j ≢ i
    → now < l.expires_at_ms + default_ttl_ms
    → Keeps i l m
    → Keeps i l (store_lease now j x m)
unfolding store_lease
Keeps-store_lease now i j l x m apart h k =
    let m' = purge_leases now m in
    let ls = or_empty (lookup j m') ++ x ∷ [] in
    Keeps-same i l (insert j ls m') m' (ground (arith, nat_beq_iff j i, lookup-insert j i ls m'))
      (Keeps-purge_leases now i l m h k)

-- A message that starts leaves the leases of the others.
Keeps-settle :
    (now i j : ℕ) (o : Options) (l : Lease) (m : Leases) (x : Option Lease) (b : Backend)
    → j ≢ i
    → now < l.expires_at_ms + default_ttl_ms
    → Keeps i l m
    → Keeps i l (settle now j o m x b).1.leases
unfolding settle
Keeps-settle now i j o l m none b apart h k = k
Keeps-settle now i j o l m (some x) b apart h k = Keeps-store_lease now i j l x m apart h k

Keeps-enforce :
    (default now i j : ℕ) (o : Options) (s : Middleware) (limit : Option ℤ) (l : Lease)
    → j ≢ i
    → now < l.expires_at_ms + default_ttl_ms
    → Keeps i l s.leases
    → Keeps i l (enforce default now j o s limit).1.leases
unfolding enforce acquire_for
Keeps-enforce default now i j o s none l apart h k = k
Keeps-enforce default now i j o s (some (pos zero)) l apart h k = k
Keeps-enforce default now i j o s (some (pos (suc n))) l apart h k =
    let r = acquire o.concurrency_key (suc n) (ttl_of default o.concurrency_ttl) j now s.backend in
    Keeps-settle now i j o l s.leases r.0 r.1 apart h k
Keeps-enforce default now i j o s (some (negsuc _)) l apart h k = k

Keeps-step :
    (i : ℕ) (l : Lease) (t : Step) (s : Middleware)
    → IsOther i (l.expires_at_ms + default_ttl_ms) t
    → Keeps i l s.leases
    → Keeps i l (step t s).leases
unfolding step before_process_message release_leases pop_leases
Keeps-step i l (started default now j o) s (apart, h) k =
    Keeps-enforce default now i j o s o.concurrency_limit l apart h k
Keeps-step i l (over j) s apart k =
    Keeps-same i l (remove j s.leases) s.leases
      (ground (arith, nat_beq_iff j i, lookup-remove j i s.leases)) k

Keeps-steps :
    (i : ℕ) (l : Lease) (ts : List Step) (s : Middleware)
    → AreOthers i (l.expires_at_ms + default_ttl_ms) ts
    → Keeps i l s.leases
    → Keeps i l (steps ts s).leases
unfolding steps
Keeps-steps i l [] s others k = k
Keeps-steps i l (t ∷ ts) s (first, others) k =
    Keeps-steps i l ts (step t s) others (Keeps-step i l t s first k)

-- The lease that a message took, for its key and under its own identifier.
record Took (key message_id expires_at_ms : ℕ) (l : Lease) : Type 0 where
  of_key : l.key ≡ key
  of_message : l.token ≡ message_id
  until : l.expires_at_ms ≡ expires_at_ms

acquire-Took :
    (key limit ttl_ms token now : ℕ) (b : Backend) (l : Lease)
    → (acquire key limit ttl_ms token now b).0 ≡ some l
    → Took key token (now + ttl_ms) l
unfolding acquire
acquire-Took key limit ttl_ms token now b l e = record {
  of_key = ground arith;
  of_message = ground arith;
  until = ground arith;
}

lookup-store_lease : (now i : ℕ) (l : Lease) (m : Leases) → Keeps i l (store_lease now i l m)
unfolding store_lease
lookup-store_lease now i l m =
    let m' = purge_leases now m in
    let ls = or_empty (lookup i m') in
    (
      ls ++ l ∷ [],
      ground (arith, nat_beq_iff i i, lookup-insert i i (ls ++ l ∷ []) m'),
      In-last l ls,
    )

settle-Keeps :
    (now i expires_at_ms : ℕ) (o : Options) (m : Leases) (x : Option Lease) (b : Backend)
    → ((l : Lease) → x ≡ some l → Took o.concurrency_key i expires_at_ms l)
    → (settle now i o m x b).0 ≡ acquired
    → (l : Lease) × Took o.concurrency_key i expires_at_ms l
      × Keeps i l (settle now i o m x b).1.leases
unfolding settle
settle-Keeps now i expires o m none b f h = absurd (ground arith)
settle-Keeps now i expires o m (some l) b f h = (l, f l refl, lookup-store_lease now i l m)

enforce-Keeps :
    (default now i : ℕ) (o : Options) (s : Middleware) (limit : Option ℤ)
    → (enforce default now i o s limit).0 ≡ acquired
    → (l : Lease) × Took o.concurrency_key i (now + ttl_of default o.concurrency_ttl) l
      × Keeps i l (enforce default now i o s limit).1.leases
unfolding enforce acquire_for
enforce-Keeps default now i o s none h = absurd (ground arith)
enforce-Keeps default now i o s (some (pos zero)) h = absurd (ground arith)
enforce-Keeps default now i o s (some (pos (suc n))) h =
    let ttl_ms = ttl_of default o.concurrency_ttl in
    let r = acquire o.concurrency_key (suc n) ttl_ms i now s.backend in
    settle-Keeps now i (now + ttl_ms) o s.leases r.0 r.1
      (acquire-Took o.concurrency_key (suc n) ttl_ms i now s.backend) h
enforce-Keeps default now i o s (some (negsuc _)) h = absurd (ground arith)

lookup-release : (l : Lease) (b : Backend) → lookup l.token (tokens l.key (release l b)) ≡ none
lookup-release l b = ground (
  arith,
  nat_beq_iff l.key l.key,
  nat_beq_iff l.token l.token,
  tokens-release l l.key b,
  lookup-remove l.token l.token (tokens l.key b),
)

-- A token that is gone stays gone.
release-gone :
    (l : Lease) (key token : ℕ) (b : Backend)
    → lookup token (tokens key b) ≡ none
    → lookup token (tokens key (release l b)) ≡ none
release-gone l key token b e =
    ground (arith, tokens-release l key b, lookup-remove l.token token (tokens key b))

release_all-gone :
    (ls : List Lease) (key token : ℕ) (b : Backend)
    → lookup token (tokens key b) ≡ none
    → lookup token (tokens key (release_all ls b)) ≡ none
unfolding release_all
release_all-gone [] key token b e = e
release_all-gone (l ∷ ls) key token b e =
    release_all-gone ls key token (release l b) (release-gone l key token b e)

lookup-release_all :
    (ls : List Lease) (l : Lease) (b : Backend)
    → In l ls
    → lookup l.token (tokens l.key (release_all ls b)) ≡ none
unfolding release_all
lookup-release_all [] l b i = elim i [ ]
lookup-release_all (x ∷ ls) l b (inl e) =
    release_all-gone ls l.key l.token (release x b)
      (subst (λ y. lookup y.token (tokens y.key (release x b)) ≡ none) e (lookup-release x b))
lookup-release_all (x ∷ ls) l b (inr i) = lookup-release_all ls l (release x b) i

release_leases-gone :
    (i : ℕ) (l : Lease) (s : Middleware)
    → Keeps i l s.leases
    → lookup l.token (tokens l.key (release_leases i s).backend) ≡ none
unfolding release_leases pop_leases
release_leases-gone i l s (ls, e, inside) = rw e (lookup-release_all ls l s.backend inside)

-- A message that took a slot, whatever the state of the middleware and its backend, holds none once
-- its leases are released: the backend has no token of it under its key. In between any other
-- messages may start, take slots and end, in any order, as long as no other message starts later than
-- the time for which the table keeps the lease: its expiry and the middleware's five minutes more.
pub before_process_message-release_leases :
    (default now message_id : ℕ) (o : Options) (s : Middleware) (ts : List Step)
    → (before_process_message default now message_id o s).0 ≡ acquired
    → AreOthers message_id (now + ttl_of default o.concurrency_ttl + default_ttl_ms) ts
    → lookup message_id (
        tokens o.concurrency_key
          (release_leases message_id
            (steps ts (before_process_message default now message_id o s).1)).backend)
      ≡ none
unfolding before_process_message
before_process_message-release_leases default now i o s ts h others =
    let (l, took, k) = enforce-Keeps default now i o s o.concurrency_limit h in
    let s' = (enforce default now i o s o.concurrency_limit).1 in
    let others' = subst (λ e. AreOthers i (e + default_ttl_ms) ts) (sym took.until) others in
    let gone = release_leases-gone i l (steps ts s') (Keeps-steps i l ts s' others' k) in
    subst (λ key. lookup i (tokens key (release_leases i (steps ts s')).backend) ≡ none) took.of_key
      (subst (λ t. lookup t (tokens l.key (release_leases i (steps ts s')).backend) ≡ none)
        took.of_message gone)
