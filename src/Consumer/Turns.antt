-- ===== src/Consumer/Turns.antt =====
-- The turns of a consumer thread, and counts of the messages that it has, has settled, has forgotten
-- and has sent on.
use remoulade.Prelude.{
  ℕ, suc, ◌+◌, ◌≤◌, ◌≡◌, refl, Bool, true, false, if◌then◌else◌, List, [], ◌∷◌, ◌++◌, Option, leb,
  arith, nat_eq,
}
use remoulade.Prelude.Dict.{Dict}
use remoulade.Message.{Message}
use remoulade.Consumer.PriorityQueue.{Queue, put, IsSorted}
use remoulade.Consumer.{
  Consumer, Event, delayed, enqueued, processed, forgotten, Failure, connection_error, unexpected,
  Attempt, went_well, enqueue_raises, settle_raises, ready, forget_all, abandon, sent_on, deliver,
  due, handle_delayed_messages, handle_message,
}

-- What the thread does in one turn of its loop: a message from the broker, or a pass over the
-- delayed messages with the readings of the clock and how sending them on goes.
pub data Turn : Type 0 where
  received : Option Failure → Message → Turn
  passed : (ℕ → ℕ) → (ℕ → Attempt) → Turn

unfoldable pub turn : Dict ℕ ℕ → Turn → Consumer → Consumer
unfolding handle_message handle_delayed_messages
turn actors (received fails m) c = handle_message actors fails m c
turn actors (passed clock attempts) c = handle_delayed_messages clock attempts c

unfoldable pub turns : Dict ℕ ℕ → List Turn → Consumer → Consumer
turns actors [] c = c
turns actors (t ∷ ts) c = turns actors ts (turn actors t c)

abbrev pub geb : ℕ → ℕ → Bool
geb a b = leb b a

-- The delay queue is in the order of the etas, the work queue in that of the priorities.
pub record IsOrdered (c : Consumer) : Type 0 where
  pub delays : IsSorted leb c.delay_queue
  pub works : IsSorted geb c.work_queue

module _ (p : Message → Bool) where
  -- The messages that a predicate takes: of a queue, of those settled or forgotten, of those that
  -- were enqueued, and of those acknowledged, as what they are enqueued as.
  abbrev pub one : Message → ℕ
  one m = if p m then 1 else 0

  abbrev pub held : Queue Message → ℕ
  held [] = 0
  held ((k, m) ∷ q) = one m + held q

  abbrev pub gone : List Event → ℕ
  gone [] = 0
  gone (delayed m ∷ es) = gone es
  gone (enqueued m ∷ es) = gone es
  gone (processed b m ∷ es) = one m + gone es
  gone (forgotten m ∷ es) = one m + gone es

  abbrev pub enqueues : List Event → ℕ
  enqueues [] = 0
  enqueues (delayed m ∷ es) = enqueues es
  enqueues (enqueued m ∷ es) = one m + enqueues es
  enqueues (processed b m ∷ es) = enqueues es
  enqueues (forgotten m ∷ es) = enqueues es

  abbrev pub acks : List Event → ℕ
  acks [] = 0
  acks (delayed m ∷ es) = acks es
  acks (enqueued m ∷ es) = acks es
  acks (processed true m ∷ es) = acks es
  acks (processed false m ∷ es) = one (ready m) + acks es
  acks (forgotten m ∷ es) = acks es

  -- Those that the consumer has in one of its queues, has settled or has forgotten.
  abbrev pub accounted : Consumer → ℕ
  accounted c = held c.delay_queue + held c.work_queue + gone c.log

  abbrev pub arrivals : List Turn → ℕ
  arrivals [] = 0
  arrivals (received fails m ∷ ts) = one m + arrivals ts
  arrivals (passed clock attempts ∷ ts) = arrivals ts

  pub gone-append : (es fs : List Event) → gone (es ++ fs) ≡ gone es + gone fs
  gone-append [] fs = omega arith
  gone-append (delayed m ∷ es) fs = gone-append es fs
  gone-append (enqueued m ∷ es) fs = gone-append es fs
  gone-append (processed b m ∷ es) fs = omega (arith, gone-append es fs)
  gone-append (forgotten m ∷ es) fs = omega (arith, gone-append es fs)

  pub enqueues-append : (es fs : List Event) → enqueues (es ++ fs) ≡ enqueues es + enqueues fs
  enqueues-append [] fs = omega arith
  enqueues-append (delayed m ∷ es) fs = enqueues-append es fs
  enqueues-append (enqueued m ∷ es) fs = omega (arith, enqueues-append es fs)
  enqueues-append (processed b m ∷ es) fs = enqueues-append es fs
  enqueues-append (forgotten m ∷ es) fs = enqueues-append es fs

  pub acks-append : (es fs : List Event) → acks (es ++ fs) ≡ acks es + acks fs
  acks-append [] fs = omega arith
  acks-append (delayed m ∷ es) fs = acks-append es fs
  acks-append (enqueued m ∷ es) fs = acks-append es fs
  acks-append (processed true m ∷ es) fs = acks-append es fs
  acks-append (processed false m ∷ es) fs = omega (arith, acks-append es fs)
  acks-append (forgotten m ∷ es) fs = acks-append es fs

  pub held-append : (q r : Queue Message) → held (q ++ r) ≡ held q + held r
  held-append [] r = omega arith
  held-append ((k, m) ∷ q) r = omega (arith, held-append q r)

  pub held-put :
      (before : ℕ → ℕ → Bool) (k : ℕ) (m : Message) (q : Queue Message)
      → held (put before k m q) ≡ one m + held q
  unfolding put
  held-put before k m [] = refl
  held-put before k m ((j, n) ∷ q) = ground (arith, held-put before k m q)

  pub held-due :
      (clock : ℕ → ℕ) (q : Queue Message) → held (due clock q).0 + held (due clock q).1 ≡ held q
  unfolding due
  held-due clock [] = refl
  held-due clock ((eta, m) ∷ q) =
      ground (arith, held-put leb eta m q, held-due (λ n. clock (suc n)) q)

  pub forget_all-counts :
      (q : Queue Message)
      → (gone (forget_all q) ≡ held q) × (acks (forget_all q) ≡ 0) × (enqueues (forget_all q) ≡ 0)
  forget_all-counts [] = (refl, refl, refl)
  forget_all-counts ((k, m) ∷ q) = let (a, b, c) = forget_all-counts q in (omega (arith, a), b, c)

  pub abandon-counts :
      (f : Failure) (m : Message) (q : Queue Message)
      → let r = abandon f m q in
        (gone r.0 + held r.1 ≡ one m + held q) × (acks r.0 ≡ 0) × (enqueues r.0 ≡ 0)
  abandon-counts connection_error m q =
      let (a, b, c) = forget_all-counts q in (omega (arith, a), b, c)
  abandon-counts unexpected m q = (omega arith, refl, refl)

  pub sent_on-counts :
      (a : Attempt) (m : Message) (q : Queue Message) (later : List Event × Queue Message)
      → gone later.0 + held later.1 ≡ held q
      → acks later.0 ≤ enqueues later.0
      → let r = sent_on a m q later in
        (gone r.0 + held r.1 ≡ one m + held q) × (acks r.0 ≤ enqueues r.0)
  sent_on-counts went_well m q later e le = (omega (arith, e), omega (arith, le))
  sent_on-counts (enqueue_raises f) m q later e le =
      let (a, b, c) = abandon-counts f m q in (a, omega (arith, b))
  sent_on-counts (settle_raises f) m q later e le =
      let (a, b, c) = abandon-counts f m q in (a, omega (arith, b))

  pub deliver-counts :
      (attempts : ℕ → Attempt) (sent rest : Queue Message)
      → let r = deliver attempts sent rest in
        (gone r.0 + held r.1 ≡ held sent + held rest) × (acks r.0 ≤ enqueues r.0)
  unfolding deliver
  deliver-counts attempts [] rest = (refl, omega arith)
  deliver-counts attempts ((eta, m) ∷ sent) rest =
      let later = deliver (λ n. attempts (suc n)) sent rest in
      let (e, le) = deliver-counts (λ n. attempts (suc n)) sent rest in
      let (a, b) =
        sent_on-counts (attempts 0) m (sent ++ rest) later (omega (arith, e, held-append sent rest))
          le in
      (omega (arith, a, held-append sent rest), b)
