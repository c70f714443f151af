-- ===== src/Rabbitmq/Enqueue/Retrying.antt =====
-- The loop of `_enqueue` ends, and one good attempt in time is enough.
use remoulade.Prelude.{
  ℕ, zero, suc, ◌+◌, ◌-◌, ◌≤◌, ◌<◌, ◌≡◌, ◌≢◌, refl, sym, ap, ◌∙◌, Bool, true, false, not, ◌&&◌, ◌⊎◌,
  inl, inr, Option, none, some, if◌then◌else◌, Bool-cases, arith,
}
use remoulade.Rabbitmq.Enqueue.{
  Error, amqp_connection_error, amqp_channel_error, other, Server, Broker, Outcome, sent,
  out_of_fuel, Attempt, returned, not_delivered, broken, publish, try_once, reset, stops,
  after_attempt, enqueue_loop, enqueue,
}

-- An attempt ends in an error that clears the pools, or RabbitMQ took the message in.
abbrev is_broken : Attempt → ℕ
is_broken returned = 0
is_broken not_delivered = 0
is_broken (broken e) = 1

abbrev used : Broker → ℕ
used b = b.published + b.cleared

used-try_once :
    (confirm : Bool) (d : Option Error) (p : Bool ⊎ Error) (b : Broker)
    → let r = try_once confirm d p b in
      (used r.1 + is_broken r.0 ≤ used b + 1) × (r.1.cleared ≡ b.cleared)
unfolding try_once publish
used-try_once confirm d (inl ok) b = ground arith
used-try_once confirm d (inr e) b = ground arith

-- The loop ends with at most `n` attempts used up, and `c` of the clearings are older.
Ends : (n c : ℕ) → Outcome × Broker → Type 0
Ends n c (o, b) = (o ≢ out_of_fuel) × (used b ≤ n) × (c ≤ b.cleared)

after_attempt-Ends :
    (t : Bool) (attempts n c : ℕ) (retry : Broker → Outcome × Broker) (a : Attempt) (b : Broker)
    → used b + is_broken a ≤ n
    → c ≤ b.cleared
    → (stops t attempts ≡ false
        → (b' : Broker) → used b' ≤ used b + is_broken a
        → c ≤ b'.cleared
        → Ends n c (retry b'))
    → Ends n c (after_attempt t attempts retry (a, b))
unfolding Ends after_attempt
after_attempt-Ends t attempts n c retry returned b h low rest = ((λ e. cc), omega arith, low)
after_attempt-Ends t attempts n c retry not_delivered b h low rest =
    elim (Bool-cases (stops t attempts)) [
      | inl e ↦ rw e ((λ f. cc), omega arith, low)
      | inr e ↦ rw e (rest e (record b { slept = suc b.slept }) (omega arith) low)
    ]
after_attempt-Ends t attempts n c retry (broken amqp_connection_error) b h low rest =
    elim (Bool-cases (stops t attempts)) [
      | inl e ↦ rw e ((λ f. cc), omega arith, omega arith)
      | inr e ↦ rw e (rest e (reset amqp_connection_error b) (omega arith) (omega arith))
    ]
after_attempt-Ends t attempts n c retry (broken amqp_channel_error) b h low rest =
    elim (Bool-cases (stops t attempts)) [
      | inl e ↦ rw e ((λ f. cc), omega arith, omega arith)
      | inr e ↦ rw e (rest e (reset amqp_channel_error b) (omega arith) (omega arith))
    ]
after_attempt-Ends t attempts n c retry (broken other) b h low rest = ((λ e. cc), omega arith, low)

-- `left` attempts remain after the one with the number `attempts`.
loop-Ends :
    (left attempts : ℕ) (s : Server) (confirm t : Bool) (b : Broker) (n c : ℕ)
    → attempts + left ≡ 6
    → used b + suc (if t then 0 else left) ≤ n
    → c ≤ b.cleared
    → Ends n c (enqueue_loop (suc left) s confirm t attempts b)
unfolding enqueue_loop
loop-Ends zero attempts s confirm t b n c e h low =
    let r = try_once confirm (s.declares attempts) (s.publishes attempts) b in
    let (took, same) = used-try_once confirm (s.declares attempts) (s.publishes attempts) b in
    after_attempt-Ends t attempts n c (λ b'. enqueue_loop 0 s confirm t (suc attempts) b') r.0 r.1
      (ground (arith, took)) (omega (arith, same)) (λ go b' le low'. absurd (ground arith))
loop-Ends (suc left) attempts s confirm t b n c e h low =
    let r = try_once confirm (s.declares attempts) (s.publishes attempts) b in
    let (took, same) = used-try_once confirm (s.declares attempts) (s.publishes attempts) b in
    after_attempt-Ends t attempts n c (λ b'. enqueue_loop (suc left) s confirm t (suc attempts) b')
      r.0 r.1 (ground (arith, took)) (omega (arith, same))
      (λ go b' le low'.
        loop-Ends left (suc attempts) s confirm t b' n c (omega arith) (ground (arith, took)) low')

-- Whatever RabbitMQ answers, the loop ends within its six attempts, so the fuel is enough, and within
-- one in a transaction: the messages that RabbitMQ took in and the times that an error of AMQP cleared
-- the pools, of which each attempt gives one at most, are together no more than that, and so are the
-- messages alone.
pub enqueue-Ends :
    (s : Server) (wants_confirm t : Bool) (b : Broker)
    → let r = enqueue s wants_confirm t b in
      let attempts : ℕ = if t then 1 else 6 in
      (r.0 ≢ out_of_fuel)
      × (r.1.published + r.1.cleared ≤ b.published + b.cleared + attempts)
      × (r.1.published ≤ b.published + attempts)
unfolding Ends enqueue
enqueue-Ends s wants_confirm t b =
    let attempts : ℕ = if t then 1 else 6 in
    let (ends, few, low) =
      loop-Ends 5 1 s (wants_confirm && not t) t b (b.published + b.cleared + attempts) b.cleared
        (omega arith) (ground arith) (omega arith) in
    (ends, few, omega (arith, few, low))

-- RabbitMQ answers each attempt, or fails it with an error of AMQP.
pub record OnlyAmqp (s : Server) : Type 0 where
  pub declares : (i : ℕ) → s.declares i ≢ some other
  pub publishes : (i : ℕ) → s.publishes i ≢ inr other

try_once-good :
    (confirm : Bool) (d : Option Error) (p : Bool ⊎ Error) (b : Broker)
    → d ≡ none
    → p ≡ inl true
    → (try_once confirm d p b).0 ≡ returned
unfolding try_once publish
try_once-good confirm d p b e f = rw (e, f) (ground arith)

try_once-amqp :
    (confirm : Bool) (d : Option Error) (p : Bool ⊎ Error) (b : Broker)
    → d ≢ some other
    → p ≢ inr other
    → (try_once confirm d p b).0 ≢ broken other
unfolding try_once publish
try_once-amqp confirm none (inl ok) b f g = ground arith
try_once-amqp confirm none (inr e) b f g = λ h. ground arith
try_once-amqp confirm (some d) (inl ok) b f g = λ h. ground arith
try_once-amqp confirm (some d) (inr e) b f g = λ h. ground arith

after_attempt-sent :
    (attempts : ℕ) (retry : Broker → Outcome × Broker) (a : Attempt) (b : Broker)
    → attempts < 6
    → a ≢ broken other
    → ((b' : Broker) → (retry b').0 ≡ sent)
    → (after_attempt false attempts retry (a, b)).0 ≡ sent
unfolding after_attempt
after_attempt-sent attempts retry returned b h f rest = refl
after_attempt-sent attempts retry not_delivered b h f rest =
    ground (arith, rest (record b { slept = suc b.slept }))
after_attempt-sent attempts retry (broken amqp_connection_error) b h f rest =
    ground (arith, rest (reset amqp_connection_error b))
after_attempt-sent attempts retry (broken amqp_channel_error) b h f rest =
    ground (arith, rest (reset amqp_channel_error b))
after_attempt-sent attempts retry (broken other) b h f rest = absurd (f refl)

-- The good attempt `i` is `later` attempts away.
loop-sent :
    (later left attempts i : ℕ) (s : Server) (confirm : Bool) (b : Broker)
    → OnlyAmqp s
    → later ≤ left
    → attempts + left ≡ 6
    → attempts + later ≡ i
    → s.declares i ≡ none
    → s.publishes i ≡ inl true
    → (enqueue_loop (suc left) s confirm false attempts b).0 ≡ sent
unfolding enqueue_loop after_attempt
loop-sent zero left attempts i s confirm b o h e ei d p =
    let same : i ≡ attempts = omega arith in
    let good =
      try_once-good confirm (s.declares attempts) (s.publishes attempts) b
        (ap s.declares (sym same) ∙ d) (ap s.publishes (sym same) ∙ p) in
    ap
      (λ a.
        (after_attempt false attempts (λ b'. enqueue_loop left s confirm false (suc attempts) b')
          (a, (try_once confirm (s.declares attempts) (s.publishes attempts) b).1)).0)
      good
loop-sent (suc later) zero attempts i s confirm b o h e ei d p = absurd (omega arith)
loop-sent (suc later) (suc left) attempts i s confirm b o h e ei d p =
    let r = try_once confirm (s.declares attempts) (s.publishes attempts) b in
    after_attempt-sent attempts (λ b'. enqueue_loop (suc left) s confirm false (suc attempts) b')
      r.0 r.1 (omega arith)
      (try_once-amqp confirm (s.declares attempts) (s.publishes attempts) b (o.declares attempts)
        (o.publishes attempts))
      (λ b'.
        loop-sent later left (suc attempts) i s confirm b' o (omega arith) (omega arith)
          (omega arith) d p)

-- Outside a transaction a message is sent whenever RabbitMQ would take it at any one of the first
-- six attempts, the declarations included, whatever unconfirmed publications and AMQP errors the
-- other attempts meet.
pub enqueue-sent :
    (s : Server) (wants_confirm : Bool) (b : Broker) (i : ℕ)
    → OnlyAmqp s
    → 1 ≤ i
    → i ≤ 6
    → s.declares i ≡ none
    → s.publishes i ≡ inl true
    → (enqueue s wants_confirm false b).0 ≡ sent
unfolding enqueue
enqueue-sent s wants_confirm b i o lo hi d p =
    loop-sent (i - 1) 5 1 i s (wants_confirm && not false) b o (omega arith) refl (omega arith) d p
