-- ===== src/Actor/Growth.antt =====
-- The queues of the broker only grow, and each keeps its delay queue.
use remoulade.Prelude.{
  nat_eq, text_eq, ℕ, ◌≡◌, refl, sym, true, List, [], ◌∷◌, ◌++◌, Option, none, some, any, text_beq,
  text_beq_iff, Bool-cases, subst, Option-cases, inl, inr, arith, if◌then◌else◌,
}
use remoulade.Prelude.Dict.{lookup, lookup-insert, insert, has}
use remoulade.QueueNames.{Name, dq_name}
use remoulade.QueueNames.Laws.{names_lem}
use remoulade.Message.{Message, header, Options}
use remoulade.Consumer.{apply_delay}
use remoulade.StubBroker.{
  StubBroker, declare_queue, declare_queues, put_message, enqueue, take_message, take_from, nack,
}
use remoulade.Actor.{
  Actor, Broker, Request, Built, raised, built, or_empty, declare_actor, set_broker,
  message_with_options, send_built, send_with_options,
}

-- Every queue of the broker has its delay queue.
unfoldable pub IsClosed : StubBroker → Type 0
IsClosed b = (q : Name) → has q b.queues ≡ true → has (dq_name q) b.queues ≡ true

has-insert :
    {V : Type 0} (key other : Name) (value : V) (d : List (Name × V))
    → has other (insert key value d) ≡ (if text_beq key other then true else has other d)
unfolding has
has-insert key other value d = ground (arith, lookup-insert key other value d)

has-some :
    (q : Name) (ms : List Message) (b : StubBroker)
    → lookup q b.queues ≡ some ms
    → has q b.queues ≡ true
unfolding has
has-some q ms b e = ground arith

declare_queue-has :
    (n q : Name) (b : StubBroker) → has q b.queues ≡ true → has q (declare_queue n b).queues ≡ true
unfolding declare_queue
declare_queue-has n q b h =
    ground (arith, has-insert n q [] b.queues, has-insert (dq_name n) q [] (insert n [] b.queues))

declare_queue-has_self : (n : Name) (b : StubBroker) → has n (declare_queue n b).queues ≡ true
unfolding declare_queue
declare_queue-has_self n b = ground (
  arith,
  text_beq_iff n n,
  has-insert n n [] b.queues,
  has-insert (dq_name n) n [] (insert n [] b.queues),
)

-- A declaration keeps every queue with its delay queue.
pub declare_queue-IsClosed : (n : Name) (b : StubBroker) → IsClosed b → IsClosed (declare_queue n b)
unfolding IsClosed declare_queue
declare_queue-IsClosed n b closed q h = ground (
  arith,
  closed q,
  (names_lem n).2,
  text_beq_iff n q,
  text_beq_iff (dq_name n) q,
  text_beq_iff (dq_name n) (dq_name q),
  has-insert n q [] b.queues,
  has-insert (dq_name n) q [] (insert n [] b.queues),
  has-insert n (dq_name q) [] b.queues,
  has-insert (dq_name n) (dq_name q) [] (insert n [] b.queues),
)

declare_queues-has_old :
    (ns : List Name) (q : Name) (b : StubBroker)
    → has q b.queues ≡ true
    → has q (declare_queues ns b).queues ≡ true
unfolding declare_queues
declare_queues-has_old [] q b h = h
declare_queues-has_old (n ∷ ns) q b h =
    declare_queues-has_old ns q (declare_queue n b) (declare_queue-has n q b h)

pub declare_queues-has :
    (ns : List Name) (q : Name) (b : StubBroker)
    → any (text_beq q) ns ≡ true
    → has q (declare_queues ns b).queues ≡ true
unfolding declare_queues
declare_queues-has [] q b h = ground arith
declare_queues-has (n ∷ ns) q b h = elim (Bool-cases (text_beq q n)) [
  | inl e ↦
      let same = (text_beq_iff q n).0 e in
      declare_queues-has_old ns q (declare_queue n b) (
        subst (λ k. has k (declare_queue n b).queues ≡ true) (sym same)
          (declare_queue-has_self n b))
  | inr e ↦ declare_queues-has ns q (declare_queue n b) (ground arith)
]

declare_queues-IsClosed :
    (ns : List Name) (b : StubBroker) → IsClosed b → IsClosed (declare_queues ns b)
unfolding declare_queues
declare_queues-IsClosed [] b h = h
declare_queues-IsClosed (n ∷ ns) b h =
    declare_queues-IsClosed ns (declare_queue n b) (declare_queue-IsClosed n b h)

-- What else happens on the broker: declarations, sends, and messages taken or rejected.
pub data Operation : Type 0 where
  declared : Actor → Operation
  sent : ℕ → Actor → Request → Options → Operation
  taken : Name → Operation
  rejected : Message → Operation

abbrev pub declared_on : Broker → Option (Actor × Broker) → Broker
declared_on b none = b
declared_on b (some (a, b')) = b'

unfoldable pub operate : Operation → Broker → Broker
unfolding declare_actor send_with_options take_message nack
operate (declared a) b = declared_on b (declare_actor b a)
operate (sent now a r o) b = (send_with_options now b a r o).1
operate (taken q) b = record b { stub = (take_message q b.stub).1 }
operate (rejected m) b = record b { stub = nack m b.stub }

unfoldable pub operates : List Operation → Broker → Broker
unfolding operate
operates [] b = b
operates (p ∷ ps) b = operates ps (operate p b)

-- The queues after an operation are those before, and perhaps more, all with their delay queues.
pub record Grows (old new : StubBroker) : Type 0 where
  pub keeps : (q : Name) → has q old.queues ≡ true → has q new.queues ≡ true
  pub closes : IsClosed old → IsClosed new

Grows-same : (old new : StubBroker) → new.queues ≡ old.queues → Grows old new
unfolding IsClosed
Grows-same old new e = record {
  keeps = λ q h. rw e h;
  closes = λ closed q h. ground (arith, closed q);
}

-- A write to a queue that is there.
Grows-write :
    (old new : StubBroker) (key : Name) (ms : List Message)
    → has key old.queues ≡ true
    → new.queues ≡ insert key ms old.queues
    → Grows old new
unfolding IsClosed
Grows-write old new key ms there e = record {
  keeps = λ q h. rw e (rw (has-insert key q ms old.queues) (ground arith));
  closes = λ closed q h. ground (
    arith,
    has-insert key q ms old.queues,
    has-insert key (dq_name q) ms old.queues,
    closed q,
    text_beq_iff key q,
  );
}

Grows-put :
    (m : Message) (now : ℕ) (delay : Option ℕ) (b : StubBroker) → Grows b (enqueue now delay m b).1
unfolding enqueue put_message
Grows-put m now delay b =
    let sent_on = apply_delay now delay m in
    let key = (header sent_on).queue_name in
    elim (Option-cases (lookup key b.queues)) [
      | inl e ↦ rw (e, enqueue, put_message) (Grows-same b _ refl)
      | inr (ms, e) ↦
          rw (e, enqueue, put_message)
            (Grows-write b _ key (ms ++ sent_on ∷ []) (has-some key ms b e) refl)
    ]

Grows-take : (q : Name) (b : StubBroker) → Grows b (take_message q b).1
unfolding take_message take_from
Grows-take q b = taken_Grows (lookup q b.queues) refl
  where
    taken_Grows : (o : Option (List Message)) → lookup q b.queues ≡ o → Grows b (take_from q b o).1
    taken_Grows none e = Grows-same b b refl
    taken_Grows (some []) e = Grows-same b b refl
    taken_Grows (some (m ∷ ms)) e = Grows-write b _ q ms (has-some q (m ∷ ms) b e) refl

pub Grows-declare : (b : Broker) (a : Actor) → Grows b.stub (declared_on b (declare_actor b a)).stub
unfolding declare_actor
Grows-declare b a = elim (Option-cases (set_broker b.actor_options a)) [
  | inl e ↦ rw e (Grows-same b.stub b.stub refl)
  | inr (a', e) ↦ rw e (record {
    keeps = λ q. declare_queues-has_old (a'.queue_name ∷ or_empty a'.alternative_queues) q b.stub;
    closes = declare_queues-IsClosed (a'.queue_name ∷ or_empty a'.alternative_queues) b.stub;
  })
]

Grows-send :
    (now : ℕ) (b : Broker) (a : Actor) (r : Request) (o : Options)
    → Grows b.stub (send_with_options now b a r o).1.stub
unfolding send_with_options send_built
Grows-send now b a r o = elim (Bool-cases a.has_broker) [
  | inl e ↦ rw e (built_Grows (message_with_options b a r o))
  | inr e ↦ rw e (Grows-same b.stub b.stub refl)
]
  where
    built_Grows : (m : Built) → Grows b.stub (send_built now b r m).1.stub
    built_Grows (raised f) = Grows-same b.stub b.stub refl
    built_Grows (built m) = Grows-put m now r.delay b.stub

operate-Grows : (p : Operation) (b : Broker) → Grows b.stub (operate p b).stub
unfolding operate nack
operate-Grows (declared a) b = Grows-declare b a
operate-Grows (sent now a r o) b = Grows-send now b a r o
operate-Grows (taken q) b = Grows-take q b.stub
operate-Grows (rejected m) b = Grows-same b.stub _ refl

pub operates-Grows : (ps : List Operation) (b : Broker) → Grows b.stub (operates ps b).stub
unfolding operates
operates-Grows [] b = Grows-same b.stub b.stub refl
operates-Grows (p ∷ ps) b =
    let first = operate-Grows p b in
    let rest = operates-Grows ps (operate p b) in
    record {
      keeps = λ q h. rest.keeps q (first.keeps q h);
      closes = λ closed. rest.closes (first.closes closed);
    }
