-- ===== src/StubBroker/Fifo.antt =====
-- Each queue is first in, first out, and a declared queue takes every message.
use remoulade.Prelude.{
  text_eq, ◌≡◌, refl, sym, List, [], ◌∷◌, ◌++◌, append-nil, append_assoc, Bool-cases, inl, inr,
  Option, none, some, text_beq, text_beq_iff, if◌then◌else◌, arith,
}
use remoulade.Prelude.Dict.{lookup, lookup-insert}
use remoulade.QueueNames.{Name}
use remoulade.Message.{Message, header}
use remoulade.StubBroker.{take_from, StubBroker, put_message, take_message}

-- What brokers and consumers do with the queues.
pub data Step : Type 0 where
  put_in : Message → Step
  taken_from : Name → Step

abbrev pub after_put : Option StubBroker → StubBroker → StubBroker
after_put none b = b
after_put (some b') b = b'

unfoldable pub step : Step → StubBroker → StubBroker
unfolding put_message take_message
step (put_in m) b = after_put (put_message m b) b
step (taken_from q) b = (take_message q b).1

unfoldable pub steps : List Step → StubBroker → StubBroker
steps [] b = b
steps (s ∷ ss) b = steps ss (step s b)

-- The messages that the steps put into the queue `q`, and those that they take from it, in order.
abbrev pub put_into : Name → List Step → List Message
put_into q [] = []
put_into q (put_in m ∷ ss) =
    if text_beq (header m).queue_name q then m ∷ put_into q ss else put_into q ss
put_into q (taken_from r ∷ ss) = put_into q ss

abbrev pub option_list : Option Message → List Message
option_list none = []
option_list (some m) = m ∷ []

unfoldable pub taken : Name → List Step → StubBroker → List Message
taken q [] b = []
taken q (put_in m ∷ ss) b = taken q ss (step (put_in m) b)
taken q (taken_from r ∷ ss) b =
    let rest = taken q ss (step (taken_from r) b) in
    if text_beq r q then option_list (take_message r b).0 ++ rest else rest

-- The queue has been declared and holds `ms`.
abbrev pub Holds : Name → StubBroker → List Message → Type 0
Holds q b ms = lookup q b.queues ≡ some ms

abbrev or_empty : Option (List Message) → List Message
or_empty none = []
or_empty (some ms) = ms

put_in-Holds :
    (q : Name) (m : Message) (b : StubBroker) (ms : List Message)
    → Holds q b ms
    → Holds q (step (put_in m) b) (if text_beq (header m).queue_name q then ms ++ m ∷ [] else ms)
unfolding step
put_in-Holds q m b ms h = ground (
  arith,
  text_beq_iff (header m).queue_name q,
  lookup-insert (header m).queue_name q (or_empty (lookup (header m).queue_name b.queues) ++ m ∷ [])
      b.queues,
)

take_from-Holds :
    (q r : Name) (b : StubBroker) (ms : List Message) (entry : Option (List Message))
    → lookup r b.queues ≡ entry
    → Holds q b ms
    → (rest : List Message) × Holds q (take_from r b entry).1 rest
      × ((if text_beq r q then option_list (take_from r b entry).0 else []) ++ rest ≡ ms)
unfolding take_from
take_from-Holds q r b ms none e h = (ms, h, ground (arith, text_beq_iff r q))
take_from-Holds q r b ms (some []) e h = (ms, h, ground (arith, text_beq_iff r q))
take_from-Holds q r b ms (some (m ∷ left)) e h = elim (Bool-cases (text_beq r q)) [
  | inl same ↦ (
    left,
    ground (arith, text_beq_iff r q, lookup-insert r q left b.queues),
    ground (arith, text_beq_iff r q),
  )
  | inr other ↦
      (ms, ground (arith, text_beq_iff r q, lookup-insert r q left b.queues), ground arith)
]

taken_from-Holds :
    (q r : Name) (b : StubBroker) (ms : List Message)
    → Holds q b ms
    → (rest : List Message) × Holds q (step (taken_from r) b) rest
      × ((if text_beq r q then option_list (take_message r b).0 else []) ++ rest ≡ ms)
unfolding step take_message
taken_from-Holds q r b ms h = take_from-Holds q r b ms (lookup r b.queues) refl h

-- A queue is first in, first out: whatever is put into the queues and taken from them, what was
-- taken from a declared queue, and then what is left in it, is what it held at first, and then what
-- was put into it, in order.
pub steps-fifo :
    (q : Name) (ss : List Step) (b : StubBroker) (ms : List Message)
    → lookup q b.queues ≡ some ms
    → (rest : List Message) × (lookup q (steps ss b).queues ≡ some rest)
      × (taken q ss b ++ rest ≡ ms ++ put_into q ss)
unfolding steps taken
steps-fifo q [] b ms h = (ms, h, sym (append-nil ms))
steps-fifo q (put_in m ∷ ss) b ms h =
    let (rest, left, e) = steps-fifo q ss (step (put_in m) b) _ (put_in-Holds q m b ms h) in
    (rest, left, ground (arith, e, append_assoc ms (m ∷ []) (put_into q ss)))
steps-fifo q (taken_from r ∷ ss) b ms h =
    let (ms', held, e') = taken_from-Holds q r b ms h in
    let (rest, left, e) = steps-fifo q ss (step (taken_from r) b) ms' held in
    let first = option_list (take_message r b).0 in
    (
      rest,
      left,
      ground (
        arith,
        e,
        e',
        append_assoc first (taken q ss (step (taken_from r) b)) rest,
        append_assoc first ms' (put_into q ss),
      ),
    )
