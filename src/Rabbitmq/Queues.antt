-- ===== src/Rabbitmq/Queues.antt =====
-- The queues of the RabbitMQ broker: what they are declared with, what is counted and flushed, and
-- `join`, which waits until they are empty.
pub mod Joining
use remoulade.Prelude.{
  text_eq, ℕ, zero, suc, ◌+◌, Bool, true, false, not, ◌&&◌, ◌||◌, List, [], ◌∷◌, ◌++◌, Option, none,
  some, leb, nat_beq, any, text_beq, if◌then◌else◌,
}
use remoulade.QueueNames.{Name, dq_name, xq_name}

-- The broker's settings.
pub record Settings : Type 0 where
  pub max_priority : Option ℕ
  pub dead_queue_max_length : Option ℕ
  pub is_quorum : Bool

-- `self.dead_queue_max_length != 0`
unfoldable pub dead_queue_enabled : Settings → Bool
dead_queue_enabled s = elim s.dead_queue_max_length [ none ↦ true | some n ↦ not (nat_beq n 0) ]

-- An entry of a queue's arguments: "x-dead-letter-exchange" and so on.
pub data Argument : Type 0 where
  dead_letter_exchange : Argument
  dead_letter_routing_key : Name → Argument
  x_max_priority : ℕ → Argument
  x_queue_type_quorum : Argument
  x_message_ttl : ℕ → Argument
  x_max_length : ℕ → Argument

abbrev pub dead_letter_arguments : Settings → Name → List Argument
dead_letter_arguments s queue_name =
    if dead_queue_enabled s
    then dead_letter_exchange ∷ dead_letter_routing_key (xq_name queue_name) ∷ []
    else []

abbrev pub quorum_arguments : Settings → List Argument
quorum_arguments s = if s.is_quorum then x_queue_type_quorum ∷ [] else []

-- `if self.max_priority`, which a quorum queue answers with a ValueError, here `none`.
abbrev pub priority_arguments : Settings → Option ℕ → Option (List Argument)
priority_arguments s none = some []
priority_arguments s (some zero) = some []
priority_arguments s (some (suc n)) =
    if s.is_quorum then none else some (x_max_priority (suc n) ∷ [])

unfoldable pub build_queue_arguments : Settings → Name → Option (List Argument)
build_queue_arguments s queue_name = elim (priority_arguments s s.max_priority) [
  | none ↦ none
  | some p ↦ some (dead_letter_arguments s queue_name ++ p ++ quorum_arguments s)
]

abbrev pub length_arguments : Option ℕ → List Argument
length_arguments none = []
length_arguments (some zero) = []
length_arguments (some (suc n)) = x_max_length (suc n) ∷ []

-- What is declared for a queue: names with their arguments. The dead-letter queue is left out where
-- it is disabled; `ttl` is DEAD_MESSAGE_TTL.
unfoldable pub declare_dead_queue : Settings → ℕ → Name → List (Name × List Argument)
unfolding dead_queue_enabled
declare_dead_queue s ttl queue_name =
    if dead_queue_enabled s
    then (
      xq_name queue_name,
      x_message_ttl ttl ∷ length_arguments s.dead_queue_max_length ++ quorum_arguments s,
    )
      ∷ []
    else []

unfoldable pub declare_queues : Settings → ℕ → List Name → Option (List (Name × List Argument))
unfolding build_queue_arguments declare_dead_queue
declare_queues s ttl [] = some []
declare_queues s ttl (q ∷ qs) = elim (build_queue_arguments s q) [
  | none ↦ none
  | some arguments ↦ elim (declare_queues s ttl qs) [
    | none ↦ none
    | some rest ↦
        some ((q, arguments) ∷ (dq_name q, arguments) ∷ declare_dead_queue s ttl q ++ rest)
  ]
]

-- `get_queue_message_counts`, with RabbitMQ's counts.
unfoldable pub get_queue_message_counts : Settings → (Name → ℕ) → Name → ℕ × ℕ × ℕ
get_queue_message_counts s count queue_name = (
  count queue_name,
  count (dq_name queue_name),
  if dead_queue_enabled s then count (xq_name queue_name) else 0,
)

-- The names that `flush` and `flush_all` purge.
unfoldable pub flush : Settings → Name → List Name
flush s queue_name =
    queue_name ∷ dq_name queue_name ∷ (if dead_queue_enabled s then xq_name queue_name ∷ [] else [])

unfoldable pub flush_all : Settings → List Name → List Name
unfolding flush
flush_all s [] = []
flush_all s (q ∷ qs) = flush s q ++ flush_all s qs

-- The end of `join`, with the number of polls made.
pub data Joined : Type 0 where
  joined : ℕ → Joined
  queue_join_timeout out_of_fuel : Joined

-- `deadline and time.monotonic() >= deadline`
abbrev pub is_past : Option ℕ → ℕ → Bool
is_past none now = false
is_past (some deadline) now = leb deadline now

-- `sum(self.get_queue_message_counts(queue_name)[:-1])` at a poll with the counts `count`.
unfoldable pub total_messages : Settings → (Name → ℕ) → Name → ℕ
unfolding get_queue_message_counts
total_messages s count queue_name =
    let (ready, delayed, dead) = get_queue_message_counts s count queue_name in ready + delayed

-- `while successes < min_successes`, at the poll `n`; `counts n` and `clock n` are what it finds.
unfoldable pub join_from :
    ℕ → Settings → (ℕ → Name → ℕ) → (ℕ → ℕ) → Option ℕ → ℕ → Name → ℕ → ℕ → Joined
unfolding total_messages
join_from zero s counts clock deadline min_successes queue_name n successes = out_of_fuel
join_from (suc fuel) s counts clock deadline min_successes queue_name n successes =
    let found = if nat_beq (total_messages s (counts n) queue_name) 0 then suc successes else 0 in
    let rest = join_from fuel s counts clock deadline min_successes queue_name (suc n) found in
    if leb min_successes successes
    then joined n
    else if is_past deadline (clock n)
    then queue_join_timeout
    else rest

unfoldable pub join : ℕ → Settings → (ℕ → Name → ℕ) → (ℕ → ℕ) → Option ℕ → ℕ → Name → Joined
unfolding join_from
join fuel s counts clock deadline min_successes queue_name =
    join_from fuel s counts clock deadline min_successes queue_name 0 0
