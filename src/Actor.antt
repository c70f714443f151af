-- ===== src/Actor.antt =====
-- remoulade/actor.py, with the actors of remoulade/broker.py: an actor's options and queues, the
-- messages that it builds, and sending them on the in-memory broker. Names of functions and options
-- are numbers, and a new message's identity and timestamp are given. What the middleware make of a
-- new message's options, or that one raises, is a function of each.
pub mod Growth
pub mod Moving
pub mod Sending
mod Samples
use remoulade.Prelude.{
  nat_eq, ℕ, ◌≡◌, Bool, true, false, not, ◌&&◌, ◌||◌, List, [], ◌∷◌, ◌++◌, Option, none, some, any,
  all, leb, nat_beq, text_beq, if◌then◌else◌,
}
use remoulade.Prelude.Dict.{Dict, insert, lookup, keys}
use remoulade.QueueNames.{Name}
use remoulade.Message.{Value, Message, message, Options}
use remoulade.StubBroker.{StubBroker, declare_queues, enqueue}
use remoulade.Consumer.{apply_delay}

-- `[a-zA-Z_]`, and `[a-zA-Z0-9._-]`
abbrev pub between : ℕ → ℕ → ℕ → Bool
between low high c = leb low c && leb c high

unfoldable pub starts_name : ℕ → Bool
starts_name c = between b'a' b'z' c || between b'A' b'Z' c || nat_beq c b'_'

unfoldable pub continues_name : ℕ → Bool
unfolding starts_name
continues_name c = starts_name c || between b'0' b'9' c || nat_beq c b'.' || nat_beq c b'-'

-- `_queue_name_re.fullmatch`
unfoldable pub is_queue_name : Name → Bool
unfolding starts_name continues_name
is_queue_name [] = false
is_queue_name (c ∷ cs) = starts_name c && all continues_name cs

pub record Actor : Type 0 where
  pub fn : ℕ
  pub has_broker : Bool
  pub actor_name : ℕ
  pub queue_name : Name
  pub alternative_queues : Option (List Name)
  pub priority : ℕ
  pub options : Dict ℕ Value

-- The arguments of `actor`.
pub record Declaration : Type 0 where
  pub actor_name : Option ℕ
  pub queue_name : Name
  pub alternative_queues : Option (List Name)
  pub priority : ℕ
  pub options : Dict ℕ Value

abbrev pub or_empty {ℓ} : {A : Type ℓ} → Option (List A) → List A
or_empty none = []
or_empty (some xs) = xs

abbrev pub or_name : Option ℕ → ℕ → ℕ
or_name none name = name
or_name (some given) name = given

-- The decorator, applied to a function: it keeps the name that it used, and `none` is the
-- ValueError of a queue name.
unfoldable pub decorator : Declaration → (fn name : ℕ) → Option Actor × Declaration
unfolding is_queue_name
decorator d fn name =
    let used = or_name d.actor_name name in
    let kept = record d { actor_name = some used } in
    if any (λ q. not (is_queue_name q)) (d.queue_name ∷ or_empty d.alternative_queues)
    then (none, kept)
    else (
      some (record {
        fn = fn;
        has_broker = false;
        actor_name = used;
        queue_name = d.queue_name;
        alternative_queues = d.alternative_queues;
        priority = d.priority;
        options = d.options;
      }),
      kept,
    )

unfoldable pub queue_names : Actor → List Name
queue_names a = a.queue_name ∷ or_empty a.alternative_queues

-- A middleware, as actors see it: the options that it allows them, and what it makes of the options
-- of a new message of the actor.
pub record Hook : Type 0 where
  pub actor_options : List ℕ
  pub update_options_before_create_message : ℕ → Options → Option Options

pub record Broker : Type 0 where
  pub middleware : List Hook
  pub actor_options : List ℕ
  pub actors : Dict ℕ Actor
  pub stub : StubBroker

-- `self.actor_options |= middleware.actor_options`, for each middleware that is added.
unfoldable pub allowed_options : List Hook → List ℕ
allowed_options [] = []
allowed_options (h ∷ hs) = h.actor_options ++ allowed_options hs

-- `set_broker`: `none` is the ValueError of an undefined option.
unfoldable pub set_broker : List ℕ → Actor → Option Actor
set_broker allowed a =
    if all (λ key. any (nat_beq key) allowed) (keys a.options)
    then some (record a { has_broker = true })
    else none

abbrev pub with_declared : Broker → Option Actor → Option (Actor × Broker)
with_declared b none = none
with_declared b (some a) = some (
  a,
  record b {
    stub = declare_queues (a.queue_name ∷ or_empty a.alternative_queues) b.stub;
    actors = insert a.actor_name a b.actors;
  },
)

-- `declare_actor`, with hooks that raise nothing; `set_broker` writes to the actor.
unfoldable pub declare_actor : Broker → Actor → Option (Actor × Broker)
unfolding set_broker
declare_actor b a = with_declared b (set_broker b.actor_options a)

-- `get_actor`: `none` is ActorNotFound.
unfoldable pub get_actor : Broker → ℕ → Option Actor
get_actor b actor_name = lookup actor_name b.actors

-- Why no message is built or sent.
pub data Failure : Type 0 where
  no_broker refused_options invalid_queue queue_not_found : Failure

pub data Built : Type 0 where
  raised : Failure → Built
  built : Message → Built

-- What the caller gives besides the options; the delay is that of send_with_options.
pub record Request : Type 0 where
  pub args : Option (List Value)
  pub queue_name : Option Name
  pub delay : Option ℕ
  pub message_id : ℕ
  pub message_timestamp : ℕ

unfoldable pub update_options : List Hook → ℕ → Options → Option Options
update_options [] actor_name o = some o
update_options (h ∷ hs) actor_name o = elim (h.update_options_before_create_message actor_name o) [
  | none ↦ none
  | some o' ↦ update_options hs actor_name o'
]

-- The queue of a message: the one asked for, which has to be the actor's, or the actor's own.
unfoldable pub chosen_queue : Actor → Option Name → Option Name
unfolding queue_names
chosen_queue a none = some a.queue_name
chosen_queue a (some q) = if any (text_beq q) (queue_names a) then some q else none

abbrev pub build : Actor → Request → Option Options → Option Name → Built
build a r none q = raised refused_options
build a r (some o) none = raised invalid_queue
build a r (some o) (some q) = built (
    message
      (record {
        queue_name = q;
        actor_name = a.actor_name;
        args = or_empty r.args;
        message_id = r.message_id;
        message_timestamp = r.message_timestamp;
      })
      o)

unfoldable pub message_with_options : Broker → Actor → Request → Options → Built
unfolding update_options chosen_queue
message_with_options b a r o =
    build a r (update_options b.middleware a.actor_name o) (chosen_queue a r.queue_name)

-- What is sent is the message with the delay put on it.
abbrev pub sent_message : ℕ → Option ℕ → Message → Bool → Built
sent_message now delay m true = built (apply_delay now delay m)
sent_message now delay m false = raised queue_not_found

unfoldable pub send_built : ℕ → Broker → Request → Built → Built × Broker
send_built now b r (raised f) = (raised f, b)
send_built now b r (built m) =
    let (returned, stub) = enqueue now r.delay m b.stub in
    (sent_message now r.delay m returned, record b { stub = stub })

-- `send_with_options` at the time `now`, on the broker that the actor was declared on.
unfoldable pub send_with_options : ℕ → Broker → Actor → Request → Options → Built × Broker
unfolding send_built message_with_options
send_with_options now b a r o =
    if a.has_broker
    then send_built now b r (message_with_options b a r o)
    else (raised no_broker, b)
