-- ===== src/State.antt =====
-- remoulade/state: the state of a message (backend.py) and the in-memory backend (backends/stub.py).
-- The keys of a state's dict and the identifiers are numbers, times are milliseconds, and the
-- encoder, with the sizes of what it returns, is a parameter. `encode_args` of as_dict, which only
-- the HTTP API asks for, is left out.
pub mod Refinement
pub mod Listing
pub mod Middleware
pub mod Lifecycle
mod Samples
use remoulade.Prelude.{
  nat_eq, ℕ, ◌+◌, Bool, true, false, List, [], ◌∷◌, ◌++◌, Option, none, some, ltb, leb, map, length,
  take, drop, if◌then◌else◌,
}
use remoulade.Prelude.Dict.{Dict, lookup, insert, remove}
use remoulade.QueueNames.{Name}
use remoulade.Message.{Value, Options}

-- StateStatusesEnum
pub data Status : Type 0 where
  started : Status
  pending : Status
  skipped : Status
  canceled : Status
  failure : Status
  success : Status

pub record State : Type 0 where
  pub message_id : ℕ
  pub status : Option Status
  pub actor_name : Option ℕ
  pub args : Option (List Value)
  pub kwargs : Option (Dict ℕ Value)
  pub options : Option Options
  pub priority : Option ℕ
  pub progress : Option ℕ
  pub enqueued_datetime : Option ℕ
  pub started_datetime : Option ℕ
  pub end_datetime : Option ℕ
  pub queue_name : Option Name
  pub composition_id : Option ℕ

-- A value of a state's dict.
pub data Content : Type 0 where
  number : ℕ → Content
  status_text : Status → Content
  arguments : List Value → Content
  keywords : Dict ℕ Value → Content
  option_dict : Options → Content
  datetime : ℕ → Content
  queue : Name → Content

-- The entry of a key, where the value is not None, in front of the others.
unfoldable pub present {ℓ} :
    {A : Type ℓ} → (A → Content) → ℕ → Option A → Dict ℕ Content → Dict ℕ Content
present shown key none rest = rest
present shown key (some a) rest = (key, shown a) ∷ rest

unfoldable pub as_dict : State → Dict ℕ Content
unfolding present
as_dict s =
    let done = present queue 11 s.queue_name (present number 12 s.composition_id []) in
    let times =
      present datetime 8 s.enqueued_datetime
        (present datetime 9 s.started_datetime (present datetime 10 s.end_datetime done)) in
    let numbers = present number 6 s.priority (present number 7 s.progress times) in
    let call =
      present arguments 3 s.args
        (present keywords 4 s.kwargs (present option_dict 5 s.options numbers)) in
    (0, number s.message_id) ∷ present status_text 1 s.status (present number 2 s.actor_name call)

unfoldable pub as_number : Option Content → Option ℕ
as_number (some (number n)) = some n
as_number c = none

unfoldable pub as_status : Option Content → Option Status
as_status (some (status_text s)) = some s
as_status c = none

unfoldable pub as_arguments : Option Content → Option (List Value)
as_arguments (some (arguments vs)) = some vs
as_arguments c = none

unfoldable pub as_keywords : Option Content → Option (Dict ℕ Value)
as_keywords (some (keywords vs)) = some vs
as_keywords c = none

unfoldable pub as_options : Option Content → Option Options
as_options (some (option_dict o)) = some o
as_options c = none

unfoldable pub as_datetime : Option Content → Option ℕ
as_datetime (some (datetime t)) = some t
as_datetime c = none

unfoldable pub as_queue : Option Content → Option Name
as_queue (some (queue name)) = some name
as_queue c = none

-- The state with the values under the keys.
unfoldable pub read_state : (ℕ → Option Content) → ℕ → State
unfolding as_number as_status as_arguments as_keywords as_options as_datetime as_queue
read_state read i = record {
  message_id = i;
  status = as_status (read 1);
  actor_name = as_number (read 2);
  args = as_arguments (read 3);
  kwargs = as_keywords (read 4);
  options = as_options (read 5);
  priority = as_number (read 6);
  progress = as_number (read 7);
  enqueued_datetime = as_datetime (read 8);
  started_datetime = as_datetime (read 9);
  end_datetime = as_datetime (read 10);
  queue_name = as_queue (read 11);
  composition_id = as_number (read 12);
}

-- `cls(**input_dict)`, which raises without a message id.
unfoldable pub state_of : (ℕ → Option Content) → Option ℕ → Option State
unfolding read_state
state_of read none = none
state_of read (some i) = some (read_state read i)

unfoldable pub from_dict : Dict ℕ Content → Option State
unfolding state_of as_number
from_dict d = state_of (λ key. lookup key d) (as_number (lookup 0 d))

-- The encoder, with `sys.getsizeof` of what it returns.
pub record Encoder : Type 0 where
  pub encode : Content → List ℕ
  pub decode : List ℕ → Content
  pub sizeof : List ℕ → ℕ

-- A stored state: its encoded fields and its expiration.
pub record Payload : Type 0 where
  pub state : Dict ℕ (List ℕ)
  pub expiration : ℕ

abbrev pub States : Type 0
States = Dict ℕ Payload

-- `for key, value in encoded_state.items(): state[key] = value`
unfoldable pub merge : Dict ℕ (List ℕ) → Dict ℕ (List ℕ) → Dict ℕ (List ℕ)
merge [] old = old
merge ((key, value) ∷ rest) old = merge rest (insert key value old)

-- The states that a pass keeps in front of those of the other messages.
abbrev pub listed : State → Option (List State) → Option (List State)
listed s none = none
listed s (some rest) = some (s ∷ rest)

-- What get_state returns, or that it raises.
pub data Fetched : Type 0 where
  missing : Fetched
  invalid : Fetched
  found : State → Fetched

abbrev pub as_fetched : Option State → Fetched
as_fetched none = invalid
as_fetched (some s) = found s

module _ (encoder : Encoder) where
  unfoldable pub encode_dict : ℕ → Dict ℕ Content → Dict ℕ (List ℕ)
  encode_dict max_size [] = []
  encode_dict max_size ((key, value) ∷ rest) =
      if leb (encoder.sizeof (encoder.encode value)) max_size
      then (key, encoder.encode value) ∷ encode_dict max_size rest
      else encode_dict max_size rest

  unfoldable pub decode_dict : Dict ℕ (List ℕ) → Dict ℕ Content
  decode_dict [] = []
  decode_dict ((key, value) ∷ rest) = (key, encoder.decode value) ∷ decode_dict rest

  -- The entry of a message, new or with the fields that are written over the old ones.
  unfoldable pub written : ℕ → State → ℕ → ℕ → Option Payload → Payload
  unfolding encode_dict as_dict merge
  written max_size s ttl now none = record {
    state = encode_dict max_size (as_dict s);
    expiration = ttl + now;
  }
  written max_size s ttl now (some payload) = record {
    state = merge (encode_dict max_size (as_dict s)) payload.state;
    expiration = ttl + now;
  }

  unfoldable pub set_state : ℕ → State → ℕ → ℕ → States → States
  unfolding written
  set_state max_size s ttl now states =
      insert s.message_id (written max_size s ttl now (lookup s.message_id states)) states

  unfoldable pub get_state : ℕ → ℕ → States → Fetched × States
  unfolding decode_dict from_dict
  get_state now message_id states = elim (lookup message_id states) [
    | none ↦ (missing, states)
    | some payload ↦
        if ltb payload.expiration now
        then (missing, remove message_id states)
        else (as_fetched (from_dict (decode_dict payload.state)), states)
  ]

  -- The pass of get_states over the entries: the states read, unless one cannot be, and what is left.
  unfoldable pub scan : ℕ → States → Option (List State) × States
  unfolding decode_dict from_dict
  scan now [] = (some [], [])
  scan now ((message_id, payload) ∷ rest) =
      let (others, left) = scan now rest in
      if ltb payload.expiration now
      then (others, left)
      else elim (from_dict (decode_dict payload.state)) [
        | none ↦ (none, (message_id, payload) ∷ rest)
        | some s ↦ (listed s others, (message_id, payload) ∷ left)
      ]

  -- `states[offset : size + offset]`
  unfoldable pub page : Option ℕ → ℕ → Option (List State) → Option (List State)
  page size offset none = none
  page none offset (some states) = some (drop offset states)
  page (some size) offset (some states) = some (take size (drop offset states))

  -- `none` where a state cannot be read.
  unfoldable pub get_states : Option ℕ → ℕ → ℕ → States → Option (List State) × States
  unfolding scan page
  get_states size offset now states =
      let (all_states, left) = scan now states in (page size offset all_states, left)

unfoldable pub get_states_count : States → ℕ
get_states_count states = length states
