-- ===== src/State/Listing.antt =====
-- The dict of a state read back, and the states that the in-memory backend lists.
use remoulade.Prelude.{
  nat_eq, nat_beq, ℕ, All, Option-cases, inl, inr, ◌≤◌, ◌≡◌, refl, List, [], ◌∷◌, Option, none,
  some, arith, if◌then◌else◌, length,
}
use remoulade.Prelude.Dict.{Dict, lookup}
use remoulade.Message.{or_else, Value, Options}
use remoulade.QueueNames.{Name}
use remoulade.State.{
  Content, Status, status_text, arguments, keywords, option_dict, number, datetime, queue, State,
  present, as_dict, as_number, as_status, as_arguments, as_keywords, as_options, as_datetime,
  as_queue, from_dict, state_of, read_state, Encoder, States, scan, get_states, get_states_count,
  page,
}

abbrev pub shown_of {ℓ} : {A : Type ℓ} → (A → Content) → Option A → Option Content
shown_of shown none = none
shown_of shown (some a) = some (shown a)

pub lookup-present :
    {A : Type 0} (shown : A → Content) (key : ℕ) (o : Option A) (rest : Dict ℕ Content) (k : ℕ)
    → lookup k (present shown key o rest)
      ≡ (if nat_beq key k then or_else (shown_of shown o) (lookup k rest) else lookup k rest)
unfolding present lookup
lookup-present shown key none rest k = ground arith
lookup-present shown key (some a) rest k = ground arith

as_number-shown : (o : Option ℕ) → as_number (or_else (shown_of number o) none) ≡ o
unfolding as_number
as_number-shown none = refl
as_number-shown (some a) = refl

as_status-shown : (o : Option Status) → as_status (or_else (shown_of status_text o) none) ≡ o
unfolding as_status
as_status-shown none = refl
as_status-shown (some a) = refl

as_arguments-shown :
    (o : Option (List Value)) → as_arguments (or_else (shown_of arguments o) none) ≡ o
unfolding as_arguments
as_arguments-shown none = refl
as_arguments-shown (some a) = refl

as_keywords-shown :
    (o : Option (Dict ℕ Value)) → as_keywords (or_else (shown_of keywords o) none) ≡ o
unfolding as_keywords
as_keywords-shown none = refl
as_keywords-shown (some a) = refl

as_options-shown : (o : Option Options) → as_options (or_else (shown_of option_dict o) none) ≡ o
unfolding as_options
as_options-shown none = refl
as_options-shown (some a) = refl

as_datetime-shown : (o : Option ℕ) → as_datetime (or_else (shown_of datetime o) none) ≡ o
unfolding as_datetime
as_datetime-shown none = refl
as_datetime-shown (some a) = refl

as_queue-shown : (o : Option Name) → as_queue (or_else (shown_of queue o) none) ≡ o
unfolding as_queue
as_queue-shown none = refl
as_queue-shown (some a) = refl

status-as_dict : (s : State) → as_status (lookup 1 (as_dict s)) ≡ s.status
unfolding as_dict lookup
status-as_dict s = simp (lookup-present, as_status-shown)

actor_name-as_dict : (s : State) → as_number (lookup 2 (as_dict s)) ≡ s.actor_name
unfolding as_dict lookup
actor_name-as_dict s = simp (lookup-present, as_number-shown)

args-as_dict : (s : State) → as_arguments (lookup 3 (as_dict s)) ≡ s.args
unfolding as_dict lookup
args-as_dict s = simp (lookup-present, as_arguments-shown)

kwargs-as_dict : (s : State) → as_keywords (lookup 4 (as_dict s)) ≡ s.kwargs
unfolding as_dict lookup
kwargs-as_dict s = simp (lookup-present, as_keywords-shown)

options-as_dict : (s : State) → as_options (lookup 5 (as_dict s)) ≡ s.options
unfolding as_dict lookup
options-as_dict s = simp (lookup-present, as_options-shown)

priority-as_dict : (s : State) → as_number (lookup 6 (as_dict s)) ≡ s.priority
unfolding as_dict lookup
priority-as_dict s = simp (lookup-present, as_number-shown)

progress-as_dict : (s : State) → as_number (lookup 7 (as_dict s)) ≡ s.progress
unfolding as_dict lookup
progress-as_dict s = simp (lookup-present, as_number-shown)

enqueued_datetime-as_dict : (s : State) → as_datetime (lookup 8 (as_dict s)) ≡ s.enqueued_datetime
unfolding as_dict lookup
enqueued_datetime-as_dict s = simp (lookup-present, as_datetime-shown)

started_datetime-as_dict : (s : State) → as_datetime (lookup 9 (as_dict s)) ≡ s.started_datetime
unfolding as_dict lookup
started_datetime-as_dict s = simp (lookup-present, as_datetime-shown)

end_datetime-as_dict : (s : State) → as_datetime (lookup 10 (as_dict s)) ≡ s.end_datetime
unfolding as_dict lookup
end_datetime-as_dict s = simp (lookup-present, as_datetime-shown)

queue_name-as_dict : (s : State) → as_queue (lookup 11 (as_dict s)) ≡ s.queue_name
unfolding as_dict lookup
queue_name-as_dict s = simp (lookup-present, as_queue-shown)

composition_id-as_dict : (s : State) → as_number (lookup 12 (as_dict s)) ≡ s.composition_id
unfolding as_dict lookup
composition_id-as_dict s = simp (lookup-present, as_number-shown)

-- A state that is made a dict and read back is the same, whichever of its values are None.
pub from_dict-as_dict : (s : State) → from_dict (as_dict s) ≡ some s
unfolding from_dict state_of read_state lookup as_dict
from_dict-as_dict s = simp (
  status-as_dict, actor_name-as_dict, args-as_dict, kwargs-as_dict, options-as_dict,
  priority-as_dict, progress-as_dict, enqueued_datetime-as_dict, started_datetime-as_dict,
  end_datetime-as_dict, queue_name-as_dict, composition_id-as_dict,
)

-- What a pass leaves has not expired, and there is one state for each of its entries.
scan-live :
    (encoder : Encoder) (now : ℕ) (states : States) (seen : List State)
    → (scan encoder now states).0 ≡ some seen
    → All (λ e. now ≤ e.1.expiration) (scan encoder now states).1
      × (length seen ≡ length (scan encoder now states).1)
unfolding scan
scan-live encoder now [] seen e = ground arith
scan-live encoder now ((i, payload) ∷ rest) seen e = elim (Option-cases (scan encoder now rest).0) [
  | inl none_seen ↦ ground (arith)
  | inr (others, read) ↦ ground (arith, scan-live encoder now rest others read)
]

-- After a get_states that reads every state, what the backend counts is what was returned: the
-- expired states are gone, which get_states_count alone would count.
pub get_states-count :
    (encoder : Encoder) (now : ℕ) (states : States) (seen : List State)
    → (get_states encoder none 0 now states).0 ≡ some seen
    → All (λ e. now ≤ e.1.expiration) (get_states encoder none 0 now states).1
      × (length seen ≡ get_states_count (get_states encoder none 0 now states).1)
unfolding get_states page get_states_count
get_states-count encoder now states seen e = elim (Option-cases (scan encoder now states).0) [
  | inl no_states ↦ ground (arith)
  | inr (others, read) ↦ ground (arith, scan-live encoder now states others read)
]
