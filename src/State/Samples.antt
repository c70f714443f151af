-- ===== src/State/Samples.antt =====
-- Tests of the message states.
use remoulade.Prelude.{
  ℕ, ◌≡◌, refl, true, List, [], ◌∷◌, none, some, arith, length, nat_eq, nat_beq, if◌then◌else◌,
}
use remoulade.Prelude.Dict.{lookup}
use remoulade.Message.{no_options, message}
use remoulade.State.{
  Status, started, pending, skipped, canceled, failure, success, Content, number, status_text,
  arguments, keywords, option_dict, datetime, queue, State, Encoder, found, get_state,
  get_states_count, States,
}
use remoulade.State.Refinement.{fitting, answers, view_answers, view_of, save, fetch, answers-view}
use remoulade.State.Middleware.{MessageState, Task}
use remoulade.State.Lifecycle.{
  KeepsSmall, hooks, enqueued, processed, started_event, get_state-hooks, progress_of,
}

-- An encoder that knows dates, numbers and two statuses, and encodes all else alike.
abbrev encode_sample : Content → List ℕ
encode_sample (number n) = 0 ∷ n ∷ []
encode_sample (datetime t) = 1 ∷ t ∷ []
encode_sample (status_text started) = 2 ∷ []
encode_sample (status_text pending) = 3 ∷ []
encode_sample (status_text skipped) = 4 ∷ []
encode_sample (status_text canceled) = 5 ∷ []
encode_sample (status_text failure) = 6 ∷ []
encode_sample (status_text success) = 7 ∷ []
encode_sample (arguments vs) = []
encode_sample (keywords vs) = []
encode_sample (option_dict o) = []
encode_sample (queue name) = []

abbrev status_at : ℕ → Status
status_at n =
    if nat_beq n 2
    then started
    else if nat_beq n 3
    then pending
    else if nat_beq n 4
    then skipped
    else if nat_beq n 5
    then canceled
    else if nat_beq n 6
    then failure
    else success

abbrev decode_sample : List ℕ → Content
decode_sample [] = arguments []
decode_sample (k ∷ []) = status_text (status_at k)
decode_sample (k ∷ v ∷ rest) = if nat_beq k 0 then number v else datetime v

abbrev sample_encoder : Encoder
sample_encoder = record { encode = encode_sample; decode = decode_sample; sizeof = length }

sample-KeepsSmall : KeepsSmall sample_encoder 10
sample-KeepsSmall = record {
  keeps_status = sample_status;
  keeps_number = λ n. refl;
  keeps_datetime = λ t. refl;
}
  where
    sample_status :
        (s : Status) → fitting sample_encoder 10 (some (status_text s)) ≡ some (status_text s)
    sample_status started = refl
    sample_status pending = refl
    sample_status skipped = refl
    sample_status canceled = refl
    sample_status failure = refl
    sample_status success = refl

abbrev sample_middleware : MessageState
sample_middleware = record { encoder = sample_encoder; max_size = 10; state_ttl = some 3600 }

abbrev sample_task : Task
sample_task = (
  message
      (record {
        queue_name = b'q' ∷ [];
        actor_name = 1;
        args = [];
        message_id = 5;
        message_timestamp = 0;
      })
      no_options,
  [],
)

get_state-hooks_example :
    (s : State) × ((get_state sample_encoder 3000 5 (
        hooks sample_middleware sample_task
          ((enqueued 2 none 10, 100) ∷ (started_event 20, 110) ∷ (processed true 30, 120) ∷ [])
          [])).0
      ≡ found s)
    × (progress_of s ≡ record {
      status = some failure;
      priority = some 2;
      enqueued_at = some 10;
      started_at = some 20;
      ended_at = some 30;
    })
unfolding lookup
get_state-hooks_example =
    get_state-hooks sample_middleware sample-KeepsSmall sample_task 3599 100 3000
      (enqueued 2 none 10) ((started_event 20, 110) ∷ (processed true 30, 120) ∷ []) [] refl refl
      (omega arith)

-- An expired state and one that is not.
abbrev two_states : States
two_states =
    (5, record { state = (0, 0 ∷ 5 ∷ []) ∷ []; expiration = 10 })
    ∷ (6, record { state = (0, 0 ∷ 6 ∷ []) ∷ (1, 7 ∷ []) ∷ []; expiration = 50 })
    ∷ []

abbrev second_state : State
second_state = record {
  message_id = 6;
  status = some success;
  actor_name = none;
  args = none;
  kwargs = none;
  options = none;
  priority = none;
  progress = none;
  enqueued_datetime = none;
  started_datetime = none;
  end_datetime = none;
  queue_name = none;
  composition_id = none;
}

answers-view_example :
    answers sample_encoder 10 (save second_state 30 0 ∷ fetch 6 5 ∷ fetch 6 31 ∷ []) two_states
    ≡ view_answers sample_encoder 10
        (save second_state 30 0 ∷ fetch 6 5 ∷ fetch 6 31 ∷ [])
        (view_of sample_encoder two_states)
answers-view_example =
    answers-view sample_encoder 10 (save second_state 30 0 ∷ fetch 6 5 ∷ fetch 6 31 ∷ []) two_states

test-count : get_states_count two_states ≡ 2
unfolding get_states_count
test-count = refl
