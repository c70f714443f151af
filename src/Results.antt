-- ===== src/Results.antt =====
-- remoulade/results: the in-memory result backend (backends/stub.py under backend.py), and what the
-- middleware stores of a message (middleware.py). Times are milliseconds, and an error is the
-- number of its text, which is never empty.
pub mod Polling
pub mod Saving
pub mod Storing
mod Samples
use remoulade.Prelude.{
  nat_eq, ℕ, zero, suc, ◌+◌, ◌*◌, ◌/◌, Bool, true, false, not, ◌&&◌, List, [], ◌∷◌, ◌++◌, Option,
  none, some, ltb, any, nat_beq, map, if◌then◌else◌,
}
use remoulade.Prelude.Dict.{Dict, lookup, insert}
use remoulade.Message.{
  Value, null, error_text, Message, message, Options, options, Target, no_target, target, Messages,
  end, next,
}

pub record BackendResult : Type 0 where
  pub result : Value
  pub error : Option ℕ
  pub forgot : Bool
  pub actor_name : Option ℕ

abbrev pub forgotten_result : BackendResult
forgotten_result = record { result = null; error = none; forgot = true; actor_name = none }

-- The results with their expiration, by message.
abbrev pub Store : Type 0
Store = Dict ℕ (BackendResult × ℕ)

abbrev pub unexpired : ℕ → Option (BackendResult × ℕ) → Option BackendResult
unexpired now none = none
unexpired now (some (r, expiration)) = if ltb now expiration then some r else none

abbrev pub forgotten : ℕ → Option (BackendResult × ℕ) → Store → Store
forgotten message_id none s = s
forgotten message_id (some (r, expiration)) s = insert message_id (forgotten_result, expiration) s

-- `_get`; `none` stands for Missing.
unfoldable pub get : ℕ → Bool → ℕ → Store → Option BackendResult × Store
get message_id forget now s =
    let entry = lookup message_id s in
    (unexpired now entry, if forget then forgotten message_id entry s else s)

-- `store_results` and `_store`
unfoldable pub store_results : ℕ → ℕ → List (ℕ × BackendResult) → Store → Store
store_results now ttl [] s = s
store_results now ttl ((message_id, r) ∷ rs) s =
    store_results now ttl rs (insert message_id (r, now + ttl / 1000 * 1000) s)

unfoldable pub forget_results : ℕ → ℕ → List ℕ → Store → Store
unfolding store_results
forget_results now ttl ids s = store_results now ttl (map (λ i. (i, forgotten_result)) ids) s

-- The number of messages with a result.
unfoldable pub get_status : ℕ → List ℕ → Store → ℕ
unfolding get
get_status now [] s = 0
get_status now (i ∷ is) s =
    elim ((get i false now s).0) [ none ↦ 0 | some r ↦ 1 ] + get_status now is s

-- What the caller of `get_result` gets.
pub data Answer : Type 0 where
  returned : Value → Answer
  error_stored : ℕ → Answer
  result_missing result_timeout out_of_fuel : Answer

unfoldable pub process_result : BackendResult → Bool → Answer
process_result r raise_on_error = elim r.error [
  | none ↦ returned r.result
  | some e ↦ if raise_on_error then error_stored e else returned (error_text e)
]

-- How the world goes on while a caller waits: the time of the n-th poll, the store that it finds,
-- and the delay that `check_timeout` draws.
pub record Waiting : Type 0 where
  pub clock : ℕ → ℕ
  pub seen : ℕ → Store
  pub delay : ℕ → ℕ

-- What one poll leads to; `rest` is what the later polls answer.
unfoldable pub answer : Option BackendResult → (block late raise_on_error : Bool) → Answer → Answer
unfolding process_result
answer (some r) block late raise_on_error rest = process_result r raise_on_error
answer none block late raise_on_error rest =
    if block then if late then result_timeout else rest else result_missing

-- `while True`, from the n-th poll.
unfoldable pub poll : ℕ → Waiting → ℕ → ℕ → (block forget raise_on_error : Bool) → ℕ → Answer
unfolding get answer
poll zero w message_id end_time block forget raise_on_error n = out_of_fuel
poll (suc fuel) w message_id end_time block forget raise_on_error n =
    answer (get message_id forget (w.clock n) (w.seen n)).0 block
      (ltb end_time (w.clock n + w.delay n)) raise_on_error
      (poll fuel w message_id end_time block forget raise_on_error (suc n))

unfoldable pub get_result : ℕ → Waiting → ℕ → ℕ → (block forget raise_on_error : Bool) → Answer
get_result fuel w message_id timeout block forget raise_on_error =
    poll fuel w message_id (w.clock 0 + timeout) block forget raise_on_error 0

-- A processed message as the middleware sees it, with its options; `stores` gives the option
-- `store_results` of a message that follows.
pub record Processed : Type 0 where
  pub message_id : ℕ
  pub actor_name : ℕ
  pub pipe_target : Target
  pub store_results : Bool
  pub pipe_on_error : Bool
  pub failed : Bool
  pub result : Value
  pub exception : Option ℕ

abbrev pub if_stored : Bool → ℕ → List ℕ → List ℕ
if_stored true i is = i ∷ is
if_stored false i is = is

-- `_get_children_message_ids`
unfoldable mutual
  pub children : (Message → Bool) → Target → List ℕ
  children stores no_target = []
  children stores (target ms) = children_of stores ms

  pub children_of : (Message → Bool) → Messages → List ℕ
  children_of stores end = []
  children_of stores (next (message h o) ms) =
      if_stored (stores (message h o)) h.message_id
        (children_behind stores o ++ children_of stores ms)

  pub children_behind : (Message → Bool) → Options → List ℕ
  children_behind stores (options t f) = children stores t

-- The result of the message itself, if there is one to store.
unfoldable pub own_result : Processed → List (ℕ × BackendResult)
own_result p = elim p.exception [
  | none ↦
      (
        p.message_id,
        record { result = p.result; error = none; forgot = false; actor_name = some p.actor_name },
      )
      ∷ []
  | some e ↦
      if p.failed
      then (
        p.message_id,
        record { result = null; error = some e; forgot = false; actor_name = some p.actor_name },
      )
        ∷ []
      else []
]

-- The results that `after_process_message` stores; `parent_failed` is the text of the error that
-- the following messages get.
unfoldable pub results_of : (Message → Bool) → ℕ → Processed → List (ℕ × BackendResult)
unfolding own_result children
results_of stores parent_failed p =
    let failure : BackendResult = record {
      result = null;
      error = some parent_failed;
      forgot = false;
      actor_name = some p.actor_name;
    } in
    (if p.store_results then own_result p else [])
    ++ (if p.failed && not p.pipe_on_error
        then map (λ i. (i, failure)) (children stores p.pipe_target)
        else [])

unfoldable pub after_process_message : (Message → Bool) → ℕ → ℕ → ℕ → Processed → Store → Store
unfolding results_of store_results
after_process_message stores parent_failed now ttl p s =
    store_results now ttl (results_of stores parent_failed p) s
