-- ===== src/RedisResults.antt =====
-- remoulade/results/backends/redis.py: results kept in redis. The server is a parameter: what its
-- commands return and do to its state. A key is the number of its message, data is a list of bytes,
-- and a pipeline's commands are run one after the other.
pub mod Pipelined
pub mod Trying
mod Samples
use remoulade.Prelude.{
  ℕ, zero, suc, ◌+◌, Bool, true, false, not, ◌&&◌, List, [], ◌∷◌, ◌++◌, Option, none, some,
  if◌then◌else◌,
}
use remoulade.Message.{Value}
use remoulade.Results.{
  BackendResult, Answer, returned, error_stored, result_missing, result_timeout, process_result,
}

-- The commands that the backend uses, on the server's state.
pub record Redis (S : Type 0) : Type 0 where
  pub rpushx : ℕ → List ℕ → S → ℕ × S
  pub lpop : ℕ → S → Option (List ℕ) × S
  pub rpoplpush : ℕ → S → Option (List ℕ) × S
  pub rpop : ℕ → S → Option (List ℕ) × S
  pub delete : ℕ → S → S
  pub lpush : ℕ → List ℕ → S → S
  pub pexpire : ℕ → ℕ → S → S
  pub sadd : ℕ → ℕ → S → S
  pub scard : ℕ → S → ℕ
  pub exists : List ℕ → S → ℕ

-- The encoder of results, with the forgotten result encoded.
pub record Codec : Type 0 where
  pub encode : BackendResult → List ℕ
  pub decode : List ℕ → BackendResult
  pub forgotten : List ℕ

-- A row of what a pipeline returns.
pub data Row : Type 0 where
  count : ℕ → Row
  data_row : Option (List ℕ) → Row

-- What is yielded, and what is raised after it, with the message that ResultMissing names.
pub data Failure : Type 0 where
  missing_message : ℕ → Failure
  stored_error : ℕ → Failure

pub record Yielded : Type 0 where
  pub results : List Value
  pub failure : Option Failure

abbrev pub done : Yielded
done = record { results = []; failure = none }

-- `yield self.process_result(...)`
abbrev pub yield_result : Answer → Yielded → Yielded
yield_result (returned v) rest = record rest { results = v ∷ rest.results }
yield_result (error_stored e) rest = record { results = []; failure = some (stored_error e) }
yield_result _ rest = rest

abbrev pub last_id : ℕ → List ℕ → ℕ
last_id i [] = i
last_id i (j ∷ js) = last_id j js

module _ {S : Type 0} (redis : Redis S) (codec : Codec) where
  -- The commands of get_results for one message, and what the pipeline returns for all.
  unfoldable pub execute : Bool → List ℕ → S → List Row × S
  execute forget [] s = ([], s)
  execute true (i ∷ is) s =
      let (n, s') = redis.rpushx i codec.forgotten s in
      let (row, s'') = redis.lpop i s' in
      let (rows, s''') = execute true is s'' in (count n ∷ data_row row ∷ rows, s''')
  execute false (i ∷ is) s =
      let (row, s') = redis.rpoplpush i s in
      let (rows, s'') = execute false is s' in (data_row row ∷ rows, s'')

  -- A row that is not skipped, in front of what the later ones yield.
  unfoldable pub yield_row : Bool → ℕ → Row → Yielded → Yielded
  yield_row raise_on_error message_id (count n) rest = rest
  yield_row raise_on_error message_id (data_row none) rest = record {
    results = [];
    failure = some (missing_message message_id);
  }
  yield_row raise_on_error message_id (data_row (some d)) rest =
      yield_result (process_result (codec.decode d) raise_on_error) rest

  -- The loop over the rows, where `odd` says that the row's index is odd. The identifier of a missing
  -- result is what the loop before left in `message_id`.
  unfoldable pub yield_rows :
      (forget odd raise_on_error : Bool) → (message_id : ℕ) → List Row → Yielded
  unfolding yield_row
  yield_rows forget odd raise_on_error message_id [] = done
  yield_rows forget odd raise_on_error message_id (row ∷ rows) =
      let rest = yield_rows forget (not odd) raise_on_error message_id rows in
      if not odd && forget then rest else yield_row raise_on_error message_id row rest

  -- `get_results` with block false.
  unfoldable pub get_results : (forget raise_on_error : Bool) → ℕ → List ℕ → S → Yielded × S
  unfolding execute yield_rows
  get_results forget raise_on_error i is s =
      let (rows, s') = execute forget (i ∷ is) s in
      (yield_rows forget false raise_on_error (last_id i is) rows, s')

  -- One try of get_result with block false.
  unfoldable pub get_data : Bool → ℕ → S → Option (List ℕ) × S
  get_data true i s = let (n, s') = redis.rpushx i codec.forgotten s in redis.lpop i s'
  get_data false i s = redis.rpoplpush i s

  unfoldable pub store : (ttl : ℕ) → List (ℕ × BackendResult) → S → S
  store ttl [] s = s
  store ttl ((i, r) ∷ rest) s =
      store ttl rest (redis.pexpire i ttl (redis.lpush i (codec.encode r) (redis.delete i s)))

  -- `_get`; `none` stands for Missing.
  unfoldable pub get : Bool → ℕ → S → Option BackendResult × S
  get forget i s =
      let (d, s') = if forget then redis.rpop i s else redis.rpoplpush i s in
      (elim d [ none ↦ none | some bytes ↦ some (codec.decode bytes) ], s')

  unfoldable pub increment_group_completion : (group_id message_id ttl : ℕ) → S → ℕ × S
  increment_group_completion group_id message_id ttl s =
      let s' = redis.pexpire group_id ttl (redis.sadd group_id message_id s) in
      (redis.scard group_id s', s')

  unfoldable pub get_status : List ℕ → S → ℕ
  get_status [] s = 0
  get_status (i ∷ is) s = redis.exists (i ∷ is) s

-- How one try of get_result ends: with data, without, or in a connection error or a timeout of redis,
-- by then with data or without.
pub data Try : Type 0 where
  got : List ℕ → Try
  nothing_there : Try
  broken : Option (List ℕ) → Try

pub data Ending : Type 0 where
  found_data : List ℕ → Ending
  missing timed_out : Ending
  redis_error : Ending

-- What a try leads to; `rest` is what the later ones come to.
unfoldable pub after_try : Try → (block last late : Bool) → Ending → Ending
after_try (got d) block last late rest = found_data d
after_try nothing_there block last late rest = if block then timed_out else missing
after_try (broken (some d)) block last late rest = found_data d
after_try (broken none) block last late rest =
    if last then redis_error else if block && late then redis_error else rest

-- The loop of get_result with so many retries left, from the n-th try on: `tries` is how each ends,
-- and `late` whether the timeout has passed after it.
unfoldable pub try_from : (left : ℕ) → (tries : ℕ → Try) → (late : ℕ → Bool) → Bool → ℕ → Ending
unfolding after_try
try_from zero tries late block n = after_try (tries n) block true (late n) redis_error
try_from (suc left) tries late block n =
    after_try (tries n) block false (late n) (try_from left tries late block (suc n))

unfoldable pub get_result : (max_retries : ℕ) → (ℕ → Try) → (ℕ → Bool) → Bool → Ending
unfolding try_from
get_result max_retries tries late block = try_from max_retries tries late block 0
