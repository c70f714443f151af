-- ===== src/RedisResults/Pipelined.antt =====
-- Results fetched in one pipeline are those fetched one at a time.
use remoulade.Prelude.{
  ℕ, ◌≡◌, refl, sym, ap, ◌∙◌, Bool, true, false, List, [], ◌∷◌, Option, none, some,
}
use remoulade.Results.{process_result}
use remoulade.RedisResults.{
  Redis, Codec, Row, missing_message, Yielded, done, yield_result, last_id, execute, data_row,
  yield_row, yield_rows, get_results, get_data,
}

module _ {S : Type 0} (redis : Redis S) (codec : Codec) where
  -- One message after the other, until a result is missing; a missing result is reported with `name`.
  abbrev pub one_by_one : (forget raise_on_error : Bool) → (name : ℕ → ℕ) → List ℕ → S → Yielded
  one_by_one forget raise_on_error name [] s = done
  one_by_one forget raise_on_error name (i ∷ is) s = elim (get_data redis codec forget i s).0 [
    | none ↦ record { results = []; failure = some (missing_message (name i)) }
    | some d ↦
        yield_result (process_result (codec.decode d) raise_on_error)
          (one_by_one forget raise_on_error name is (get_data redis codec forget i s).1)
  ]

  -- Where nothing is forgotten every row counts.
  rows-parity :
      (odd raise_on_error : Bool) (last : ℕ) (rows : List Row)
      → yield_rows redis codec false odd raise_on_error last rows
        ≡ yield_rows redis codec false false raise_on_error last rows
  unfolding yield_rows
  rows-parity odd raise_on_error last [] = refl
  rows-parity true raise_on_error last (row ∷ rows) =
      ap (yield_row redis codec raise_on_error last row)
        (sym (rows-parity true raise_on_error last rows))
  rows-parity false raise_on_error last (row ∷ rows) = refl

  row-data :
      (raise_on_error : Bool) (last : ℕ) (d : Option (List ℕ)) (rest : Yielded)
      → yield_row redis codec raise_on_error last (data_row d) rest ≡ elim d [
        | none ↦ record { results = []; failure = some (missing_message last) }
        | some bytes ↦ yield_result (process_result (codec.decode bytes) raise_on_error) rest
      ]
  unfolding yield_row
  row-data raise_on_error last none rest = refl
  row-data raise_on_error last (some bytes) rest = refl

  rows-one_by_one :
      (forget raise_on_error : Bool) (last : ℕ) (is : List ℕ) (s : S)
      → yield_rows redis codec forget false raise_on_error last (execute redis codec forget is s).0
        ≡ one_by_one forget raise_on_error (λ _. last) is s
  unfolding yield_rows execute get_data
  rows-one_by_one true raise_on_error last [] s = refl
  rows-one_by_one false raise_on_error last [] s = refl
  rows-one_by_one true raise_on_error last (i ∷ is) s =
      let (row, left) = redis.lpop i (redis.rpushx i codec.forgotten s).1 in
      ap (yield_row redis codec raise_on_error last (data_row row))
        (rows-one_by_one true raise_on_error last is left)
      ∙ row-data raise_on_error last row _
  rows-one_by_one false raise_on_error last (i ∷ is) s =
      ap (yield_row redis codec raise_on_error last (data_row (redis.rpoplpush i s).0)) (
        rows-parity true raise_on_error last
          (execute redis codec false is (redis.rpoplpush i s).1).0
        ∙ rows-one_by_one false raise_on_error last is (redis.rpoplpush i s).1)
      ∙ row-data raise_on_error last (redis.rpoplpush i s).0 _

  -- Where block is false, get_results runs all its commands in one pipeline and yields what asking
  -- for one result after the other yields, and fails where that fails, for every server; but a
  -- missing result is reported with the identifier of the last message, whichever is missing.
  pub get_results-one_by_one :
      (forget raise_on_error : Bool) (i : ℕ) (is : List ℕ) (s : S)
      → (get_results redis codec forget raise_on_error i is s).0
        ≡ one_by_one forget raise_on_error (λ _. last_id i is) (i ∷ is) s
  unfolding get_results
  get_results-one_by_one forget raise_on_error i is s =
      rows-one_by_one forget raise_on_error (last_id i is) (i ∷ is) s
