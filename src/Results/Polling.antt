-- ===== src/Results/Polling.antt =====
-- Waiting for a result ends, and what was stored is what is read.
use remoulade.Prelude.{
  nat_eq, ℕ, zero, suc, ◌+◌, ◌*◌, ◌/◌, ◌≤◌, ◌<◌, ◌≡◌, ◌≢◌, Bool, true, false, [], ◌∷◌, Option, none,
  some, ltb, nat_beq_iff, arith,
}
use remoulade.Prelude.Dict.{insert, lookup-insert}
use remoulade.Results.{
  BackendResult, forgotten_result, Store, get, store_results, Answer, out_of_fuel, process_result,
  answer, Waiting, poll, get_result,
}

process_result-answers : (r : BackendResult) (raises : Bool) → process_result r raises ≢ out_of_fuel
unfolding process_result
process_result-answers r raises = λ e. ground arith

answer-answers :
    (o : Option BackendResult) (block late raises : Bool) (rest : Answer)
    → (late ≡ false → rest ≢ out_of_fuel)
    → answer o block late raises rest ≢ out_of_fuel
unfolding answer
answer-answers (some r) block late raises rest h = process_result-answers r raises
answer-answers none block late raises rest h = λ e. ground arith

poll-ends :
    (fuel n : ℕ) (w : Waiting) (message_id end_time : ℕ) (block forget raises : Bool)
    → ((i : ℕ) → (w.clock i + w.delay i ≤ w.clock (suc i)) × (1 ≤ w.delay i))
    → end_time ≤ w.clock n + fuel
    → poll (suc fuel) w message_id end_time block forget raises n ≢ out_of_fuel
unfolding poll
poll-ends zero n w message_id end_time block forget raises goes h =
    answer-answers (get message_id forget (w.clock n) (w.seen n)).0 block
      (ltb end_time (w.clock n + w.delay n)) raises out_of_fuel (λ e f. ground (arith, goes n))
poll-ends (suc fuel) n w message_id end_time block forget raises goes h =
    answer-answers (get message_id forget (w.clock n) (w.seen n)).0 block
      (ltb end_time (w.clock n + w.delay n)) raises
      (poll (suc fuel) w message_id end_time block forget raises (suc n))
      (λ e.
        poll-ends fuel (suc n) w message_id end_time block forget raises goes
          (omega (arith, goes n)))

-- `get_result` ends with a result, an error or a timeout, when every pause lasts a millisecond or
-- more: the fuel is enough with one poll for each millisecond of the timeout and one more.
pub get_result-ends :
    (w : Waiting) (message_id timeout : ℕ) (block forget raises : Bool)
    → ((i : ℕ) → (w.clock i + w.delay i ≤ w.clock (suc i)) × (1 ≤ w.delay i))
    → get_result (suc timeout) w message_id timeout block forget raises ≢ out_of_fuel
unfolding get_result
get_result-ends w message_id timeout block forget raises goes =
    poll-ends timeout 0 w message_id (w.clock 0 + timeout) block forget raises goes (omega arith)

-- A result that was stored is read until it expires, by every reader; a reader who forgets it gets
-- it, and leaves a result that is marked as forgotten, for as long as the first would have stayed.
pub get-store_results :
    (message_id now ttl later last : ℕ) (r : BackendResult) (s : Store)
    → later < now + ttl / 1000 * 1000
    → last < now + ttl / 1000 * 1000
    → let s' = store_results now ttl ((message_id, r) ∷ []) s in
      ((get message_id false later s').0 ≡ some r)
      × ((get message_id true later s').0 ≡ some r)
      × ((get message_id false last (get message_id true later s').1).0 ≡ some forgotten_result)
unfolding get store_results
get-store_results message_id now ttl later last r s h g =
    let s' = insert message_id (r, now + ttl / 1000 * 1000) s in
    ground (
      arith,
      nat_beq_iff message_id message_id,
      lookup-insert message_id message_id (r, now + ttl / 1000 * 1000) s,
      lookup-insert message_id message_id (forgotten_result, now + ttl / 1000 * 1000) s',
    )
