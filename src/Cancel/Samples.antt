-- ===== src/Cancel/Samples.antt =====
-- A message of the composition 9 fails, and another of the composition comes.
use remoulade.Prelude.{nat_eq, ℕ, ◌≡◌, refl, true, false, ◌||◌, [], ◌∷◌, some, arith}
use remoulade.Cancel.{Processed, before_process_message, after_process_message}
use remoulade.Cancel.Spreading.{belongs, before-after_process_message}

abbrev part : ℕ → Processed
part id = record { message_id = id; composition_id = some 9; cancel_on_error = true; raises = true }

before-after_process_message_example :
    before_process_message 20 100 (part 2) ((9, 10) ∷ [])
    ≡ (belongs 9 (some 9) || before_process_message 20 100 (part 2) [])
unfolding after_process_message remoulade.Prelude.Dict.insert
before-after_process_message_example =
    before-after_process_message 10 20 100 9 (part 1) (part 2) [] ((9, 10) ∷ []) refl refl refl refl
      (omega arith) refl
