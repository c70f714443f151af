-- ===== src/Cancel/Spreading.antt =====
-- A message that fails takes its composition with it.
use remoulade.Prelude.{
  nat_eq, ℕ, ◌+◌, ◌<◌, ◌≡◌, refl, Bool, true, false, ◌||◌, Option, none, some, nat_beq, arith,
}
use remoulade.Prelude.Dict.{Dict, insert, lookup-insert}
use remoulade.Cancel.{Processed, key_is_canceled, before_process_message, after_process_message}

abbrev pub belongs : ℕ → Option ℕ → Bool
belongs c none = false
belongs c (some e) = nat_beq c e

key_is_canceled-insert :
    (now later ttl c : ℕ) (key : Option ℕ) (d : Dict ℕ ℕ)
    → later < now + ttl
    → key_is_canceled later ttl key (insert c now d)
      ≡ (belongs c key || key_is_canceled later ttl key d)
unfolding key_is_canceled
key_is_canceled-insert now later ttl c none d h = refl
key_is_canceled-insert now later ttl c (some k) d h = ground (arith, lookup-insert c k now d)

cancelled_table :
    (now c : ℕ) (p : Processed) (d d' : Dict ℕ ℕ)
    → p.composition_id ≡ some c
    → p.cancel_on_error ≡ true
    → p.raises ≡ true
    → after_process_message now p d ≡ some d'
    → insert c now d ≡ d'
unfolding after_process_message
cancelled_table now c p d d' comp cancels raised e = ground arith

-- When a message with `cancel_on_error` raises, exactly the messages of its composition are refused
-- in addition, from then on until the cancellation expires; the message meant has an identifier of
-- its own, which is not the composition's.
pub before-after_process_message :
    (now later ttl c : ℕ) (p q : Processed) (d d' : Dict ℕ ℕ)
    → p.composition_id ≡ some c
    → p.cancel_on_error ≡ true
    → p.raises ≡ true
    → after_process_message now p d ≡ some d'
    → later < now + ttl
    → nat_beq c q.message_id ≡ false
    → before_process_message later ttl q d'
      ≡ (belongs c q.composition_id || before_process_message later ttl q d)
unfolding before_process_message
before-after_process_message now later ttl c p q d d' comp cancels raised e fresh other = ground (
  arith,
  cancelled_table now c p d d' comp cancels raised e,
  key_is_canceled-insert now later ttl c (some q.message_id) d fresh,
  key_is_canceled-insert now later ttl c q.composition_id d fresh,
)
