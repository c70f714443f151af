-- ===== src/State/Refinement.antt =====
-- What the in-memory backend of states stands for: a function from messages to the values that were
-- last written under each key, with an expiration.
use remoulade.Prelude.{
  nat_eq, ℕ, suc, ◌+◌, ◌≤◌, ◌<◌, ◌≡◌, refl, ap, ◌∙◌, Bool, true, false, List, [], ◌∷◌, Option, none,
  some, ltb, leb, nat_beq, arith, if◌then◌else◌, fun_ext, Option-cases,
}
use remoulade.Prelude.Dict.{Dict, lookup, insert, lookup-insert, lookup-remove}
use remoulade.Message.{or_else}
use remoulade.State.{
  Content, status_text, number, arguments, keywords, option_dict, datetime, queue, State, Encoder,
  Payload, States, Fetched, missing, as_fetched, present, as_dict, as_number, state_of, from_dict,
  merge, encode_dict, decode_dict, written, set_state, get_state,
}

-- A dict's keys grow, from a bound on.
abbrev pub IsSorted : {V : Type 0} → ℕ → Dict ℕ V → Type 0
IsSorted bound [] = Unit
IsSorted bound ((key, value) ∷ rest) = (bound ≤ key) × IsSorted (suc key) rest

IsSorted-weaken :
    {V : Type 0} (low high : ℕ) (d : Dict ℕ V) → low ≤ high → IsSorted high d → IsSorted low d
IsSorted-weaken low high [] le h = tt
IsSorted-weaken low high ((key, value) ∷ rest) le (first, others) = (omega arith, others)

lookup-IsSorted :
    {V : Type 0} (bound key : ℕ) (d : Dict ℕ V)
    → IsSorted bound d
    → key < bound
    → lookup key d ≡ none
unfolding lookup
lookup-IsSorted bound key [] h lt = refl
lookup-IsSorted bound key ((other, value) ∷ rest) (first, others) lt =
    ground (arith, lookup-IsSorted (suc other) key rest others)

IsSorted-present :
    {A : Type 0} (shown : A → Content) (key : ℕ) (o : Option A) (rest : Dict ℕ Content)
    → IsSorted (suc key) rest
    → IsSorted key (present shown key o rest)
unfolding present
IsSorted-present shown key none rest h = IsSorted-weaken key (suc key) rest (omega arith) h
IsSorted-present shown key (some a) rest h = (omega arith, h)

as_dict-numbers-IsSorted :
    (s : State)
    → IsSorted 6 (
        present number 6 s.priority (
          present number 7 s.progress (
            present datetime 8 s.enqueued_datetime (
              present datetime 9 s.started_datetime (
                present datetime 10 s.end_datetime
                  (present queue 11 s.queue_name (present number 12 s.composition_id [])))))))
as_dict-numbers-IsSorted s = IsSorted-present number 6 s.priority _ (
    IsSorted-present number 7 s.progress _ (
      IsSorted-present datetime 8 s.enqueued_datetime _ (
        IsSorted-present datetime 9 s.started_datetime _ (
          IsSorted-present datetime 10 s.end_datetime _ (
            IsSorted-present queue 11 s.queue_name _
              (IsSorted-present number 12 s.composition_id [] tt))))))

pub as_dict-IsSorted : (s : State) → IsSorted 0 (as_dict s)
unfolding as_dict
as_dict-IsSorted s = (
  omega arith,
  IsSorted-present status_text 1 s.status _ (
      IsSorted-present number 2 s.actor_name _ (
        IsSorted-present arguments 3 s.args _ (
          IsSorted-present keywords 4 s.kwargs _
            (IsSorted-present option_dict 5 s.options _ (as_dict-numbers-IsSorted s))))),
)

module _ (encoder : Encoder) where
  -- What the encoder gives back of a value, if it is no larger than max_size.
  abbrev pub fitting : ℕ → Option Content → Option Content
  fitting max_size none = none
  fitting max_size (some c) =
      if leb (encoder.sizeof (encoder.encode c)) max_size
      then some (encoder.decode (encoder.encode c))
      else none

  IsSorted-encode_dict :
      (bound max_size : ℕ) (d : Dict ℕ Content)
      → IsSorted bound d
      → IsSorted bound (encode_dict encoder max_size d)
  unfolding encode_dict
  IsSorted-encode_dict bound max_size [] h = tt
  IsSorted-encode_dict bound max_size ((key, c) ∷ rest) (first, others) = ground (
    arith,
    IsSorted-encode_dict (suc key) max_size rest others,
    IsSorted-weaken bound (suc key) (encode_dict encoder max_size rest),
  )

  lookup-encode_dict :
      (bound max_size key : ℕ) (d : Dict ℕ Content)
      → IsSorted bound d
      → lookup key (decode_dict encoder (encode_dict encoder max_size d))
        ≡ fitting max_size (lookup key d)
  unfolding encode_dict decode_dict lookup
  lookup-encode_dict bound max_size key [] h = refl
  lookup-encode_dict bound max_size key ((other, c) ∷ rest) (first, others) = ground (
    arith,
    lookup-encode_dict (suc other) max_size key rest others,
    lookup-IsSorted (suc other) key rest others,
  )

  lookup-decode_insert :
      (key other : ℕ) (value : List ℕ) (d : Dict ℕ (List ℕ))
      → lookup other (decode_dict encoder (insert key value d)) ≡ (
          if nat_beq key other
          then some (encoder.decode value)
          else lookup other (decode_dict encoder d))
  unfolding decode_dict lookup insert
  lookup-decode_insert key other value [] = refl
  lookup-decode_insert key other value ((i, old) ∷ rest) =
      ground (arith, lookup-decode_insert key other value rest)

  lookup-decode_none :
      (bound key : ℕ) (d : Dict ℕ (List ℕ))
      → IsSorted bound d
      → key < bound
      → lookup key (decode_dict encoder d) ≡ none
  unfolding decode_dict lookup
  lookup-decode_none bound key [] h lt = refl
  lookup-decode_none bound key ((other, value) ∷ rest) (first, others) lt =
      ground (arith, lookup-decode_none (suc other) key rest others)

  lookup-merge :
      (bound key : ℕ) (new old : Dict ℕ (List ℕ))
      → IsSorted bound new
      → lookup key (decode_dict encoder (merge new old))
        ≡ or_else (lookup key (decode_dict encoder new)) (lookup key (decode_dict encoder old))
  unfolding decode_dict lookup merge
  lookup-merge bound key [] old h = refl
  lookup-merge bound key ((other, value) ∷ rest) old (first, others) = ground (
    arith,
    lookup-merge (suc other) key rest (insert other value old) others,
    lookup-decode_insert other key value old,
    lookup-decode_none (suc other) key rest others,
  )

  -- The values of a message by key, and when they expire.
  abbrev pub View : Type 0
  View = ℕ → Option ((ℕ → Option Content) × ℕ)

  abbrev pub fields_of : Option Payload → Option ((ℕ → Option Content) × ℕ)
  fields_of none = none
  fields_of (some p) = some ((λ key. lookup key (decode_dict encoder p.state)), p.expiration)

  -- What the stored states stand for.
  abbrev pub view_of : States → View
  view_of states i = fields_of (lookup i states)

  abbrev pub before : Option ((ℕ → Option Content) × ℕ) → ℕ → Option Content
  before none key = none
  before (some (fields, expiration)) key = fields key

  -- What a write leaves at its message: each value that fits replaces the one before it, whether or
  -- not that one has expired.
  abbrev pub overlay :
      ℕ → State → ℕ → ℕ → Option ((ℕ → Option Content) × ℕ) → Option ((ℕ → Option Content) × ℕ)
  overlay max_size s ttl now old =
      some
        ((λ key. or_else (fitting max_size (lookup key (as_dict s))) (before old key)), ttl + now)

  abbrev pub write : ℕ → State → ℕ → ℕ → View → View
  write max_size s ttl now v i =
      if nat_beq s.message_id i then overlay max_size s ttl now (v s.message_id) else v i

  abbrev pub read : ℕ → Option ((ℕ → Option Content) × ℕ) → Fetched
  read now none = missing
  read now (some (fields, expiration)) =
      if ltb expiration now then missing else as_fetched (state_of fields (as_number (fields 0)))

  -- A read of a message whose values have expired drops them.
  abbrev pub expire : ℕ → ℕ → View → View
  expire now i v j =
      if nat_beq i j
      then elim (v j) [
        | none ↦ none
        | some (fields, t) ↦ if ltb t now then none else some (fields, t)
      ]
      else v j

  fresh_fields :
      (max_size : ℕ) (s : State)
      → ◌≡◌ {A = ℕ → Option Content}
          (λ key. lookup key (decode_dict encoder (encode_dict encoder max_size (as_dict s))))
          (λ key. or_else (fitting max_size (lookup key (as_dict s))) none)
  fresh_fields max_size s = fun_ext λ key. ground (
    arith,
    lookup-encode_dict 0 max_size key (as_dict s) (as_dict-IsSorted s),
    Option-cases (fitting max_size (lookup key (as_dict s))),
  )

  merged_fields :
      (max_size : ℕ) (s : State) (old : Dict ℕ (List ℕ))
      → ◌≡◌ {A = ℕ → Option Content}
          (λ key.
            lookup key (decode_dict encoder (merge (encode_dict encoder max_size (as_dict s)) old)))
          (λ key.
            or_else
              (fitting max_size (lookup key (as_dict s)))
              (lookup key (decode_dict encoder old)))
  merged_fields max_size s old = fun_ext λ key.
      lookup-merge 0 key _ old (IsSorted-encode_dict 0 max_size (as_dict s) (as_dict-IsSorted s))
      ∙ ap (λ o. or_else o (lookup key (decode_dict encoder old)))
          (lookup-encode_dict 0 max_size key (as_dict s) (as_dict-IsSorted s))

  fields-written :
      (max_size : ℕ) (s : State) (ttl now : ℕ) (old : Option Payload)
      → fields_of (some (written encoder max_size s ttl now old))
        ≡ overlay max_size s ttl now (fields_of old)
  unfolding written
  fields-written max_size s ttl now none = ap (λ f. some (f, ttl + now)) (fresh_fields max_size s)
  fields-written max_size s ttl now (some payload) =
      ap (λ f. some (f, ttl + now)) (merged_fields max_size s payload.state)

  fields-if :
      (b : Bool) (x y : Option Payload)
      → fields_of (if b then x else y) ≡ (if b then fields_of x else fields_of y)
  fields-if true x y = refl
  fields-if false x y = refl

  written-lookup :
      (max_size : ℕ) (s : State) (ttl now : ℕ) (states : States) (i : ℕ)
      → fields_of (lookup i (set_state encoder max_size s ttl now states))
        ≡ write max_size s ttl now (view_of states) i
  unfolding set_state
  written-lookup max_size s ttl now states i =
      let old = lookup s.message_id states in
      let same = nat_beq s.message_id i in
      ap fields_of (lookup-insert s.message_id i (written encoder max_size s ttl now old) states)
      ∙ fields-if same _ _
      ∙ ap (λ f. if same then f else fields_of (lookup i states))
          (fields-written max_size s ttl now old)

  pub view-set_state :
      (max_size : ℕ) (s : State) (ttl now : ℕ) (states : States)
      → view_of (set_state encoder max_size s ttl now states)
        ≡ write max_size s ttl now (view_of states)
  view-set_state max_size s ttl now states = fun_ext (written-lookup max_size s ttl now states)

  -- A read gives what the view gives.
  pub get_state-view :
      (now i : ℕ) (states : States)
      → ((get_state encoder now i states).0 ≡ read now (view_of states i))
        × (view_of (get_state encoder now i states).1 ≡ expire now i (view_of states))
  unfolding get_state from_dict
  get_state-view now i states =
      (ground arith, fun_ext λ j. ground (arith, lookup-remove i j states))

  -- Calls of the backend, each with its time.
  pub data Call : Type 0 where
    save : State → ℕ → ℕ → Call
    fetch : ℕ → ℕ → Call

  -- What the fetches return.
  abbrev pub answers : ℕ → List Call → States → List Fetched
  answers max_size [] states = []
  answers max_size (save s ttl now ∷ calls) states =
      answers max_size calls (set_state encoder max_size s ttl now states)
  answers max_size (fetch i now ∷ calls) states =
      (get_state encoder now i states).0 ∷ answers max_size calls (get_state encoder now i states).1

  -- What the function that the states stand for returns.
  abbrev pub view_answers : ℕ → List Call → View → List Fetched
  view_answers max_size [] v = []
  view_answers max_size (save s ttl now ∷ calls) v =
      view_answers max_size calls (write max_size s ttl now v)
  view_answers max_size (fetch i now ∷ calls) v =
      read now (v i) ∷ view_answers max_size calls (expire now i v)

  -- Whatever states are saved and fetched and when, the fetches from the in-memory backend return what
  -- the function from messages to last written values returns: of each key the last value that was
  -- not None and not larger than max_size once encoded, with the expiration of the last write.
  pub answers-view :
      (max_size : ℕ) (calls : List Call) (states : States)
      → answers max_size calls states ≡ view_answers max_size calls (view_of states)
  answers-view max_size [] states = refl
  answers-view max_size (save s ttl now ∷ calls) states =
      answers-view max_size calls _
      ∙ ap (view_answers max_size calls) (view-set_state max_size s ttl now states)
  answers-view max_size (fetch i now ∷ calls) states =
      let (same, left) = get_state-view now i states in
      ap (λ rest. (get_state encoder now i states).0 ∷ rest)
        (answers-view max_size calls _ ∙ ap (view_answers max_size calls) left)
      ∙ ap (λ f. f ∷ view_answers max_size calls (expire now i (view_of states))) same
