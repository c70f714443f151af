-- ===== src/Retries/Once.antt =====
-- What a retry keeps of the message, and what it changes only once.
use remoulade.Prelude.{
  ℕ, zero, suc, ◌+◌, ◌≤◌, ◌<◌, ◌≡◌, refl, sym, ap, ◌∙◌, Option, none, some, inl, inr, Bool-cases,
  Option-cases, arith, [], text_eq,
}
use remoulade.Prelude.Dict.{lookup}
use remoulade.QueueNames.{Name}
use remoulade.Message.{Message, message, options, copy, Flags, header, flags}
use remoulade.Backoff.{Ratio}
use remoulade.Backoff.Bounds.{PowerIsBetween, UniformIsBelow, InRange, compute_backoff_bounds}
use remoulade.Retries.{
  Settings, Outside, retry, retries_of, or_default, or_ten, gives_up, new_message, backoff,
  after_process_message, escalation_queue, nonempty, raise_priority, escalate,
}
use remoulade.Retries.Limits.{
  retries_of-new_message, flags-with_flags, header-with_flags, header-escalate,
}

header-new_message :
    (x : Outside) (s : Settings) (m : Message)
    → header (new_message x s m)
      ≡ record (header m) { queue_name = or_default (header m).queue_name (escalation_queue s m) }
unfolding new_message
header-new_message x s m =
    let m' = escalate m (escalation_queue s m) in
    let f = raise_priority s x.max_priority (flags m') in
    header-with_flags (record f { retries = some (retries_of m + 1); traceback = some x.traceback })
      m'
    ∙ header-escalate m (escalation_queue s m)

mapping-escalate :
    (m : Message) (queue : Name)
    → (flags (escalate m (some queue))).escalation_queue_mapping ≡ some []
unfolding escalate copy
mapping-escalate (message h (options t f)) queue = refl

mapping-raise_priority :
    (s : Settings) (highest : Option ℕ) (f : Flags)
    → (raise_priority s highest f).escalation_queue_mapping ≡ f.escalation_queue_mapping
unfolding raise_priority
mapping-raise_priority s none f = refl
mapping-raise_priority s (some highest) f = ground arith

mapping-new_message :
    (x : Outside) (s : Settings) (m : Message) (queue : Name)
    → escalation_queue s m ≡ some queue
    → (flags (new_message x s m)).escalation_queue_mapping ≡ some []
unfolding new_message
mapping-new_message x s m queue e =
    let m' = escalate m (escalation_queue s m) in
    let f = raise_priority s x.max_priority (flags m') in
    ap (λ g. g.escalation_queue_mapping)
      (flags-with_flags
        (record f { retries = some (retries_of m + 1); traceback = some x.traceback }) m')
    ∙ mapping-raise_priority s x.max_priority (flags m')
    ∙ ap (λ q. (flags (escalate m q)).escalation_queue_mapping) e
    ∙ mapping-escalate m queue

escalation_queue-empty :
    (s : Settings) (m : Message)
    → (flags m).escalation_queue_mapping ≡ some []
    → escalation_queue s m ≡ none
unfolding escalation_queue lookup
escalation_queue-empty s m e =
    ap (λ d. nonempty (lookup (header m).queue_name (or_default s.escalation_queue_mapping d))) e

-- A message escalates once: the retry of a message that went to its escalation queue stays in that
-- queue, whatever the actor's and the middleware's mapping say of it.
pub new_message-escalates_once :
    (x y : Outside) (s t : Settings) (m : Message) (queue : Name)
    → escalation_queue s m ≡ some queue
    → ((header (new_message x s m)).queue_name ≡ queue)
      × ((header (new_message y t (new_message x s m))).queue_name ≡ queue)
new_message-escalates_once x y s t m queue e =
    let m' = new_message x s m in
    let first : (header m').queue_name ≡ queue =
      ap (λ h. h.queue_name) (header-new_message x s m) ∙ ap (or_default (header m).queue_name) e in
    let stays = escalation_queue-empty t m' (mapping-new_message x s m queue e) in
    (
      first,
      ap (λ h. h.queue_name) (header-new_message y t m')
          ∙ ap (or_default (header m').queue_name) stays
          ∙ first,
    )

retry-new_message :
    (x : Outside) (s : Settings) (exception : ℕ) (m m' : Message) (delay : Ratio)
    → after_process_message x s (some exception) m ≡ retry m' delay
    → (m' ≡ new_message x s m) × ((n : ℕ) × (backoff x s (retries_of m) ≡ some (n, delay)))
unfolding after_process_message
retry-new_message x s exception m m' delay e =
    elim (Bool-cases (gives_up s (retries_of m) exception)) [
      | inl g ↦ absurd (ground arith)
      | inr g ↦ elim (Option-cases (backoff x s (retries_of m))) [
        | inl b ↦ absurd (ground arith)
        | inr (b, found) ↦
            let same : (new_message x s m ≡ m') × (b.1 ≡ delay) = ground arith in
            (sym same.0, (b.0, found ∙ ap (λ d. some (b.0, d)) same.1))
      ]
    ]

or_ten_pos : (o : Option ℕ) → 0 < or_ten o
or_ten_pos none = omega arith
or_ten_pos (some zero) = omega arith
or_ten_pos (some (suc n)) = omega arith

-- A message that is enqueued again has the actor, the arguments and the identifier of the message
-- that failed, one retry more, and a delay between the two bounds (the jitter takes a quarter off
-- the lower one at most), when 0 < min_backoff ≤ max_backoff and the functions from outside keep
-- to their ranges.
pub retry-keeps :
    (x : Outside) (s : Settings) (exception : ℕ) (m m' : Message) (delay : Ratio)
    → PowerIsBetween x.power
    → UniformIsBelow x.uniform
    → 0 < s.min_backoff
    → s.min_backoff ≤ s.max_backoff
    → after_process_message x s (some exception) m ≡ retry m' delay
    → ((header m').actor_name ≡ (header m).actor_name)
      × ((header m').args ≡ (header m).args)
      × ((header m').message_id ≡ (header m).message_id)
      × (retries_of m' ≡ retries_of m + 1)
      × InRange s.min_backoff s.max_backoff s.jitter delay
unfolding backoff
retry-keeps x s exception m m' delay pow uni pos ordered e =
    let (same, (n, found)) = retry-new_message x s exception m m' delay e in
    let kept = ap header same ∙ header-new_message x s m in
    (
      ap (λ h. h.actor_name) kept,
      ap (λ h. h.args) kept,
      ap (λ h. h.message_id) kept,
      ap retries_of same ∙ retries_of-new_message x s m,
      (compute_backoff_bounds x.power x.uniform (retries_of m) s.min_backoff s.max_backoff
          (or_ten s.max_retries) s.backoff_strategy s.jitter n delay pow uni pos ordered
          (or_ten_pos s.max_retries) found).1,
    )
