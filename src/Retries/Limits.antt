-- ===== src/Retries/Limits.antt =====
-- How often a message that keeps failing is run, and what each retry keeps and changes.
use remoulade.Prelude.{
  ℕ, zero, suc, ◌+◌, ◌-◌, ◌≤◌, ◌<◌, ◌≡◌, ◌≢◌, refl, ap, ◌∙◌, true, false, Option, none, some, inl,
  inr, Bool-cases, Option-cases, arith, ◌⊎◌,
}
use remoulade.QueueNames.{Name}
use remoulade.Message.{copy, Message, message, options, Flags, header, flags}
use remoulade.Backoff.{Ratio, unknown, compute_backoff, strategy_backoff}
use remoulade.Retries.{
  Settings, Outside, Decision, nothing, failed, retry, unknown_strategy, retries_of, or_default,
  gives_up, new_message, backoff, after_process_message, escalation_queue, with_flags,
  raise_priority, escalate,
}

-- The runs of a message whose every run raises, until it is failed; `exceptions` counts down.
abbrev pub one_more : Option ℕ → Option ℕ
one_more none = none
one_more (some k) = some (suc k)

abbrev pub follow : Decision → (Message → Option ℕ) → Option ℕ
follow nothing rest = none
follow failed rest = some 1
follow (retry m delay) rest = one_more (rest m)
follow unknown_strategy rest = none

unfoldable pub tries : ℕ → Outside → Settings → (ℕ → ℕ) → Message → Option ℕ
tries zero x s exceptions m = none
tries (suc n) x s exceptions m =
    follow (after_process_message x s (some (exceptions n)) m) (λ m'. tries n x s exceptions m')

pub flags-with_flags : (f : Flags) (m : Message) → flags (with_flags f m) ≡ f
flags-with_flags f (message h (options t old)) = refl

pub header-with_flags : (f : Flags) (m : Message) → header (with_flags f m) ≡ header m
header-with_flags f (message h (options t old)) = refl

pub header-escalate :
    (m : Message) (queue : Option Name)
    → header (escalate m queue)
      ≡ record (header m) { queue_name = or_default (header m).queue_name queue }
unfolding escalate copy
header-escalate (message h (options t old)) none = refl
header-escalate (message h (options t old)) (some queue) = refl

pub retries_of-new_message :
    (x : Outside) (s : Settings) (m : Message) → retries_of (new_message x s m) ≡ retries_of m + 1
unfolding new_message
retries_of-new_message x s m =
    let m' = escalate m (escalation_queue s m) in
    let f = raise_priority s x.max_priority (flags m') in
    ap (λ g. or_default 0 g.retries)
      (flags-with_flags
        (record f { retries = some (retries_of m + 1); traceback = some x.traceback }) m')

backoff-none :
    (x : Outside) (s : Settings) (retries : ℕ)
    → backoff x s retries ≡ none
    → s.backoff_strategy ≡ unknown
unfolding backoff compute_backoff strategy_backoff
backoff-none x s retries e = ground arith

gives_up-exceeded :
    (s : Settings) (n retries exception : ℕ)
    → s.max_retries ≡ some n
    → n ≤ retries
    → gives_up s retries exception ≡ true
unfolding gives_up
gives_up-exceeded s n retries exception e h = ground arith

gives_up-none :
    (s : Settings) (n retries exception : ℕ)
    → s.max_retries ≡ some n
    → s.retry_when ≡ none
    → retries < n
    → gives_up s retries exception ≡ false
unfolding gives_up
gives_up-none s n retries exception e w h = ground arith

-- One run of a message that raises: it is failed, or the next message is enqueued.
run-cases :
    (x : Outside) (s : Settings) (exception : ℕ) (m : Message)
    → s.backoff_strategy ≢ unknown
    → (after_process_message x s (some exception) m ≡ failed)
      ⊎ ((gives_up s (retries_of m) exception ≡ false)
          × ((d : Ratio) × (after_process_message x s (some exception) m
                ≡ retry (new_message x s m) d)))
unfolding after_process_message
run-cases x s exception m known = elim (Bool-cases (gives_up s (retries_of m) exception)) [
  | inl g ↦ inl (ground arith)
  | inr g ↦ elim (Option-cases (backoff x s (retries_of m))) [
    | inl e ↦ absurd (known (backoff-none x s (retries_of m) e))
    | inr (b, e) ↦ inr (g, (b.1, ground arith))
  ]
]

-- The counts of the runs after a retry and of the runs from here.
one_more-le :
    (o : Option ℕ) (n : ℕ)
    → (k : ℕ) × (o ≡ some k) × (k ≤ n)
    → (k : ℕ) × (one_more o ≡ some k) × (k ≤ n + 1)
one_more-le o n (k, e, h) = (suc k, ap one_more e, omega arith)

-- A message that raises in every run is failed after at most `max_retries` retries, when `max_retries`
-- is set and the strategy is known, whatever the exceptions. This is so with a predicate `retry_when`
-- too, whatever it answers: the code tests `max_retries` beside it, where the documentation says that
-- `max_retries` is then ignored.
pub tries-bounded :
    (x : Outside) (s : Settings) (limit left : ℕ) (exceptions : ℕ → ℕ) (m : Message)
    → s.max_retries ≡ some limit
    → s.backoff_strategy ≢ unknown
    → limit - retries_of m ≤ left
    → (k : ℕ) × (tries (suc left) x s exceptions m ≡ some k) × (k ≤ limit - retries_of m + 1)
unfolding tries
tries-bounded x s limit zero exceptions m e known h = elim (run-cases x s (exceptions 0) m known) [
  | inl r ↦ (1, ap (λ d. follow d (λ m'. tries 0 x s exceptions m')) r, omega arith)
  | inr (g, (d, r)) ↦
      absurd (ground (arith, gives_up-exceeded s limit (retries_of m) (exceptions 0) e))
]
tries-bounded x s limit (suc left) exceptions m e known h =
    elim (run-cases x s (exceptions (suc left)) m known) [
      | inl r ↦ (1, ap (λ d. follow d (λ m'. tries (suc left) x s exceptions m')) r, omega arith)
      | inr (g, (d, r)) ↦
          let m' = new_message x s m in
          let up = retries_of-new_message x s m in
          let below : retries_of m < limit =
            ground (arith, gives_up-exceeded s limit (retries_of m) (exceptions (suc left)) e) in
          let (k, rest, bound) =
            one_more-le (tries (suc left) x s exceptions m') (limit - retries_of m' + 1)
              (tries-bounded x s limit left exceptions m' e known (omega arith)) in
          (k, ap (λ d. follow d (λ n. tries (suc left) x s exceptions n)) r ∙ rest, omega arith)
    ]
