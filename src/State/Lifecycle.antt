-- ===== src/State/Lifecycle.antt =====
-- The life of a message's state through the hooks of the middleware.
use remoulade.Prelude.{
  nat_eq, ℕ, suc, ◌+◌, ◌≤◌, ◌≡◌, refl, ap, ◌∙◌, Bool, true, List, [], ◌∷◌, Option, none, some,
  arith, subst, if◌then◌else◌,
}
use remoulade.Prelude.Dict.{lookup}
use remoulade.Message.{header, or_else}
use remoulade.State.{
  Status, started, pending, skipped, canceled, failure, success, Content, number, status_text,
  datetime, State, Encoder, States, found, as_dict, as_number, as_status, as_datetime, state_of,
  read_state, set_state, get_state,
}
use remoulade.State.Refinement.{view_of, fitting, fields_of, before, view-set_state, get_state-view}
use remoulade.State.Listing.{lookup-present}
use remoulade.State.Middleware.{
  MessageState, Task, no_extra, saved_state, save, save_for, before_enqueue, after_enqueue,
  after_skip_message, after_message_canceled, after_process_message, before_process_message,
}

-- What happens to one message, each event with its date; an enqueue has the actor's priority and the composition id.
pub data Event : Type 0 where
  enqueued : ℕ → Option ℕ → ℕ → Event
  enqueue_failed : ℕ → Event
  skipped_event : Event
  canceled_event : Event
  processed : Bool → ℕ → Event
  started_event : ℕ → Event

unfoldable pub hook : MessageState → Task → Event → ℕ → States → States
unfolding before_enqueue after_enqueue after_skip_message after_message_canceled
    after_process_message before_process_message
hook c task (enqueued priority composition_id today) =
    before_enqueue c priority composition_id task today
hook c task (enqueue_failed today) = after_enqueue c true task today
hook c task skipped_event = after_skip_message c task
hook c task canceled_event = after_message_canceled c task
hook c task (processed raised today) = after_process_message c raised task today
hook c task (started_event today) = before_process_message c task today

-- Events with the readings of the monotonic clock.
unfoldable pub hooks : MessageState → Task → List (Event × ℕ) → States → States
unfolding hook
hooks c task [] states = states
hooks c task ((e, clock) ∷ es) states = hooks c task es (hook c task e clock states)

-- What the state says of the message's way.
pub record Progress : Type 0 where
  pub status : Option Status
  pub priority : Option ℕ
  pub enqueued_at : Option ℕ
  pub started_at : Option ℕ
  pub ended_at : Option ℕ

-- An event sets the status and its own date, and keeps the others.
abbrev pub advance : Event → Progress → Progress
advance (enqueued priority composition_id today) p = record p {
  status = some pending;
  priority = some priority;
  enqueued_at = some today;
}
advance (enqueue_failed today) p = record p { status = some failure; ended_at = some today }
advance skipped_event p = record p { status = some skipped }
advance canceled_event p = record p { status = some canceled }
advance (processed raised today) p = record p {
  status = some (if raised then failure else success);
  ended_at = some today;
}
advance (started_event today) p = record p { status = some started; started_at = some today }

abbrev pub advances : List (Event × ℕ) → Progress → Progress
advances [] p = p
advances ((e, clock) ∷ es) p = advances es (advance e p)

abbrev pub progress_of : State → Progress
progress_of s = record {
  status = s.status;
  priority = s.priority;
  enqueued_at = s.enqueued_datetime;
  started_at = s.started_datetime;
  ended_at = s.end_datetime;
}

-- The fields of a state as the view gives them.
unfoldable fields_progress : (ℕ → Option Content) → Progress
fields_progress f = record {
  status = as_status (f 1);
  priority = as_number (f 6);
  enqueued_at = as_datetime (f 8);
  started_at = as_datetime (f 9);
  ended_at = as_datetime (f 10);
}

-- The encoder gives statuses, numbers and dates back, and they are no larger than max_size: the
-- arguments and options may be.
pub record KeepsSmall (encoder : Encoder) (max_size : ℕ) : Type 0 where
  pub keeps_status :
      (s : Status) → fitting encoder max_size (some (status_text s)) ≡ some (status_text s)
  pub keeps_number : (n : ℕ) → fitting encoder max_size (some (number n)) ≡ some (number n)
  pub keeps_datetime : (t : ℕ) → fitting encoder max_size (some (datetime t)) ≡ some (datetime t)

-- The state that a hook saves.
unfoldable event_state : Task → Event → State
unfolding saved_state
event_state task (enqueued priority composition_id today) =
    saved_state task pending (record no_extra {
      enqueued_datetime = some today;
      priority = some priority;
      composition_id = composition_id;
    })
event_state task (enqueue_failed today) =
    saved_state task failure (record no_extra { end_datetime = some today })
event_state task skipped_event = saved_state task skipped no_extra
event_state task canceled_event = saved_state task canceled no_extra
event_state task (processed raised today) =
    saved_state task (if raised then failure else success)
      (record no_extra { end_datetime = some today })
event_state task (started_event today) =
    saved_state task started (record no_extra { started_datetime = some today })

hook-saves :
    (c : MessageState) (task : Task) (e : Event) (n clock : ℕ) (states : States)
    → c.state_ttl ≡ some (suc n)
    → hook c task e clock states
      ≡ set_state c.encoder c.max_size (event_state task e) (suc n) clock states
unfolding hook before_enqueue after_enqueue after_skip_message after_message_canceled
    after_process_message before_process_message save save_for event_state
hook-saves c task (enqueued priority composition_id today) n clock states ttl = rw ttl refl
hook-saves c task (enqueue_failed today) n clock states ttl = rw ttl refl
hook-saves c task skipped_event n clock states ttl = rw ttl refl
hook-saves c task canceled_event n clock states ttl = rw ttl refl
hook-saves c task (processed raised today) n clock states ttl = rw ttl refl
hook-saves c task (started_event today) n clock states ttl = rw ttl refl

module _ (c : MessageState) (keeps : KeepsSmall c.encoder c.max_size) (task : Task) where
  -- The fields after an event.
  abbrev after_event : Event → (ℕ → Option Content) → ℕ → Option Content
  after_event e f key =
      or_else (fitting c.encoder c.max_size (lookup key (as_dict (event_state task e)))) (f key)

  fields-advance :
      (e : Event) (f : ℕ → Option Content)
      → fields_progress (after_event e f) ≡ advance e (fields_progress f)
  unfolding fields_progress event_state as_dict lookup as_status as_number as_datetime
  fields-advance (enqueued priority composition_id today) f =
      simp (lookup-present, keeps.keeps_status, keeps.keeps_number, keeps.keeps_datetime)
  fields-advance (enqueue_failed today) f = simp (keeps.keeps_status, keeps.keeps_datetime)
  fields-advance skipped_event f = simp (keeps.keeps_status)
  fields-advance canceled_event f = simp (keeps.keeps_status)
  fields-advance (processed raised today) f = simp (keeps.keeps_status, keeps.keeps_datetime)
  fields-advance (started_event today) f = simp (keeps.keeps_status, keeps.keeps_datetime)

  -- The stored values of the message and their expiration, of which the progress is `p`.
  record Tracks (states : States) (p : Progress) (expiration : ℕ) : Type 0 where
    fields : ℕ → Option Content
    stored : view_of c.encoder states (header task.0).message_id ≡ some (fields, expiration)
    named : fields 0 ≡ some (number (header task.0).message_id)
    tracked : fields_progress fields ≡ p

  id-event_state : (e : Event) → (event_state task e).message_id ≡ (header task.0).message_id
  unfolding event_state saved_state
  id-event_state e = ground arith

  hook-Tracks :
      (e : Event) (n clock : ℕ) (states : States)
      → c.state_ttl ≡ some (suc n)
      → Tracks
          (hook c task e clock states)
          (advance e (
            fields_progress
              (before c.encoder (view_of c.encoder states (header task.0).message_id))))
          (suc n + clock)
  unfolding as_dict lookup
  hook-Tracks e n clock states ttl =
      let old = before c.encoder (view_of c.encoder states (header task.0).message_id) in
      record {
        fields = after_event e old;
        stored = rw (hook-saves c task e n clock states ttl) (
            ground (
              arith,
              ap (λ v. v (header task.0).message_id)
                  (view-set_state c.encoder c.max_size (event_state task e) (suc n) clock states),
              id-event_state e,
            ));
        named = rw (keeps.keeps_number (event_state task e).message_id, id-event_state e) refl;
        tracked = fields-advance e old;
      }

  abbrev pub no_progress : Progress
  no_progress = record {
    status = none;
    priority = none;
    enqueued_at = none;
    started_at = none;
    ended_at = none;
  }

  -- The reading of the clock at the last event.
  abbrev pub last_clock : ℕ → List (Event × ℕ) → ℕ
  last_clock clock [] = clock
  last_clock clock ((e, later) ∷ es) = last_clock later es

  hook-Tracks_next :
      (e : Event) (n clock expiration : ℕ) (p : Progress) (states : States)
      → c.state_ttl ≡ some (suc n)
      → Tracks states p expiration
      → Tracks (hook c task e clock states) (advance e p) (suc n + clock)
  hook-Tracks_next e n clock expiration p states ttl t =
      subst (λ q. Tracks (hook c task e clock states) (advance e q) (suc n + clock))
        (ap (λ o. fields_progress (before c.encoder o)) t.stored ∙ t.tracked)
        (hook-Tracks e n clock states ttl)

  hooks-Tracks :
      (n clock : ℕ) (p : Progress) (es : List (Event × ℕ)) (states : States)
      → c.state_ttl ≡ some (suc n)
      → Tracks states p (suc n + clock)
      → Tracks (hooks c task es states) (advances es p) (suc n + last_clock clock es)
  unfolding hooks
  hooks-Tracks n clock p [] states ttl t = t
  hooks-Tracks n clock p ((e, later) ∷ es) states ttl t =
      hooks-Tracks n later (advance e p) es _ ttl (hook-Tracks_next e n later _ p states ttl t)

  Tracks-get_state :
      (now expiration : ℕ) (p : Progress) (states : States)
      → Tracks states p expiration
      → now ≤ expiration
      → (s : State) × ((get_state c.encoder now (header task.0).message_id states).0 ≡ found s)
        × (progress_of s ≡ p)
  unfolding state_of read_state as_number fields_progress
  Tracks-get_state now expiration p states t unexpired = (
    read_state t.fields (header task.0).message_id,
    (get_state-view c.encoder now (header task.0).message_id states).0
        ∙ rw (t.stored, t.named) (ground arith),
    t.tracked,
  )

  -- Where the middleware has a time to live and small values survive the encoder, then whatever
  -- happens to a message that had no state, and in whatever order, the state that is read before it
  -- expires has the status of the last event, each date as the last event of its kind set it, and the
  -- priority of the last enqueue.
  pub get_state-hooks :
      (n clock now : ℕ) (e : Event) (es : List (Event × ℕ)) (states : States)
      → c.state_ttl ≡ some (suc n)
      → lookup (header task.0).message_id states ≡ none
      → now ≤ suc n + last_clock clock es
      → (s : State) × ((get_state c.encoder now
            (header task.0).message_id
            (hooks c task ((e, clock) ∷ es) states)).0
          ≡ found s)
        × (progress_of s ≡ advances ((e, clock) ∷ es) no_progress)
  unfolding hooks fields_progress as_status as_number as_datetime
  get_state-hooks n clock now e es states ttl absent unexpired =
      Tracks-get_state now _ _ _
        (hooks-Tracks n clock _ es _ ttl (
          subst
            (λ o.
              Tracks (hook c task e clock states)
                (advance e (fields_progress (before c.encoder (fields_of c.encoder o))))
                (suc n + clock))
            absent (hook-Tracks e n clock states ttl)))
        unexpired
