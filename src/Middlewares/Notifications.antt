-- ===== src/Middlewares/Notifications.antt =====
-- remoulade/middleware/shutdown.py: the threads that want to be told of a shutdown.
use remoulade.Prelude.{
  nat_beq, nat_beq_iff, ℕ, ◌≡◌, refl, ap, ◌∙◌, Bool, false, not, ◌&&◌, ◌||◌, List, [], ◌∷◌, any,
  filter, arith, if◌then◌else◌,
}

-- `set.add` and `set.remove`
abbrev pub add : ℕ → List ℕ → List ℕ
add thread set = if any (nat_beq thread) set then set else thread ∷ set

-- `before_process_message` on a thread, with the option notify_shutdown.
unfoldable pub before_process_message : Bool → ℕ → List ℕ → List ℕ
before_process_message notify thread notifications =
    if notify then add thread notifications else notifications

-- `after_process_message`, also after_skip_message and after_message_canceled.
unfoldable pub after_process_message : ℕ → List ℕ → List ℕ
after_process_message thread notifications = filter (λ t. not (nat_beq t thread)) notifications

-- `before_worker_shutdown`: the threads in which Shutdown is raised.
unfoldable pub before_worker_shutdown : List ℕ → List ℕ
before_worker_shutdown notifications = notifications

-- A thread starts a message, or ends the one it is at.
pub data Step : Type 0 where
  started : (notify : Bool) → ℕ → Step
  ended : ℕ → Step

unfoldable pub steps : List Step → List ℕ → List ℕ
unfolding before_process_message after_process_message
steps [] set = set
steps (started notify thread ∷ ss) set = steps ss (before_process_message notify thread set)
steps (ended thread ∷ ss) set = steps ss (after_process_message thread set)

-- Whether a thread has started a message that wants to be told, and not ended one since.
abbrev pub wants : ℕ → List Step → Bool → Bool
wants thread [] b = b
wants thread (started notify other ∷ ss) b = wants thread ss (b || notify && nat_beq other thread)
wants thread (ended other ∷ ss) b = wants thread ss (b && not (nat_beq other thread))

any-add :
    (notify : Bool) (thread other : ℕ) (set : List ℕ)
    → any (nat_beq thread) (before_process_message notify other set)
      ≡ (any (nat_beq thread) set || notify && nat_beq other thread)
unfolding before_process_message
any-add notify thread other set = ground (arith, nat_beq_iff thread other, nat_beq_iff other thread)

any-remove :
    (thread other : ℕ) (set : List ℕ)
    → any (nat_beq thread) (after_process_message other set)
      ≡ (any (nat_beq thread) set && not (nat_beq other thread))
unfolding after_process_message
any-remove thread other [] = refl
any-remove thread other (t ∷ set) = ground (
  arith,
  any-remove thread other set,
  nat_beq_iff thread t,
  nat_beq_iff other thread,
  nat_beq_iff t other,
)

any-steps :
    (thread : ℕ) (ss : List Step) (set : List ℕ)
    → any (nat_beq thread) (steps ss set) ≡ wants thread ss (any (nat_beq thread) set)
unfolding steps
any-steps thread [] set = refl
any-steps thread (started notify other ∷ ss) set =
    any-steps thread ss _ ∙ ap (wants thread ss) (any-add notify thread other set)
any-steps thread (ended other ∷ ss) set =
    any-steps thread ss _ ∙ ap (wants thread ss) (any-remove thread other set)

-- A shutdown interrupts exactly the threads that are at a message whose option asks for it, whatever
-- messages the threads have started and ended before.
pub before_worker_shutdown-wants :
    (thread : ℕ) (ss : List Step)
    → any (nat_beq thread) (before_worker_shutdown (steps ss [])) ≡ wants thread ss false
unfolding before_worker_shutdown
before_worker_shutdown-wants thread ss = any-steps thread ss []
