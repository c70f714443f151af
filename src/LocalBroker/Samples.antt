-- ===== src/LocalBroker/Samples.antt =====
-- Tests of the local broker.
use remoulade.Prelude.{◌≡◌, refl, true, false, [], ◌∷◌}
use remoulade.Broker.Signals.{Hooks, Run, message_canceled, fine, raised, call}
use remoulade.Worker.{World}
use remoulade.LocalBroker.{
  put_message, attempt, handle, verdict, emit_before, emit_after, emit_after_from,
}
use remoulade.LocalBroker.Executing.{IsQuiet}

abbrev no_hooks : Hooks
no_hooks = record { before = λ m s b. (b, fine); after = λ m s b. (b, fine) }

no_hooks-IsQuiet : IsQuiet no_hooks
no_hooks-IsQuiet = record { quiet_before = λ m s b. refl; quiet_after = λ m s b. refl }

abbrev cancelled_actor : World
cancelled_actor = record {
  middleware = 1 ∷ 2 ∷ [];
  hooks = no_hooks;
  declared = true;
  actor = λ b. (b, raised message_canceled);
  settles = λ b. fine;
}

abbrev fresh : Run
fresh = record { failed = false; log = [] }

-- The caller gets MessageCanceled, which a worker would take for a cancelled message.
test-canceled : (put_message cancelled_actor fresh).1 ≡ raised message_canceled
unfolding put_message attempt handle verdict emit_before emit_after emit_after_from call
test-canceled = refl
