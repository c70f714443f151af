-- ===== src/Actor/Samples.antt =====
-- Tests of actors.
use remoulade.Prelude.{text_eq, nat_eq, ◌≡◌, refl, true, false, [], ◌∷◌, none, some}
use remoulade.QueueNames.{Name}
use remoulade.Message.{Message, message, no_options}
use remoulade.StubBroker.{StubBroker}
use remoulade.Actor.{
  Actor, Broker, Declaration, Request, decorator, is_queue_name, starts_name, continues_name,
  declare_actor,
}
use remoulade.Actor.Growth.{declared_on}

abbrev mail : Name
mail = b'm' ∷ b'1' ∷ []

abbrev new_stub : StubBroker
new_stub = record { queues = []; delay_queues = []; dead_letters = []; log = [] }

abbrev new_broker : Broker
new_broker = record { middleware = []; actor_options = 7 ∷ []; actors = []; stub = new_stub }

abbrev mailer : Actor
mailer = record {
  fn = 3;
  has_broker = false;
  actor_name = 3;
  queue_name = mail;
  alternative_queues = none;
  priority = 0;
  options = [];
}

abbrev bound_mailer : Actor
bound_mailer = record mailer { has_broker = true }

abbrev request : Request
request = record {
  args = none;
  queue_name = none;
  delay = some 10;
  message_id = 9;
  message_timestamp = 0;
}

abbrev mail_message : Message
mail_message =
    message
      (record {
        queue_name = mail;
        actor_name = 3;
        args = [];
        message_id = 9;
        message_timestamp = 0;
      })
      no_options

abbrev mailer_broker : Broker
mailer_broker = declared_on new_broker (declare_actor new_broker mailer)

abbrev unnamed : Declaration
unnamed = record {
  actor_name = none;
  queue_name = mail;
  alternative_queues = none;
  priority = 0;
  options = [];
}

-- A decorator that is applied to a second function names its actor after the first.
test-decorator : (decorator (decorator unnamed 3 3).1 4 4).0 ≡ some (record mailer { fn = 4 })
unfolding decorator is_queue_name starts_name continues_name
test-decorator = refl

test-queue_name : is_queue_name (b'1' ∷ b'm' ∷ []) ≡ false
unfolding is_queue_name starts_name continues_name
test-queue_name = refl
