-- ===== src/Actor/Moving.antt =====
-- `declare_actors` and `change_broker` of broker.py: the actors of one broker on another.
use remoulade.Prelude.{
  nat_eq, nat_beq, ℕ, ◌≡◌, true, List, [], ◌∷◌, Option, none, some, Option-cases, inl, inr, arith,
  if◌then◌else◌,
}
use remoulade.Prelude.Dict.{Dict, lookup-insert}
use remoulade.Message.{or_else}
use remoulade.Actor.{Actor, Broker, set_broker, declare_actor, get_actor}

-- `none` is a ValueError of set_broker; the actors before it are declared, which nothing sees then.
unfoldable pub declare_actors : List Actor → Broker → Option Broker
unfolding declare_actor
declare_actors [] b = some b
declare_actors (a ∷ rest) b = elim (declare_actor b a) [
  | none ↦ none
  | some (a', b') ↦ declare_actors rest b'
]

abbrev pub actors_of : Dict ℕ Actor → List Actor
actors_of [] = []
actors_of ((name, a) ∷ rest) = a ∷ actors_of rest

abbrev pub current_actors : Option Broker → List Actor
current_actors none = []
current_actors (some b) = actors_of b.actors

-- The new broker, which is the global one from then on.
unfoldable pub change_broker : Option Broker → Broker → Option Broker
unfolding declare_actors
change_broker global_broker b = declare_actors (current_actors global_broker) b

-- The last of some actors that has a name, bound to a broker.
abbrev pub last_named : ℕ → List Actor → Option Actor
last_named name [] = none
last_named name (a ∷ rest) =
    or_else (last_named name rest)
      (if nat_beq a.actor_name name then some (record a { has_broker = true }) else none)

get_actor-declare_actor :
    (name : ℕ) (a a' : Actor) (b b' : Broker)
    → declare_actor b a ≡ some (a', b')
    → get_actor b' name ≡ (
        if nat_beq a.actor_name name
        then some (record a { has_broker = true })
        else get_actor b name)
unfolding declare_actor set_broker get_actor
get_actor-declare_actor name a a' b b' e =
    ground (arith, lookup-insert a.actor_name name (record a { has_broker = true }) b.actors)

get_actor-declare_actors :
    (name : ℕ) (as_given : List Actor) (b b' : Broker)
    → declare_actors as_given b ≡ some b'
    → get_actor b' name ≡ or_else (last_named name as_given) (get_actor b name)
unfolding declare_actors
get_actor-declare_actors name [] b b' e = ground arith
get_actor-declare_actors name (a ∷ rest) b b' e = elim (Option-cases (declare_actor b a)) [
  | inl none_declared ↦ ground arith
  | inr ((a', b₁), done) ↦
      ground (
        arith,
        get_actor-declare_actors name rest b₁ b',
        get_actor-declare_actor name a a' b b₁ done,
      )
]

-- A change of broker that succeeds leaves on the new broker, under each name, the actor that the
-- global broker had, bound, or else the one that the new broker had itself.
pub get_actor-change_broker :
    (name : ℕ) (old b b' : Broker)
    → change_broker (some old) b ≡ some b'
    → get_actor b' name ≡ or_else (last_named name (actors_of old.actors)) (get_actor b name)
unfolding change_broker
get_actor-change_broker name old b b' e =
    get_actor-declare_actors name (actors_of old.actors) b b' e
