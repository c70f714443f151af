-- ===== src/Composition/Sharing.antt =====
-- The children of a group share one options dict, and building a child pipeline writes to it.
use remoulade.Prelude.{Bool, List, Option, [], ◌∷◌, map}
use mathlib.Core.Option
use remoulade.Message.{Message, flags}
use remoulade.Composition.{Members, and_message}

-- Messages in front of other children.
abbrev pub siblings : List Message → Members → Members
siblings [] rest = rest
siblings (m ∷ ms) rest = and_message m (siblings ms rest)

abbrev pub cancel_flags : List Message → List (Option Bool)
cancel_flags ms = map (λ m. (flags m).cancel_on_error) ms
