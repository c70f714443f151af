-- ===== src/Broker/Backends/Finding.antt =====
-- The backend that a broker finds.
use remoulade.Prelude.{ℕ, List, [], ◌∷◌, Option, none, some, if◌then◌else◌}
use remoulade.Message.{or_else}
use remoulade.Broker.Middleware.{Middleware, is_instance}

-- The last of the middleware that is of a class.
abbrev pub last_of : ℕ → List Middleware → Option Middleware
last_of j [] = none
last_of j (m ∷ ms) = or_else (last_of j ms) (if is_instance j m then some m else none)
