-- ===== src/Broker/Samples.antt =====
-- Lists of middleware, and calls of their hooks, at concrete inputs.
use remoulade.Prelude.{ℕ, false, List, [], ◌∷◌, none, some, arith}
use remoulade.Broker.Middleware.{Middleware, add_middleware}
use remoulade.Broker.Middleware.Order.{IsOrdered, add_middleware-IsOrdered}
use remoulade.Broker.Signals.{fine, raised, error, Run, Hooks}

-- Of an order of three classes the first and the third, then a class of the user's.
abbrev some_middleware : List Middleware
some_middleware =
    record { class = some 0; name = 10 }
    ∷ record { class = some 2; name = 12 }
    ∷ record { class = none; name = 20 }
    ∷ []

abbrev second_class : Middleware
second_class = record { class = some 1; name = 11 }

add_middleware-IsOrdered_example : IsOrdered 0 (add_middleware 3 second_class some_middleware)
add_middleware-IsOrdered_example =
    add_middleware-IsOrdered 3 second_class some_middleware (omega arith)
      (omega arith, (omega arith, tt))

-- The hooks of the middleware 2 raise an error.
abbrev noisy : Hooks
noisy = record { before = λ m s f. (f, fine); after = λ m s f. (f, raised error) }

abbrev start : Run
start = record { failed = false; log = [] }

abbrev of_class : ℕ → ℕ → Middleware
of_class class name = record { class = some class; name = name }
