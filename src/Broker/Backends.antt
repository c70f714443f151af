-- ===== src/Broker/Backends.antt =====
-- The middleware that a broker begins with, the backends that it finds by their names, and the
-- broker and the extra default middleware that broker.py holds for the process. A middleware is as in
-- Middleware; `offset` is 1 where a class for tracing stands first in the order, and else 0.
pub mod Finding
use remoulade.Prelude.{
  ℕ, ◌+◌, Bool, true, false, not, List, [], ◌∷◌, ◌++◌, Option, none, some, filter, if◌then◌else◌,
}
use remoulade.Broker.Middleware.{
  Middleware, is_instance, add_middleware, get_middleware, remove_middleware,
}

-- The names of the backends, and any other.
pub data Name : Type 0 where
  results cancel state rate_limit_enqueue rate_limit_process concurrency other : Name

pub data Exception : Type 0 where
  no_result_backend no_cancel_backend no_state_backend no_rate_limit_backend : Exception
  no_concurrency_backend value_error : Exception

-- The middleware that has the backend, or what is raised.
pub data Backend : Type 0 where
  backend_of : Middleware → Backend
  raises : Exception → Backend

-- The rows of `backends`: the place of the class in the order, and the exception.
unfoldable pub backend_row : ℕ → Name → Option (ℕ × Exception)
backend_row offset results = some (offset + 6, no_result_backend)
backend_row offset cancel = some (offset + 14, no_cancel_backend)
backend_row offset state = some (offset + 13, no_state_backend)
backend_row offset rate_limit_enqueue = some (offset + 16, no_rate_limit_backend)
backend_row offset rate_limit_process = some (offset + 17, no_rate_limit_backend)
backend_row offset concurrency = some (offset + 15, no_concurrency_backend)
backend_row offset other = none

abbrev pub found_backend : Exception → Option Middleware → Backend
found_backend missing none = raises missing
found_backend missing (some m) = backend_of m

-- `_get_backend`
unfoldable pub get_backend : ℕ → Name → List Middleware → Backend
unfolding backend_row
get_backend offset name ms = elim (backend_row offset name) [
  | none ↦ raises value_error
  | some (class, missing) ↦ found_backend missing (get_middleware class ms)
]

unfoldable pub get_result_backend : ℕ → List Middleware → Backend
unfolding get_backend
get_result_backend offset ms = get_backend offset results ms

unfoldable pub get_cancel_backend : ℕ → List Middleware → Backend
unfolding get_backend
get_cancel_backend offset ms = get_backend offset cancel ms

unfoldable pub get_state_backend : ℕ → List Middleware → Backend
unfolding get_backend
get_state_backend offset ms = get_backend offset state ms

unfoldable pub get_concurrency_backend : ℕ → List Middleware → Backend
unfolding get_backend
get_concurrency_backend offset ms = get_backend offset concurrency ms

unfoldable pub get_rate_limit_enqueue_backend : ℕ → List Middleware → Backend
unfolding get_backend
get_rate_limit_enqueue_backend offset ms = get_backend offset rate_limit_enqueue ms

unfoldable pub get_rate_limit_process_backend : ℕ → List Middleware → Backend
unfolding get_backend
get_rate_limit_process_backend offset ms = get_backend offset rate_limit_process ms

-- The middleware of a broker, by an order of `count` classes.
unfoldable pub add_all : ℕ → List Middleware → List Middleware → List Middleware
unfolding add_middleware
add_all count [] ms = ms
add_all count (m ∷ more) ms = add_all count more (add_middleware count m ms)

-- `__init__`, with one middleware of each of the default classes where none are given.
unfoldable pub new_broker :
    ℕ → (default_middleware extra : List Middleware) → Option (List Middleware) → List Middleware
unfolding add_all
new_broker count default_middleware extra none =
    add_all count extra (add_all count default_middleware [])
new_broker count default_middleware extra (some given) =
    add_all count extra (add_all count given [])

-- `global_broker` and `extra_default_middleware`
pub record Process : Type 0 where
  pub global_broker : Option (List Middleware)
  pub extra_default_middleware : List Middleware

-- `get_broker`: `none` is the ValueError.
unfoldable pub get_broker : Process → Option (List Middleware)
get_broker p = p.global_broker

unfoldable pub set_broker : List Middleware → Process → Process
set_broker ms p = record p { global_broker = some ms }

abbrev pub on_broker :
    (List Middleware → List Middleware) → Option (List Middleware) → Option (List Middleware)
on_broker f none = none
on_broker f (some ms) = some (f ms)

unfoldable pub add_extra_default_middleware : ℕ → Middleware → Process → Process
add_extra_default_middleware count m p = record {
  global_broker = on_broker (add_middleware count m) p.global_broker;
  extra_default_middleware = p.extra_default_middleware ++ m ∷ [];
}

unfoldable pub remove_extra_default_middleware : ℕ → Process → Process
remove_extra_default_middleware class p = record {
  global_broker = on_broker (remove_middleware class) p.global_broker;
  extra_default_middleware = filter (λ m. not (is_instance class m)) p.extra_default_middleware;
}
