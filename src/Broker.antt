-- ===== src/Broker.antt =====
-- remoulade/broker.py: the list of middleware, and the signals that call their hooks.
pub mod Middleware
pub mod Backends
pub mod Signals
mod Samples
