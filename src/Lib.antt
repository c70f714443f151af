-- ===== src/Lib.antt =====
-- Remoulade: a library for distributed tasks. A program sends messages to actors through a broker; a
-- worker takes them from the broker's queues, runs the actors, and reports each message back. What
-- surrounds this is middleware, which the broker and the worker call by signals: retries, pipelines,
-- results, limits on concurrency. Compositions are built into messages before they are sent, and a
-- scheduler sends messages at given times.
--
-- The files and the code they model, by paths from the repository's root:
--   Prelude          shared names; lists, dictionaries and Boolean tests over the native numbers
--   QueueNames       remoulade/helpers/queues.py: q_name, dq_name, xq_name
--   Backoff          remoulade/helpers/backoff.py: compute_backoff and its strategies, with exact
--                    fractions where the code has floats
--   Message          remoulade/message.py: Message, its options, build and copy
--   Composition      remoulade/composition.py: pipeline and group, build, run, cancel;
--                    Composition/Chaining makes them
--   Chunks           remoulade/common.py: chunk
--   Reduce           remoulade/helpers/reduce.py: reduce
--   Broker           remoulade/broker.py: add_middleware, get_middleware, remove_middleware
--                    (Broker/Middleware), emit_before and emit_after (Broker/Signals), the
--                    backends by name and the global broker (Broker/Backends)
--   Worker           remoulade/worker.py: _WorkerThread.process_message and call_actor,
--                    _ConsumerThread.post_process_message; Worker/Shutdown has the class
--                    Worker's _add_consumer and stop, Worker/Running the flags of a thread and
--                    join_all of remoulade/helpers/queues.py
--   Consumer         remoulade/worker.py: _ConsumerThread.handle_message and
--                    handle_delayed_messages, and run (Consumer/Restarting); _apply_delay of the
--                    brokers
--   Retries          remoulade/middleware/retries.py: after_process_message
--   Concurrent       remoulade/concurrent/backends/stub.py: acquire, release; Concurrent/Leases has
--                    remoulade/concurrent/middleware.py, Concurrent/RedisScripts the scripts
--                    of backends/redis.py
--   Rabbitmq         remoulade/brokers/rabbitmq.py: ChannelPool, _enqueue, the connection
--                    and the consumer (Rabbitmq/Consuming), queue arguments, counts and
--                    join
--   Pipelines        remoulade/middleware/pipelines.py, and increment_group_completion of
--                    remoulade/results/backends/stub.py
--   Scheduler        remoulade/scheduler/scheduler.py; Scheduler/Encoding makes, writes and reads
--                    jobs, Scheduler/Store has start and sync_config
--   Results          remoulade/results/backend.py, backends/stub.py and middleware.py
--   StubBroker       remoulade/brokers/stub.py
--   Cancel           remoulade/cancel/middleware.py and backends/stub.py
--   State            remoulade/state/backend.py, backends/stub.py and middleware.py
--   Actor            remoulade/actor.py, and declare_actor, get_actor and change_broker of
--                    remoulade/broker.py
--   CollectionResults  remoulade/collection_results.py, result.py, get_results of
--                    results/backend.py, and the results of remoulade/composition.py
--   RedisResults     remoulade/results/backends/redis.py
--   LocalBroker      remoulade/brokers/local.py
--   RateLimits       remoulade/rate_limits/middleware.py
--   Prometheus       remoulade/middleware/prometheus.py
--   Middlewares      remoulade/middleware: get_option, age_limit, max_tasks, max_memory, time_limit,
--                    shutdown, heartbeat, logging_metadata, worker_thread_logging and
--                    catch_error
--
-- A file declares the state and the operations of its part; the modules below it prove the laws, and
-- its module Samples has tests and the laws at concrete inputs. State is passed explicitly; what
-- several threads do to it is a list of steps in the order that the code's locks give them.
-- Exceptions are values. Identifiers, texts and times are numbers, names of queues are lists of code
-- points. Hooks of the user's, the actor, the clock, random draws, time zones and what RabbitMQ
-- answers are arguments.
--
-- Fuel: `_enqueue` has its six attempts for fuel, polling for a result one poll for each millisecond
-- of the timeout and one more, and the RabbitMQ consumer's wait one look for each millisecond and one
-- more; all are shown to be enough. `reduce` has the number of messages for fuel, which is enough for
-- the size 2. The retries of the redis backend are counted down. Every other loop is recursion on its
-- data.
--
-- Not modelled: the backends whose operations run in redis or postgres, but for the results and the
-- limits on concurrency in redis,
-- where the server's commands are a parameter; the encoders; operating-system threads, signals and
-- processes; the HTTP API, the command line, logging and tracing; class-based actors.
pub mod Prelude
pub mod QueueNames
pub mod Backoff
pub mod Message
pub mod Composition
pub mod Reduce
pub mod Retries
pub mod Consumer
pub mod Rabbitmq
pub mod Pipelines
pub mod Scheduler
pub mod Results
pub mod StubBroker
pub mod Cancel
pub mod State
pub mod Actor
pub mod CollectionResults
pub mod Middlewares
pub mod RateLimits
pub mod Prometheus
pub mod RedisResults
pub mod LocalBroker
pub mod Chunks
pub mod Concurrent
pub mod Broker
pub mod Worker
