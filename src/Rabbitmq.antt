-- ===== src/Rabbitmq.antt =====
-- remoulade/brokers/rabbitmq.py: the pool of channels and the retries of `_enqueue`. What RabbitMQ
-- answers is given from outside.
pub mod ChannelPool
pub mod Enqueue
pub mod Consuming
pub mod Queues
mod Samples
