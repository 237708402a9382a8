-- ===== src/Platform/RabbitMq.antt =====
-- internal/platform/rabbitmq: the retry policy, the routing of failed messages and their consumer.
pub mod Retry
pub mod Consumer
pub mod Journey
pub mod Batch
pub mod Publisher
