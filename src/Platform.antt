-- ===== src/Platform.antt =====
-- The shared platform (internal/platform): delivery of messages through RabbitMQ and the outbox.
pub mod RabbitMq
pub mod Outbox
