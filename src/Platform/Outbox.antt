-- ===== src/Platform/Outbox.antt =====
-- internal/platform/outbox: events that wait in MySQL until they are published.
pub mod Event
pub mod Repository
pub mod Rows
pub mod Claims
pub mod Leases
pub mod Exclusive
pub mod Dispatcher
pub mod Delivery
pub mod Due
