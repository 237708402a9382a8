-- ===== src/Tests.antt =====
-- The theorems on concrete rounds, students and classes, a module for each group of them.
pub mod Fixtures
pub mod Selections
pub mod Applications
pub mod Rules
pub mod Retries
pub mod Media
pub mod Messages
pub mod Outbox
pub mod Projection
