-- ===== src/Enrollment/Projection.antt =====
-- internal/enrollment/infrastructure/persistence/mysql_batch.go: finished selections are written to MySQL.
pub mod Event
pub mod Claim
pub mod Quota
pub mod Persist
pub mod Save
pub mod Fields
pub mod Limits
pub mod Table
pub mod Found
pub mod Stored
pub mod Kept
pub mod Twice
