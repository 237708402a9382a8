-- ===== src/Enrollment.antt =====
-- The enrollment context (internal/enrollment): its domain rules, the atomic commit in Redis and the
-- use cases that join them.
pub mod Errors
pub mod Selection
pub mod Payload
pub mod Stream
pub mod Projection
pub mod Application
pub mod Round
pub mod TeachingClass
pub mod Record
pub mod Waitlist
pub mod Eligibility
pub mod Policy
pub mod Store
pub mod Commit
pub mod Release
pub mod Clear
pub mod History
pub mod Exclusion
pub mod Undo
pub mod Adapter
pub mod Admission
pub mod Query
pub mod SelectCourse
