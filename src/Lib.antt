-- ===== src/Lib.antt =====
-- CourseForge: course selection under load, with its rules, its atomic commit in Redis and the use case that
-- joins them.
--
-- The enrollment context (internal/enrollment) decides who takes which teaching class. Its domain layer
-- (domain/) holds the rules: selection requests, rounds, classes, quotas, eligibility, the application
-- aggregate, the waitlist and enrollment records. Its application layer (application/) runs SelectCourse: it
-- looks for an earlier result of the request, checks the admission, creates an application and commits it.
-- Its persistence layer (infrastructure/persistence/) keeps the live state of a round in Redis, where one
-- Lua script checks and records a selection, a second gives back what a drop frees and a third clears what
-- MySQL has taken over. Later stages read the stream that the commit appends to.
--
-- Files and code, with paths below internal/enrollment unless another is named:
--   Prelude: lists, texts, integers and Boolean tests that the parts share.
--   Enrollment/Errors: domain/error.go and internal/shared/xerr/errors.go.
--   Enrollment/Selection, Round, TeachingClass: domain/selection.go.
--   Enrollment/Application with Lifecycle: domain/application.go.
--   Enrollment/Record with Drop: domain/enrollment.go.
--   Enrollment/Waitlist with Lifecycle: domain/waitlist.go.
--   Enrollment/Eligibility with Overlap, Policy with Direct: domain/admission.go.
--   Enrollment/Store: infrastructure/persistence/keys.go, one field for each Redis key.
--   Enrollment/Commit with Effects, Release, Clear: the scripts of infrastructure/persistence/redis.go
--     (commitSelectionScript, releaseDroppedEnrollmentScript, clearPersistedSelectionScript).
--   Enrollment/History, Exclusion, Undo: sequences of the scripts' calls.
--   Enrollment/Adapter with Replies: CommitSelection of redis.go, application/records.go, serialization.go.
--   Enrollment/Query: QuerySelectionByRequest of query.go and redis.go.
--   Enrollment/Admission with Requests: application/admission.go and QuerySelectionAdmission of
--     infrastructure/persistence/eligibility_index.go.
--   Enrollment/SelectCourse with Published, Repeat, Retry: application/enrollment.go.
--   Catalog/Video with Cleanup: the course videos of internal/catalog/domain/model.go.
--   Danmaku/History with Segments: the history segments of internal/danmaku/domain/model.go.
--   Platform/RabbitMq: internal/platform/rabbitmq, Retry for retry.go, Consumer for consumer.go,
--     Publisher for rabbitmq_publisher.go; Journey follows one message through its retries, Batch proves
--     what consumers rely on.
--   Platform/Outbox: internal/platform/outbox, Event for model.go and error.go, Repository for
--     mysql/repository.go on its table, Dispatcher for dispatcher/outbox_dispatcher.go; Rows, Claims, Leases,
--     Exclusive, Delivery and Due hold the proofs.
--   Enrollment/Payload: internal/enrollment/async/payload.go.
--   Enrollment/Stream: internal/enrollment/async/selection_stream_consumer.go with the stream scripts of
--     internal/platform/cache/cache.go; Batch for processBatch, Settled for its proof,
--     Worker for the configuration and readNewBatch.
--   Enrollment/Projection: internal/enrollment/infrastructure/persistence/mysql_batch.go with the notifications
--     of internal/enrollment/integration; Event, Claim, Quota, Persist and Save in the order of the calls,
--     Fields, Limits, Table, Found, Stored, Kept and Twice for proofs. Its notifications go to the table of
--     Platform/Outbox, and it may stand for the persistence that Enrollment/Stream takes as a parameter.
--   Tests: the theorems at concrete data.
--
-- How the code is read. A text is the list of its code points, of valid UTF-8. An instant is the number
-- of nanoseconds since Go's zero time, so IsZero is a test for 0. An enumerated Go string is a data type
-- whose last constructor holds any other string. Identifiers of uint64 are natural numbers that are only
-- compared; sums and conversions of int32 and uint32 wrap where the code computes them. A method that
-- changes its receiver takes one that is not nil and returns it; other nil arguments are none. Redis runs
-- a script alone, so calls of all instances form one sequence; SelectCourse takes the store at each of
-- its three Redis calls, since others may come between. The expiry of a key is an event of its own, and
-- the stream id that Redis chooses is an argument. Redis answers the reads of the query and of the
-- admission; either call of CommitSelection may fail, with the script run or not, and so may those of the
-- stream consumer. JSON decodes what it encoded; numbers in Lua are exact, which holds below 2^53, and
-- their text form is that of the identifier, which holds below 10^14. Loops run over a list, but for
-- DispatchPending, which counts the batches that the source allows it, and readNewBatch, whose fuel is
-- the batch size: each of its rounds but the last adds a message. The outbox and the tables of the
-- projection change by whole statements or transactions, which fail only for the reasons that the code,
-- the unique keys or the unsigned columns of docs/sql/courseforge.sql give. Unique keys compare texts
-- exactly, although the collation of the tables, utf8mb4_0900_ai_ci, passes over case. The instants that
-- MySQL stores are rounded to milliseconds as its columns are; what it makes of an amount of credits in a
-- cast is a parameter.
--
-- Not modelled: the other parts of MySQL (queries, waitlist and drop transactions), the warm-up of a round, the
-- worker loop of the stream consumer, connections and goroutines of RabbitMQ, HTTP, and the other contexts as
-- far as the list above does not name them.
pub mod Prelude
pub mod Enrollment
pub mod Catalog
pub mod Danmaku
pub mod Platform
pub mod Tests
