-- ===== src/Enrollment/Projection/Save.antt =====
-- internal/enrollment/infrastructure/persistence/mysql_batch.go, SaveSelectionResults, with the notifications of
-- internal/enrollment/integration that it leaves in the outbox. `encoding/json`, the ids, the clock, the
-- cast of credits to the decimal column and the answer of `clearPersistedSelections` are parameters.
use course_forge.Prelude.{
  ℕ, Bool, true, false, not, ◌||◌, Option, none, some, List, [], ◌∷◌, Text, codes, is_empty, ◌==◌,
  if◌then◌else◌,
}
use course_forge.Enrollment.Errors.{Err, Result, ok, err, external, ◌>>=◌, ◌>>◌}
use course_forge.Enrollment.Selection.{Credit, ApplicationState, code_present, SelectionResult}
use course_forge.Enrollment.Application.{terminal}
use course_forge.Enrollment.Payload.{SelectionResultPayload, FailureReasonPayload}
use course_forge.Enrollment.Stream.{Unmarshalled}
use course_forge.Enrollment.Projection.Event.{
  selection_result_event_id, normalize_selection_results,
}
use course_forge.Enrollment.Projection.Claim.{
  SelectionEventRow, claim_selection_events, validate_unclaimed_selection_events,
}
use course_forge.Enrollment.Projection.Quota.{QuotaRow, persist_selected_quotas_batch}
use course_forge.Enrollment.Projection.Persist.{
  Database, SelectionApplicationRow, EnrollmentRow, CountDeltaRow, is_selected, selected_only,
  application_rows, enrollment_rows, delta_rows, insert_applications, insert_enrollments,
  insert_deltas,
}
use course_forge.Platform.Outbox.Event.{NewEvent, event_error_text}
use course_forge.Platform.Outbox.Repository.{Table, RepositoryErr, invalid_event, append_batch}

pub record SelectionNotification : Type 0 where
  pub application_id : Text
  pub student_id : ℕ
  pub course_id : ℕ
  pub teaching_class_id : ℕ
  pub state : ApplicationState
  pub failure : Option FailureReasonPayload
  pub completed_at : ℕ

abbrev pub notified_failure : SelectionResult → Option FailureReasonPayload
notified_failure r = elim r.failure [
  | none ↦ none
  | some f ↦ some (record { code = f.code; message = f.message })
]

unfoldable pub new_selection_notification : SelectionResult → SelectionNotification
new_selection_notification r = record {
  application_id = r.application_id;
  student_id = r.student_id;
  course_id = r.course_id;
  teaching_class_id = r.teaching_class_id;
  state = r.state;
  failure = notified_failure r;
  completed_at = r.completed_at;
}

-- The end of `Validate`, by whether the state is `selected` and by the failure.
unfoldable pub check_failure : Bool → Option FailureReasonPayload → Option Err
unfolding code_present
check_failure true none = none
check_failure true (some f) =
    some (external (codes "selected notification must not contain failure"))
check_failure false none = some (external (codes "unsuccessful notification requires failure"))
check_failure false (some f) =
    if not (code_present f.code) || is_empty f.message
    then some (external (codes "unsuccessful notification requires failure"))
    else none

unfoldable pub validate_notification : SelectionNotification → Option Err
unfolding terminal check_failure
validate_notification e =
    if is_empty e.application_id
      || e.student_id == 0
      || e.course_id == 0
      || e.teaching_class_id == 0
      || e.completed_at == 0
      || not (terminal e.state)
    then some (external (codes "invalid selection notification"))
    else check_failure (is_selected e.state) e.failure

abbrev pub selection_notification_topic : Text
selection_notification_topic = codes "enrollment.selection.notification"

abbrev pub selection_result_persisted : Text
selection_result_persisted = codes "selection.result.persisted"

abbrev pub selection_notification_aggregate : Text
selection_notification_aggregate = codes "selection_application"

module _ (encode : SelectionNotification → Text) where
  unfoldable pub notification_event : SelectionResult → NewEvent
  unfolding new_selection_notification selection_result_event_id
  notification_event r = record {
    event_id = selection_result_event_id r;
    aggregate_type = selection_notification_aggregate;
    aggregate_id = r.application_id;
    topic = selection_notification_topic;
    event_type = selection_result_persisted;
    payload = encode (new_selection_notification r);
  }

  unfoldable pub new_selection_notification_events :
      List SelectionResult → Result (List (Option NewEvent))
  unfolding notification_event validate_notification new_selection_notification
  new_selection_notification_events [] = ok []
  new_selection_notification_events (r ∷ rs) =
      let rest = new_selection_notification_events rs in
      validate_notification (new_selection_notification r)
      >> (rest >>= λ events. ok (some (notification_event r) ∷ events))

-- The tables that are written after the quotas.
pub record Written : Type 0 where
  pub applications : List SelectionApplicationRow
  pub enrollments : List EnrollmentRow
  pub deltas : List CountDeltaRow
  pub outbox : Table

abbrev pub with_written : Database → List QuotaRow → Written → Database
with_written db quotas written = record {
  events = db.events;
  quotas = quotas;
  applications = written.applications;
  enrollments = written.enrollments;
  deltas = written.deltas;
  outbox = written.outbox;
}

-- The error of `AppendBatch`, with the table behind it.
unfoldable pub appended : Table × Option RepositoryErr → Result Table
unfolding event_error_text
appended (t, none) = ok t
appended (t, some (invalid_event e)) = err (external (event_error_text e))
appended (t, some e) = err (external (codes "outbox"))

module _ (cast_decimal : Credit → Option Credit) (json_valid : Text → Bool)
    (encode : SelectionNotification → Text) (new_id : ℕ → Result Text) (now : ℕ) where
  unfoldable pub write_claimed : Database → List SelectionResult → Result Written
  unfolding selected_only application_rows enrollment_rows delta_rows insert_applications
      insert_enrollments insert_deltas new_selection_notification_events appended append_batch
  write_claimed db rs = enrollment_rows new_id 1 now rs >>= λ new_enrollments.
      insert_applications db.applications (application_rows now rs) >>= λ applications.
      insert_enrollments db.enrollments new_enrollments >>= λ enrollments.
      insert_deltas db.deltas (delta_rows (selected_only rs)) >>= λ deltas.
      new_selection_notification_events encode rs >>= λ events.
      appended (append_batch json_valid db.outbox events now) >>= λ outbox. ok (record {
        applications = applications;
        enrollments = enrollments;
        deltas = deltas;
        outbox = outbox;
      })

  unfoldable pub persist_claimed_selection_results :
      Database → List SelectionResult → Result Database
  unfolding persist_selected_quotas_batch write_claimed
  persist_claimed_selection_results db rs =
      persist_selected_quotas_batch cast_decimal db.quotas (selected_only rs) >>= λ quotas.
      write_claimed db rs >>= λ written. ok (with_written db quotas written)

  -- The transaction behind its claim: what it commits, or the error with which it rolls back.
  unfoldable pub after_claim :
      (Text → Unmarshalled)
      → Database
      → List SelectionResult
      → List SelectionEventRow × List SelectionResult
      → Result Database
  unfolding validate_unclaimed_selection_events persist_claimed_selection_results
  after_claim unmarshal db unique (rows, claimed) =
      let claimed_db = record db { events = rows } in
      let persisted = persist_claimed_selection_results claimed_db claimed in
      validate_unclaimed_selection_events unmarshal rows unique claimed
      >> (if is_empty claimed then ok claimed_db else persisted)

  unfoldable pub save_transaction :
      (Option SelectionResultPayload → Text)
      → (Text → Unmarshalled)
      → Text
      → Database
      → List SelectionResult
      → Result Database
  unfolding claim_selection_events after_claim
  save_transaction marshal unmarshal batch db unique =
      after_claim unmarshal db unique (claim_selection_events marshal batch now db.events unique)

  -- What `SaveSelectionResults` answers after the transaction.
  unfoldable pub committed : Option Err → Database → Result Database → Database × Option Err
  committed cleared db (err e) = (db, some e)
  committed cleared db (ok db') = (db', cleared)

  -- Behind the id of the batch, and behind `normalizeSelectionResults`.
  unfoldable pub save_batch :
      (Option SelectionResultPayload → Text)
      → (Text → Unmarshalled)
      → Option Err
      → Database
      → List SelectionResult
      → Result Text
      → Database × Option Err
  unfolding save_transaction committed
  save_batch marshal unmarshal cleared db unique (err e) = (db, some e)
  save_batch marshal unmarshal cleared db unique (ok batch) =
      committed cleared db (save_transaction marshal unmarshal batch db unique)

  unfoldable pub save_normalized :
      (Option SelectionResultPayload → Text)
      → (Text → Unmarshalled)
      → Option Err
      → Database
      → Result (List SelectionResult)
      → Database × Option Err
  unfolding save_batch
  save_normalized marshal unmarshal cleared db (err e) = (db, some e)
  save_normalized marshal unmarshal cleared db (ok []) = (db, none)
  save_normalized marshal unmarshal cleared db (ok unique) =
      save_batch marshal unmarshal cleared db unique (new_id 0)

  unfoldable pub save_selection_results :
      (Option SelectionResultPayload → Text)
      → (Text → Unmarshalled)
      → (List (Option SelectionResult) → Option Err)
      → Database
      → List (Option SelectionResult)
      → Database × Option Err
  unfolding save_normalized normalize_selection_results
  save_selection_results marshal unmarshal clear db rs =
      save_normalized marshal unmarshal (clear rs) db (normalize_selection_results rs)
