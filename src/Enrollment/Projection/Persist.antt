-- ===== src/Enrollment/Projection/Persist.antt =====
-- internal/enrollment/infrastructure/persistence/mysql_batch.go: the transaction that writes a batch, with the
-- notifications of internal/enrollment/integration. `encoding/json`, the ids, and the answer of
-- `clearPersistedSelections` are parameters. The unique keys are those of docs/sql/courseforge.sql.
use course_forge.Prelude.{
  ℕ, suc, Bool, true, false, ◌&&◌, ◌||◌, Option, List, [], ◌∷◌, ◌++◌, Text, codes, text_eq, any,
  ◌==◌, if◌then◌else◌,
}
use course_forge.Enrollment.Errors.{Err, Result, ok, err, external, ◌>>=◌}
use course_forge.Enrollment.Selection.{
  Credit, ApplicationSource, ApplicationState, selected, FailureReason, SelectionResult,
}
use course_forge.Enrollment.Projection.Event.{selection_result_event_id}
use course_forge.Enrollment.Projection.Claim.{SelectionEventRow}
use course_forge.Enrollment.Projection.Quota.{QuotaRow}
use course_forge.Platform.RabbitMq.Retry.{decimal}
use course_forge.Platform.Outbox.Repository.{datetime3, Table}

pub record SelectionApplicationRow : Type 0 where
  pub application_id : Text
  pub request_id : Text
  pub round_id : ℕ
  pub term_id : ℕ
  pub student_id : ℕ
  pub course_id : ℕ
  pub teaching_class_id : ℕ
  pub credits : Credit
  pub state : ApplicationState
  pub failure : Option FailureReason
  pub applied_at : ℕ
  pub completed_at : ℕ
  pub source : ApplicationSource
  pub create_time : ℕ
  pub update_time : ℕ

pub record EnrollmentRow : Type 0 where
  pub enrollment_id : Text
  pub application_id : Text
  pub term_id : ℕ
  pub student_id : ℕ
  pub course_id : ℕ
  pub teaching_class_id : ℕ
  pub credits : Credit
  pub state : Text
  pub active_key : Text
  pub enrolled_at : ℕ
  pub create_time : ℕ
  pub update_time : ℕ

pub record CountDeltaRow : Type 0 where
  pub event_id : Text
  pub teaching_class_id : ℕ
  -- `1`; drops, which count down, are written elsewhere
  pub delta : ℕ
  pub create_time : ℕ

pub record Database : Type 0 where
  pub events : List SelectionEventRow
  pub quotas : List QuotaRow
  pub applications : List SelectionApplicationRow
  pub enrollments : List EnrollmentRow
  pub deltas : List CountDeltaRow
  pub outbox : Table

-- `state == ApplicationStateSelected`.
abbrev pub is_selected : ApplicationState → Bool
is_selected selected = true
is_selected s = false

unfoldable pub selected_only : List SelectionResult → List SelectionResult
selected_only [] = []
selected_only (r ∷ rs) =
    let rest = selected_only rs in if is_selected r.state then r ∷ rest else rest

unfoldable pub application_row : ℕ → SelectionResult → SelectionApplicationRow
unfolding datetime3
application_row now r = record {
  application_id = r.application_id;
  request_id = r.request_id;
  round_id = r.round_id;
  term_id = r.term_id;
  student_id = r.student_id;
  course_id = r.course_id;
  teaching_class_id = r.teaching_class_id;
  credits = r.credits;
  state = r.state;
  failure = r.failure;
  applied_at = datetime3 r.applied_at;
  completed_at = datetime3 r.completed_at;
  source = r.source;
  create_time = datetime3 now;
  update_time = datetime3 now;
}

unfoldable pub active_key_of : SelectionResult → Text
unfolding decimal
active_key_of r =
    decimal r.term_id ++ (codes ":" ++ (decimal r.student_id ++ (codes ":" ++ decimal r.course_id)))

unfoldable pub enrollment_row : Text → ℕ → SelectionResult → EnrollmentRow
unfolding datetime3 active_key_of
enrollment_row enrollment_id now r = record {
  enrollment_id = enrollment_id;
  application_id = r.application_id;
  term_id = r.term_id;
  student_id = r.student_id;
  course_id = r.course_id;
  teaching_class_id = r.teaching_class_id;
  credits = r.credits;
  state = codes "enrolled";
  active_key = active_key_of r;
  enrolled_at = datetime3 r.completed_at;
  create_time = datetime3 now;
  update_time = datetime3 now;
}

unfoldable pub delta_row : SelectionResult → CountDeltaRow
unfolding datetime3 selection_result_event_id
delta_row r = record {
  event_id = selection_result_event_id r;
  teaching_class_id = r.teaching_class_id;
  delta = 1;
  create_time = datetime3 r.completed_at;
}

abbrev pub duplicate_entry : Err
duplicate_entry = external (codes "Duplicate entry")

-- Inserts under the unique keys.
unfoldable pub insert_applications :
    List SelectionApplicationRow
    → List SelectionApplicationRow
    → Result (List SelectionApplicationRow)
insert_applications rows [] = ok rows
insert_applications rows (x ∷ xs) =
    let rest = insert_applications (rows ++ x ∷ []) xs in
    if any
      (λ row.
        text_eq row.application_id x.application_id
        || (row.round_id == x.round_id
            && row.student_id == x.student_id
            && text_eq row.request_id x.request_id))
      rows
    then err duplicate_entry
    else rest

unfoldable pub insert_enrollments :
    List EnrollmentRow → List EnrollmentRow → Result (List EnrollmentRow)
insert_enrollments rows [] = ok rows
insert_enrollments rows (x ∷ xs) =
    let rest = insert_enrollments (rows ++ x ∷ []) xs in
    if any
      (λ row.
        text_eq row.enrollment_id x.enrollment_id
        || text_eq row.application_id x.application_id
        || text_eq row.active_key x.active_key)
      rows
    then err duplicate_entry
    else rest

unfoldable pub insert_deltas : List CountDeltaRow → List CountDeltaRow → Result (List CountDeltaRow)
insert_deltas rows [] = ok rows
insert_deltas rows (x ∷ xs) =
    let rest = insert_deltas (rows ++ x ∷ []) xs in
    if any (λ row. text_eq row.event_id x.event_id) rows then err duplicate_entry else rest

-- The rows of the loop. Each selected result takes the next id, that may fail.
unfoldable pub enrollment_rows :
    (ℕ → Result Text) → ℕ → ℕ → List SelectionResult → Result (List EnrollmentRow)
unfolding enrollment_row
enrollment_rows new_id next now [] = ok []
enrollment_rows new_id next now (r ∷ rs) =
    let skipped = enrollment_rows new_id next now rs in
    let later = enrollment_rows new_id (suc next) now rs in
    if is_selected r.state
    then (new_id next >>= λ id. later >>= λ rows. ok (enrollment_row id now r ∷ rows))
    else skipped

unfoldable pub application_rows : ℕ → List SelectionResult → List SelectionApplicationRow
unfolding application_row
application_rows now [] = []
application_rows now (r ∷ rs) = application_row now r ∷ application_rows now rs

unfoldable pub delta_rows : List SelectionResult → List CountDeltaRow
unfolding delta_row
delta_rows [] = []
delta_rows (r ∷ rs) = delta_row r ∷ delta_rows rs
