-- ===== src/Enrollment/Projection/Claim.antt =====
-- internal/enrollment/infrastructure/persistence/mysql_batch.go: the tables that a projection writes, and how it
-- claims events. `encoding/json` is a parameter. `selection_event` has a unique key on the event's id.
use course_forge.Prelude.{
  ℕ, Bool, not, Option, none, some, List, [], ◌∷◌, ◌++◌, Text, codes, text_eq, any, length, ◌==◌,
  if◌then◌else◌,
}
use course_forge.Enrollment.Errors.{Err, external, record_not_found, idempotency_conflict}
use course_forge.Enrollment.Selection.{ApplicationState, SelectionResult}
use course_forge.Enrollment.Payload.{
  SelectionResultPayload, new_selection_result_payload, to_domain,
}
use course_forge.Enrollment.Stream.{Unmarshalled, unreadable, readable}
use course_forge.Enrollment.Projection.Event.{
  selection_result_event_id, seen_result, same_complete_selection_result,
}
use course_forge.Platform.Outbox.Repository.{datetime3}

pub record SelectionEventRow : Type 0 where
  pub event_id : Text
  pub application_id : Text
  pub student_id : ℕ
  pub event_type : ApplicationState
  pub event_payload : Text
  pub occurred_at : ℕ
  pub consume_batch_id : Text
  pub create_time : ℕ

module _ (marshal : Option SelectionResultPayload → Text) where
  unfoldable pub event_row : Text → ℕ → SelectionResult → SelectionEventRow
  unfolding selection_result_event_id new_selection_result_payload datetime3
  event_row batch now r = record {
    event_id = selection_result_event_id r;
    application_id = r.application_id;
    student_id = r.student_id;
    event_type = r.state;
    event_payload = marshal (new_selection_result_payload (some r));
    occurred_at = datetime3 r.completed_at;
    consume_batch_id = batch;
    create_time = datetime3 now;
  }

abbrev pub has_event : Text → List SelectionEventRow → Bool
has_event id rows = any (λ row. text_eq row.event_id id) rows

-- `INSERT … ON CONFLICT DO NOTHING`.
unfoldable pub insert_new : List SelectionEventRow → List SelectionEventRow → List SelectionEventRow
insert_new rows [] = rows
insert_new rows (x ∷ xs) =
    insert_new (if has_event x.event_id rows then rows else rows ++ x ∷ []) xs

-- `WHERE consume_batch_id = ?`.
unfoldable pub batch_ids : Text → List SelectionEventRow → List Text
batch_ids batch [] = []
batch_ids batch (row ∷ rows) =
    let rest = batch_ids batch rows in
    if text_eq row.consume_batch_id batch then row.event_id ∷ rest else rest

-- The results of some ids. The results' own ids differ.
unfoldable pub results_of_ids : List Text → List SelectionResult → List SelectionResult
unfolding seen_result
results_of_ids [] rs = []
results_of_ids (id ∷ ids) rs =
    let rest = results_of_ids ids rs in elim (seen_result id rs) [ none ↦ rest | some r ↦ r ∷ rest ]

unfoldable pub event_rows :
    (Option SelectionResultPayload → Text)
    → Text
    → ℕ
    → List SelectionResult
    → List SelectionEventRow
unfolding event_row
event_rows marshal batch now [] = []
event_rows marshal batch now (r ∷ rs) =
    event_row marshal batch now r ∷ event_rows marshal batch now rs

unfoldable pub claim_selection_events :
    (Option SelectionResultPayload → Text)
    → Text
    → ℕ
    → List SelectionEventRow
    → List SelectionResult
    → List SelectionEventRow × List SelectionResult
unfolding insert_new batch_ids results_of_ids event_rows
claim_selection_events marshal batch now rows rs =
    let rows' = insert_new rows (event_rows marshal batch now rs) in
    (rows', results_of_ids (batch_ids batch rows') rs)

-- `WHERE event_id IN ?`.
abbrev pub has_result : Text → List SelectionResult → Bool
has_result id rs = any (λ r. text_eq (selection_result_event_id r) id) rs

unfoldable pub rows_in : List SelectionResult → List SelectionEventRow → List SelectionEventRow
unfolding selection_result_event_id
rows_in rs [] = []
rows_in rs (row ∷ rows) =
    let rest = rows_in rs rows in if has_result row.event_id rs then row ∷ rest else rest

unfoldable pub without : List SelectionResult → List SelectionResult → List SelectionResult
unfolding selection_result_event_id
without claimed [] = []
without claimed (r ∷ rs) =
    let rest = without claimed rs in
    if has_result (selection_result_event_id r) claimed then rest else r ∷ rest

module _ (unmarshal : Text → Unmarshalled) where
  -- A stored row against the result of its id.
  unfoldable pub check_payload : Unmarshalled → Option SelectionResult → Option Err
  unfolding same_complete_selection_result to_domain
  check_payload (unreadable t) expected = some (external (codes "解析已落库选课事件: " ++ t))
  check_payload (readable p) expected =
      if not (same_complete_selection_result (to_domain (some p)) expected)
      then some idempotency_conflict
      else none

  unfoldable pub check_rows : List SelectionResult → List SelectionEventRow → Option Err
  unfolding check_payload seen_result
  check_rows rs [] = none
  check_rows rs (row ∷ rows) =
      let later = check_rows rs rows in
      elim (check_payload (unmarshal row.event_payload) (seen_result row.event_id rs)) [
        | some e ↦ some e
        | none ↦ later
      ]

  unfoldable pub validate_existing_selection_events :
      List SelectionEventRow → List SelectionResult → Option Err
  unfolding rows_in check_rows
  validate_existing_selection_events rows [] = none
  validate_existing_selection_events rows rs =
      if not (length (rows_in rs rows) == length rs)
      then some record_not_found
      else check_rows rs (rows_in rs rows)

  unfoldable pub validate_unclaimed_selection_events :
      List SelectionEventRow → List SelectionResult → List SelectionResult → Option Err
  unfolding validate_existing_selection_events without
  validate_unclaimed_selection_events rows all claimed =
      validate_existing_selection_events rows (without claimed all)
