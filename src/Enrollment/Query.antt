-- ===== src/Enrollment/Query.antt =====
-- `QuerySelectionByRequest` of internal/enrollment/infrastructure/persistence/query.go and redis.go: the
-- result or the pending application that Redis has for a request. Redis answers every call.
use course_forge.Prelude.{
  ℕ, Bool, false, not, ◌||◌, Option, none, some, Text, text_eq, trim_space, is_empty, ◌==◌,
  if◌then◌else◌,
}
use course_forge.Enrollment.Errors.{invalid_params, external, Result, ok, err, ◌>>=◌}
use course_forge.Enrollment.Selection.{SelectionResult}
use course_forge.Enrollment.Application.{SelectionApplication}
use course_forge.Enrollment.Store.{Store, Document, garbled, encoded, StoredPublication}
use course_forge.Enrollment.Adapter.{Publication, decode_publication}

pub record SelectionRequestRecord : Type 0 where
  pub application : Option SelectionApplication
  pub publication : Option Publication
  pub durably_persisted : Bool

-- `applicationFromResult` on a result, and `toEntity` on the pending text that the commit wrote.
unfoldable pub application_from_result : SelectionResult → SelectionApplication
application_from_result r = record {
  application_id = r.application_id;
  request_id = r.request_id;
  round_id = r.round_id;
  term_id = r.term_id;
  student_id = r.student_id;
  course_id = r.course_id;
  teaching_class_id = r.teaching_class_id;
  credits = r.credits;
  source = r.source;
  state = r.state;
  failure = r.failure;
  applied_at = r.applied_at;
  completed_at = some r.completed_at;
}

unfoldable pub application_of : Option SelectionResult → Option SelectionApplication
unfolding application_from_result
application_of none = none
application_of (some r) = some (application_from_result r)

-- A pending application counts only for the request that it is of.
unfoldable pub from_pending : Option Document → Text → Result (Option SelectionRequestRecord)
unfolding application_of
from_pending none request_id = ok none
from_pending (some (garbled t)) request_id = err (external t)
from_pending (some (encoded r)) request_id =
    if not (text_eq r.request_id request_id)
    then ok none
    else ok (
        some (record {
          application = some (application_from_result r);
          publication = none;
          durably_persisted = false;
        }))

unfoldable pub record_of : Publication → SelectionRequestRecord
unfolding application_of
record_of p = record {
  application = application_of p.result;
  publication = some p;
  durably_persisted = p.durably_persisted;
}

unfoldable pub from_result :
    Option StoredPublication → Option Document → Text → Result (Option SelectionRequestRecord)
unfolding from_pending record_of
from_result none pending request_id = from_pending pending request_id
from_result (some stored) pending request_id = do
  p ← decode_publication stored
  ok (some (record_of p))

unfoldable pub query_selection_by_request :
    Store → ℕ → ℕ → Text → Result (Option SelectionRequestRecord)
unfolding from_result
query_selection_by_request s round_id student_id request_id =
    if round_id == 0 || student_id == 0 || is_empty (trim_space request_id)
    then err invalid_params
    else from_result (s.request_result round_id student_id request_id)
        (s.pending round_id student_id) request_id
