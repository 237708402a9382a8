-- ===== src/Enrollment/SelectCourse.antt =====
-- `SelectCourse` of internal/enrollment/application/enrollment.go, with the query by request behind it
-- (infrastructure/persistence/query.go and redis.go). The use case calls Redis three times; other calls
-- may come between, so it takes the store at each of them. The reads of the first two are answered; the
-- calls of the commit may fail.
pub mod Retry
pub mod Published
pub mod Repeat
use course_forge.Prelude.{
  ℕ, Bool, true, false, not, ◌||◌, Option, none, some, Text, text_eq, trim_space, is_empty, ◌==◌,
  if◌then◌else◌,
}
use course_forge.Enrollment.Errors.{
  Err, invalid_params, record_not_found, external, Result, ok, err, ◌>>◌, ◌>>=◌,
}
use course_forge.Enrollment.Selection.{
  ApplicationSource, ApplicationState, created, SelectionIntent, new_selection_intent,
  SelectionRequest, SelectionResult,
}
use course_forge.Enrollment.Application.{
  SelectionApplication, ensure_matches, new_selection_application, reserve, complete_selected,
}
use course_forge.Enrollment.Store.{Store, Document, garbled, encoded, StoredPublication}
use course_forge.Enrollment.Adapter.{
  Publication, Wire, decode_publication, validate_publication, commit_selection,
}
use course_forge.Enrollment.Admission.{admit_selection}
use course_forge.Enrollment.Query.{SelectionRequestRecord, query_selection_by_request}

pub record SelectCourseCommand : Type 0 where
  pub request_id : Text
  pub round_id : ℕ
  pub student_id : ℕ
  pub teaching_class_id : ℕ
  pub source : ApplicationSource

pub record SelectionReceipt : Type 0 where
  pub application_id : Text
  pub state : ApplicationState
  pub stream_recorded : Bool
  pub durably_persisted : Bool

unfoldable pub receipt_from_persisted : SelectionApplication → SelectionReceipt
receipt_from_persisted a = record {
  application_id = a.application_id;
  state = a.state;
  stream_recorded = true;
  durably_persisted = true;
}

receipt_of : Option SelectionResult → Bool → Result SelectionReceipt
receipt_of none durably_persisted = err invalid_params
receipt_of (some r) durably_persisted = ok (record {
  application_id = r.application_id;
  state = r.state;
  stream_recorded = true;
  durably_persisted = durably_persisted;
})

-- The result of a publication that validates is not nil.
unfoldable pub receipt_from_publication : Publication → Result SelectionReceipt
unfolding receipt_of
receipt_from_publication p = validate_publication p >> receipt_of p.result p.durably_persisted

reserve_created : ApplicationState → SelectionApplication → SelectionApplication × Option Err
reserve_created created a = reserve a
reserve_created s a = (a, none)

publish : Store × Result Publication → Store × Result SelectionReceipt
unfolding receipt_from_publication
publish (s, ok p) = (s, receipt_from_publication p)
publish (s, err e) = (s, err e)

store_result : Result SelectionResult → Store → Wire → Store × Result SelectionReceipt
unfolding publish
store_result (err e) s wire = (s, err e)
store_result (ok r) s wire = publish (commit_selection s r wire)

complete : SelectionApplication × Option Err → Store → ℕ → Wire → Store × Result SelectionReceipt
unfolding store_result
complete (a, some e) s now wire = (s, err e)
complete (a, none) s now wire = store_result (complete_selected a now).1 s wire

-- `commitSelection`: its own clock, and how the commit reaches Redis.
unfoldable pub commit_application :
    Store → Option SelectionApplication → ℕ → Wire → Store × Result SelectionReceipt
unfolding complete reserve_created
commit_application s none now wire = (s, err record_not_found)
commit_application s (some a) now wire = complete (reserve_created a.state a) s now wire

-- What varies from call to call beside the store: the two readings of the clock, the new id or the
-- failure to make one as `SelectCourse` reports it, and how the
-- commit reaches Redis.
pub record Surroundings : Type 0 where
  pub now : ℕ
  pub completion_now : ℕ
  pub new_id : Result Text
  pub wire : Wire

receipt_of_record :
    Option Publication
    → Option SelectionApplication
    → Store
    → Surroundings
    → Store × Result SelectionReceipt
unfolding commit_application receipt_from_publication
receipt_of_record (some p) a s x = (s, receipt_from_publication p)
receipt_of_record none a s x = commit_application s a x.completion_now x.wire

persisted_or :
    Bool
    → Option SelectionApplication
    → Option Publication
    → Store
    → Surroundings
    → Store × Result SelectionReceipt
unfolding receipt_of_record receipt_from_persisted
persisted_or true (some a) p s x = (s, ok (receipt_from_persisted a))
persisted_or durably_persisted a p s x = receipt_of_record p a s x

matched :
    Option Err → SelectionRequestRecord → Store → Surroundings → Store × Result SelectionReceipt
unfolding persisted_or
matched (some e) existing s x = (s, err e)
matched none existing s x =
    persisted_or existing.durably_persisted existing.application existing.publication s x

pub created_application : Result SelectionRequest → Surroundings → Result SelectionApplication
created_application admitted x = do
  request ← admitted
  id ← x.new_id
  new_selection_application id (some request) x.now

pub commit_created :
    Result SelectionApplication → Store → Surroundings → Store × Result SelectionReceipt
unfolding commit_application
commit_created (err e) s x = (s, err e)
commit_created (ok a) s x = commit_application s (some a) x.completion_now x.wire

-- Behind the query: `at_admission` and `at_commit` are the store at the later two calls.
after_query :
    Result (Option SelectionRequestRecord)
    → SelectionIntent
    → Store
    → Store
    → Surroundings
    → Store × Result SelectionReceipt
unfolding matched commit_created created_application
after_query (err e) intent at_admission at_commit x = (at_commit, err e)
after_query (ok (some existing)) intent at_admission at_commit x =
    matched (ensure_matches existing.application intent) existing at_commit x
after_query (ok none) intent at_admission at_commit x =
    commit_created (created_application (admit_selection at_admission intent x.now) x) at_commit x

with_intent :
    Result SelectionIntent → Store → Store → Store → Surroundings → Store × Result SelectionReceipt
unfolding after_query
with_intent (err e) at_query at_admission at_commit x = (at_commit, err e)
with_intent (ok i) at_query at_admission at_commit x =
    after_query (query_selection_by_request at_query i.round_id i.student_id i.request_id) i
      at_admission at_commit x

unfoldable pub select_course :
    Option SelectCourseCommand
    → Store
    → Store
    → Store
    → Surroundings
    → Store × Result SelectionReceipt
unfolding with_intent
select_course none at_query at_admission at_commit x = (at_commit, err invalid_params)
select_course (some c) at_query at_admission at_commit x =
    with_intent
      (new_selection_intent c.request_id c.round_id c.student_id c.teaching_class_id c.source)
      at_query at_admission at_commit x
