-- ===== src/Enrollment/Application.antt =====
-- internal/enrollment/domain/application.go: the application aggregate. A method that changes its
-- receiver takes one that is not nil, and returns it as the call leaves it.
pub mod Lifecycle
use course_forge.Prelude.{
  ℕ, Bool, true, false, not, ◌||◌, ◌&&◌, Option, none, some, Text, text_eq, byte_length, trim_space,
  is_empty, ltb, ◌==◌, if◌then◌else◌,
}
use course_forge.Enrollment.Errors.{
  Err, invalid_params, invalid_application_state, application_cancelled, idempotency_conflict,
  Result, ok, err, ◌>>◌,
}
use course_forge.Enrollment.Selection.{
  Credit, ApplicationSource, source_eq, SelectionIntent, intent_valid, SelectionRequest,
  validate_request, max_application_id_length, FailureReason, reason_valid, ApplicationState,
  created, reserved, selected, rejected, cancelled, SelectionResult,
}

unfoldable pub terminal : ApplicationState → Bool
terminal selected = true
terminal rejected = true
terminal cancelled = true
terminal s = false

pub record SelectionApplication : Type 0 where
  pub application_id : Text
  pub request_id : Text
  pub round_id : ℕ
  pub term_id : ℕ
  pub student_id : ℕ
  pub course_id : ℕ
  pub teaching_class_id : ℕ
  pub credits : Credit
  pub source : ApplicationSource
  pub state : ApplicationState
  pub failure : Option FailureReason
  pub applied_at : ℕ
  pub completed_at : Option ℕ

unfoldable pub ensure_matches : Option SelectionApplication → SelectionIntent → Option Err
ensure_matches none intent = some invalid_params
ensure_matches (some a) intent =
    if not (intent_valid intent)
    then some invalid_params
    else if not (text_eq a.request_id intent.request_id)
        || not (a.round_id == intent.round_id)
        || not (a.student_id == intent.student_id)
        || not (a.teaching_class_id == intent.teaching_class_id)
        || not (source_eq a.source intent.source)
    then some idempotency_conflict
    else none

-- The composite literal that `NewSelectionApplication` returns.
unfoldable pub created_from : Text → SelectionRequest → ℕ → SelectionApplication
created_from application_id request applied_at = record {
  application_id = application_id;
  request_id = request.request_id;
  round_id = request.round_id;
  term_id = request.term_id;
  student_id = request.student_id;
  course_id = request.course_id;
  teaching_class_id = request.teaching_class_id;
  credits = request.credits;
  source = request.source;
  state = created;
  failure = none;
  applied_at = applied_at;
  completed_at = none;
}

-- After `request.Validate()` succeeds the request is not nil.
unfoldable pub of_request : Text → Option SelectionRequest → ℕ → Result SelectionApplication
unfolding created_from
of_request application_id none applied_at = err invalid_params
of_request application_id (some request) applied_at =
    ok (created_from application_id request applied_at)

unfoldable pub new_selection_application :
    Text → Option SelectionRequest → ℕ → Result SelectionApplication
unfolding of_request
new_selection_application application_id request applied_at =
    if is_empty (trim_space application_id)
      || ltb max_application_id_length (byte_length application_id)
      || applied_at == 0
    then err invalid_params
    else (validate_request request >> of_request application_id request applied_at)

-- `a.State != ApplicationStateCreated` is the catch-all.
reserve_in : ApplicationState → SelectionApplication → SelectionApplication × Option Err
reserve_in created a = (record a { state = reserved }, none)
reserve_in s a = (a, some invalid_application_state)

unfoldable pub reserve : SelectionApplication → SelectionApplication × Option Err
unfolding reserve_in
reserve a = reserve_in a.state a

unfoldable pub finish :
    SelectionApplication → ApplicationState → Option FailureReason → ℕ → SelectionApplication
finish a state reason completed_at = record a {
  state = state;
  failure = reason;
  completed_at = some completed_at;
}

-- A `CompletedAt` that is nil leaves the zero time.
unfoldable pub completion_time : Option ℕ → ℕ
completion_time none = 0
completion_time (some t) = t

unfoldable pub result : SelectionApplication → SelectionResult
unfolding completion_time
result a = record {
  application_id = a.application_id;
  request_id = a.request_id;
  round_id = a.round_id;
  term_id = a.term_id;
  student_id = a.student_id;
  course_id = a.course_id;
  teaching_class_id = a.teaching_class_id;
  credits = a.credits;
  source = a.source;
  state = a.state;
  failure = a.failure;
  applied_at = a.applied_at;
  completed_at = completion_time a.completed_at;
}

-- The two tests of the state in `validateCompletion`.
completable : ApplicationState → Option Err
completable cancelled = some application_cancelled
completable reserved = none
completable s = some invalid_application_state

unfoldable pub validate_completion : SelectionApplication → ℕ → Option Err
unfolding completable
validate_completion a completed_at =
    if completed_at == 0 || ltb completed_at a.applied_at
    then some invalid_params
    else completable a.state

-- A completed application with its result, or the application untouched with the error.
unfoldable pub complete_if :
    Option Err
    → SelectionApplication
    → SelectionApplication
    → SelectionApplication × Result SelectionResult
unfolding result
complete_if (some e) a finished = (a, err e)
complete_if none a finished = (finished, ok (result finished))

unfoldable pub complete_selected :
    SelectionApplication → ℕ → SelectionApplication × Result SelectionResult
unfolding complete_if validate_completion finish
complete_selected a completed_at =
    complete_if (validate_completion a completed_at) a (finish a selected none completed_at)

unfoldable pub complete_rejected :
    SelectionApplication → FailureReason → ℕ → SelectionApplication × Result SelectionResult
unfolding complete_if validate_completion finish
complete_rejected a reason completed_at =
    if not (reason_valid reason)
    then (a, err invalid_params)
    else complete_if (validate_completion a completed_at) a
        (finish a rejected (some reason) completed_at)

-- The switch of `Cancel`.
cancellable : ApplicationState → Option Err
cancellable created = none
cancellable reserved = none
cancellable cancelled = some application_cancelled
cancellable s = some invalid_application_state

unfoldable pub cancel :
    SelectionApplication → FailureReason → ℕ → SelectionApplication × Result SelectionResult
unfolding complete_if cancellable finish
cancel a reason completed_at =
    if not (reason_valid reason) || completed_at == 0 || ltb completed_at a.applied_at
    then (a, err invalid_params)
    else complete_if (cancellable a.state) a (finish a cancelled (some reason) completed_at)
