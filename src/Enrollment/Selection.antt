-- ===== src/Enrollment/Selection.antt =====
-- internal/enrollment/domain/selection.go: credits, sources, intents, requests, failure reasons and
-- results. An enumerated string type is a data type whose last constructor holds any other text.
use course_forge.Prelude.{
  ℕ, Bool, true, false, not, ◌&&◌, ◌||◌, Option, none, some, Text, text_eq, byte_length, trim_space,
  is_empty, ltb, ◌==◌, if◌then◌else◌,
}
use course_forge.Prelude.Int.{ℤ, is_pos}
use course_forge.Enrollment.Errors.{Err, invalid_params, invalid_application_state, Result, ok, err}

abbrev pub max_application_id_length : ℕ
max_application_id_length = 32

abbrev pub max_request_id_length : ℕ
max_request_id_length = 64

-- Tenths of a credit, an `int32`.
abbrev pub Credit : Type 0
Credit = ℤ

unfoldable pub credit_valid : Credit → Bool
credit_valid c = is_pos c

unfoldable pub new_credit_from_tenths : ℤ → Result Credit
unfolding credit_valid
new_credit_from_tenths tenths = if not (credit_valid tenths) then err invalid_params else ok tenths

pub data ApplicationSource : Type 0 where
  web mobile admin system : ApplicationSource
  other_source : Text → ApplicationSource

unfoldable pub source_valid : ApplicationSource → Bool
source_valid (other_source s) = false
source_valid s = true

-- `==` on sources.
unfoldable pub source_eq : ApplicationSource → ApplicationSource → Bool
source_eq web web = true
source_eq mobile mobile = true
source_eq admin admin = true
source_eq system system = true
source_eq (other_source s) (other_source t) = text_eq s t
source_eq s t = false

pub record SelectionIntent : Type 0 where
  pub request_id : Text
  pub round_id : ℕ
  pub student_id : ℕ
  pub teaching_class_id : ℕ
  pub source : ApplicationSource

unfoldable pub new_selection_intent : Text → ℕ → ℕ → ℕ → ApplicationSource → Result SelectionIntent
new_selection_intent request_id round_id student_id teaching_class_id source =
    if is_empty (trim_space request_id)
      || ltb max_request_id_length (byte_length request_id)
      || round_id == 0
      || student_id == 0
      || teaching_class_id == 0
      || not (source_valid source)
    then err invalid_params
    else ok (record {
      request_id = request_id;
      round_id = round_id;
      student_id = student_id;
      teaching_class_id = teaching_class_id;
      source = source;
    })

unfoldable pub intent_valid : SelectionIntent → Bool
intent_valid i =
    not (is_empty i.request_id)
    && not (i.round_id == 0)
    && not (i.student_id == 0)
    && not (i.teaching_class_id == 0)
    && source_valid i.source

pub record SelectionRequest : Type 0 where
  pub request_id : Text
  pub round_id : ℕ
  pub term_id : ℕ
  pub student_id : ℕ
  pub course_id : ℕ
  pub teaching_class_id : ℕ
  pub credits : Credit
  pub source : ApplicationSource

-- The argument is the receiver, which may be nil.
unfoldable pub validate_request : Option SelectionRequest → Option Err
validate_request none = some invalid_params
validate_request (some r) =
    if is_empty (trim_space r.request_id)
      || ltb max_request_id_length (byte_length r.request_id)
      || r.round_id == 0
      || r.term_id == 0
      || r.student_id == 0
      || r.course_id == 0
      || r.teaching_class_id == 0
      || not (credit_valid r.credits)
      || not (source_valid r.source)
    then some invalid_params
    else none

pub data FailureCode : Type 0 where
  student_inactive_code prerequisite_code major_not_allowed_code grade_not_allowed_code
        schedule_conflict_code duplicate_course_code credit_quota_code course_quota_code
        teaching_class_full_code cancelled_code round_closed_code internal_code :
      FailureCode
  other_code : Text → FailureCode

-- `r.Code != ""`.
unfoldable pub code_present : FailureCode → Bool
code_present (other_code t) = not (is_empty t)
code_present c = true

pub record FailureReason : Type 0 where
  pub code : FailureCode
  pub message : Text

unfoldable pub reason_valid : FailureReason → Bool
unfolding code_present
reason_valid r = code_present r.code && not (is_empty (trim_space r.message))

pub data ApplicationState : Type 0 where
  created reserved selected rejected cancelled : ApplicationState
  other_application_state : Text → ApplicationState

-- Instants are counted from Go's zero time, which `IsZero` recognises.
pub record SelectionResult : Type 0 where
  pub application_id : Text
  pub request_id : Text
  pub round_id : ℕ
  pub term_id : ℕ
  pub student_id : ℕ
  pub course_id : ℕ
  pub teaching_class_id : ℕ
  pub credits : Credit
  pub source : ApplicationSource
  pub state : ApplicationState
  pub failure : Option FailureReason
  pub applied_at : ℕ
  pub completed_at : ℕ

-- The first condition of `Validate`.
unfoldable pub result_incomplete : SelectionResult → Bool
result_incomplete r =
    is_empty (trim_space r.application_id)
    || ltb max_application_id_length (byte_length r.application_id)
    || is_empty (trim_space r.request_id)
    || ltb max_request_id_length (byte_length r.request_id)
    || r.round_id == 0
    || r.term_id == 0
    || r.student_id == 0
    || r.course_id == 0
    || r.teaching_class_id == 0
    || not (credit_valid r.credits)
    || not (source_valid r.source)
    || r.applied_at == 0
    || r.completed_at == 0
    || ltb r.completed_at r.applied_at

-- The switch on the state.
unfoldable pub check_outcome : ApplicationState → Option FailureReason → Option Err
check_outcome selected none = none
check_outcome selected (some f) = some invalid_params
check_outcome rejected none = some invalid_params
check_outcome rejected (some f) = if not (reason_valid f) then some invalid_params else none
check_outcome cancelled none = some invalid_params
check_outcome cancelled (some f) = if not (reason_valid f) then some invalid_params else none
check_outcome s f = some invalid_application_state

unfoldable pub validate_result : Option SelectionResult → Option Err
unfolding result_incomplete check_outcome
validate_result none = some invalid_params
validate_result (some r) =
    if result_incomplete r then some invalid_params else check_outcome r.state r.failure
