-- ===== src/Enrollment/Record.antt =====
-- internal/enrollment/domain/enrollment.go: the enrollment record and its drop.
pub mod Drop
use course_forge.Prelude.{
  ℕ, Bool, true, false, not, ◌||◌, ◌&&◌, Option, none, some, Text, is_empty, ltb, ◌==◌,
  if◌then◌else◌,
}
use course_forge.Enrollment.Errors.{Err, invalid_params, invalid_enrollment_state, Result, ok, err}
use course_forge.Enrollment.Selection.{Credit, credit_valid}

pub data EnrollmentState : Type 0 where
  enrolled dropped completed : EnrollmentState
  other_enrollment_state : Text → EnrollmentState

unfoldable pub enrollment_state_valid : EnrollmentState → Bool
enrollment_state_valid (other_enrollment_state t) = false
enrollment_state_valid s = true

unfoldable pub is_dropped : EnrollmentState → Bool
is_dropped dropped = true
is_dropped s = false

pub record StudentEnrollment : Type 0 where
  pub enrollment_id : Text
  pub application_id : Text
  pub round_id : ℕ
  pub term_id : ℕ
  pub student_id : ℕ
  pub course_id : ℕ
  pub teaching_class_id : ℕ
  pub credits : Credit
  pub state : EnrollmentState
  pub enrolled_at : ℕ
  pub dropped_at : Option ℕ

abbrev pub is_nil {ℓ} : {A : Type ℓ} → Option A → Bool
is_nil none = true
is_nil (some a) = false

-- The first condition of `Validate`.
unfoldable pub enrollment_incomplete : StudentEnrollment → Bool
enrollment_incomplete e =
    is_empty e.enrollment_id
    || is_empty e.application_id
    || e.round_id == 0
    || e.term_id == 0
    || e.student_id == 0
    || e.course_id == 0
    || e.teaching_class_id == 0
    || not (credit_valid e.credits)
    || not (enrollment_state_valid e.state)
    || e.enrolled_at == 0

unfoldable pub validate_enrollment : StudentEnrollment → Option Err
unfolding is_dropped
validate_enrollment e =
    if enrollment_incomplete e
    then some invalid_params
    else if is_dropped e.state && is_nil e.dropped_at
    then some invalid_params
    else none

-- The switch of `Drop`.
drop_in : EnrollmentState → StudentEnrollment → ℕ → StudentEnrollment × Result Bool
drop_in dropped e at = (e, ok false)
drop_in enrolled e at = (record e { state = dropped; dropped_at = some at }, ok true)
drop_in s e at = (e, err invalid_enrollment_state)

-- `Drop` behind the validation.
drop_valid : Option Err → StudentEnrollment → ℕ → StudentEnrollment × Result Bool
unfolding drop_in
drop_valid (some x) e at = (e, err x)
drop_valid none e at =
    if at == 0 || ltb at e.enrolled_at then (e, err invalid_params) else drop_in e.state e at

unfoldable pub drop : StudentEnrollment → ℕ → StudentEnrollment × Result Bool
unfolding drop_valid
drop e at = drop_valid (validate_enrollment e) e at
