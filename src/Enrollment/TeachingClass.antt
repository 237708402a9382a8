-- ===== src/Enrollment/TeachingClass.antt =====
-- internal/enrollment/domain/selection.go: the teaching class and the student quota, as snapshots
-- that a request is checked against.
pub mod Checks
use course_forge.Prelude.{
  ℕ, Bool, true, false, not, ◌||◌, Option, none, some, Text, ltb, leb, ◌==◌, if◌then◌else◌,
}
use course_forge.Prelude.Int.{pos, is_pos, ltb_ℤ, eqb_ℤ, ◌+ℤ◌, wrap32}
use course_forge.Enrollment.Errors.{
  Err, invalid_params, teaching_class_not_open, teaching_class_full, waitlist_not_required,
  credit_quota_exceeded, course_quota_exceeded,
}
use course_forge.Enrollment.Selection.{Credit, SelectionRequest}

pub data ClassState : Type 0 where
  planned open_class closed cancelled : ClassState
  other_state : Text → ClassState

unfoldable pub class_is_open : ClassState → Bool
class_is_open open_class = true
class_is_open s = false

-- `capacity` and `selected_count` are `uint32`.
pub record TeachingClass : Type 0 where
  pub id : ℕ
  pub term_id : ℕ
  pub course_id : ℕ
  pub credits : Credit
  pub capacity : ℕ
  pub selected_count : ℕ
  pub state : ClassState

unfoldable pub matches_request : Option TeachingClass → Option SelectionRequest → Option Err
matches_request none request = some invalid_params
matches_request (some c) none = some invalid_params
matches_request (some c) (some r) =
    if not (c.id == r.teaching_class_id)
      || not (c.term_id == r.term_id)
      || not (c.course_id == r.course_id)
      || not (eqb_ℤ c.credits r.credits)
    then some invalid_params
    else none

-- What both checks do once the request is known to match.
seat_check : TeachingClass → Option Err
unfolding class_is_open
seat_check c =
    if not (class_is_open c.state)
    then some teaching_class_not_open
    else if c.capacity == 0 || leb c.capacity c.selected_count
    then some teaching_class_full
    else none

queue_check : TeachingClass → Option Err
unfolding class_is_open
queue_check c =
    if not (class_is_open c.state)
    then some teaching_class_not_open
    else if ltb c.selected_count c.capacity
    then some waitlist_not_required
    else none

abbrev or_else : Option Err → Option Err → Option Err
or_else (some e) rest = some e
or_else none rest = rest

unfoldable pub validate_for_selection : Option TeachingClass → Option SelectionRequest → Option Err
unfolding matches_request seat_check
validate_for_selection none request = some invalid_params
validate_for_selection (some c) request = or_else (matches_request (some c) request) (seat_check c)

unfoldable pub validate_for_waitlist : Option TeachingClass → Option SelectionRequest → Option Err
unfolding matches_request queue_check
validate_for_waitlist none request = some invalid_params
validate_for_waitlist (some c) request = or_else (matches_request (some c) request) (queue_check c)

-- `course_limit` and `selected_course_count` are `uint16`.
pub record StudentSelectionQuota : Type 0 where
  pub round_id : ℕ
  pub term_id : ℕ
  pub student_id : ℕ
  pub credit_limit : Credit
  pub selected_credits : Credit
  pub course_limit : ℕ
  pub selected_course_count : ℕ

-- The sum of credits is an `int32` sum.
unfoldable pub validate_reservation :
    Option StudentSelectionQuota → Option SelectionRequest → Option Err
validate_reservation none request = some invalid_params
validate_reservation (some q) none = some invalid_params
validate_reservation (some q) (some r) =
    if not (q.round_id == r.round_id)
      || not (q.term_id == r.term_id)
      || not (q.student_id == r.student_id)
    then some invalid_params
    else if not (is_pos q.credit_limit)
        || ltb_ℤ q.selected_credits (pos 0)
        || ltb_ℤ q.credit_limit (wrap32 (q.selected_credits +ℤ r.credits))
    then some credit_quota_exceeded
    else if q.course_limit == 0 || leb q.course_limit q.selected_course_count
    then some course_quota_exceeded
    else none
