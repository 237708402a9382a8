-- ===== src/Enrollment/Waitlist.antt =====
-- internal/enrollment/domain/waitlist.go: the waitlist entry, and what a failed promotion leads to.
pub mod Lifecycle
use course_forge.Prelude.{
  ℕ, Bool, true, false, not, ◌||◌, Option, none, some, Text, codes, ◌++◌, trim_space, is_empty, ltb,
  ◌==◌, if◌then◌else◌,
}
use course_forge.Enrollment.Errors.{
  Err, invalid_params, invalid_waitlist_state, teaching_class_full, application_in_progress,
  student_inactive, prerequisite_not_met, major_not_allowed, grade_not_allowed, schedule_conflict,
  duplicate_selection, credit_quota_exceeded, course_quota_exceeded, errors_is, error_text, Result,
  ok, err, ◌>>◌,
}
use course_forge.Enrollment.Selection.{
  Credit, SelectionRequest, validate_request, FailureReason, reason_valid, FailureCode,
}

pub data WaitlistState : Type 0 where
  waiting promoting promoted cancelled : WaitlistState
  other_waitlist_state : Text → WaitlistState

pub record WaitlistEntry : Type 0 where
  pub waitlist_id : Text
  pub request_id : Text
  pub round_id : ℕ
  pub term_id : ℕ
  pub student_id : ℕ
  pub course_id : ℕ
  pub teaching_class_id : ℕ
  pub credits : Credit
  pub state : WaitlistState
  pub failure : Option FailureReason
  pub position : ℕ
  pub joined_at : ℕ
  pub promoted_at : Option ℕ
  pub cancelled_at : Option ℕ

-- The composite literal of `NewWaitlistEntry`, whose request is not nil there.
entry_from : Text → Option SelectionRequest → ℕ → Result WaitlistEntry
entry_from waitlist_id none joined_at = err invalid_params
entry_from waitlist_id (some request) joined_at = ok (record {
  waitlist_id = waitlist_id;
  request_id = request.request_id;
  round_id = request.round_id;
  term_id = request.term_id;
  student_id = request.student_id;
  course_id = request.course_id;
  teaching_class_id = request.teaching_class_id;
  credits = request.credits;
  state = waiting;
  failure = none;
  position = 0;
  joined_at = joined_at;
  promoted_at = none;
  cancelled_at = none;
})

unfoldable pub new_waitlist_entry : Text → Option SelectionRequest → ℕ → Result WaitlistEntry
unfolding entry_from
new_waitlist_entry waitlist_id request joined_at =
    if is_empty (trim_space waitlist_id) || joined_at == 0
    then err invalid_params
    else (validate_request request >> entry_from waitlist_id request joined_at)

-- The switch of `Cancel`.
cancel_in : WaitlistState → WaitlistEntry → FailureReason → ℕ → WaitlistEntry × Option Err
cancel_in waiting e reason at =
    (record e { state = cancelled; failure = some reason; cancelled_at = some at }, none)
cancel_in promoting e reason at =
    (record e { state = cancelled; failure = some reason; cancelled_at = some at }, none)
cancel_in cancelled e reason at = (e, none)
cancel_in s e reason at = (e, some invalid_waitlist_state)

unfoldable pub cancel_entry : WaitlistEntry → FailureReason → ℕ → WaitlistEntry × Option Err
unfolding cancel_in
cancel_entry e reason at =
    if not (reason_valid reason) || at == 0 || ltb at e.joined_at
    then (e, some invalid_params)
    else cancel_in e.state e reason at

-- The two tests of the state in `MarkPromoted`.
promote_in : WaitlistState → WaitlistEntry → ℕ → WaitlistEntry × Option Err
promote_in promoted e at = (e, none)
promote_in promoting e at = (record e { state = promoted; promoted_at = some at }, none)
promote_in s e at = (e, some invalid_waitlist_state)

unfoldable pub mark_promoted : WaitlistEntry → ℕ → WaitlistEntry × Option Err
unfolding promote_in
mark_promoted e at =
    if at == 0 || ltb at e.joined_at then (e, some invalid_params) else promote_in e.state e at

unfoldable pub promotion_request_id : WaitlistEntry → Text
promotion_request_id e = codes "waitlist-" ++ e.waitlist_id

pub data PromotionFailureDecision : Type 0 where
  retry : PromotionFailureDecision
  cancel_with : FailureReason → PromotionFailureDecision

failure_message : Option Err → Text
failure_message none = codes "候补晋级失败"
failure_message (some e) = error_text e

-- The second switch of `DecidePromotionFailure`.
failure_code : Option Err → FailureCode
failure_code e =
    if errors_is e student_inactive
    then FailureCode.student_inactive_code
    else if errors_is e prerequisite_not_met
    then FailureCode.prerequisite_code
    else if errors_is e major_not_allowed
    then FailureCode.major_not_allowed_code
    else if errors_is e grade_not_allowed
    then FailureCode.grade_not_allowed_code
    else if errors_is e schedule_conflict
    then FailureCode.schedule_conflict_code
    else if errors_is e duplicate_selection
    then FailureCode.duplicate_course_code
    else if errors_is e credit_quota_exceeded
    then FailureCode.credit_quota_code
    else if errors_is e course_quota_exceeded
    then FailureCode.course_quota_code
    else FailureCode.internal_code

unfoldable pub decide_promotion_failure : Option Err → PromotionFailureDecision
unfolding failure_message failure_code
decide_promotion_failure e =
    if errors_is e teaching_class_full || errors_is e application_in_progress
    then retry
    else cancel_with (record { code = failure_code e; message = failure_message e })

unfoldable pub student_cancelled_reason : FailureReason
student_cancelled_reason = record { code = FailureCode.cancelled_code; message = codes "学生主动取消候补" }

unfoldable pub round_closed_reason : FailureReason
round_closed_reason = record { code = FailureCode.round_closed_code; message = codes "选课轮次已结束" }
