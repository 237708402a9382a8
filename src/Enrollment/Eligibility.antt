-- ===== src/Enrollment/Eligibility.antt =====
-- internal/enrollment/domain/admission.go: students, schedules, major scopes and what is left of a
-- quota.
pub mod Overlap
use course_forge.Prelude.{
  ℕ, Bool, true, false, not, ◌||◌, ◌&&◌, Option, none, some, List, [], ◌∷◌, ◌++◌, Text, is_empty,
  any, leb, ◌==◌, if◌then◌else◌,
}
use course_forge.Prelude.Int.{ℤ, is_pos, ltb_ℤ}
use course_forge.Enrollment.Errors.{
  Err, invalid_params, student_inactive, grade_not_allowed, major_not_allowed, prerequisite_not_met,
  schedule_conflict, duplicate_selection, credit_quota_exceeded, course_quota_exceeded,
}
use course_forge.Enrollment.Selection.{Credit, credit_valid}

pub data StudentState : Type 0 where
  active suspended graduated withdrawn : StudentState
  other_student_state : Text → StudentState

unfoldable pub is_active : StudentState → Bool
is_active active = true
is_active s = false

pub record StudentProfile : Type 0 where
  pub id : ℕ
  pub major_id : ℕ
  pub grade_year : ℕ
  pub state : StudentState

-- Five `uint8`.
pub record ScheduleSlot : Type 0 where
  pub day_of_week : ℕ
  pub start_week : ℕ
  pub end_week : ℕ
  pub start_section : ℕ
  pub end_section : ℕ

unfoldable pub slot_valid : ScheduleSlot → Bool
slot_valid s =
    leb 1 s.day_of_week
    && leb s.day_of_week 7
    && leb 1 s.start_week
    && leb s.start_week s.end_week
    && leb 1 s.start_section
    && leb s.start_section s.end_section

unfoldable pub conflicts : ScheduleSlot → ScheduleSlot → Bool
conflicts s t =
    if not (slot_valid s) || not (slot_valid t) || not (s.day_of_week == t.day_of_week)
    then false
    else ((leb s.start_week t.end_week && leb t.start_week s.end_week)
        && (leb s.start_section t.end_section && leb t.start_section s.end_section))

pub data MajorScopeType : Type 0 where
  allow deny : MajorScopeType
  other_scope : Text → MajorScopeType

unfoldable pub is_allow : MajorScopeType → Bool
is_allow allow = true
is_allow t = false

unfoldable pub is_deny : MajorScopeType → Bool
is_deny deny = true
is_deny t = false

pub record MajorScope : Type 0 where
  pub major_id : ℕ
  pub type : MajorScopeType

-- The loop of `majorAllowed`, with its two variables.
unfoldable pub scan_scopes : ℕ → List MajorScope → Bool → Bool → Bool
unfolding is_allow is_deny
scan_scopes major [] has_allow_list allowed = not has_allow_list || allowed
scan_scopes major (scope ∷ scopes) has_allow_list allowed =
    let rest =
      scan_scopes major scopes (is_allow scope.type || has_allow_list)
        ((is_allow scope.type && scope.major_id == major) || allowed) in
    if is_deny scope.type && scope.major_id == major then false else rest

unfoldable pub major_allowed : ℕ → List MajorScope → Bool
unfolding scan_scopes
major_allowed major scopes = if is_empty scopes then true else scan_scopes major scopes false false

-- The two loops of the dynamic `Evaluate`.
unfoldable pub any_conflict : List ScheduleSlot → List ScheduleSlot → Bool
any_conflict [] selected = false
any_conflict (target ∷ targets) selected =
    any (conflicts target) selected || any_conflict targets selected

-- What is left of a student's quota when a selection is submitted.
pub record SelectionQuotaAvailability : Type 0 where
  pub credit_remaining : Credit
  pub course_remaining : ℤ

unfoldable pub validate_availability : SelectionQuotaAvailability → Credit → Option Err
validate_availability a credits =
    if not (credit_valid credits) || ltb_ℤ a.credit_remaining credits
    then some credit_quota_exceeded
    else if not (is_pos a.course_remaining)
    then some course_quota_exceeded
    else none

unfoldable pub ensure_no_existing_enrollment : Bool → Option Err
ensure_no_existing_enrollment exists = if exists then some duplicate_selection else none

unfoldable pub ensure_no_schedule_conflict : Bool → Option Err
ensure_no_schedule_conflict conflict = if conflict then some schedule_conflict else none
