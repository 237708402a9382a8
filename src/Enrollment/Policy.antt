-- ===== src/Enrollment/Policy.antt =====
-- internal/enrollment/domain/admission.go: prerequisites and the static, dynamic and joint eligibility
-- policies. A score is a Go `float64`: its type and `<` are parameters.
pub mod Direct
use course_forge.Prelude.{
  ℕ, Bool, true, false, not, ◌||◌, ◌&&◌, Option, none, some, List, [], ◌∷◌, ◌++◌, is_empty, ltb,
  ◌==◌, if◌then◌else◌,
}
use course_forge.Enrollment.Errors.{
  Err, invalid_params, student_inactive, grade_not_allowed, major_not_allowed, prerequisite_not_met,
  schedule_conflict,
}
use course_forge.Enrollment.Eligibility.{
  StudentProfile, is_active, ScheduleSlot, MajorScope, major_allowed, any_conflict,
}

pub record PrerequisiteRequirement (Score : Type 0) : Type 0 where
  pub course_id : ℕ
  pub minimum_score : Option Score

pub record CourseAchievement (Score : Type 0) : Type 0 where
  pub course_id : ℕ
  pub passed : Bool
  pub score : Option Score

pub record EligibilitySnapshot (Score : Type 0) : Type 0 where
  pub student : Option StudentProfile
  pub minimum_grade_year : Option ℕ
  pub maximum_grade_year : Option ℕ
  pub major_scopes : List MajorScope
  pub prerequisites : List (PrerequisiteRequirement Score)
  pub achievements : List (CourseAchievement Score)
  pub target_schedules : List ScheduleSlot
  pub enrolled_schedules : List ScheduleSlot

-- `x < *bound`, unless the bound is nil.
unfoldable pub under : ℕ → Option ℕ → Bool
under x none = false
under x (some bound) = ltb x bound

unfoldable pub over : ℕ → Option ℕ → Bool
over x none = false
over x (some bound) = ltb bound x

module _ {Score : Type 0} where
  -- The loop that fills `byCourse`.
  unfoldable pub group_by_course :
      (ℕ → List (CourseAchievement Score))
      → List (CourseAchievement Score)
      → ℕ
      → List (CourseAchievement Score)
  group_by_course by_course [] = by_course
  group_by_course by_course (a ∷ rest) =
      group_by_course (λ c. if a.course_id == c then by_course c ++ a ∷ [] else by_course c) rest

module _ {Score : Type 0} (score_lt : Score → Score → Bool) where
  -- `achievement.Score == nil || *achievement.Score < *requirement.MinimumScore`.
  unfoldable pub score_missing_or_below : Option Score → Score → Bool
  score_missing_or_below none minimum = true
  score_missing_or_below (some s) minimum = score_lt s minimum

  unfoldable pub falls_short : Option Score → Option Score → Bool
  unfolding score_missing_or_below
  falls_short none score = false
  falls_short (some minimum) score = score_missing_or_below score minimum

  -- The inner loop: whether some achievement satisfies the requirement.
  unfoldable pub satisfied_by :
      PrerequisiteRequirement Score → List (CourseAchievement Score) → Bool
  unfolding falls_short
  satisfied_by requirement [] = false
  satisfied_by requirement (a ∷ rest) =
      let later = satisfied_by requirement rest in
      if not a.passed
      then later
      else if falls_short requirement.minimum_score a.score
      then later
      else true

  -- The outer loop.
  unfoldable pub all_satisfied :
      List (PrerequisiteRequirement Score) → (ℕ → List (CourseAchievement Score)) → Bool
  unfolding satisfied_by
  all_satisfied [] by_course = true
  all_satisfied (r ∷ rest) by_course =
      let later = all_satisfied rest by_course in
      if not (satisfied_by r (by_course r.course_id)) then false else later

  unfoldable pub prerequisites_satisfied :
      List (PrerequisiteRequirement Score) → List (CourseAchievement Score) → Bool
  unfolding all_satisfied group_by_course
  prerequisites_satisfied requirements achievements =
      if is_empty requirements
      then true
      else all_satisfied requirements (group_by_course (λ c. []) achievements)

  -- The tests of the static policy on a student that is present.
  static_checks : StudentProfile → EligibilitySnapshot Score → Option Err
  unfolding prerequisites_satisfied
  static_checks student snapshot =
      if student.id == 0
      then some invalid_params
      else if not (is_active student.state)
      then some student_inactive
      else if under student.grade_year snapshot.minimum_grade_year
      then some grade_not_allowed
      else if over student.grade_year snapshot.maximum_grade_year
      then some grade_not_allowed
      else if not (major_allowed student.major_id snapshot.major_scopes)
      then some major_not_allowed
      else if not (prerequisites_satisfied snapshot.prerequisites snapshot.achievements)
      then some prerequisite_not_met
      else none

  of_student : Option StudentProfile → EligibilitySnapshot Score → Option Err
  unfolding static_checks
  of_student none snapshot = some invalid_params
  of_student (some student) snapshot = static_checks student snapshot

  unfoldable pub evaluate_static : Option (EligibilitySnapshot Score) → Option Err
  unfolding of_student
  evaluate_static none = some invalid_params
  evaluate_static (some snapshot) = of_student snapshot.student snapshot

  unfoldable pub evaluate_dynamic : Option (EligibilitySnapshot Score) → Option Err
  evaluate_dynamic none = some invalid_params
  evaluate_dynamic (some snapshot) =
      if any_conflict snapshot.target_schedules snapshot.enrolled_schedules
      then some schedule_conflict
      else none

  -- `EligibilityPolicy.Evaluate`, behind the static policy.
  after_static : Option Err → Option (EligibilitySnapshot Score) → Option Err
  unfolding evaluate_dynamic
  after_static (some e) snapshot = some e
  after_static none snapshot = evaluate_dynamic snapshot

  unfoldable pub evaluate : Option (EligibilitySnapshot Score) → Option Err
  unfolding after_static evaluate_static
  evaluate snapshot = after_static (evaluate_static snapshot) snapshot
