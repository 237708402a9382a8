-- ===== src/Enrollment/Policy/Direct.antt =====
-- The eligibility policies of domain/admission.go against a description with no index and no early exit.
use mathlib.Core.List.{append-nil, append_assoc}
use course_forge.Prelude.{
  ℕ, ◌<◌, ◌≡◌, ◌↔◌, refl, sym, ◌∙◌, Bool, true, false, not, ◌&&◌, Option, none, some, List, [], ◌∷◌,
  ◌++◌, any, every, All, ◌==◌, if◌then◌else◌, arith,
}
use course_forge.Enrollment.Errors.{Err, invalid_params}
use course_forge.Enrollment.Eligibility.{
  StudentProfile, active, is_active, slot_valid, major_allowed,
}
use course_forge.Enrollment.Eligibility.Overlap.{Apart, any_conflict-Apart}
use course_forge.Enrollment.Policy.{
  PrerequisiteRequirement, CourseAchievement, EligibilitySnapshot, under, over, group_by_course,
  falls_short, satisfied_by, all_satisfied, prerequisites_satisfied, static_checks, of_student,
  after_static, evaluate_static, evaluate_dynamic, evaluate,
}

module _ {Score : Type 0} where
  for_course : ℕ → List (CourseAchievement Score) → List (CourseAchievement Score)
  for_course c [] = []
  for_course c (a ∷ rest) = if a.course_id == c then a ∷ for_course c rest else for_course c rest

  group-for_course :
      (m : ℕ → List (CourseAchievement Score)) (achievements : List (CourseAchievement Score))
      (c : ℕ)
      → group_by_course m achievements c ≡ m c ++ for_course c achievements
  unfolding group_by_course for_course
  group-for_course m [] c = sym (append-nil (m c))
  group-for_course m (a ∷ rest) c =
      group-for_course (λ k. if a.course_id == k then m k ++ a ∷ [] else m k) rest c
      ∙ ground (arith, append_assoc (m c) (a ∷ []) (for_course c rest))

  any-for_course :
      (p : CourseAchievement Score → Bool) (c : ℕ) (achievements : List (CourseAchievement Score))
      → any p (for_course c achievements) ≡ any (λ a. a.course_id == c && p a) achievements
  unfolding for_course
  any-for_course p c [] = refl
  any-for_course p c (a ∷ rest) = ground (arith, any-for_course p c rest)

module _ {Score : Type 0} (score_lt : Score → Score → Bool) where
  -- The achievement is passed and, where the requirement has a minimum, has a score not below it.
  abbrev pub earns : PrerequisiteRequirement Score → CourseAchievement Score → Bool
  earns r a = a.passed && not (falls_short score_lt r.minimum_score a.score)

  satisfied_by-any :
      (r : PrerequisiteRequirement Score) (achievements : List (CourseAchievement Score))
      → satisfied_by score_lt r achievements ≡ any (earns r) achievements
  unfolding satisfied_by
  satisfied_by-any r [] = refl
  satisfied_by-any r (a ∷ rest) = ground (arith, satisfied_by-any r rest)

  abbrev pub earned_among : List (CourseAchievement Score) → PrerequisiteRequirement Score → Bool
  earned_among achievements r = any (λ a. a.course_id == r.course_id && earns r a) achievements

  all_satisfied-every :
      (requirements : List (PrerequisiteRequirement Score))
      (achievements : List (CourseAchievement Score))
      → all_satisfied score_lt requirements (group_by_course (λ c. []) achievements)
        ≡ every (earned_among achievements) requirements
  unfolding all_satisfied
  all_satisfied-every [] achievements = refl
  all_satisfied-every (r ∷ rest) achievements =
      rw
        (
          group-for_course (λ c. []) achievements r.course_id,
          satisfied_by-any r (for_course r.course_id achievements),
          any-for_course (earns r) r.course_id achievements,
        )
        (ground (arith, all_satisfied-every rest achievements))

  -- The prerequisites are satisfied exactly when for every requirement some achievement in its course
  -- is passed and, where a minimum score is set, has a score that is not below it.
  pub prerequisites_satisfied-eq :
      (requirements : List (PrerequisiteRequirement Score))
      (achievements : List (CourseAchievement Score))
      → prerequisites_satisfied score_lt requirements achievements
        ≡ every (earned_among achievements) requirements
  unfolding prerequisites_satisfied
  prerequisites_satisfied-eq [] achievements = refl
  prerequisites_satisfied-eq (r ∷ rest) achievements = all_satisfied-every (r ∷ rest) achievements

  -- What the static policy asks of a student.
  pub record IsAdmitted (student : StudentProfile) (snapshot : EligibilitySnapshot Score)
      : Type 0 where
    pub known : 0 < student.id
    pub active_student : student.state ≡ active
    pub grade_from : under student.grade_year snapshot.minimum_grade_year ≡ false
    pub grade_to : over student.grade_year snapshot.maximum_grade_year ≡ false
    pub major : major_allowed student.major_id snapshot.major_scopes ≡ true
    pub prerequisites : every (earned_among snapshot.achievements) snapshot.prerequisites ≡ true

  static_checks_iff :
      (student : StudentProfile) (snapshot : EligibilitySnapshot Score)
      → (static_checks score_lt student snapshot ≡ none) ↔ IsAdmitted student snapshot
  unfolding static_checks is_active
  static_checks_iff student snapshot =
      let same = prerequisites_satisfied-eq snapshot.prerequisites snapshot.achievements in
      (λ h. ground (arith, same), λ h. ground (arith, same))

  free_iff :
      (snapshot : EligibilitySnapshot Score)
      → every slot_valid snapshot.target_schedules ≡ true
      → every slot_valid snapshot.enrolled_schedules ≡ true
      → (evaluate_dynamic score_lt (some snapshot) ≡ none)
        ↔ All (λ t. All (Apart t) snapshot.enrolled_schedules) snapshot.target_schedules
  unfolding evaluate_dynamic
  free_iff snapshot p q =
      let apart = any_conflict-Apart snapshot.target_schedules snapshot.enrolled_schedules p q in
      (λ h. apart.0 (ground arith), λ h. rw (apart.1 h) refl)

  after_static_iff :
      (o : Option Err) (snapshot : EligibilitySnapshot Score)
      → (after_static score_lt o (some snapshot) ≡ none)
        ↔ ((o ≡ none) × (evaluate_dynamic score_lt (some snapshot) ≡ none))
  unfolding after_static
  after_static_iff none snapshot = (λ h. (refl, h), λ h. h.1)
  after_static_iff (some x) snapshot = (λ h. cc, λ h. cc)

  IsAdmitted-iff :
      (student : Option StudentProfile) (snapshot : EligibilitySnapshot Score)
      → every slot_valid snapshot.target_schedules ≡ true
      → every slot_valid snapshot.enrolled_schedules ≡ true
      → (after_static score_lt (of_student score_lt student snapshot) (some snapshot) ≡ none) ↔ (
          (s : StudentProfile) × (student ≡ some s)
          × IsAdmitted s snapshot
          × All (λ t. All (Apart t) snapshot.enrolled_schedules) snapshot.target_schedules)
  unfolding of_student
  IsAdmitted-iff none snapshot p q = (
    λ h. let refused = ((after_static_iff (some invalid_params) snapshot).0 h).0 in cc,
    λ (s, e, a, f). cc,
  )
  IsAdmitted-iff (some student) snapshot p q = (
    λ h.
        let (static, free) =
          (after_static_iff (static_checks score_lt student snapshot) snapshot).0 h in
        (
          student,
          refl,
          (static_checks_iff student snapshot).0 static,
          (free_iff snapshot p q).0 free,
        ),
    λ (s, e, a, f).
        let same : s ≡ student = cc in
        (after_static_iff (static_checks score_lt student snapshot) snapshot).1
          ((static_checks_iff student snapshot).1 (rw same at a), (free_iff snapshot p q).1 f),
  )

  -- On a snapshot of valid slots, the whole policy passes exactly when the snapshot has a student, who is
  -- known, active, within the grades, of an allowed major and has earned every prerequisite, and no
  -- target slot ever coincides with one of the student's slots.
  pub evaluate_iff :
      (snapshot : EligibilitySnapshot Score)
      → every slot_valid snapshot.target_schedules ≡ true
      → every slot_valid snapshot.enrolled_schedules ≡ true
      → (evaluate score_lt (some snapshot) ≡ none) ↔ (
          (student : StudentProfile) × (snapshot.student ≡ some student)
          × IsAdmitted student snapshot
          × All (λ t. All (Apart t) snapshot.enrolled_schedules) snapshot.target_schedules)
  unfolding evaluate evaluate_static
  evaluate_iff snapshot p q = IsAdmitted-iff snapshot.student snapshot p q
