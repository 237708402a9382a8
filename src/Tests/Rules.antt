-- ===== src/Tests/Rules.antt =====
-- The theorems on rounds, teaching classes, schedules and eligibility, at one of each.
use course_forge.Prelude.{
  ℕ, ◌+◌, ◌≤◌, ◌<◌, ◌≡◌, ◌↔◌, refl, true, false, not, ◌&&◌, ◌||◌, none, some, List, [], ◌∷◌, codes,
  any, every, All, ltb, arith, trim_space,
}
use course_forge.Prelude.Int.{pos, ◌+ℤ◌, ◌≤ℤ◌, is_pos, InInt32, eqb_ℤ}
use course_forge.Enrollment.Errors.{
  teaching_class_full, waitlist_not_required, round_not_editable, ok,
}
use course_forge.Enrollment.Round.{
  SelectionRound, SelectionRoundPlan, SelectionRoundUsage, RoundClassCandidate, planned, open_round,
  planned_class, new_selection_round, open_selection_round, change_plan, ensure_can_bind,
  ensure_accepting_at, normalize_round_plan,
}
use course_forge.Enrollment.Round.Lifecycle.{
  step, run, opens, replans, accepting_at_iff, open_frozen, bound_term_kept,
}
use course_forge.Enrollment.TeachingClass.{
  TeachingClass, open_class, StudentSelectionQuota, validate_for_selection, validate_for_waitlist,
  validate_reservation,
}
use course_forge.Enrollment.TeachingClass.Checks.{
  IsForQuota, selection_or_waitlist, reservation_exact, reservation_wraps,
}
use course_forge.Enrollment.Eligibility.{
  StudentProfile, active, ScheduleSlot, conflicts, slot_valid, MajorScope, allow, deny,
  major_allowed, any_conflict,
}
use course_forge.Enrollment.Eligibility.Overlap.{
  Holds, Apart, conflicts_iff, any_conflict-Apart, major_allowed-eq, denies, allows, lists_allowed,
}
use course_forge.Enrollment.Policy.{
  PrerequisiteRequirement, CourseAchievement, EligibilitySnapshot, prerequisites_satisfied,
  evaluate,
}
use course_forge.Enrollment.Policy.Direct.{
  IsAdmitted, earned_among, prerequisites_satisfied-eq, evaluate_iff,
}
use course_forge.Tests.Fixtures.{request}

abbrev plan : SelectionRoundPlan
plan = record {
  term_id = 9;
  round_code = codes "R1";
  round_name = codes "first round";
  start_time = 10;
  end_time = 20;
}

abbrev unused : SelectionRoundUsage
unused = record {
  class_binding_count = pos 1;
  quota_count = pos 1;
  application_count = pos 0;
  waitlist_count = pos 0;
}

abbrev round_1 : SelectionRound
round_1 = record {
  id = 0;
  term_id = 9;
  round_code = codes "R1";
  round_name = codes "first round";
  start_time = 10;
  end_time = 20;
  state = planned;
  create_time = 0;
  update_time = 0;
}

round_planned : new_selection_round plan ≡ ok round_1
unfolding new_selection_round normalize_round_plan trim_space
round_planned = refl

accepting_at_iff_example :
    (ensure_accepting_at (some (run round_1 (opens unused true ∷ []))) 15 ≡ none) ↔ (
      ((run round_1 (opens unused true ∷ [])).state ≡ open_round)
      × ((run round_1 (opens unused true ∷ [])).start_time ≤ 15)
      × (15 < (run round_1 (opens unused true ∷ [])).end_time))
accepting_at_iff_example = accepting_at_iff plan (opens unused true ∷ []) 15 round_planned

abbrev opened : SelectionRound
opened = record round_1 { state = open_round }

abbrev later_round : SelectionRound
later_round = record opened { start_time = 20; end_time = 30 }

opened_accepts : ensure_accepting_at (some opened) 15 ≡ none
unfolding ensure_accepting_at
opened_accepts = refl

round_opens : (open_selection_round round_1 unused true).1 ≡ none
unfolding open_selection_round
round_opens = refl

open_frozen_example :
    (run (open_selection_round round_1 unused true).0 (replans plan unused ∷ []) ≡ opened)
    × (step
          (run (open_selection_round round_1 unused true).0 (replans plan unused ∷ []))
          (opens unused true)
        ≡ (opened, some round_not_editable))
open_frozen_example =
    open_frozen round_1 unused true (replans plan unused ∷ []) (opens unused true) round_opens

abbrev candidate : RoundClassCandidate
candidate = record { term_id = 9; state = planned_class }

candidate_binds : ensure_can_bind round_1 candidate ≡ none
unfolding ensure_can_bind
candidate_binds = refl

bound_term_kept_example : (change_plan round_1 (record plan { term_id = 8 }) unused).0.term_id ≡ 9
bound_term_kept_example =
    bound_term_kept round_1 candidate (record plan { term_id = 8 }) unused candidate_binds refl

abbrev class_7 : TeachingClass
class_7 = record {
  id = 7;
  term_id = 9;
  course_id = 3;
  credits = pos 20;
  capacity = 2;
  selected_count = 1;
  state = open_class;
}

selection_or_waitlist_example :
    ((validate_for_waitlist (some class_7) (some request) ≡ none)
      ↔ (validate_for_selection (some class_7) (some request) ≡ some teaching_class_full))
    × ((validate_for_selection (some class_7) (some request) ≡ none)
        ↔ (validate_for_waitlist (some class_7) (some request) ≡ some waitlist_not_required))
selection_or_waitlist_example = selection_or_waitlist class_7 request

class_takes : validate_for_selection (some class_7) (some request) ≡ none
unfolding validate_for_selection eqb_ℤ
class_takes = refl

abbrev quota : StudentSelectionQuota
quota = record {
  round_id = 1;
  term_id = 9;
  student_id = 5;
  course_limit = 3;
  selected_course_count = 1;
  credit_limit = pos 200;
  selected_credits = pos 30;
}

sum_fits : InInt32 (quota.selected_credits +ℤ request.credits)
unfolding ◌+ℤ◌
sum_fits = ground arith

reservation_exact_example : (validate_reservation (some quota) (some request) ≡ none) ↔ (
    IsForQuota quota request
    × (is_pos (pos 200) ≡ true)
    × (pos 0 ≤ℤ pos 30)
    × (pos 30 +ℤ pos 20 ≤ℤ pos 200)
    × (1 < 3))
reservation_exact_example = reservation_exact quota request sum_fits

reservation_wraps_example :
    (validate_reservation
        (some (record quota { selected_credits = pos 2_147_483_640 }))
        (some request)
      ≡ none)
    × (200 < 2_147_483_640 + 20)
reservation_wraps_example =
    reservation_wraps (record quota { selected_credits = pos 2_147_483_640 }) request 200
      2_147_483_640 20 (refl, refl, refl) (ground arith) refl refl refl (ground arith)
      (ground arith) (ground arith) (ground arith) (ground arith)

abbrev monday : ScheduleSlot
monday = record {
  day_of_week = 1;
  start_week = 1;
  end_week = 16;
  start_section = 3;
  end_section = 4;
}

abbrev monday_late : ScheduleSlot
monday_late = record {
  day_of_week = 1;
  start_week = 8;
  end_week = 8;
  start_section = 4;
  end_section = 6;
}

abbrev tuesday : ScheduleSlot
tuesday = record monday { day_of_week = 2 }

monday_valid : slot_valid monday ≡ true
unfolding slot_valid
monday_valid = refl

monday_late_valid : slot_valid monday_late ≡ true
unfolding slot_valid
monday_late_valid = refl

conflicts_iff_example : (conflicts monday monday_late ≡ true) ↔ (
    (day : ℕ) × (week : ℕ) × (section : ℕ) × Holds monday day week section
    × Holds monday_late day week section)
conflicts_iff_example = conflicts_iff monday monday_late monday_valid monday_late_valid

abbrev targets : List ScheduleSlot
targets = tuesday ∷ monday ∷ []

abbrev chosen_slots : List ScheduleSlot
chosen_slots = monday_late ∷ []

targets_valid : every slot_valid targets ≡ true
unfolding slot_valid
targets_valid = refl

chosen_slots_valid : every slot_valid chosen_slots ≡ true
unfolding slot_valid
chosen_slots_valid = refl

any_conflict-Apart_example :
    (any_conflict targets chosen_slots ≡ false) ↔ All (λ t. All (Apart t) chosen_slots) targets
any_conflict-Apart_example =
    any_conflict-Apart targets chosen_slots targets_valid chosen_slots_valid

abbrev scopes : List MajorScope
scopes = record { major_id = 4; type = allow } ∷ record { major_id = 6; type = deny } ∷ []

major_allowed-eq_example :
    major_allowed 4 scopes
    ≡ (not (any (denies 4) scopes) && (not (any lists_allowed scopes) || any (allows 4) scopes))
major_allowed-eq_example = major_allowed-eq 4 scopes

abbrev needed : List (PrerequisiteRequirement ℕ)
needed = record { course_id = 2; minimum_score = some 60 } ∷ []

abbrev earned : List (CourseAchievement ℕ)
earned =
    record { course_id = 2; passed = true; score = some 55 }
    ∷ record { course_id = 2; passed = true; score = some 70 }
    ∷ []

prerequisites_satisfied-eq_example :
    prerequisites_satisfied ltb needed earned ≡ every (earned_among ltb earned) needed
prerequisites_satisfied-eq_example = prerequisites_satisfied-eq ltb needed earned

abbrev snapshot : EligibilitySnapshot ℕ
snapshot = record {
  student = some (record { id = 5; major_id = 4; grade_year = 2024; state = active });
  minimum_grade_year = some 2023;
  maximum_grade_year = none;
  major_scopes = scopes;
  prerequisites = needed;
  achievements = earned;
  target_schedules = targets;
  enrolled_schedules = chosen_slots;
}

evaluate_iff_example : (evaluate ltb (some snapshot) ≡ none) ↔ (
    (student : StudentProfile) × (snapshot.student ≡ some student)
    × IsAdmitted ltb student snapshot
    × All (λ t. All (Apart t) snapshot.enrolled_schedules) snapshot.target_schedules)
evaluate_iff_example = evaluate_iff ltb snapshot targets_valid chosen_slots_valid
