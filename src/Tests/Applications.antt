-- ===== src/Tests/Applications.antt =====
-- The theorems on applications, waitlist entries and enrollment records, at one of each.
use course_forge.Prelude.{
  ◌≡◌, ◌↔◌, ◌⊎◌, refl, true, false, none, some, List, [], ◌∷◌, codes, trim_space, byte_length,
  arith,
}
use course_forge.Prelude.Int.{pos}
use course_forge.Enrollment.Errors.{
  invalid_params, teaching_class_full, application_in_progress, grade_not_allowed, ok, err,
}
use course_forge.Enrollment.Selection.{
  FailureReason, other_code, cancelled_code, validate_request, validate_result,
}
use course_forge.Enrollment.Application.{
  SelectionApplication, created_from, new_selection_application, reserve, complete_selected,
  terminal, result,
}
use course_forge.Enrollment.Application.Lifecycle
use course_forge.Enrollment.Record.{
  StudentEnrollment, enrolled, dropped, validate_enrollment, drop, enrollment_incomplete,
}
use course_forge.Enrollment.Record.Drop.{drop_once}
use course_forge.Enrollment.Waitlist.{
  WaitlistEntry, waiting, promoting, promoted, cancelled, new_waitlist_entry, cancel_entry,
  mark_promoted, decide_promotion_failure, retry, cancel_with,
}
use course_forge.Enrollment.Waitlist.Lifecycle.{
  IsConsistent, claims, cancels, promotes, run, run-IsConsistent, promotion_failure_recorded,
}
use course_forge.Tests.Fixtures.{request}

abbrev fresh : SelectionApplication
fresh = created_from (codes "app-1") request 100

new_fresh : new_selection_application (codes "app-1") (some request) 100 ≡ ok fresh
unfolding new_selection_application trim_space byte_length validate_request
    course_forge.Enrollment.Selection.credit_valid course_forge.Enrollment.Selection.source_valid
new_fresh = refl

abbrev reserve_twice : List Lifecycle.Operation
reserve_twice = Lifecycle.reserves ∷ Lifecycle.reserves ∷ []

abbrev chosen : SelectionApplication
chosen = (complete_selected (Lifecycle.run fresh reserve_twice) 101).0

returns_result :
    (Lifecycle.step (Lifecycle.run fresh reserve_twice) (Lifecycle.completes 101)).1
    ≡ ok (some (result chosen))
unfolding Lifecycle.step complete_selected Lifecycle.run reserve created_from
returns_result = refl

run-validates_example :
    (result chosen
      ≡ result (Lifecycle.step (Lifecycle.run fresh reserve_twice) (Lifecycle.completes 101)).0)
    × (terminal
          (Lifecycle.step (Lifecycle.run fresh reserve_twice) (Lifecycle.completes 101)).0.state
        ≡ true)
    × (validate_result (some (result chosen)) ≡ none)
run-validates_example =
    Lifecycle.run-validates (codes "app-1") request 100 reserve_twice (Lifecycle.completes 101)
      new_fresh returns_result

early_refused : (Lifecycle.step fresh (Lifecycle.completes 99)).1 ≡ err invalid_params
unfolding Lifecycle.step complete_selected created_from
early_refused = refl

chosen_terminal : terminal chosen.state ≡ true
unfolding terminal complete_selected Lifecycle.run Lifecycle.step reserve created_from
chosen_terminal = refl

abbrev record_1 : StudentEnrollment
record_1 = record {
  enrollment_id = codes "enr-1";
  application_id = codes "app-1";
  round_id = 1;
  term_id = 9;
  student_id = 5;
  course_id = 3;
  teaching_class_id = 7;
  credits = pos 20;
  state = enrolled;
  enrolled_at = 101;
  dropped_at = none;
}

drops_record : (drop record_1 150).1 ≡ ok true
unfolding drop validate_enrollment enrollment_incomplete
    course_forge.Enrollment.Selection.credit_valid
    course_forge.Enrollment.Record.enrollment_state_valid
drops_record = refl

drop_once_example :
    (validate_enrollment (drop record_1 150).0 ≡ none)
    × ((drop record_1 150).0.state ≡ dropped)
    × ((true ≡ true) ↔ (record_1.state ≡ enrolled))
    × (drop (drop record_1 150).0 160 ≡ ((drop record_1 150).0, ok false))
drop_once_example = drop_once record_1 150 160 drops_record (ground arith) (ground arith)

abbrev entry : WaitlistEntry
entry = record {
  waitlist_id = codes "wait-1";
  request_id = codes "req-1";
  round_id = 1;
  term_id = 9;
  student_id = 5;
  course_id = 3;
  teaching_class_id = 7;
  credits = pos 20;
  state = waiting;
  failure = none;
  position = 0;
  joined_at = 100;
  promoted_at = none;
  cancelled_at = none;
}

abbrev taken_off : FailureReason
taken_off = record { code = cancelled_code; message = codes "left" }

new_entry : new_waitlist_entry (codes "wait-1") (some request) 100 ≡ ok entry
unfolding new_waitlist_entry trim_space validate_request byte_length
    course_forge.Enrollment.Selection.credit_valid course_forge.Enrollment.Selection.source_valid
new_entry = refl

run-IsConsistent_example :
    IsConsistent (run entry (claims ∷ promotes 120 ∷ cancels taken_off 130 ∷ []))
run-IsConsistent_example =
    run-IsConsistent (codes "wait-1") request 100
      (claims ∷ promotes 120 ∷ cancels taken_off 130 ∷ []) new_entry

abbrev promoted_entry : WaitlistEntry
promoted_entry = (mark_promoted (record entry { state = promoting }) 120).0

entry_promoted : promoted_entry.state ≡ promoted
unfolding mark_promoted
entry_promoted = refl

promotion_failure_recorded_example :
    ((decide_promotion_failure (some grade_not_allowed) ≡ retry)
      × ((grade_not_allowed ≡ teaching_class_full) ⊎ (grade_not_allowed ≡ application_in_progress)))
    ⊎ ((reason : FailureReason) × (decide_promotion_failure (some grade_not_allowed)
          ≡ cancel_with reason)
        × ((cancel_entry (record entry { state = promoting }) reason 120).1 ≡ none)
        × ((cancel_entry (record entry { state = promoting }) reason 120).0.state ≡ cancelled))
promotion_failure_recorded_example =
    promotion_failure_recorded grade_not_allowed (record entry { state = promoting }) 120
      (λ t h. cc) refl (ground arith) (ground arith)
