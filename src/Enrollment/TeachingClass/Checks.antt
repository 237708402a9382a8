-- ===== src/Enrollment/TeachingClass/Checks.antt =====
-- What the checks of a teaching class and of a quota let through (domain/selection.go).
use course_forge.Prelude.{ℕ, ◌+◌, ◌≤◌, ◌<◌, ◌≡◌, ◌↔◌, true, none, some, arith}
use course_forge.Prelude.Int.{pos, is_pos, ◌+ℤ◌, ◌≤ℤ◌, InInt32, wrap32, wrap32_id}
use course_forge.Enrollment.Errors.{teaching_class_full, waitlist_not_required}
use course_forge.Enrollment.Selection.{SelectionRequest}
use course_forge.Enrollment.TeachingClass.{
  TeachingClass, StudentSelectionQuota, validate_for_selection, validate_for_waitlist,
  validate_reservation,
}

-- For every class and request, the waitlist takes the request exactly when direct selection refuses it
-- because the class is full, and direct selection takes it exactly when the waitlist is not required.
pub selection_or_waitlist :
    (c : TeachingClass) (r : SelectionRequest)
    → ((validate_for_waitlist (some c) (some r) ≡ none)
        ↔ (validate_for_selection (some c) (some r) ≡ some teaching_class_full))
      × ((validate_for_selection (some c) (some r) ≡ none)
          ↔ (validate_for_waitlist (some c) (some r) ≡ some waitlist_not_required))
unfolding validate_for_selection validate_for_waitlist
selection_or_waitlist c r =
    ((λ h. ground arith, λ h. ground arith), (λ h. ground arith, λ h. ground arith))

-- Direct selection takes a request only for the class, term, course and credits of the request, while
-- fewer students are selected than the capacity.
pub selection_takes :
    (c : TeachingClass) (r : SelectionRequest)
    → validate_for_selection (some c) (some r) ≡ none
    → (c.id ≡ r.teaching_class_id)
      × (c.term_id ≡ r.term_id)
      × (c.course_id ≡ r.course_id)
      × (c.selected_count < c.capacity)
unfolding validate_for_selection
selection_takes c r h = ground arith

abbrev pub IsForQuota : StudentSelectionQuota → SelectionRequest → Type 0
IsForQuota q r = (q.round_id ≡ r.round_id) × (q.term_id ≡ r.term_id) × (q.student_id ≡ r.student_id)

-- As long as the sum of credits is an `int32`, a reservation is allowed exactly when the quota is that of the
-- request, its credit limit is positive, its selected credits are not negative, the sum stays within the
-- credit limit, and fewer courses are selected than the course limit.
pub reservation_exact :
    (q : StudentSelectionQuota) (r : SelectionRequest)
    → InInt32 (q.selected_credits +ℤ r.credits)
    → (validate_reservation (some q) (some r) ≡ none) ↔ (
        IsForQuota q r
        × (is_pos q.credit_limit ≡ true)
        × (pos 0 ≤ℤ q.selected_credits)
        × (q.selected_credits +ℤ r.credits ≤ℤ q.credit_limit)
        × (q.selected_course_count < q.course_limit))
unfolding validate_reservation
reservation_exact q r fits =
    rw (wrap32_id (q.selected_credits +ℤ r.credits) fits, validate_reservation)
      (λ h. ground arith, λ h. ground arith)

-- Where the sum of the selected credits and those of the request, both non-negative `int32`s, is no `int32`, it
-- wraps below zero: with a quota that is the request's, a positive `int32` credit limit and a course left,
-- the reservation is allowed although the sum exceeds the limit.
pub reservation_wraps :
    (q : StudentSelectionQuota) (r : SelectionRequest) (limit chosen credits : ℕ)
    → IsForQuota q r
    → q.selected_course_count < q.course_limit
    → q.credit_limit ≡ pos limit
    → q.selected_credits ≡ pos chosen
    → r.credits ≡ pos credits
    → 0 < limit
    → limit < 2_147_483_648
    → chosen < 2_147_483_648
    → credits < 2_147_483_648
    → 2_147_483_648 ≤ chosen + credits
    → (validate_reservation (some q) (some r) ≡ none) × (limit < chosen + credits)
unfolding validate_reservation wrap32 ◌+ℤ◌
reservation_wraps q r limit chosen credits same count el es ec a b c d over =
    (ground arith, omega arith)
