-- ===== src/Enrollment/Record/Drop.antt =====
-- What dropping an enrollment does (domain/enrollment.go).
use course_forge.Prelude.{ℕ, ◌≤◌, ◌<◌, ◌≡◌, ◌↔◌, refl, Bool, true, false, none, some, arith}
use course_forge.Enrollment.Errors.{Err, ok, err}
use course_forge.Enrollment.Record.{
  StudentEnrollment, enrolled, dropped, validate_enrollment, enrollment_incomplete,
  enrollment_state_valid, drop,
}

-- Of the state, the first condition of `Validate` sees only that it is a known one.
incomplete-dropped :
    (e : StudentEnrollment) (t : ℕ)
    → e.state ≡ enrolled
    → enrollment_incomplete (record e { state = dropped; dropped_at = some t })
      ≡ enrollment_incomplete e
unfolding enrollment_incomplete enrollment_state_valid
incomplete-dropped e t h = rw h refl

dropped_fields :
    (e : StudentEnrollment) (t : ℕ) {changed : Bool}
    → (drop e t).1 ≡ ok changed
    → (validate_enrollment (drop e t).0 ≡ none)
      × ((drop e t).0.state ≡ dropped)
      × ((drop e t).0.enrolled_at ≡ e.enrolled_at)
      × ((changed ≡ true) ↔ (e.state ≡ enrolled))
unfolding drop validate_enrollment
dropped_fields e t h = (
  ground (arith, incomplete-dropped e t),
  ground arith,
  ground arith,
  (λ k. ground arith, λ k. ground arith),
)

drop_of_dropped :
    (e : StudentEnrollment) (u : ℕ)
    → validate_enrollment e ≡ none
    → e.state ≡ dropped
    → 0 < u
    → e.enrolled_at ≤ u
    → drop e u ≡ (e, ok false)
unfolding drop
drop_of_dropped e u v s p q = ground arith

-- A drop that succeeds leaves a valid, dropped record, reports a change exactly when the record was
-- enrolled before, and dropping again at any valid time succeeds, changes nothing and says so.
pub drop_once :
    (e : StudentEnrollment) (t u : ℕ) {changed : Bool}
    → (drop e t).1 ≡ ok changed
    → 0 < u
    → e.enrolled_at ≤ u
    → (validate_enrollment (drop e t).0 ≡ none)
      × ((drop e t).0.state ≡ dropped)
      × ((changed ≡ true) ↔ (e.state ≡ enrolled))
      × (drop (drop e t).0 u ≡ ((drop e t).0, ok false))
drop_once e t u h p q =
    let (valid, is_dropped, kept, was) = dropped_fields e t h in
    (valid, is_dropped, was, drop_of_dropped (drop e t).0 u valid is_dropped p (omega arith))

-- A drop that fails leaves the record as it was.
pub drop_error_unchanged :
    (e : StudentEnrollment) (t : ℕ) {x : Err} → (drop e t).1 ≡ err x → (drop e t).0 ≡ e
unfolding drop
drop_error_unchanged e t h = ground arith
