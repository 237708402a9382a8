-- ===== src/Enrollment/Projection/Fields.antt =====
-- Results that mysql_batch.go takes for the same (sameCompleteSelectionResult) agree in every field.
use course_forge.Prelude.{
  ℕ, true, ◌==◌, ◌≡◌, ◌↔◌, refl, ap, Option, none, some, text_eq_refl, text_eq_sound, is_yes, arith,
}
use course_forge.Enrollment.Selection.{
  ApplicationSource, web, mobile, admin, system, other_source, source_eq, FailureReason,
  SelectionResult,
}
use course_forge.Enrollment.Projection.Event.{
  FailureCode-discrete, ApplicationState-discrete, Credit-discrete, same_selection_fingerprint,
  same_failure, same_complete_selection_result,
}

yes_holds : {A : Type 0} (d : Dec A) → is_yes d ≡ true → A
yes_holds (yes p) h = p
yes_holds (no n) h = absurd cc

yes_refl : {A : Type 0} {a : A} (d : Dec (a ≡ a)) → is_yes d ≡ true
yes_refl (yes p) = refl
yes_refl (no n) = absurd (n refl)

source_eq_sound : (s t : ApplicationSource) → source_eq s t ≡ true → s ≡ t
unfolding source_eq
source_eq_sound web web h = refl
source_eq_sound mobile mobile h = refl
source_eq_sound admin admin h = refl
source_eq_sound system system h = refl
source_eq_sound (other_source s) (other_source t) h = ap other_source (text_eq_sound s t h)
source_eq_sound s t h = absurd cc

source_eq_refl : (s : ApplicationSource) → source_eq s s ≡ true
unfolding source_eq
source_eq_refl web = refl
source_eq_refl mobile = refl
source_eq_refl admin = refl
source_eq_refl system = refl
source_eq_refl (other_source s) = text_eq_refl s

number_sound : (m n : ℕ) → (m == n) ≡ true → m ≡ n
number_sound m n h = ground arith

number_refl : (n : ℕ) → (n == n) ≡ true
number_refl n = ground arith

failure_sound : (f g : Option FailureReason) → same_failure f g ≡ true → f ≡ g
unfolding same_failure
failure_sound none none h = refl
failure_sound none (some g) h = absurd cc
failure_sound (some f) none h = absurd cc
failure_sound (some f) (some g) h =
    let same_code = yes_holds (FailureCode-discrete f.code g.code) (ground (arith, h)) in
    let same_message = text_eq_sound f.message g.message (ground (arith, h)) in cc

failure_refl : (f : Option FailureReason) → same_failure f f ≡ true
unfolding same_failure
failure_refl none = refl
failure_refl (some f) =
    rw (yes_refl (FailureCode-discrete f.code f.code), text_eq_refl f.message) refl

fields_equal :
    (a b : SelectionResult)
    → a.application_id ≡ b.application_id
    → a.state ≡ b.state
    → a.applied_at ≡ b.applied_at
    → a.completed_at ≡ b.completed_at
    → a.request_id ≡ b.request_id
    → a.round_id ≡ b.round_id
    → a.term_id ≡ b.term_id
    → a.student_id ≡ b.student_id
    → a.course_id ≡ b.course_id
    → a.teaching_class_id ≡ b.teaching_class_id
    → a.credits ≡ b.credits
    → a.source ≡ b.source
    → a.failure ≡ b.failure
    → a ≡ b
fields_equal a b h1 h2 h3 h4 h5 h6 h7 h8 h9 h10 h11 h12 h13 = cc

fingerprint_sound :
    (a b : SelectionResult)
    → same_selection_fingerprint a b ≡ true
    → (a.request_id ≡ b.request_id)
      × (a.round_id ≡ b.round_id)
      × (a.term_id ≡ b.term_id)
      × (a.student_id ≡ b.student_id)
      × (a.course_id ≡ b.course_id)
      × (a.teaching_class_id ≡ b.teaching_class_id)
      × (a.credits ≡ b.credits)
      × (a.source ≡ b.source)
unfolding same_selection_fingerprint
fingerprint_sound a b h = (
  text_eq_sound a.request_id b.request_id (ground (arith, h)),
  number_sound a.round_id b.round_id (ground (arith, h)),
  number_sound a.term_id b.term_id (ground (arith, h)),
  number_sound a.student_id b.student_id (ground (arith, h)),
  number_sound a.course_id b.course_id (ground (arith, h)),
  number_sound a.teaching_class_id b.teaching_class_id (ground (arith, h)),
  yes_holds (Credit-discrete a.credits b.credits) (ground (arith, h)),
  source_eq_sound a.source b.source (ground (arith, h)),
)

fingerprint_refl : (a : SelectionResult) → same_selection_fingerprint a a ≡ true
unfolding same_selection_fingerprint
fingerprint_refl a =
    rw
      (
        text_eq_refl a.request_id,
        number_refl a.round_id,
        number_refl a.term_id,
        number_refl a.student_id,
        number_refl a.course_id,
        number_refl a.teaching_class_id,
        yes_refl (Credit-discrete a.credits a.credits),
        source_eq_refl a.source,
      )
      refl

same_complete_sound :
    (a b : SelectionResult) → same_complete_selection_result (some a) (some b) ≡ true → a ≡ b
unfolding same_complete_selection_result
same_complete_sound a b h =
    let fingerprint : same_selection_fingerprint a b ≡ true = ground (arith, h) in
    let (f1, f2, f3, f4, f5, f6, f7, f8) = fingerprint_sound a b fingerprint in
    fields_equal a b (text_eq_sound a.application_id b.application_id (ground (arith, h)))
      (yes_holds (ApplicationState-discrete a.state b.state) (ground (arith, h)))
      (number_sound a.applied_at b.applied_at (ground (arith, h)))
      (number_sound a.completed_at b.completed_at (ground (arith, h))) f1 f2 f3 f4 f5 f6 f7 f8
      (failure_sound a.failure b.failure (ground (arith, h)))

pub same_complete_refl :
    (a : SelectionResult) → same_complete_selection_result (some a) (some a) ≡ true
unfolding same_complete_selection_result
same_complete_refl a =
    rw
      (
        text_eq_refl a.application_id,
        yes_refl (ApplicationState-discrete a.state a.state),
        number_refl a.applied_at,
        number_refl a.completed_at,
        fingerprint_refl a,
        failure_refl a.failure,
      )
      refl

-- A repeated result is taken for the stored one exactly when the two agree in every field.
pub same_complete_exact :
    (a b : SelectionResult) → (same_complete_selection_result (some a) (some b) ≡ true) ↔ (a ≡ b)
same_complete_exact a b = (same_complete_sound a b, λ p. rw (← p) (same_complete_refl a))
