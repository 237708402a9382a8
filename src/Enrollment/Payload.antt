-- ===== src/Enrollment/Payload.antt =====
-- internal/enrollment/async/payload.go: the payload of a selection result in the Redis stream. A nil pointer is
-- `none`.
use course_forge.Prelude.{ℕ, ◌≡◌, refl, ap, Option, none, some, Text}
use course_forge.Enrollment.Selection.{
  Credit, ApplicationSource, FailureCode, FailureReason, ApplicationState, SelectionResult,
}

pub record FailureReasonPayload : Type 0 where
  pub code : FailureCode
  pub message : Text

pub record SelectionResultPayload : Type 0 where
  pub application_id : Text
  pub request_id : Text
  pub round_id : ℕ
  pub term_id : ℕ
  pub student_id : ℕ
  pub course_id : ℕ
  pub teaching_class_id : ℕ
  pub credits : Credit
  pub source : ApplicationSource
  pub state : ApplicationState
  pub failure : Option FailureReasonPayload
  pub applied_at : ℕ
  pub completed_at : ℕ

abbrev payload_reason : Option FailureReason → Option FailureReasonPayload
payload_reason none = none
payload_reason (some f) = some (record { code = f.code; message = f.message })

abbrev domain_reason : Option FailureReasonPayload → Option FailureReason
domain_reason none = none
domain_reason (some f) = some (record { code = f.code; message = f.message })

unfoldable pub new_selection_result_payload : Option SelectionResult → Option SelectionResultPayload
new_selection_result_payload none = none
new_selection_result_payload (some r) = some (record {
  application_id = r.application_id;
  request_id = r.request_id;
  round_id = r.round_id;
  term_id = r.term_id;
  student_id = r.student_id;
  course_id = r.course_id;
  teaching_class_id = r.teaching_class_id;
  credits = r.credits;
  source = r.source;
  state = r.state;
  failure = payload_reason r.failure;
  applied_at = r.applied_at;
  completed_at = r.completed_at;
})

unfoldable pub to_domain : Option SelectionResultPayload → Option SelectionResult
to_domain none = none
to_domain (some p) = some (record {
  application_id = p.application_id;
  request_id = p.request_id;
  round_id = p.round_id;
  term_id = p.term_id;
  student_id = p.student_id;
  course_id = p.course_id;
  teaching_class_id = p.teaching_class_id;
  credits = p.credits;
  source = p.source;
  state = p.state;
  failure = domain_reason p.failure;
  applied_at = p.applied_at;
  completed_at = p.completed_at;
})

reason_back : (f : Option FailureReason) → domain_reason (payload_reason f) ≡ f
reason_back none = refl
reason_back (some f) = refl

-- The payload of a result, with its failure or without, turns back into the same result.
pub to_domain-new_selection_result_payload :
    (r : Option SelectionResult) → to_domain (new_selection_result_payload r) ≡ r
unfolding new_selection_result_payload to_domain
to_domain-new_selection_result_payload none = refl
to_domain-new_selection_result_payload (some r) =
    ap (λ f. some (record r { failure = f })) (reason_back r.failure)
