-- ===== src/Enrollment/Projection/Event.antt =====
-- Selection events of internal/enrollment/infrastructure/persistence/mysql_batch.go: their ids, and results that
-- agree in every field (with redis.go, sameSelectionFingerprint).
use native.Mathlib.Decide.{ℕ_discrete}
use course_forge.Prelude.{
  Bool, true, false, ◌&&◌, Option, none, some, List, [], ◌∷◌, ◌++◌, Text, codes, text_eq, ◌==◌,
  is_yes, if◌then◌else◌,
}
use course_forge.Enrollment.Errors.{Result, ok, err, invalid_params, idempotency_conflict}
use course_forge.Enrollment.Selection.{
  Credit, FailureCode, FailureReason, ApplicationState, SelectionResult, source_eq, validate_result,
}
use course_forge.Platform.RabbitMq.Retry.{decimal}

-- `fmt.Sprintf("selection:%d:%s", …)`.
unfoldable pub selection_result_event_id : SelectionResult → Text
unfolding decimal
selection_result_event_id r =
    codes "selection:" ++ (decimal r.student_id ++ (codes ":" ++ r.application_id))

pub FailureCode-discrete : Discrete FailureCode
FailureCode-discrete = hlevel ℕ_discrete

pub ApplicationState-discrete : Discrete ApplicationState
ApplicationState-discrete = hlevel ℕ_discrete

pub Credit-discrete : Discrete Credit
Credit-discrete = hlevel ℕ_discrete

-- Both pointers are given.
unfoldable pub same_selection_fingerprint : SelectionResult → SelectionResult → Bool
unfolding source_eq
same_selection_fingerprint a b =
    text_eq a.request_id b.request_id
    && a.round_id == b.round_id
    && a.term_id == b.term_id
    && a.student_id == b.student_id
    && a.course_id == b.course_id
    && a.teaching_class_id == b.teaching_class_id
    && is_yes (Credit-discrete a.credits b.credits)
    && source_eq a.source b.source

unfoldable pub same_failure : Option FailureReason → Option FailureReason → Bool
same_failure none none = true
same_failure none (some g) = false
same_failure (some f) none = false
same_failure (some f) (some g) =
    is_yes (FailureCode-discrete f.code g.code) && text_eq f.message g.message

unfoldable pub same_complete_selection_result :
    Option SelectionResult → Option SelectionResult → Bool
unfolding same_selection_fingerprint same_failure
same_complete_selection_result none b = false
same_complete_selection_result (some a) none = false
same_complete_selection_result (some a) (some b) =
    text_eq a.application_id b.application_id
    && is_yes (ApplicationState-discrete a.state b.state)
    && a.applied_at == b.applied_at
    && a.completed_at == b.completed_at
    && same_selection_fingerprint a b
    && same_failure a.failure b.failure

-- The map `seen`, whose newest entry stands first.
unfoldable pub seen_result : Text → List SelectionResult → Option SelectionResult
unfolding selection_result_event_id
seen_result id [] = none
seen_result id (r ∷ rs) =
    if text_eq (selection_result_event_id r) id then some r else seen_result id rs

-- The loop of `normalizeSelectionResults` behind the results seen so far, with the rest of its answer.
unfoldable pub normalized_with :
    SelectionResult → Result (List SelectionResult) → Result (List SelectionResult)
normalized_with r (err e) = err e
normalized_with r (ok rs) = ok (r ∷ rs)

unfoldable pub against_seen :
    SelectionResult
    → Option SelectionResult
    → Result (List SelectionResult)
    → Result (List SelectionResult)
    → Result (List SelectionResult)
unfolding normalized_with same_complete_selection_result
against_seen r none repeated first = normalized_with r first
against_seen r (some known) repeated first =
    if same_complete_selection_result (some known) (some r)
    then repeated
    else err idempotency_conflict

unfoldable pub normalize_from :
    List SelectionResult → List (Option SelectionResult) → Result (List SelectionResult)
unfolding seen_result against_seen
normalize_from seen [] = ok []
normalize_from seen (none ∷ rs) = err invalid_params
normalize_from seen (some r ∷ rs) =
    let repeated = normalize_from seen rs in
    let first = normalize_from (r ∷ seen) rs in
    elim (validate_result (some r)) [
      | some e ↦ err e
      | none ↦ against_seen r (seen_result (selection_result_event_id r) seen) repeated first
    ]

unfoldable pub normalize_selection_results :
    List (Option SelectionResult) → Result (List SelectionResult)
unfolding normalize_from
normalize_selection_results rs = normalize_from [] rs
