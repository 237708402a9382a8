-- ===== src/Enrollment/SelectCourse/Repeat.antt =====
-- A repeated `SelectCourse` (application/enrollment.go): where the first call of a request was recorded, every
-- later call finds what it recorded.
use course_forge.Prelude.{
  ◌≡◌, ◌⊎◌, inl, inr, refl, true, false, ◌||◌, Option, none, some, [], ◌∷◌, ◌==◌, Text, is_empty,
  trim_space, arith, Bool-cases,
}
use course_forge.Enrollment.Errors.{invalid_params, Result, ok, err, Result-cases}
use course_forge.Enrollment.Selection.{
  SelectionIntent, new_selection_intent, SelectionResult, intent_valid,
}
use course_forge.Enrollment.Application.{ensure_matches}
use course_forge.Enrollment.Store.{Store}
use course_forge.Enrollment.Adapter.{Publication, same_selection_fingerprint}
use course_forge.Enrollment.Admission.{admit_selection}
use course_forge.Enrollment.Query.{
  application_from_result, application_of, record_of, from_result, query_selection_by_request,
}
use course_forge.Enrollment.SelectCourse.{
  SelectCourseCommand, SelectionReceipt, Surroundings, receipt_from_publication,
  receipt_from_persisted, persisted_or, receipt_of_record, matched, commit_created,
  created_application, after_query, with_intent, select_course,
}
use course_forge.Enrollment.SelectCourse.Published.{Answers, Published, new-Published}

abbrev pub intent_of : SelectCourseCommand → SelectionIntent
intent_of c = record {
  request_id = c.request_id;
  round_id = c.round_id;
  student_id = c.student_id;
  teaching_class_id = c.teaching_class_id;
  source = c.source;
}

not_blank : (t : Text) → is_empty (trim_space t) ≡ false → is_empty t ≡ false
unfolding trim_space
not_blank [] h = h
not_blank (x ∷ t) h = refl

abbrev as_intent : SelectCourseCommand → Result SelectionIntent
as_intent c = new_selection_intent c.request_id c.round_id c.student_id c.teaching_class_id c.source

-- The command makes an intent, which is valid, or it is refused.
intent_cases :
    (c : SelectCourseCommand)
    → (as_intent c ≡ err invalid_params)
      ⊎ ((as_intent c ≡ ok (intent_of c))
          × (intent_valid (intent_of c) ≡ true)
          × ((c.round_id == 0 || c.student_id == 0 || is_empty (trim_space c.request_id)) ≡ false))
unfolding new_selection_intent intent_valid
intent_cases c = elim (Bool-cases (is_empty (trim_space c.request_id))) [
  | inl blank ↦ inl (ground arith)
  | inr present ↦
      let filled = not_blank c.request_id present in
      elim (Result-cases (as_intent c)) [
        | inl e ↦ inl (ground arith)
        | inr fine ↦ inr (ground arith, ground (arith, filled), ground arith)
      ]
]

-- An answer to the intent matches it.
answer-matches :
    (i : SelectionIntent) (r q : SelectionResult)
    → intent_valid i ≡ true
    → Answers i r
    → same_selection_fingerprint (some q) r ≡ true
    → ensure_matches (some (application_from_result q)) i ≡ none
unfolding same_selection_fingerprint ensure_matches application_from_result
answer-matches i r q v w h =
    let h' = rw (w.request, w.round, w.student, w.class, w.source) at h in ground (arith, v)

-- The receipt of a record that validates is the same whether or not it is persisted.
record_receipt :
    (p : Publication) (o : Option SelectionResult) (i : SelectionIntent) (s : Store)
    (y : Surroundings) {rc : SelectionReceipt}
    → p.result ≡ o
    → ensure_matches (application_of o) i ≡ none
    → receipt_from_publication p ≡ ok rc
    → matched (ensure_matches (record_of p).application i) (record_of p) s y ≡ (s, ok rc)
unfolding matched persisted_or receipt_of_record record_of receipt_from_publication
    receipt_from_persisted application_from_result
record_receipt p none i s y e m h = absurd (ground arith)
record_receipt p (some r) i s y e m h = elim (Bool-cases p.durably_persisted) [
  | inl durable ↦ ground (arith, m)
  | inr pending ↦ ground (arith, m)
]

found_again :
    (i : SelectionIntent) (t again : Store) {rc : SelectionReceipt}
    → (k : Published i t rc)
    → (i.round_id == 0 || i.student_id == 0 || is_empty (trim_space i.request_id)) ≡ false
    → again.request_result i.round_id i.student_id i.request_id
      ≡ t.request_result i.round_id i.student_id i.request_id
    → query_selection_by_request again i.round_id i.student_id i.request_id
      ≡ ok (some (record_of k.answer))
unfolding query_selection_by_request from_result
found_again i t again k v e =
    let entry = rw (k.answers.round, k.answers.student, k.answers.request) at k.stored.kept in
    rw (v, e, entry) (ground (arith, k.stored.decodes))

answered_again :
    (i : SelectionIntent) (t again at_admission s : Store) (y : Surroundings)
    {rc : SelectionReceipt}
    → Published i t rc
    → intent_valid i ≡ true
    → (i.round_id == 0 || i.student_id == 0 || is_empty (trim_space i.request_id)) ≡ false
    → again.request_result i.round_id i.student_id i.request_id
      ≡ t.request_result i.round_id i.student_id i.request_id
    → after_query
        (query_selection_by_request again i.round_id i.student_id i.request_id)
        i
        at_admission
        s
        y
      ≡ (s, ok rc)
unfolding after_query application_of
answered_again i t again at_admission s y k valid v e =
    rw (found_again i t again k v e)
      (record_receipt k.answer k.answer.result i s y refl (matching k.answer.result refl) k.receipt)
  where
    matching :
        (o : Option SelectionResult)
        → k.answer.result ≡ o
        → ensure_matches (application_of o) i ≡ none
    matching none p = absurd (no_result (rw p at k.stored.same))
      where
        no_result : same_selection_fingerprint none k.outcome ≡ true → ⊥
        no_result h = ground arith
    matching (some q) p = answer-matches i k.outcome q valid k.answers (rw p at k.stored.same)

-- `SelectCourse` is idempotent. Where the query finds nothing for the request and the call returns a
-- receipt, whatever happened to the store between its steps, then the same command again, with any clock,
-- ids and stores, writes nothing and returns the same receipt, as long as the stored result of the
-- request is still what the first call left.
pub select_course_repeated :
    (c : SelectCourseCommand) (at_query at_admission at_commit : Store) (x : Surroundings)
    (again at_admission' at_commit' : Store) (y : Surroundings) {rc : SelectionReceipt}
    → query_selection_by_request at_query c.round_id c.student_id c.request_id ≡ ok none
    → (select_course (some c) at_query at_admission at_commit x).1 ≡ ok rc
    → again.request_result c.round_id c.student_id c.request_id
      ≡ (select_course (some c) at_query at_admission at_commit x).0.request_result c.round_id
          c.student_id c.request_id
    → select_course (some c) again at_admission' at_commit' y ≡ (at_commit', ok rc)
unfolding select_course with_intent after_query
select_course_repeated c at_query at_admission at_commit x again at_admission' at_commit' y {rc}
      fresh h e =
    elim (intent_cases c) [
      | inl bad ↦ absurd (let k = rw bad at h in cc)
      | inr (fine, valid, present) ↦
          let made = created_application (admit_selection at_admission (intent_of c) x.now) x in
          let path : select_course (some c) at_query at_admission at_commit x
              ≡ commit_created made at_commit x =
            rw (fine, fresh) refl in
          let left =
            new-Published (intent_of c) at_admission at_commit x made refl (rw path at h) in
          rw fine (
            answered_again (intent_of c) (commit_created made at_commit x).0 again at_admission'
              at_commit' y left valid present (rw path at e))
    ]
