-- ===== src/Enrollment/SelectCourse/Retry.antt =====
-- What a caller of `SelectCourse` (application/enrollment.go) may take from an error.
use course_forge.Prelude.{
  ℕ, ◌≡◌, ◌⊎◌, inl, inr, refl, Bool, true, false, Option, none, some, is_empty, trim_space, arith,
}
use course_forge.Enrollment.Errors.{Err, Result, ok, err}
use course_forge.Enrollment.Selection.{SelectionIntent, new_selection_intent, SelectionResult}
use course_forge.Enrollment.Application.{SelectionApplication, ensure_matches, complete_selected}
use course_forge.Enrollment.Store.{Store}
use course_forge.Enrollment.Adapter.{Publication, Wire, validate_publication, commit_selection}
use course_forge.Enrollment.Adapter.Replies.{
  Lost, commit_selection-Stored, commit_selection_error_unchanged,
}
use course_forge.Enrollment.Admission.{admit_selection}
use course_forge.Enrollment.Query.{SelectionRequestRecord, query_selection_by_request}
use course_forge.Enrollment.SelectCourse.{
  SelectCourseCommand, SelectionReceipt, Surroundings, receipt_from_publication, publish,
  store_result, complete, reserve_created, commit_application, persisted_or, receipt_of_record,
  matched, commit_created, created_application, after_query, with_intent, select_course,
}

receipt_total :
    (p : Publication) (o : Option SelectionResult)
    → p.result ≡ o
    → validate_publication p ≡ none
    → (rc : SelectionReceipt) × (receipt_from_publication p ≡ ok rc)
unfolding receipt_from_publication validate_publication
receipt_total p none e v = absurd (ground arith)
receipt_total p (some r) e v = (
  record {
    application_id = r.application_id;
    state = r.state;
    stream_recorded = true;
    durably_persisted = p.durably_persisted;
  },
  ground arith,
)

publish_error_unchanged :
    (s : Store) (r : SelectionResult) (id : Wire) (m : Result Publication) {x : Err}
    → is_empty (trim_space id.stream_id) ≡ false
    → (commit_selection s r id).1 ≡ m
    → (publish (commit_selection s r id)).1 ≡ err x
    → ((publish (commit_selection s r id)).0 ≡ s) ⊎ Lost id x
unfolding publish
publish_error_unchanged s r id (err e) {x} k q h =
    let same_error : e ≡ x = ground (arith, q) in
    elim (commit_selection_error_unchanged s r id k q) [
      | inl same ↦ inl (ground (arith, same, q))
      | inr lost ↦ inr (rw (← same_error) lost)
    ]
publish_error_unchanged s r id (ok p) k q h =
    let (rc, fine) = receipt_total p p.result refl (commit_selection-Stored s r id q).sound in
    absurd (ground (arith, fine))

store_result_error_unchanged :
    (m : Result SelectionResult) (s : Store) (id : Wire) {x : Err}
    → is_empty (trim_space id.stream_id) ≡ false
    → (store_result m s id).1 ≡ err x
    → ((store_result m s id).0 ≡ s) ⊎ Lost id x
unfolding store_result
store_result_error_unchanged (err e) s id k h = inl refl
store_result_error_unchanged (ok r) s id k h = publish_error_unchanged s r id _ k refl h

complete_error_unchanged :
    (a : SelectionApplication) (e : Option Err) (s : Store) (now : ℕ) (id : Wire) {x : Err}
    → is_empty (trim_space id.stream_id) ≡ false
    → (complete (a, e) s now id).1 ≡ err x
    → ((complete (a, e) s now id).0 ≡ s) ⊎ Lost id x
unfolding complete
complete_error_unchanged a (some e) s now id k h = inl refl
complete_error_unchanged a none s now id k h =
    store_result_error_unchanged (complete_selected a now).1 s id k h

commit_error_unchanged :
    (s : Store) (a : Option SelectionApplication) (now : ℕ) (id : Wire) {x : Err}
    → is_empty (trim_space id.stream_id) ≡ false
    → (commit_application s a now id).1 ≡ err x
    → ((commit_application s a now id).0 ≡ s) ⊎ Lost id x
unfolding commit_application
commit_error_unchanged s none now id k h = inl refl
commit_error_unchanged s (some a) now id k h =
    let started = reserve_created a.state a in
    complete_error_unchanged started.0 started.1 s now id k h

existing_error_unchanged :
    (durable : Bool) (a : Option SelectionApplication) (p : Option Publication) (s : Store)
    (y : Surroundings) {x : Err}
    → is_empty (trim_space y.wire.stream_id) ≡ false
    → (persisted_or durable a p s y).1 ≡ err x
    → ((persisted_or durable a p s y).0 ≡ s) ⊎ Lost y.wire x
unfolding persisted_or receipt_of_record
existing_error_unchanged true (some a) p s y k h = absurd cc
existing_error_unchanged true none (some p) s y k h = inl refl
existing_error_unchanged true none none s y k h =
    commit_error_unchanged s none y.completion_now y.wire k h
existing_error_unchanged false a (some p) s y k h = inl refl
existing_error_unchanged false a none s y k h =
    commit_error_unchanged s a y.completion_now y.wire k h

matched_error_unchanged :
    (e : Option Err) (existing : SelectionRequestRecord) (s : Store) (y : Surroundings) {x : Err}
    → is_empty (trim_space y.wire.stream_id) ≡ false
    → (matched e existing s y).1 ≡ err x
    → ((matched e existing s y).0 ≡ s) ⊎ Lost y.wire x
unfolding matched
matched_error_unchanged (some e) existing s y k h = inl refl
matched_error_unchanged none existing s y k h =
    existing_error_unchanged existing.durably_persisted existing.application existing.publication s
      y k h

created_error_unchanged :
    (m : Result SelectionApplication) (s : Store) (y : Surroundings) {x : Err}
    → is_empty (trim_space y.wire.stream_id) ≡ false
    → (commit_created m s y).1 ≡ err x
    → ((commit_created m s y).0 ≡ s) ⊎ Lost y.wire x
unfolding commit_created
created_error_unchanged (err e) s y k h = inl refl
created_error_unchanged (ok a) s y k h =
    commit_error_unchanged s (some a) y.completion_now y.wire k h

after_query_error_unchanged :
    (m : Result (Option SelectionRequestRecord)) (i : SelectionIntent) (at_admission s : Store)
    (y : Surroundings) {x : Err}
    → is_empty (trim_space y.wire.stream_id) ≡ false
    → (after_query m i at_admission s y).1 ≡ err x
    → ((after_query m i at_admission s y).0 ≡ s) ⊎ Lost y.wire x
unfolding after_query
after_query_error_unchanged (err e) i at_admission s y k h = inl refl
after_query_error_unchanged (ok (some existing)) i at_admission s y k h =
    matched_error_unchanged (ensure_matches existing.application i) existing s y k h
after_query_error_unchanged (ok none) i at_admission s y k h =
    created_error_unchanged (created_application (admit_selection at_admission i y.now) y) s y k h

with_intent_error_unchanged :
    (m : Result SelectionIntent) (at_query at_admission s : Store) (y : Surroundings) {x : Err}
    → is_empty (trim_space y.wire.stream_id) ≡ false
    → (with_intent m at_query at_admission s y).1 ≡ err x
    → ((with_intent m at_query at_admission s y).0 ≡ s) ⊎ Lost y.wire x
unfolding with_intent
with_intent_error_unchanged (err e) at_query at_admission s y k h = inl refl
with_intent_error_unchanged (ok i) at_query at_admission s y k h =
    after_query_error_unchanged
      (query_selection_by_request at_query i.round_id i.student_id i.request_id) i at_admission s y
      k h

-- Where `SelectCourse` returns an error, whatever happened to the store between its calls, it wrote
-- nothing, or the error is that of a script of `CommitSelection` whose reply was lost after it ran, as long
-- as Redis' stream ids are not blank.
pub select_course_error_unchanged :
    (c : Option SelectCourseCommand) (at_query at_admission at_commit : Store) (y : Surroundings)
    {x : Err}
    → is_empty (trim_space y.wire.stream_id) ≡ false
    → (select_course c at_query at_admission at_commit y).1 ≡ err x
    → ((select_course c at_query at_admission at_commit y).0 ≡ at_commit) ⊎ Lost y.wire x
unfolding select_course
select_course_error_unchanged none at_query at_admission at_commit y k h = inl refl
select_course_error_unchanged (some c) at_query at_admission at_commit y k h =
    with_intent_error_unchanged
      (new_selection_intent c.request_id c.round_id c.student_id c.teaching_class_id c.source)
      at_query at_admission at_commit y k h
