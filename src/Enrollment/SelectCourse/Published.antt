-- ===== src/Enrollment/SelectCourse/Published.antt =====
-- What a `SelectCourse` (application/enrollment.go) leaves behind that went through to its commit.
use course_forge.Prelude.{ℕ, ◌≡◌, inl, refl, some, Text, arith}
use course_forge.Enrollment.Errors.{Result, ok, err, bind-ok}
use course_forge.Enrollment.Selection.{created, SelectionIntent, SelectionRequest, SelectionResult}
use course_forge.Enrollment.Application.{
  SelectionApplication, new_selection_application, reserve, complete_selected, result,
}
use course_forge.Enrollment.Store.{Store}
use course_forge.Enrollment.Adapter.{Publication, Wire, commit_selection}
use course_forge.Enrollment.Adapter.Replies.{Stored, commit_selection-Stored}
use course_forge.Enrollment.Admission.{admit_selection}
use course_forge.Enrollment.Admission.Requests.{Requests, admitted-Requests}
use course_forge.Enrollment.SelectCourse.{
  SelectionReceipt, Surroundings, receipt_from_publication, publish, store_result, complete,
  commit_application, commit_created, created_application,
}

-- The result is of the intent's selection.
pub record Answers (i : SelectionIntent) (r : SelectionResult) : Type 0 where
  pub request : r.request_id ≡ i.request_id
  pub round : r.round_id ≡ i.round_id
  pub student : r.student_id ≡ i.student_id
  pub class : r.teaching_class_id ≡ i.teaching_class_id
  pub source : r.source ≡ i.source

new-Answers :
    (i : SelectionIntent) (id : Text) (q : SelectionRequest) (now : ℕ) {a : SelectionApplication}
    → Requests i q
    → new_selection_application id (some q) now ≡ ok a
    → Answers i (result a) × (a.state ≡ created)
unfolding new_selection_application result
new-Answers i id q now w h = (
  record {
    request = ground (arith, w.request);
    round = ground (arith, w.round);
    student = ground (arith, w.student);
    class = ground (arith, w.class);
    source = ground (arith, w.source);
  },
  ground arith,
)

-- What a call that went through to the commit leaves behind.
pub record Published (i : SelectionIntent) (t : Store) (rc : SelectionReceipt) : Type 0 where
  pub outcome : SelectionResult
  pub answer : Publication
  pub answers : Answers i outcome
  pub stored : Stored t outcome answer
  pub receipt : receipt_from_publication answer ≡ ok rc

published :
    (i : SelectionIntent) (r : SelectionResult) (s : Store) (id : Wire) (m : Result Publication)
    {rc : SelectionReceipt}
    → Answers i r
    → (commit_selection s r id).1 ≡ m
    → (publish (commit_selection s r id)).1 ≡ ok rc
    → Published i (publish (commit_selection s r id)).0 rc
unfolding publish
published i r s id (err x) w e h = absurd (ground arith)
published i r s id (ok p) {rc} w e h =
    let same : (publish (commit_selection s r id)).0 ≡ (commit_selection s r id).0 = ground arith in
    rw same (record {
      outcome = r;
      answer = p;
      answers = w;
      stored = commit_selection-Stored s r id e;
      receipt = ground (arith, e);
    })

completed_result :
    (a : SelectionApplication) (now : ℕ) (i : SelectionIntent) {r : SelectionResult}
    → Answers i (result a)
    → (complete_selected (reserve a).0 now).1 ≡ ok r
    → Answers i r
unfolding complete_selected reserve result
completed_result a now i w h = record {
  request = ground (arith, w.request);
  round = ground (arith, w.round);
  student = ground (arith, w.student);
  class = ground (arith, w.class);
  source = ground (arith, w.source);
}

store-Published :
    (i : SelectionIntent) (m : Result SelectionResult) (s : Store) (id : Wire)
    {rc : SelectionReceipt}
    → ((r : SelectionResult) → m ≡ ok r → Answers i r)
    → (store_result m s id).1 ≡ ok rc
    → Published i (store_result m s id).0 rc
unfolding store_result
store-Published i (err x) s id w h = absurd cc
store-Published i (ok r) s id w h = published i r s id (commit_selection s r id).1 (w r refl) refl h

commit-Published :
    (i : SelectionIntent) (a : SelectionApplication) (s : Store) (now : ℕ) (id : Wire)
    {rc : SelectionReceipt}
    → Answers i (result a)
    → a.state ≡ created
    → (commit_application s (some a) now id).1 ≡ ok rc
    → Published i (commit_application s (some a) now id).0 rc
unfolding commit_application complete reserve
commit-Published i a s now id w c h =
    let path : commit_application s (some a) now id
        ≡ store_result (complete_selected (reserve a).0 now).1 s id =
      ground (arith, c) in
    rw path (
      store-Published i (complete_selected (reserve a).0 now).1 s id
        (λ r e. completed_result a now i w e) (rw path at h))

created-Answers :
    (i : SelectionIntent) (at_admission : Store) (x : Surroundings) {a : SelectionApplication}
    → created_application (admit_selection at_admission i x.now) x ≡ ok a
    → Answers i (result a) × (a.state ≡ created)
unfolding created_application
created-Answers i at_admission x h =
    let (q, u, v) = bind-ok (admit_selection at_admission i x.now) _ h in
    let (id, _, w) = bind-ok x.new_id _ v in
    new-Answers i id q x.now (admitted-Requests at_admission i x.now (inl u)) w

pub new-Published :
    (i : SelectionIntent) (at_admission s : Store) (x : Surroundings)
    (m : Result SelectionApplication) {rc : SelectionReceipt}
    → created_application (admit_selection at_admission i x.now) x ≡ m
    → (commit_created m s x).1 ≡ ok rc
    → Published i (commit_created m s x).0 rc
unfolding commit_created
new-Published i at_admission s x (err y) e h = absurd cc
new-Published i at_admission s x (ok a) e h =
    let (w, c) = created-Answers i at_admission x e in
    commit-Published i a s x.completion_now x.wire w c h
