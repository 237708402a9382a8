-- ===== src/Enrollment/Admission/Requests.antt =====
-- What the admission service (application/admission.go) makes of an intent.
use course_forge.Prelude.{
  ℕ, ◌≡◌, ◌⊎◌, inl, inr, not, ◌||◌, Option, none, some, ◌==◌, Text, arith, Bool-cases,
}
use course_forge.Enrollment.Errors.{Result, ok, err, ◌>>=◌, bind-ok, check-ok}
use course_forge.Enrollment.Selection.{SelectionIntent, SelectionRequest, intent_valid}
use course_forge.Enrollment.Round.{SelectionRound}
use course_forge.Enrollment.TeachingClass.{TeachingClass}
use course_forge.Enrollment.Store.{Store}
use course_forge.Enrollment.Adapter.{unix_milli, ready_version}
use course_forge.Enrollment.Admission.{
  AdmissionSnapshot, Facts, admission_script, snapshot_of, under_version, query_selection_admission,
  prepare_from, prepare, evaluate_student, admit_selection, admit_waitlist,
}

-- The request is that of the intent.
pub record Requests (i : SelectionIntent) (r : SelectionRequest) : Type 0 where
  pub request : r.request_id ≡ i.request_id
  pub round : r.round_id ≡ i.round_id
  pub student : r.student_id ≡ i.student_id
  pub class : r.teaching_class_id ≡ i.teaching_class_id
  pub source : r.source ≡ i.source

abbrev Named : Option SelectionRound → Option TeachingClass → ℕ → ℕ → Type 0
Named (some round) (some class) round_id class_id = (round.id ≡ round_id) × (class.id ≡ class_id)
Named round class round_id class_id = ⊥

facts-Named :
    (round_id class_id : ℕ) (m : Result Facts) {snapshot : AdmissionSnapshot}
    → (m >>= snapshot_of round_id class_id) ≡ ok snapshot
    → Named snapshot.round snapshot.class round_id class_id
unfolding snapshot_of
facts-Named round_id class_id (err x) k = absurd cc
facts-Named round_id class_id (ok f) k = ground arith

version-Named :
    (ready : Option Text) (s : Store) (round_id student_id class_id now : ℕ)
    {snapshot : AdmissionSnapshot}
    → under_version ready s round_id student_id class_id now ≡ ok snapshot
    → Named snapshot.round snapshot.class round_id class_id
unfolding under_version
version-Named none s round_id student_id class_id now k = absurd cc
version-Named (some v) s round_id student_id class_id now k =
    facts-Named round_id class_id
      (admission_script s round_id student_id class_id v (unix_milli now)) k

snapshot-Named :
    (s : Store) (round_id student_id class_id now : ℕ) {snapshot : AdmissionSnapshot}
    → query_selection_admission s round_id student_id class_id now ≡ ok snapshot
    → Named snapshot.round snapshot.class round_id class_id
unfolding query_selection_admission
snapshot-Named s round_id student_id class_id now h =
    elim (Bool-cases (round_id == 0 || student_id == 0 || class_id == 0 || now == 0)) [
      | inl bad ↦ absurd (ground (arith, bad))
      | inr fine ↦
          version-Named (ready_version (s.active_version round_id)) s round_id student_id class_id
            now (rw fine at h)
    ]

prepare_from-Requests :
    (round : Option SelectionRound) (class : Option TeachingClass) (i : SelectionIntent) (now : ℕ)
    {r : SelectionRequest}
    → Named round class i.round_id i.teaching_class_id
    → prepare_from round class i now ≡ ok r
    → Requests i r
unfolding prepare_from
prepare_from-Requests (some round) (some class) i now n h = record {
  request = ground arith;
  round = ground arith;
  student = ground arith;
  class = ground arith;
  source = ground arith;
}
prepare_from-Requests none class i now n h = absurd n
prepare_from-Requests (some round) none i now n h = absurd n

prepare-Requests :
    (s : Store) (i : SelectionIntent) (now : ℕ) {p : SelectionRequest × AdmissionSnapshot}
    → prepare s i now ≡ ok p
    → Requests i p.0
unfolding prepare
prepare-Requests s i now {p} h = elim (Bool-cases (not (intent_valid i) || now == 0)) [
  | inl bad ↦ absurd (ground (arith, bad))
  | inr fine ↦
      let (snapshot, q, k) =
        bind-ok (query_selection_admission s i.round_id i.student_id i.teaching_class_id now) _
          (rw fine at h) in
      let (r, u, v) = bind-ok (prepare_from snapshot.round snapshot.class i now) _ k in
      let same : p.0 ≡ r = ground (arith, v) in
      rw same (
        prepare_from-Requests snapshot.round snapshot.class i now
          (snapshot-Named s i.round_id i.student_id i.teaching_class_id now q) u)
]

evaluate-same :
    (r q : SelectionRequest) (snapshot : AdmissionSnapshot)
    → evaluate_student r snapshot ≡ ok q
    → q ≡ r
unfolding evaluate_student
evaluate-same r q snapshot h = ground arith

-- A request that direct selection or the waitlist admits is that of the intent: the round, the student, the
-- class, the request id and the source are the intent's, whatever Redis answered.
pub admitted-Requests :
    (s : Store) (i : SelectionIntent) (now : ℕ) {r : SelectionRequest}
    → (admit_selection s i now ≡ ok r) ⊎ (admit_waitlist s i now ≡ ok r)
    → Requests i r
unfolding admit_selection admit_waitlist
admitted-Requests s i now {r} (inl h) =
    let (p, u, v) = bind-ok (prepare s i now) _ h in
    let (_, w) = check-ok _ _ v in rw (evaluate-same p.0 r p.1 w) (prepare-Requests s i now u)
admitted-Requests s i now {r} (inr h) =
    let (p, u, v) = bind-ok (prepare s i now) _ h in
    let (_, w) = check-ok _ _ v in rw (evaluate-same p.0 r p.1 w) (prepare-Requests s i now u)
