-- ===== src/Enrollment/Exclusion.antt =====
-- Retries and repeats of a commit: one request is recorded once, one course once for each student.
use course_forge.Prelude.{
  ℕ, ◌≡◌, inl, inr, true, false, ◌&&◌, some, List, [], ◌∷◌, ◌==◌, All, Text, text_eq, text_eq_refl,
  text_eq_sound, arith, Bool-cases,
}
use course_forge.Enrollment.Selection.{SelectionResult}
use course_forge.Enrollment.Store.{
  Store, encoded, StoredPublication, has_course, get_course, set_course,
}
use course_forge.Enrollment.Commit.{
  Call, recorded, already, commit, record_selection, publication_of,
}
use course_forge.Enrollment.Commit.Effects.{commit_all_or_nothing, commit_cases, is_recorded}
use course_forge.Enrollment.Release.{ReleaseCall, release}
use course_forge.Enrollment.Clear.{ClearCall, clear}
use course_forge.Enrollment.History.{
  Event, commits, releases, clears, result_expires, application_expires, drop_expires, step, run,
}

replay :
    (s : Store) (c d : Call) (p : StoredPublication)
    → s.request_result d.round_id d.student_id d.request_id ≡ some p
    → commit s d ≡ (s, already p)
unfolding commit
replay s c d p h = ground arith

pub stored_for_request :
    (s : Store) (c : Call) (r : SelectionResult)
    → (record_selection s c r).request_result c.round_id c.student_id c.request_id
      ≡ some (publication_of c r)
unfolding record_selection
stored_for_request s c r = ground (arith, text_eq_refl c.request_id)

same_publication : {p q : StoredPublication} → recorded p ≡ recorded q → p ≡ q
same_publication h = cc

-- The event neither clears nor expires the result of the request.
abbrev pub Keeps : ℕ → ℕ → Text → Event → Type 0
Keeps i j k (clears c) = (c.round_id == i && c.student_id == j && text_eq c.request_id k) ≡ false
Keeps i j k (result_expires a b t) = (a == i && b == j && text_eq t k) ≡ false
Keeps i j k e = Unit

commit_keeps_result :
    (i j : ℕ) (k : Text) (s : Store) (c : Call) {p : StoredPublication}
    → s.request_result i j k ≡ some p
    → (commit s c).0.request_result i j k ≡ some p
unfolding record_selection
commit_keeps_result i j k s c {p} h =
    elim (Bool-cases (c.round_id == i && c.student_id == j && text_eq c.request_id k)) [
      | inl own ↦
          let a : c.round_id ≡ i = ground arith in
          let b : c.student_id ≡ j = ground arith in
          let t : c.request_id ≡ k = text_eq_sound c.request_id k (ground (arith, own)) in
          let same : commit s c ≡ (s, already p) = replay s c c p (rw (a, b, t) h) in rw same h
      | inr other ↦ elim (commit_cases s c) [
        | inl (same, _) ↦ rw same h
        | inr (r, w) ↦ rw w.written (ground (arith, other, h))
      ]
    ]

clear_keeps_result :
    (i j : ℕ) (k : Text) (s : Store) (c : ClearCall) {p : StoredPublication}
    → (c.round_id == i && c.student_id == j && text_eq c.request_id k) ≡ false
    → s.request_result i j k ≡ some p
    → (clear s c).0.request_result i j k ≡ some p
unfolding clear
clear_keeps_result i j k s c u h = ground (arith, u, h)

release_keeps_result :
    (i j : ℕ) (k : Text) (s : Store) (c : ReleaseCall) {p : StoredPublication}
    → s.request_result i j k ≡ some p
    → (release s c).0.request_result i j k ≡ some p
unfolding release
release_keeps_result i j k s c h = ground (arith, h)

step_leaves_result :
    (i j : ℕ) (k : Text) (s : Store) (e : Event) {p : StoredPublication}
    → Keeps i j k e
    → s.request_result i j k ≡ some p
    → (step s e).request_result i j k ≡ some p
unfolding step
step_leaves_result i j k s (commits c) u h = commit_keeps_result i j k s c h
step_leaves_result i j k s (releases c) u h = release_keeps_result i j k s c h
step_leaves_result i j k s (clears c) u h = clear_keeps_result i j k s c u h
step_leaves_result i j k s (result_expires a b t) u h = rw u h
step_leaves_result i j k s (application_expires t) u h = h
step_leaves_result i j k s (drop_expires t) u h = h

run_leaves_result :
    (i j : ℕ) (k : Text) (s : Store) (es : List Event) {p : StoredPublication}
    → All (Keeps i j k) es
    → s.request_result i j k ≡ some p
    → (run s es).request_result i j k ≡ some p
unfolding run
run_leaves_result i j k s [] u h = h
run_leaves_result i j k s (e ∷ es) u h =
    run_leaves_result i j k (step s e) es u.1 (step_leaves_result i j k s e u.0 h)

-- Once a call is recorded, and until its result is cleared or expires, whatever other calls, releases, clears
-- and expiries come between, every call for the same round, student and request, whatever else it carries,
-- gets the publication that was recorded and writes nothing.
pub commit_retry :
    (s : Store) (c d : Call) (es : List Event) {p : StoredPublication}
    → (commit s c).1 ≡ recorded p
    → All (Keeps c.round_id c.student_id c.request_id) es
    → d.round_id ≡ c.round_id
    → d.student_id ≡ c.student_id
    → d.request_id ≡ c.request_id
    → let t = run (commit s c).0 es in commit t d ≡ (t, already p)
commit_retry s c d es {p} h kept i j k = elim (commit_cases s c) [
  | inl (_, unrecorded) ↦ ground arith
  | inr (r, w) ↦
      let stored = stored_for_request s c r in
      let held : (commit s c).0.request_result c.round_id c.student_id c.request_id ≡ some p =
        rw w.written (ground (arith, w.written, stored)) in
      let later =
        run_leaves_result c.round_id c.student_id c.request_id (commit s c).0 es kept held in
      replay (run (commit s c).0 es) d d p (rw (i, j, k) later)
]

-- The event is no release for the student in the round.
abbrev pub Spares : ℕ → ℕ → Event → Type 0
Spares i j (releases c) = (c.round_id == i && c.student_id == j) ≡ false
Spares i j e = Unit

has_course-set_course :
    (k j : ℕ) (v : Text) (h : List (ℕ × Text))
    → has_course k h ≡ true
    → has_course k (set_course j v h) ≡ true
unfolding has_course set_course
has_course-set_course k j v [] e = cc
has_course-set_course k j v ((i, w) ∷ h) e = ground (arith, has_course-set_course k j v h)

has_course_of_get :
    (k : ℕ) (h : List (ℕ × Text)) (v : Text) → get_course k h ≡ some v → has_course k h ≡ true
unfolding has_course get_course
has_course_of_get k [] v e = cc
has_course_of_get k ((i, w) ∷ h) v e = ground (arith, has_course_of_get k h v)

commit_keeps_course :
    (i j k : ℕ) (s : Store) (c : Call)
    → has_course k (s.selected_courses i j) ≡ true
    → has_course k ((commit s c).0.selected_courses i j) ≡ true
unfolding record_selection
commit_keeps_course i j k s c h = elim (commit_cases s c) [
  | inl (same, _) ↦ rw same h
  | inr (r, w) ↦ rw w.written (
      ground (
        arith,
        has_course-set_course k r.course_id c.application_id
            (s.selected_courses c.round_id c.student_id),
      ))
]

clear_courses : (s : Store) (c : ClearCall) → (clear s c).0.selected_courses ≡ s.selected_courses
unfolding clear
clear_courses s c = ground arith

release_keeps_course :
    (i j k : ℕ) (s : Store) (c : ReleaseCall)
    → (c.round_id == i && c.student_id == j) ≡ false
    → (release s c).0.selected_courses i j ≡ s.selected_courses i j
unfolding release
release_keeps_course i j k s c h = ground arith

step_keeps_course :
    (i j k : ℕ) (s : Store) (e : Event)
    → Spares i j e
    → has_course k (s.selected_courses i j) ≡ true
    → has_course k ((step s e).selected_courses i j) ≡ true
unfolding step
step_keeps_course i j k s (commits c) p h = commit_keeps_course i j k s c h
step_keeps_course i j k s (releases c) p h = rw (release_keeps_course i j k s c p) h
step_keeps_course i j k s (clears c) p h = rw (clear_courses s c) h
step_keeps_course i j k s (result_expires a b t) p h = h
step_keeps_course i j k s (application_expires t) p h = h
step_keeps_course i j k s (drop_expires t) p h = h

run_keeps_course :
    (i j k : ℕ) (s : Store) (es : List Event)
    → All (Spares i j) es
    → has_course k (s.selected_courses i j) ≡ true
    → has_course k ((run s es).selected_courses i j) ≡ true
unfolding run
run_keeps_course i j k s [] p h = h
run_keeps_course i j k s (e ∷ es) p h =
    run_keeps_course i j k (step s e) es p.1 (step_keeps_course i j k s e p.0 h)

course_entered :
    (s : Store) (c : Call) (r : SelectionResult)
    → c.document ≡ encoded r
    → is_recorded (commit s c).1 ≡ true
    → has_course r.course_id ((commit s c).0.selected_courses c.round_id c.student_id) ≡ true
course_entered s c r dr rec = elim (commit_all_or_nothing s c) [
  | inl (_, unrecorded) ↦ cc
  | inr (r', m, dr', _, _, _, _, taken) ↦
      let same : r' ≡ r = cc in
      has_course_of_get r.course_id ((commit s c).0.selected_courses c.round_id c.student_id)
        c.application_id (rw same at taken.entered)
]

-- A student selects a course once in a round. After a call is recorded, and as long as no drop of the
-- student in the round is released, whatever other calls, clears and expiries come between, no call of
-- the student for the same course is recorded: each one leaves the store as it was.
pub course_once :
    (s : Store) (c d : Call) (r q : SelectionResult) (es : List Event)
    → c.document ≡ encoded r
    → is_recorded (commit s c).1 ≡ true
    → All (Spares c.round_id c.student_id) es
    → d.document ≡ encoded q
    → d.round_id ≡ c.round_id
    → d.student_id ≡ c.student_id
    → q.course_id ≡ r.course_id
    → let t = run (commit s c).0 es in ((commit t d).0 ≡ t) × (is_recorded (commit t d).1 ≡ false)
course_once s c d r q es dr rec spared dq i j k =
    let t : Store = run (commit s c).0 es in
    elim (commit_all_or_nothing t d) [
      | inl kept ↦ kept
      | inr (q', m, dq', _, _, free, _, _) ↦
          let held =
            run_keeps_course c.round_id c.student_id r.course_id (commit s c).0 es spared
              (course_entered s c r dr rec) in
          absurd (ground (arith, held, free, dq, dq', i, j, k))
    ]
