-- ===== src/Enrollment/Admission.antt =====
-- The admission check: `QuerySelectionAdmission` with its script (persistence/eligibility_index.go), and the
-- admission service over it (application/admission.go).
pub mod Requests
use course_forge.Prelude.{
  ℕ, ◌*◌, ◌%◌, Bool, not, ◌||◌, Option, none, some, [], Text, is_empty, ◌==◌, if◌then◌else◌,
}
use course_forge.Prelude.Int.{ℤ, pos, pos_part, is_pos, ltb_ℤ, ◌+ℤ◌, ◌-ℤ◌, wrap32}
use course_forge.Enrollment.Errors.{
  Err, invalid_params, record_not_found, round_not_open, teaching_class_not_open,
  eligibility_not_met, Result, ok, err, ◌>>◌, ◌>>=◌,
}
use course_forge.Enrollment.Selection.{
  Credit, SelectionIntent, intent_valid, SelectionRequest, validate_request,
}
use course_forge.Enrollment.Round.{SelectionRound, open_round, ensure_accepting_at}
use course_forge.Enrollment.TeachingClass.{
  TeachingClass, open_class, validate_for_selection, validate_for_waitlist,
}
use course_forge.Enrollment.Eligibility.{
  ensure_no_existing_enrollment, ensure_no_schedule_conflict, validate_availability,
}
use course_forge.Enrollment.Store.{Store, has_id, has_course, read_number}
use course_forge.Enrollment.Commit.{version_is, any_clash}
use course_forge.Enrollment.Adapter.{unix_milli, ready_version}

pub record AdmissionSnapshot : Type 0 where
  pub round : Option SelectionRound
  pub class : Option TeachingClass
  pub is_eligible : Bool
  pub existing_enrollment : Bool
  pub schedule_conflict : Bool
  pub credit_remaining : Credit
  pub course_quota_remaining : ℤ

-- What querySelectionAdmissionScript returns with status 0.
pub record Facts : Type 0 where
  pub term_id : ℤ
  pub start_ms : ℤ
  pub end_ms : ℤ
  pub course_id : ℤ
  pub credits : ℤ
  pub capacity : ℤ
  pub seat_remaining : ℤ
  pub is_eligible : Bool
  pub existing : Bool
  pub conflict : Bool
  pub credit_remaining : ℤ
  pub course_remaining : ℤ

abbrev from_numbers :
    Option ℤ → Option ℤ → Option ℤ → (ℤ → ℤ → ℤ → Result Facts) → Err → Result Facts
from_numbers (some a) (some b) (some c) k e = k a b c
from_numbers a b c k e = err e

-- The script from the class hash on. Its statuses -1, -2 and -3 are the errors that Go makes of them.
class_facts : Store → ℕ → ℕ → ℕ → Text → ℤ → ℤ → ℤ → Result Facts
unfolding any_clash
class_facts s round_id student_id class_id version term start end =
    let class = s.class_snapshot round_id version class_id in
    let members = s.eligible round_id version student_id in
    let slots = s.class_schedule class_id in
    let schedule = s.student_schedule round_id student_id in
    from_numbers class.course_id class.credits class.capacity
      (λ course credits capacity.
        if is_empty members
        then err eligibility_not_met
        else from_numbers (read_number (s.credit round_id student_id))
            (read_number (s.course_quota round_id student_id)) (read_number (s.seat class_id))
            (λ credit_remaining course_remaining seat_remaining.
              if is_empty slots || is_empty schedule
              then err round_not_open
              else ok (record {
                term_id = term;
                start_ms = start;
                end_ms = end;
                course_id = course;
                credits = credits;
                capacity = capacity;
                seat_remaining = seat_remaining;
                is_eligible = has_id class_id members;
                existing = has_course (pos_part course) (s.selected_courses round_id student_id);
                conflict = any_clash slots schedule;
                credit_remaining = credit_remaining;
                course_remaining = course_remaining;
              }))
            round_not_open)
      teaching_class_not_open

-- The script from the version test on.
unfoldable pub admission_script : Store → ℕ → ℕ → ℕ → Text → ℤ → Result Facts
unfolding class_facts
admission_script s round_id student_id class_id version now_ms =
    let round = s.round_snapshot round_id version in
    if not (version_is (s.active_version round_id) version)
      || not (version_is (s.open_version round_id) version)
    then err round_not_open
    else from_numbers round.term_id round.start_ms round.end_ms
        (λ term start end.
          if ltb_ℤ now_ms start || not (ltb_ℤ now_ms end)
          then err round_not_open
          else class_facts s round_id student_id class_id version term start end)
        round_not_open

-- `time.UnixMilli` as an instant in nanoseconds since Go's zero time.
unfoldable pub of_unix_milli : ℤ → ℕ
of_unix_milli ms = pos_part (ms +ℤ pos 62_135_596_800_000) * 1_000_000

-- The checks of the numbers and the snapshot made of them. `int32` and `uint32` conversions wrap.
unfoldable pub snapshot_of : ℕ → ℕ → Facts → Result AdmissionSnapshot
unfolding of_unix_milli
snapshot_of round_id class_id f =
    if not (is_pos f.term_id)
      || not (is_pos f.course_id)
      || not (is_pos f.credits)
      || ltb_ℤ f.capacity (pos 0)
      || ltb_ℤ f.seat_remaining (pos 0)
      || ltb_ℤ f.capacity f.seat_remaining
      || ltb_ℤ f.credit_remaining (pos 0)
    then err round_not_open
    else ok (record {
      round = some (record {
        id = round_id;
        term_id = pos_part f.term_id;
        round_code = [];
        round_name = [];
        start_time = of_unix_milli f.start_ms;
        end_time = of_unix_milli f.end_ms;
        state = open_round;
        create_time = 0;
        update_time = 0;
      });
      class = some (record {
        id = class_id;
        term_id = pos_part f.term_id;
        course_id = pos_part f.course_id;
        credits = wrap32 f.credits;
        capacity = pos_part f.capacity % 4_294_967_296;
        selected_count = pos_part (f.capacity -ℤ f.seat_remaining) % 4_294_967_296;
        state = open_class;
      });
      is_eligible = f.is_eligible;
      existing_enrollment = f.existing;
      schedule_conflict = f.conflict;
      credit_remaining = wrap32 f.credit_remaining;
      course_quota_remaining = f.course_remaining;
    })

under_version : Option Text → Store → ℕ → ℕ → ℕ → ℕ → Result AdmissionSnapshot
unfolding admission_script snapshot_of unix_milli
under_version none s round_id student_id class_id now = err round_not_open
under_version (some version) s round_id student_id class_id now = do
  facts ← admission_script s round_id student_id class_id version (unix_milli now)
  snapshot_of round_id class_id facts

unfoldable pub query_selection_admission : Store → ℕ → ℕ → ℕ → ℕ → Result AdmissionSnapshot
unfolding under_version ready_version
query_selection_admission s round_id student_id class_id now =
    if round_id == 0 || student_id == 0 || class_id == 0 || now == 0
    then err invalid_params
    else under_version (ready_version (s.active_version round_id)) s round_id student_id class_id
        now

-- The request that `prepare` fills from the snapshot, and the class that it is checked against.
unfoldable pub request_for : SelectionIntent → SelectionRound → TeachingClass → SelectionRequest
request_for intent round class = record {
  request_id = intent.request_id;
  round_id = round.id;
  term_id = round.term_id;
  student_id = intent.student_id;
  course_id = class.course_id;
  teaching_class_id = class.id;
  credits = class.credits;
  source = intent.source;
}

prepare_from :
    Option SelectionRound → Option TeachingClass → SelectionIntent → ℕ → Result SelectionRequest
unfolding request_for
prepare_from (some round) (some class) intent now =
    (ensure_accepting_at (some round) now
      >> (validate_request (some (request_for intent round class))
          >> ok (request_for intent round class)))
prepare_from round class intent now = err record_not_found

unfoldable pub prepare : Store → SelectionIntent → ℕ → Result (SelectionRequest × AdmissionSnapshot)
unfolding prepare_from
prepare s intent now = if not (intent_valid intent) || now == 0 then err invalid_params else do
  snapshot ←
      query_selection_admission s intent.round_id intent.student_id intent.teaching_class_id now
  request ← prepare_from snapshot.round snapshot.class intent now
  ok (request, snapshot)

unfoldable pub evaluate_student : SelectionRequest → AdmissionSnapshot → Result SelectionRequest
evaluate_student request snapshot =
    if not snapshot.is_eligible
    then err eligibility_not_met
    else (ensure_no_existing_enrollment snapshot.existing_enrollment
        >> (ensure_no_schedule_conflict snapshot.schedule_conflict
            >> (validate_availability
                  (record {
                    credit_remaining = snapshot.credit_remaining;
                    course_remaining = snapshot.course_quota_remaining;
                  })
                  request.credits
                >> ok request)))

unfoldable pub admit_selection : Store → SelectionIntent → ℕ → Result SelectionRequest
unfolding prepare evaluate_student
admit_selection s intent now = do
  (request, snapshot) ← prepare s intent now
  validate_for_selection snapshot.class (some request)
  evaluate_student request snapshot

unfoldable pub admit_waitlist : Store → SelectionIntent → ℕ → Result SelectionRequest
unfolding prepare evaluate_student
admit_waitlist s intent now = do
  (request, snapshot) ← prepare s intent now
  validate_for_waitlist snapshot.class (some request)
  evaluate_student request snapshot
