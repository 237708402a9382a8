-- ===== src/Tests/Retries.antt =====
-- The theorems on `SelectCourse` and `CommitSelection`, at one command against the warmed-up class.
use course_forge.Enrollment.Eligibility.{
  ensure_no_existing_enrollment, ensure_no_schedule_conflict, validate_availability,
}
use course_forge.Enrollment.TeachingClass.{validate_for_selection}
use course_forge.Enrollment.Round.{ensure_accepting_at}
use course_forge.Enrollment.Commit.{commit, version_is}
use course_forge.Enrollment.Application.{
  complete_selected, created_from, new_selection_application, reserve,
}
use course_forge.Prelude.{
  ◌⊎◌, ℕ, ◌≡◌, refl, true, false, none, some, codes, inl, is_empty, trim_space, byte_length,
  text_eq,
}
use course_forge.Prelude.Int.{pos, eqb_ℤ, wrap32, ◌+ℤ◌, ◌-ℤ◌}
use course_forge.Enrollment.Errors.{ok, err, teaching_class_full}
use course_forge.Enrollment.Selection.{
  web, selected, SelectionResult, credit_valid, intent_valid, new_selection_intent, source_eq,
  source_valid, validate_request, validate_result,
}
use course_forge.Enrollment.Store.{Store, number, has_course, has_id, slot_count}
use course_forge.Enrollment.Adapter.{Publication, answered, Wire, commit_selection}
use course_forge.Enrollment.Adapter.Replies.{Lost, Stored, commit_selection-Stored}
use course_forge.Enrollment.Admission.{admit_selection, query_selection_admission}
use course_forge.Enrollment.Admission.Requests.{Requests, admitted-Requests}
use course_forge.Enrollment.Query.{query_selection_by_request}
use course_forge.Enrollment.SelectCourse.{
  SelectCourseCommand, SelectionReceipt, Surroundings, select_course,
}
use course_forge.Enrollment.SelectCourse.Retry.{select_course_error_unchanged}
use course_forge.Enrollment.SelectCourse.Repeat.{intent_of, select_course_repeated}
use course_forge.Tests.Fixtures.{request, warm, outcome}

abbrev command : SelectCourseCommand
command = record {
  request_id = codes "req-1";
  round_id = 1;
  student_id = 5;
  teaching_class_id = 7;
  source = web;
}

-- 15 milliseconds after the Unix epoch, and a millisecond later.
abbrev now : ℕ
now = 62_135_596_800_015_000_000

abbrev later : ℕ
later = 62_135_596_800_016_000_000

abbrev wire : Wire
wire = record { version_error = none; script = answered; stream_id = codes "16-0" }

abbrev surroundings : Surroundings
surroundings = record {
  now = now;
  completion_now = later;
  new_id = ok (codes "app-1");
  wire = wire;
}

abbrev receipt : SelectionReceipt
receipt = record {
  application_id = codes "app-1";
  state = selected;
  stream_recorded = true;
  durably_persisted = false;
}

is_new : query_selection_by_request warm 1 5 (codes "req-1") ≡ ok none
unfolding query_selection_by_request trim_space
is_new = refl

selects : (select_course (some command) warm warm warm surroundings).1 ≡ ok receipt
unfolding select_course query_selection_by_request admit_selection new_selection_intent
    new_selection_application reserve complete_selected created_from intent_valid source_valid
    query_selection_admission version_is text_eq ◌-ℤ◌ ensure_accepting_at ◌+ℤ◌ validate_request
    trim_space byte_length credit_valid wrap32 validate_for_selection eqb_ℤ has_id has_course
    slot_count ensure_no_existing_enrollment ensure_no_schedule_conflict validate_availability
    commit_selection source_eq validate_result commit
selects = refl

select_course_repeated_example :
    select_course
      (some command)
      (select_course (some command) warm warm warm surroundings).0
      warm
      warm
      surroundings
    ≡ (warm, ok receipt)
select_course_repeated_example =
    select_course_repeated command warm warm warm surroundings
      (select_course (some command) warm warm warm surroundings).0 warm warm surroundings is_new
      selects refl

abbrev full : Store
full = record warm { seat = λ k. number (pos 0) }

stream_id_present : is_empty (trim_space (codes "16-0")) ≡ false
unfolding trim_space
stream_id_present = refl

refuses : (select_course (some command) warm warm full surroundings).1 ≡ err teaching_class_full
unfolding select_course query_selection_by_request admit_selection new_selection_intent
    new_selection_application reserve complete_selected created_from intent_valid source_valid
    query_selection_admission version_is text_eq ◌-ℤ◌ ensure_accepting_at ◌+ℤ◌ validate_request
    trim_space byte_length credit_valid wrap32 validate_for_selection eqb_ℤ has_id has_course
    slot_count ensure_no_existing_enrollment ensure_no_schedule_conflict validate_availability
    commit_selection source_eq validate_result commit
refuses = refl

select_course_error_unchanged_example :
    ((select_course (some command) warm warm full surroundings).0 ≡ full)
    ⊎ Lost wire teaching_class_full
select_course_error_unchanged_example =
    select_course_error_unchanged (some command) warm warm full surroundings stream_id_present
      refuses

admits : admit_selection warm (intent_of command) now ≡ ok request
unfolding admit_selection intent_valid source_valid query_selection_admission version_is text_eq
    ◌-ℤ◌ ensure_accepting_at ◌+ℤ◌ validate_request trim_space byte_length credit_valid wrap32
    validate_for_selection eqb_ℤ has_id has_course slot_count ensure_no_existing_enrollment
    ensure_no_schedule_conflict validate_availability
admits = refl

admitted-Requests_example : Requests (intent_of command) request
admitted-Requests_example = admitted-Requests warm (intent_of command) now (inl admits)

abbrev timely : SelectionResult
timely = record outcome { applied_at = now; completed_at = later }

abbrev answer : Publication
answer = record {
  stream_id = codes "16-0";
  stream_recorded = true;
  durably_persisted = false;
  result = some timely;
}

commits : (commit_selection warm timely wire).1 ≡ ok answer
unfolding commit_selection validate_result trim_space byte_length credit_valid source_valid commit
    text_eq ◌-ℤ◌ eqb_ℤ has_id has_course slot_count source_eq
commits = refl

commit_selection-Stored_example : Stored (commit_selection warm timely wire).0 timely answer
commit_selection-Stored_example = commit_selection-Stored warm timely wire commits
