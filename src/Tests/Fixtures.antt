-- ===== src/Tests/Fixtures.antt =====
-- A round with one class of two seats, and a student with credits for it.
use course_forge.Prelude.{false, none, some, [], ◌∷◌, codes}
use course_forge.Prelude.Int.{pos}
use course_forge.Enrollment.Selection.{SelectionRequest, SelectionResult, web, selected}
use course_forge.Enrollment.Store.{Store, number, encoded}
use course_forge.Enrollment.Commit.{Call}
use course_forge.Enrollment.Release.{ReleaseCall}

abbrev pub request : SelectionRequest
request = record {
  request_id = codes "req-1";
  round_id = 1;
  term_id = 9;
  student_id = 5;
  course_id = 3;
  teaching_class_id = 7;
  credits = pos 20;
  source = web;
}

abbrev pub outcome : SelectionResult
outcome = record {
  application_id = codes "app-1";
  request_id = codes "req-1";
  round_id = 1;
  term_id = 9;
  student_id = 5;
  course_id = 3;
  teaching_class_id = 7;
  credits = pos 20;
  source = web;
  state = selected;
  failure = none;
  applied_at = 100;
  completed_at = 101;
}

abbrev pub call : Call
call = record {
  round_id = 1;
  student_id = 5;
  teaching_class_id = 7;
  application_id = codes "app-1";
  request_id = codes "req-1";
  document = encoded outcome;
  version = codes "v1";
  now_ms = pos 15;
  stream_id = codes "15-0";
}

-- Another request of the student for the same course.
abbrev pub second_outcome : SelectionResult
second_outcome = record outcome { application_id = codes "app-2"; request_id = codes "req-2" }

abbrev pub second_call : Call
second_call = record call {
  application_id = codes "app-2";
  request_id = codes "req-2";
  document = encoded second_outcome;
}

abbrev pub drop_call : ReleaseCall
drop_call = record {
  enrollment_id = codes "enr-1";
  application_id = codes "app-1";
  round_id = 1;
  student_id = 5;
  course_id = 3;
  teaching_class_id = 7;
  credits = pos 20;
}

abbrev pub warm : Store
warm = record {
  active_version = λ i. some (codes "v1");
  open_version = λ i. some (codes "v1");
  round_snapshot =
      λ i v. record { term_id = some (pos 9); start_ms = some (pos 10); end_ms = some (pos 20) };
  class_snapshot = λ i v k. record {
    course_id = some (pos 3);
    credits = some (pos 20);
    capacity = some (pos 2);
  };
  eligible = λ i v j. 7 ∷ [];
  credit = λ i j. number (pos 50);
  course_quota = λ i j. number (pos 2);
  seat = λ k. number (pos 2);
  pending = λ i j. none;
  request_result = λ i j t. none;
  selected_courses = λ i j. (0, codes "0") ∷ [];
  application = λ t. none;
  stream = [];
  class_schedule = λ k. codes "0" ∷ codes "1:1:3" ∷ [];
  student_schedule = λ i j. (codes "0", pos 0) ∷ [];
  dropped = λ t. false;
}
