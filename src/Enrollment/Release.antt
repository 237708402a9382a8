-- ===== src/Enrollment/Release.antt =====
-- releaseDroppedEnrollmentScript of internal/enrollment/infrastructure/persistence/redis.go: what a drop
-- gives back, once for each enrollment.
use course_forge.Prelude.{
  ℕ, Bool, true, false, not, ◌||◌, Option, none, some, List, [], ◌∷◌, Text, text_eq, is_empty,
  if◌then◌else◌,
}
use course_forge.Prelude.Int.{ℤ, pos, negsuc, is_pos}
use course_forge.Enrollment.Store.{
  Store, put, put_text, put_two, get_course, del_course, slot_count, add_slot, del_slot, sentinel,
  is_absent, Counter, malformed, add_to,
}

pub record ReleaseCall : Type 0 where
  pub enrollment_id : Text
  pub application_id : Text
  pub round_id : ℕ
  pub student_id : ℕ
  pub course_id : ℕ
  pub teaching_class_id : ℕ
  pub credits : ℤ

pub data ReleaseStatus : Type 0 where
  released_before missing_key bad_credits released aborted : ReleaseStatus  -- 0, -1, -2, 1, and an error of Redis

-- One round of the loop over the slots: `HINCRBY … -1`, and `HDEL` where nothing is left.
unfoldable pub drop_slot : Text → List (Text × ℤ) → List (Text × ℤ)
drop_slot slot schedule =
    let after = add_slot slot (negsuc 0) schedule in
    if is_pos (slot_count slot after) then after else del_slot slot after

unfoldable pub drop_slots : List Text → List (Text × ℤ) → List (Text × ℤ)
unfolding drop_slot
drop_slots [] schedule = schedule
drop_slots (slot ∷ slots) schedule =
    drop_slots slots (if not (text_eq slot sentinel) then drop_slot slot schedule else schedule)

unfoldable pub holds_course : Option Text → Text → Bool
holds_course none application_id = false
holds_course (some held) application_id = text_eq held application_id

-- `INCRBY` and `INCR` on the quotas.
unfoldable pub add_credits : Store → ReleaseCall → Store
add_credits s c = record s {
  credit =
      put_two s.credit c.round_id c.student_id
        (add_to (s.credit c.round_id c.student_id) c.credits);
}

unfoldable pub add_course : Store → ReleaseCall → Store
add_course s c = record s {
  course_quota =
      put_two s.course_quota c.round_id c.student_id
        (add_to (s.course_quota c.round_id c.student_id) (pos 1));
}

-- A counter that is no number: `INCR` fails on it, which ends the script where it is.
abbrev pub is_malformed : Counter → Bool
is_malformed malformed = true
is_malformed x = false

unfoldable pub give_back : Store → ReleaseCall → Store
unfolding drop_slots holds_course
give_back s c =
    let courses = s.selected_courses c.round_id c.student_id in
    record s {
      credit =
          put_two s.credit c.round_id c.student_id
            (add_to (s.credit c.round_id c.student_id) c.credits);
      course_quota =
          put_two s.course_quota c.round_id c.student_id
            (add_to (s.course_quota c.round_id c.student_id) (pos 1));
      seat = put s.seat c.teaching_class_id (add_to (s.seat c.teaching_class_id) (pos 1));
      selected_courses = put_two s.selected_courses c.round_id c.student_id (
          if holds_course (get_course c.course_id courses) c.application_id
          then del_course c.course_id courses
          else courses);
      student_schedule = put_two s.student_schedule c.round_id c.student_id (
          drop_slots (s.class_schedule c.teaching_class_id)
            (s.student_schedule c.round_id c.student_id));
      dropped = put_text s.dropped c.enrollment_id true;
    }

unfoldable pub release : Store → ReleaseCall → Store × ReleaseStatus
unfolding give_back add_credits add_course
release s c =
    if s.dropped c.enrollment_id
    then (s, released_before)
    else if is_absent (s.credit c.round_id c.student_id)
        || is_absent (s.course_quota c.round_id c.student_id)
        || is_absent (s.seat c.teaching_class_id)
        || is_empty (s.selected_courses c.round_id c.student_id)
        || is_empty (s.class_schedule c.teaching_class_id)
        || is_empty (s.student_schedule c.round_id c.student_id)
    then (s, missing_key)
    else if not (is_pos c.credits)
    then (s, bad_credits)
    else if is_malformed (s.credit c.round_id c.student_id)
    then (s, aborted)
    else if is_malformed (s.course_quota c.round_id c.student_id)
    then (add_credits s c, aborted)
    else if is_malformed (s.seat c.teaching_class_id)
    then (add_course (add_credits s c) c, aborted)
    else (give_back s c, released)
