-- ===== src/Tests/Selections.antt =====
-- The theorems on the Redis scripts, at calls on one warmed-up class.
use course_forge.Prelude.{ℕ, ◌+◌, ◌≡◌, ◌⊎◌, refl, false, true, List, [], ◌∷◌, codes, text_eq}
use course_forge.Prelude.Int.{pos, eqb_ℤ}
use course_forge.Enrollment.Selection.{SelectionResult}
use course_forge.Enrollment.Store.{number, encoded, has_course, has_id, slot_count}
use course_forge.Enrollment.Commit.{recorded, already, commit, publication_of}
use course_forge.Enrollment.Commit.Effects.{
  Kept, Remaining, Enough, Taken, is_recorded, commit_all_or_nothing,
}
use course_forge.Enrollment.History.{
  Event, commits, releases, clears, result_expires, run, selections, given_back, run-seats,
}
use course_forge.Enrollment.Exclusion.{commit_retry, course_once}
use course_forge.Enrollment.Undo.{Drops, Undone, release_undoes_commit}
use course_forge.Tests.Fixtures.{warm, call, outcome, second_call, second_outcome, drop_call}

abbrev busy_day : List Event
busy_day =
    commits call
    ∷ clears (record {
      round_id = 1;
      student_id = 5;
      request_id = codes "req-1";
      application_id = codes "app-1";
    })
    ∷ commits second_call
    ∷ releases drop_call
    ∷ commits second_call
    ∷ []

run-seats_example :
    (m : ℕ) × ((run warm busy_day).seat 7 ≡ number (pos m))
    × (m + selections 7 (run warm busy_day).stream
        ≡ 2 + selections 7 warm.stream + given_back warm busy_day 7)
run-seats_example = run-seats 7 2 warm busy_day refl

first_reply : (commit warm call).1 ≡ recorded (publication_of call outcome)
unfolding commit text_eq eqb_ℤ has_id has_course slot_count
first_reply = refl

first-is_recorded : is_recorded (commit warm call).1 ≡ true
unfolding commit text_eq eqb_ℤ has_id has_course slot_count
first-is_recorded = refl

commit_all_or_nothing_example :
    Kept warm (commit warm call)
    ⊎ ((r : SelectionResult) × (m : Remaining) × (call.document ≡ encoded r)
        × (r.teaching_class_id ≡ call.teaching_class_id)
        × Enough warm call r m
        × (has_course r.course_id (warm.selected_courses call.round_id call.student_id) ≡ false)
        × ((commit warm call).1 ≡ recorded (publication_of call r))
        × Taken warm call r m (commit warm call).0)
commit_all_or_nothing_example = commit_all_or_nothing warm call

abbrev meanwhile : List Event
meanwhile = commits second_call ∷ releases drop_call ∷ commits second_call ∷ []

commit_retry_example :
    let t = run (commit warm call).0 meanwhile in
    commit t call ≡ (t, already (publication_of call outcome))
commit_retry_example =
    commit_retry warm call call meanwhile first_reply (tt, (tt, (tt, tt))) refl refl refl

abbrev between : List Event
between =
    result_expires 1 5 (codes "req-1")
    ∷ clears (record {
      round_id = 1;
      student_id = 5;
      request_id = codes "req-1";
      application_id = codes "app-1";
    })
    ∷ []

course_once_example :
    ((commit (run (commit warm call).0 between) second_call).0 ≡ run (commit warm call).0 between)
    × (is_recorded (commit (run (commit warm call).0 between) second_call).1 ≡ false)
course_once_example =
    course_once warm call second_call outcome second_outcome between refl first-is_recorded
      (tt, (tt, tt)) refl refl refl refl

call-Drops : Drops call outcome drop_call
call-Drops = record {
  same_round = refl;
  same_student = refl;
  same_class = refl;
  same_credits = refl;
}

release_undoes_commit_example : Undone warm (commit warm call).0 call drop_call
release_undoes_commit_example =
    release_undoes_commit warm call outcome drop_call refl first-is_recorded call-Drops refl
