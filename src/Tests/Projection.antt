-- ===== src/Tests/Projection.antt =====
-- The theorems on the selection stream and its projection to MySQL, at one student.
use course_forge.Platform.Outbox.Event.{validate_new}
use course_forge.Prelude.{
  false, leb, ◌&&◌, if◌then◌else◌, zero, suc, ◌≤◌, length, ℕ, ◌≡◌, ◌⊎◌, ◌↔◌, inl, inr, refl, Bool,
  true, not, Option, none, some, List, [], ◌∷◌, ◌++◌, Text, codes, text_eq, is_empty, arith, All,
  byte_length, trim_space,
}
use course_forge.Prelude.Int.{pos, pos_part, neg_part, ◌+ℤ◌}
use course_forge.Enrollment.Errors.{Err, Result, ok}
use course_forge.Enrollment.Selection.{
  Credit, SelectionResult, web, selected, credit_valid, source_valid, validate_result,
}
use course_forge.Enrollment.Payload.{SelectionResultPayload, new_selection_result_payload}
use course_forge.Enrollment.Stream.{
  Stream, StreamMessage, string_value, Call, ran, Unmarshalled, unreadable, readable,
}
use course_forge.Enrollment.Stream.Batch.{process_batch}
use course_forge.Enrollment.Stream.Settled.{is_held, Accounted, nothing_lost}
use course_forge.Enrollment.Projection.Event.{same_complete_selection_result}
use course_forge.Enrollment.Projection.Quota.{QuotaRow}
use course_forge.Enrollment.Projection.Persist.{Database}
use course_forge.Enrollment.Projection.Save.{
  SelectionNotification, save_transaction, save_selection_results,
}
use course_forge.Enrollment.Projection.Fields.{same_complete_exact}
use course_forge.Enrollment.Projection.Limits.{IsWithin, save_selection_results-IsWithin}
use course_forge.Enrollment.Projection.Table.{IsFresh}
use course_forge.Enrollment.Projection.Kept.{IsCoded}
use course_forge.Enrollment.Projection.Twice.{save_transaction_twice}
use course_forge.Platform.Outbox.Event.{pending}
use course_forge.Enrollment.Stream.Worker.{
  ReadAnswer, read_some, read_more, read_new_batch, read_new_batch_bound,
}

abbrev taken_course : SelectionResult
taken_course = record {
  application_id = codes "a1";
  request_id = codes "r1";
  round_id = 1;
  term_id = 2;
  student_id = 7;
  course_id = 3;
  teaching_class_id = 4;
  credits = pos 20;
  source = web;
  state = selected;
  failure = none;
  applied_at = 5_000_000_000;
  completed_at = 6_000_000_000;
}

same_complete_exact_example :
    (same_complete_selection_result
        (some taken_course)
        (some (record taken_course { completed_at = 9 }))
      ≡ true)
    ↔ (taken_course ≡ record taken_course { completed_at = 9 })
same_complete_exact_example =
    same_complete_exact taken_course (record taken_course { completed_at = 9 })

abbrev taken_payload : SelectionResultPayload
taken_payload = record {
  application_id = codes "a1";
  request_id = codes "r1";
  round_id = 1;
  term_id = 2;
  student_id = 7;
  course_id = 3;
  teaching_class_id = 4;
  credits = pos 20;
  source = web;
  state = selected;
  failure = none;
  applied_at = 5_000_000_000;
  completed_at = 6_000_000_000;
}

-- A decoder that reads `{}` as the one payload.
abbrev unmarshal : Text → Unmarshalled
unmarshal [] = unreadable (codes "unexpected end of JSON input")
unmarshal (c ∷ t) = readable taken_payload

abbrev readable_message : StreamMessage
readable_message = record {
  id = codes "1-0";
  values = (codes "event", string_value (codes "{}")) ∷ [];
}

abbrev empty_message : StreamMessage
empty_message = record { id = codes "2-0"; values = [] }

abbrev all_run : List Text → Call
all_run ids = ran

abbrev save : List SelectionResult → List SelectionResult → List SelectionResult × Option Err
save db rs = (rs ++ db, none)

abbrev Stored : List SelectionResult → SelectionResult → Type 0
Stored [] r = ⊥
Stored (x ∷ xs) r = (r ≡ x) ⊎ Stored xs r

Stored-append :
    (rs db : List SelectionResult) (r : SelectionResult) → Stored db r → Stored (rs ++ db) r
Stored-append [] db r h = h
Stored-append (x ∷ rs) db r h = inr (Stored-append rs db r h)

save-keeps :
    (db rs : List SelectionResult) (r : SelectionResult) → Stored db r → Stored (save db rs).0 r
save-keeps db rs r h = Stored-append rs db r h

All-Stored :
    (pre rs db : List SelectionResult)
    → ((x : SelectionResult) → Stored (rs ++ db) x → Stored pre x)
    → All (Stored pre) rs
All-Stored pre [] db h = tt
All-Stored pre (r ∷ rs) db h = (h r (inl refl), All-Stored pre rs db (λ x s. h x (inr s)))

save-Stored :
    (db rs : List SelectionResult) → (save db rs).1 ≡ none → All (Stored (save db rs).0) rs
save-Stored db rs h = All-Stored (rs ++ db) rs db (λ x s. s)

abbrev OfBatch : StreamMessage → Type 0
OfBatch m = (m ≡ readable_message) ⊎ (m ≡ empty_message)

abbrev stream : Stream
stream = record { entries = readable_message ∷ empty_message ∷ []; dead = [] }

is_delivered : is_held (codes "2-0") stream ≡ true
unfolding text_eq
is_delivered = refl

nothing_lost_example :
    let after =
      process_batch all_run save unmarshal [] stream (readable_message ∷ empty_message ∷ []) in
    Accounted unmarshal all_run save Stored save-keeps save-Stored OfBatch
      (codes "2-0")
      after.0
      after.1
nothing_lost_example =
    nothing_lost unmarshal all_run save Stored save-keeps save-Stored OfBatch (codes "2-0") []
      stream (readable_message ∷ empty_message ∷ []) (inl refl, (inr refl, tt)) is_delivered

abbrev quota : QuotaRow
quota = record {
  round_id = 1;
  student_id = 7;
  selected_credits = pos 10;
  selected_course_count = 1;
  credit_limit = pos 250;
  course_limit = 8;
}

abbrev database : Database
database = record {
  events = [];
  quotas = quota ∷ [];
  applications = [];
  enrollments = [];
  deltas = [];
  outbox = record { rows = []; next_id = 1 };
}

abbrev json_valid : Text → Bool
json_valid t = not (is_empty t)

-- An amount of at most four digits before the point is kept.
abbrev cast_decimal : Credit → Option Credit
cast_decimal c = if leb (pos_part c) 99_999 && leb (neg_part c) 99_999 then some c else none

abbrev encode : SelectionNotification → Text
encode n = codes "{}"

abbrev new_id : ℕ → Result Text
new_id n = ok (codes "id")

abbrev marshal : Option SelectionResultPayload → Text
marshal p = codes "{}"

abbrev clear : List (Option SelectionResult) → Option Err
clear rs = none

save_selection_results-IsWithin_example :
    All IsWithin
      (save_selection_results cast_decimal json_valid encode new_id 50_000_000 marshal unmarshal
        clear database
        (some taken_course ∷ [])).0.quotas
save_selection_results-IsWithin_example =
    save_selection_results-IsWithin cast_decimal json_valid encode new_id 50_000_000 marshal
      unmarshal clear database (some taken_course ∷ [])
      ((omega arith, (omega arith, omega arith)), tt)

is_saved :
    (save_selection_results cast_decimal json_valid encode new_id 50_000_000 marshal unmarshal clear
      database
      (some taken_course ∷ [])).0.quotas
    ≡ record quota { selected_credits = pos 30; selected_course_count = 2 } ∷ []
unfolding save_selection_results validate_result trim_space byte_length credit_valid source_valid
    text_eq ◌+ℤ◌ validate_new
is_saved = refl

is_clean :
    (save_selection_results cast_decimal json_valid encode new_id 50_000_000 marshal unmarshal clear
      database
      (some taken_course ∷ [])).1
    ≡ none
unfolding save_selection_results validate_result trim_space byte_length credit_valid source_valid
    text_eq ◌+ℤ◌ validate_new
is_clean = refl

is_coded : IsCoded marshal unmarshal taken_course
unfolding new_selection_result_payload
is_coded = (taken_payload, refl, refl)

-- The tables after the first transaction.
abbrev database_after : Database
database_after = record {
  events =
      record {
        event_id = codes "selection:7:a1";
        application_id = codes "a1";
        student_id = 7;
        event_type = selected;
        event_payload = codes "{}";
        occurred_at = 6_000_000_000;
        consume_batch_id = codes "b1";
        create_time = 50_000_000;
      }
      ∷ [];
  quotas = record quota { selected_credits = pos 30; selected_course_count = 2 } ∷ [];
  applications =
      record {
        application_id = codes "a1";
        request_id = codes "r1";
        round_id = 1;
        term_id = 2;
        student_id = 7;
        course_id = 3;
        teaching_class_id = 4;
        credits = pos 20;
        state = selected;
        failure = none;
        applied_at = 5_000_000_000;
        completed_at = 6_000_000_000;
        source = web;
        create_time = 50_000_000;
        update_time = 50_000_000;
      }
      ∷ [];
  enrollments =
      record {
        enrollment_id = codes "id";
        application_id = codes "a1";
        term_id = 2;
        student_id = 7;
        course_id = 3;
        teaching_class_id = 4;
        credits = pos 20;
        state = codes "enrolled";
        active_key = codes "2:7:3";
        enrolled_at = 6_000_000_000;
        create_time = 50_000_000;
        update_time = 50_000_000;
      }
      ∷ [];
  deltas =
      record {
        event_id = codes "selection:7:a1";
        teaching_class_id = 4;
        delta = 1;
        create_time = 6_000_000_000;
      }
      ∷ [];
  outbox = record {
    rows =
        record {
          id = 1;
          event_id = codes "selection:7:a1";
          aggregate_type = codes "selection_application";
          aggregate_id = codes "a1";
          topic = codes "enrollment.selection.notification";
          event_type = codes "selection.result.persisted";
          payload = codes "{}";
          state = pending;
          retry_count = 0;
          next_retry_at = 50_000_000;
          published_at = none;
          last_error = [];
          create_time = 50_000_000;
          update_time = 50_000_000;
        }
        ∷ [];
    next_id = 2;
  };
}

committed_once :
    save_transaction cast_decimal json_valid encode new_id 50_000_000 marshal unmarshal
      (codes "b1")
      database
      (taken_course ∷ [])
    ≡ ok database_after
unfolding save_transaction text_eq ◌+ℤ◌ validate_new trim_space byte_length
committed_once = refl

is_new_batch : IsFresh (codes "b2") database_after.events
unfolding text_eq
is_new_batch = (refl, tt)

save_transaction_twice_example :
    save_transaction cast_decimal json_valid encode new_id 90 marshal unmarshal
      (codes "b2")
      database_after
      (taken_course ∷ [])
    ≡ ok database_after
save_transaction_twice_example =
    save_transaction_twice cast_decimal json_valid encode new_id new_id 50_000_000 90 marshal
      unmarshal (codes "b1") (codes "b2") database database_after (taken_course ∷ []) tt tt
      is_new_batch (refl, tt) (is_coded, tt) committed_once

-- Redis with a message for every read.
abbrev one_each : ℕ → ℕ → ReadAnswer
one_each n zero = read_some []
one_each n (suc count) = read_some (readable_message ∷ [])

one_at_most :
    (n count : ℕ) (messages : List StreamMessage)
    → one_each n count ≡ read_some messages
    → length messages ≤ count
one_at_most n zero [] h = omega arith
one_at_most n zero (m ∷ messages) h = absurd cc
one_at_most n (suc count) [] h = omega arith
one_at_most n (suc count) (m ∷ []) h = omega arith
one_at_most n (suc count) (m ∷ (k ∷ messages)) h = absurd cc

abbrev in_time : ℕ → Bool
in_time n = false

read_new_batch_bound_example :
    (length (read_new_batch 3 one_each in_time).0 ≤ 3)
    × ((n : ℕ) (messages : List StreamMessage)
        → read_more 3 one_each in_time 4 n messages ≡ read_more 3 one_each in_time 3 n messages)
read_new_batch_bound_example = read_new_batch_bound 3 one_each in_time one_at_most

three_read :
    (read_new_batch 3 one_each in_time).0
    ≡ readable_message ∷ readable_message ∷ readable_message ∷ []
unfolding read_new_batch
three_read = refl
