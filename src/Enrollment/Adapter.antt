-- ===== src/Enrollment/Adapter.antt =====
-- `CommitSelection` of internal/enrollment/infrastructure/persistence/redis.go around its script, and the
-- publication that it returns (application/records.go, persistence/serialization.go). Either call
-- of Redis may fail; JSON decodes what it encoded.
pub mod Replies
use Prim.Native.Nat.{◌/◌}
use course_forge.Prelude.{
  ℕ, Bool, true, false, not, ◌||◌, ◌&&◌, Option, none, some, Text, codes, text_eq, trim_space,
  is_empty, ◌==◌, if◌then◌else◌,
}
use course_forge.Prelude.Int.{ℤ, pos, eqb_ℤ, ◌-ℤ◌}
use course_forge.Enrollment.Errors.{
  Err, invalid_params, invalid_application_state, round_not_open, idempotency_conflict,
  application_in_progress, credit_quota_exceeded, course_quota_exceeded, duplicate_selection,
  teaching_class_full, schedule_conflict, teaching_class_not_open, eligibility_not_met, external,
  Result, ok, err, ◌>>◌, ◌>>=◌,
}
use course_forge.Enrollment.Selection.{SelectionResult, validate_result, source_eq}
use course_forge.Enrollment.Store.{
  Store, encoded, PublicationPayload, StoredPublication, garbled_publication, publication,
}
use course_forge.Enrollment.Commit.{
  Call, Reply, recorded, already, busy, refused, Refusal, commit, is_selected,
}

-- `time.Time.UnixMilli` of an instant in nanoseconds since Go's zero time.
unfoldable pub unix_milli : ℕ → ℤ
unix_milli t = pos (t / 1_000_000) -ℤ pos 62_135_596_800_000

pub record Publication : Type 0 where
  pub stream_id : Text
  pub stream_recorded : Bool
  pub durably_persisted : Bool
  pub result : Option SelectionResult

legacy : Option Bool → Bool
legacy none = false
legacy (some b) = b

unfoldable pub to_application : PublicationPayload → Publication
unfolding legacy
to_application p = record {
  stream_id = p.stream_id;
  stream_recorded = p.stream_recorded || legacy p.broker_confirmed;
  durably_persisted = p.mysql_persisted;
  result = p.result;
}

abbrev is_nil : Option SelectionResult → Bool
is_nil none = true
is_nil (some r) = false

unfoldable pub validate_publication : Publication → Option Err
validate_publication p =
    if is_empty (trim_space p.stream_id) || not p.stream_recorded || is_nil p.result
    then some invalid_params
    else validate_result p.result

unfoldable pub decode_publication : StoredPublication → Result Publication
unfolding to_application validate_publication
decode_publication (garbled_publication t) = err (external t)
decode_publication (publication p) =
    validate_publication (to_application p) >> ok (to_application p)

unfoldable pub same_selection_fingerprint : Option SelectionResult → SelectionResult → Bool
same_selection_fingerprint none expected = false
same_selection_fingerprint (some actual) expected =
    text_eq actual.request_id expected.request_id
    && actual.round_id == expected.round_id
    && actual.term_id == expected.term_id
    && actual.student_id == expected.student_id
    && actual.course_id == expected.course_id
    && actual.teaching_class_id == expected.teaching_class_id
    && eqb_ℤ actual.credits expected.credits
    && source_eq actual.source expected.source

unfoldable pub accept_publication : StoredPublication → SelectionResult → Result Publication
unfolding decode_publication same_selection_fingerprint
accept_publication stored result = do
  p ← decode_publication stored
  if not (same_selection_fingerprint p.result result) then err idempotency_conflict else ok p

-- The switch on a negative status.
unfoldable pub refusal_error : Refusal → Err
refusal_error Refusal.not_ready = round_not_open
refusal_error Refusal.closed = round_not_open
refusal_error Refusal.no_credit = credit_quota_exceeded
refusal_error Refusal.no_course_quota = course_quota_exceeded
refusal_error Refusal.duplicate = duplicate_selection
refusal_error Refusal.no_seat = teaching_class_full
refusal_error Refusal.clash = schedule_conflict
refusal_error Refusal.class_mismatch = teaching_class_not_open
refusal_error Refusal.ineligible = eligibility_not_met
refusal_error Refusal.illegal = external (codes "Redis选课提交数据非法")

unfoldable pub interpret_reply : Reply → SelectionResult → Result Publication
unfolding accept_publication refusal_error
interpret_reply (recorded p) result = accept_publication p result
interpret_reply (already p) result = accept_publication p result
interpret_reply (busy d) result = err application_in_progress
interpret_reply (refused why) result = err (refusal_error why)

-- The version that the round's index is active under; an empty one does not count.
unfoldable pub ready_version : Option Text → Option Text
ready_version none = none
ready_version (some v) = if is_empty v then none else some v

unfoldable pub call_for : SelectionResult → Text → Text → Call
unfolding unix_milli
call_for result version stream_id = record {
  round_id = result.round_id;
  student_id = result.student_id;
  teaching_class_id = result.teaching_class_id;
  application_id = result.application_id;
  request_id = result.request_id;
  document = encoded result;
  version = version;
  now_ms = unix_milli result.completed_at;
  stream_id = stream_id;
}

-- What becomes of a script that is sent to Redis: it runs and is answered; it does not run; it runs and its
-- reply is lost. The text is that of the error.
pub data Sent : Type 0 where
  answered : Sent
  not_run reply_lost : Text → Sent

-- Redis in the two calls of `CommitSelection`: the error of reading the version, what becomes of the script,
-- and the stream id that the script would get.
pub record Wire : Type 0 where
  pub version_error : Option Text
  pub script : Sent
  pub stream_id : Text

-- The error behind `Eval`, and the switch behind it.
unfoldable pub after_script :
    Sent → Store → Store × Reply → SelectionResult → Store × Result Publication
unfolding interpret_reply
after_script answered s (t, reply) result = (t, interpret_reply reply result)
after_script (not_run e) s (t, reply) result = (s, err (external e))
after_script (reply_lost e) s (t, reply) result = (t, err (external e))

submit : Option Text → Store → SelectionResult → Wire → Store × Result Publication
unfolding after_script call_for
submit none s result wire = (s, err round_not_open)
submit (some version) s result wire =
    after_script wire.script s (commit s (call_for result version wire.stream_id)) result

-- Behind `activeVersion`, with its error and its answer.
submit_version :
    Option Text → Option Text → Store → SelectionResult → Wire → Store × Result Publication
unfolding submit
submit_version (some e) version s result wire = (s, err (external e))
submit_version none version s result wire = submit version s result wire

-- Behind `result.Validate()`.
submit_valid : Option Err → Store → SelectionResult → Wire → Store × Result Publication
unfolding submit_version is_selected ready_version
submit_valid (some e) s result wire = (s, err e)
submit_valid none s result wire =
    if not (is_selected result.state)
    then (s, err invalid_application_state)
    else submit_version wire.version_error (ready_version (s.active_version result.round_id)) s
        result wire

-- The receiver's store, the result, and how Redis is reached.
unfoldable pub commit_selection : Store → SelectionResult → Wire → Store × Result Publication
unfolding submit_valid
commit_selection s result wire = submit_valid (validate_result (some result)) s result wire
