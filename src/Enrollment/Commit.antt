-- ===== src/Enrollment/Commit.antt =====
-- commitSelectionScript of internal/enrollment/infrastructure/persistence/redis.go: the checks in their
-- order, and the writes behind them. The stream id of `XADD … '*'` is Redis' choice, an argument here.
pub mod Effects
use course_forge.Prelude.{
  ℕ, Bool, true, false, not, ◌||◌, ◌&&◌, Option, none, some, List, [], ◌∷◌, ◌++◌, Text, text_eq,
  ◌==◌, is_empty, any, if◌then◌else◌,
}
use course_forge.Prelude.Int.{ℤ, pos, is_pos, ltb_ℤ, eqb_ℤ}
use course_forge.Enrollment.Selection.{ApplicationState, selected, SelectionResult}
use course_forge.Enrollment.Store.{
  Store, RoundHash, ClassHash, Counter, Document, garbled, encoded, PublicationPayload,
  StoredPublication, publication, put, put_text, put_two, put_three, has_id, has_course, set_course,
  slot_count, add_slot, sentinel, is_absent, read_number, take_from,
}

-- The arguments of the script; its keys are made of the same ids.
pub record Call : Type 0 where
  pub round_id : ℕ
  pub student_id : ℕ
  pub teaching_class_id : ℕ
  pub application_id : Text
  pub request_id : Text
  pub document : Document
  pub version : Text
  pub now_ms : ℤ
  pub stream_id : Text

-- The script's negative statuses, -1 to -10, and its replies: 0 and 1 with the publication, 2 with the
-- pending document.
pub data Refusal : Type 0 where
  not_ready no_credit no_course_quota duplicate no_seat illegal clash closed class_mismatch
        ineligible :
      Refusal

pub data Reply : Type 0 where
  recorded already : StoredPublication → Reply
  busy : Document → Reply
  refused : Refusal → Reply

unfoldable pub is_selected : ApplicationState → Bool
is_selected selected = true
is_selected s = false

-- The test of the decoded result against the arguments, and of its credits.
unfoldable pub result_mismatch : Call → SelectionResult → Bool
unfolding is_selected
result_mismatch c r =
    not (text_eq r.application_id c.application_id)
    || not (text_eq r.request_id c.request_id)
    || not (is_selected r.state)
    || not (r.teaching_class_id == c.teaching_class_id)
    || not (is_pos r.credits)

-- `GET key == expected`.
unfoldable pub version_is : Option Text → Text → Bool
version_is none v = false
version_is (some w) v = text_eq w v

unfoldable pub outside_round : Option ℤ → Option ℤ → Option ℤ → ℤ → ℕ → Bool
outside_round (some term) (some start) (some end) now term_id =
    ltb_ℤ now start || not (ltb_ℤ now end) || not (eqb_ℤ (pos term_id) term)
outside_round term start end now term_id = true

unfoldable pub other_class : Option ℤ → Option ℤ → SelectionResult → Bool
other_class (some course) (some credits) r =
    not (eqb_ℤ (pos r.course_id) course) || not (eqb_ℤ r.credits credits)
other_class course credits r = true

unfoldable pub any_clash : List Text → List (Text × ℤ) → Bool
any_clash slots schedule =
    any (λ slot. not (text_eq slot sentinel) && is_pos (slot_count slot schedule)) slots

-- The three remaining amounts, then the schedule.
unfoldable pub amounts_refuse : Option ℤ → Option ℤ → Option ℤ → ℤ → Bool → Option Refusal
amounts_refuse (some credit) (some course) (some seat) credits clashes =
    if ltb_ℤ credit credits
    then some no_credit
    else if not (is_pos course)
    then some no_course_quota
    else if not (is_pos seat)
    then some no_seat
    else if clashes
    then some clash
    else none
amounts_refuse credit course seat credits clashes = some illegal

-- Everything that is checked once no result and no pending application stand in the way.
unfoldable pub refusal : Store → Call → SelectionResult → Option Refusal
unfolding version_is outside_round other_class any_clash amounts_refuse
refusal s c r =
    let round = s.round_snapshot c.round_id c.version in
    let class = s.class_snapshot c.round_id c.version c.teaching_class_id in
    let members = s.eligible c.round_id c.version c.student_id in
    let courses = s.selected_courses c.round_id c.student_id in
    let credit = s.credit c.round_id c.student_id in
    let quota = s.course_quota c.round_id c.student_id in
    let seat = s.seat c.teaching_class_id in
    let slots = s.class_schedule c.teaching_class_id in
    let schedule = s.student_schedule c.round_id c.student_id in
    if not (version_is (s.active_version c.round_id) c.version)
      || not (version_is (s.open_version c.round_id) c.version)
    then some closed
    else if outside_round round.term_id round.start_ms round.end_ms c.now_ms r.term_id
    then some closed
    else if other_class class.course_id class.credits r
    then some class_mismatch
    else if is_empty members || not (has_id c.teaching_class_id members)
    then some ineligible
    else if has_course r.course_id courses
    then some duplicate
    else if is_absent credit
        || is_absent quota
        || is_absent seat
        || is_empty slots
        || is_empty schedule
        || is_empty courses
    then some not_ready
    else amounts_refuse (read_number credit) (read_number quota) (read_number seat) r.credits
        (any_clash slots schedule)

unfoldable pub add_slots : List Text → ℤ → List (Text × ℤ) → List (Text × ℤ)
add_slots [] d schedule = schedule
add_slots (slot ∷ slots) d schedule =
    add_slots slots d (if not (text_eq slot sentinel) then add_slot slot d schedule else schedule)

unfoldable pub publication_of : Call → SelectionResult → StoredPublication
publication_of c r = publication (record {
  stream_id = c.stream_id;
  stream_recorded = true;
  broker_confirmed = none;
  mysql_persisted = false;
  result = some r;
})

-- The writes of the script.
unfoldable pub record_selection : Store → Call → SelectionResult → Store
unfolding add_slots publication_of
record_selection s c r = record s {
  credit =
      put_two s.credit c.round_id c.student_id
        (take_from (s.credit c.round_id c.student_id) r.credits);
  course_quota =
      put_two s.course_quota c.round_id c.student_id
        (take_from (s.course_quota c.round_id c.student_id) (pos 1));
  seat = put s.seat c.teaching_class_id (take_from (s.seat c.teaching_class_id) (pos 1));
  selected_courses =
      put_two s.selected_courses c.round_id c.student_id
        (set_course r.course_id c.application_id (s.selected_courses c.round_id c.student_id));
  student_schedule = put_two s.student_schedule c.round_id c.student_id (
      add_slots (s.class_schedule c.teaching_class_id) (pos 1)
        (s.student_schedule c.round_id c.student_id));
  stream = s.stream ++ (c.stream_id, c.document) ∷ [];
  pending = put_two s.pending c.round_id c.student_id (some c.document);
  request_result =
      put_three s.request_result c.round_id c.student_id c.request_id (some (publication_of c r));
  application = put_text s.application c.application_id (some (publication_of c r));
}

unfoldable pub decide : Option Refusal → Store → Call → SelectionResult → Store × Reply
unfolding record_selection
decide (some why) s c r = (s, refused why)
decide none s c r = (record_selection s c r, recorded (publication_of c r))

unfoldable pub on_pending : Option Document → Store → Call → SelectionResult → Store × Reply
unfolding decide refusal
on_pending none s c r = decide (refusal s c r) s c r
on_pending (some (garbled t)) s c r = (s, busy (garbled t))
on_pending (some (encoded p)) s c r =
    (s, if not (text_eq p.request_id c.request_id) then busy (encoded p) else refused illegal)

unfoldable pub on_document : Document → Store → Call → Store × Reply
unfolding on_pending result_mismatch
on_document (garbled t) s c = (s, refused illegal)
on_document (encoded r) s c =
    if result_mismatch c r
    then (s, refused illegal)
    else on_pending (s.pending c.round_id c.student_id) s c r

unfoldable pub on_completed : Option StoredPublication → Store → Call → Store × Reply
unfolding on_document
on_completed (some p) s c = (s, already p)
on_completed none s c = on_document c.document s c

unfoldable pub commit : Store → Call → Store × Reply
unfolding on_completed
commit s c = on_completed (s.request_result c.round_id c.student_id c.request_id) s c
