-- ===== src/Enrollment/Stream.antt =====
-- internal/enrollment/async/selection_stream_consumer.go, with the scripts of
-- internal/platform/cache/cache.go that it calls on the Redis stream. The decoder of `encoding/json` is a
-- parameter. So is the persistence, which keeps a state of its own and answers a batch with an error or none;
-- `SaveSelectionResult` is its batch of one, as in internal/enrollment/infrastructure/persistence/mysql.go.
pub mod Batch
pub mod Settled
pub mod Worker
use course_forge.Prelude.{
  ℕ, Bool, true, false, not, ◌&&◌, ◌||◌, Option, none, some, List, [], ◌∷◌, ◌++◌, Text, codes,
  text_eq, any, is_empty, if◌then◌else◌, map,
}
use course_forge.Enrollment.Errors.{
  Err, not_found, conflict, round_in_use, term_mismatch, invalid_time_range,
  invalid_selection_round, round_already_warmed, teaching_class_not_editable, round_not_editable,
  round_term_locked, round_not_ready, round_configuration_empty, external, errors_is, error_text,
}
use course_forge.Enrollment.Selection.{SelectionResult, validate_result}
use course_forge.Enrollment.Payload.{SelectionResultPayload, to_domain}

-- A field of a stream message: a string; bytes, and what `fmt.Sprint` makes of them; another type by its name,
-- and its print.
pub data FieldValue : Type 0 where
  string_value : Text → FieldValue
  bytes_value other_value : Text → Text → FieldValue

pub record StreamMessage : Type 0 where
  pub id : Text
  pub values : List (Text × FieldValue)

unfoldable pub get_value : Text → List (Text × FieldValue) → Option FieldValue
get_value key [] = none
get_value key ((k, v) ∷ values) = if text_eq k key then some v else get_value key values

pub record DeadMessage : Type 0 where
  pub original_stream_id : Text
  pub event : Text
  pub error : Text

-- The messages that the stream still holds, which are redelivered, and the dead letter stream.
pub record Stream : Type 0 where
  pub entries : List StreamMessage
  pub dead : List DeadMessage

-- `XACK` and `XDEL` of some ids.
unfoldable pub delete_entries : List Text → List StreamMessage → List StreamMessage
delete_entries ids [] = []
delete_entries ids (m ∷ ms) =
    let rest = delete_entries ids ms in if any (λ i. text_eq i m.id) ids then rest else m ∷ rest

-- What becomes of a script that is sent to Redis: it runs; it does not; it runs, and its reply is lost.
pub data Call : Type 0 where
  ran not_ran reply_lost : Call

abbrev pub call_error : Call → Option Err
call_error ran = none
call_error not_ran = some (external (codes "redis"))
call_error reply_lost = some (external (codes "redis"))

-- `fmt.Sprint` of the value.
abbrev pub print_value : FieldValue → Text
print_value (string_value t) = t
print_value (bytes_value t printed) = printed
print_value (other_value type printed) = printed

abbrev pub printed_event : Option FieldValue → Text
printed_event none = []
printed_event (some v) = print_value v

unfoldable pub acknowledge_stream_messages : Call → Stream → List Text → Stream × Option Err
unfolding delete_entries
acknowledge_stream_messages c s [] = (s, none)
acknowledge_stream_messages not_ran s ids = (s, call_error not_ran)
acknowledge_stream_messages c s ids =
    (record s { entries = delete_entries ids s.entries }, call_error c)

unfoldable pub dead_letter_stream_message :
    Call → Stream → StreamMessage → Text → Stream × Option Err
unfolding delete_entries get_value
dead_letter_stream_message not_ran s m reason = (s, call_error not_ran)
dead_letter_stream_message c s m reason = (
  record {
    entries = delete_entries (m.id ∷ []) s.entries;
    dead =
        record {
          original_stream_id = m.id;
          event = printed_event (get_value (codes "event") m.values);
          error = reason;
        }
        ∷ s.dead;
  },
  call_error c,
)

-- Whether the error wraps an `xerr.CodeError`.
unfoldable pub is_code_error : Err → Bool
is_code_error not_found = false
is_code_error conflict = false
is_code_error round_in_use = false
is_code_error term_mismatch = false
is_code_error invalid_time_range = false
is_code_error invalid_selection_round = false
is_code_error round_already_warmed = false
is_code_error teaching_class_not_editable = false
is_code_error round_not_editable = false
is_code_error round_term_locked = false
is_code_error round_not_ready = false
is_code_error round_configuration_empty = false
is_code_error (external t) = false
is_code_error e = true

unfoldable pub is_retryable_selection_persistence_error : Option Err → Bool
unfolding is_code_error errors_is
is_retryable_selection_persistence_error none = false
is_retryable_selection_persistence_error (some e) =
    if is_code_error e
    then false
    else not (errors_is (some e) conflict) && not (errors_is (some e) not_found)

pub data Decoded : Type 0 where
  undecoded : Text → Decoded
  decoded : SelectionResult → Decoded

-- What follows the decoding of the body.
unfoldable pub validated : Option SelectionResult → Option Err → Decoded
unfolding error_text
validated r (some e) = undecoded (error_text e)
validated none none = undecoded []
validated (some r) none = decoded r

-- The parsed body, or the error's text.
pub data Unmarshalled : Type 0 where
  unreadable : Text → Unmarshalled
  readable : SelectionResultPayload → Unmarshalled

module _ (unmarshal : Text → Unmarshalled) where
  unfoldable pub decode_body : Unmarshalled → Decoded
  unfolding validated to_domain
  decode_body (unreadable t) = undecoded (codes "解析选课Stream结果: " ++ t)
  decode_body (readable p) = validated (to_domain (some p)) (validate_result (to_domain (some p)))

  unfoldable pub decode_value : Option FieldValue → Decoded
  unfolding decode_body
  decode_value none = undecoded (codes "选课Stream消息缺少event字段")
  decode_value (some (string_value t)) = decode_body (unmarshal t)
  decode_value (some (bytes_value t printed)) = decode_body (unmarshal t)
  decode_value (some (other_value type printed)) =
      undecoded (codes "选课Stream event字段类型非法: " ++ type)

  unfoldable pub decode_selection_stream_message : StreamMessage → Decoded
  unfolding decode_value get_value
  decode_selection_stream_message m = decode_value (get_value (codes "event") m.values)
