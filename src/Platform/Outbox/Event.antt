-- ===== src/Platform/Outbox/Event.antt =====
-- internal/platform/outbox/model.go and error.go: outbox events and their validation. A payload is its text;
-- `json.Valid` of the standard library is a parameter.
use course_forge.Prelude.{
  ℕ, Bool, true, false, not, ◌||◌, Option, none, some, Text, codes, trim_space, byte_length,
  is_empty, ltb, ◌==◌, if◌then◌else◌,
}

pub data State : Type 0 where
  pending publishing published failed : State
  other_state : Text → State

unfoldable pub state_valid : State → Bool
state_valid (other_state t) = false
state_valid s = true

-- A row of `outbox_event`, and the `Event` that it is read into.
pub record Event : Type 0 where
  pub id : ℕ
  pub event_id : Text
  pub aggregate_type : Text
  pub aggregate_id : Text
  pub topic : Text
  pub event_type : Text
  pub payload : Text
  pub state : State
  pub retry_count : ℕ
  pub next_retry_at : ℕ
  pub published_at : Option ℕ
  pub last_error : Text
  pub create_time : ℕ
  pub update_time : ℕ

pub record NewEvent : Type 0 where
  pub event_id : Text
  pub aggregate_type : Text
  pub aggregate_id : Text
  pub topic : Text
  pub event_type : Text
  pub payload : Text

pub data EventErr : Type 0 where
  new_event_required event_required event_id_missing invalid_event_state incomplete_event_identity
        event_identity_too_long invalid_event_payload :
      EventErr

unfoldable pub event_error_text : EventErr → Text
event_error_text new_event_required = codes "待写入的发件箱事件不能为空"
event_error_text event_required = codes "发件箱事件不能为空"
event_error_text event_id_missing = codes "发件箱事件编号缺失"
event_error_text invalid_event_state = codes "发件箱事件状态不合法"
event_error_text incomplete_event_identity = codes "发件箱事件标识信息不完整"
event_error_text event_identity_too_long = codes "发件箱事件标识信息超出数据库字段长度限制"
event_error_text invalid_event_payload = codes "发件箱事件载荷格式不合法"

module _ (json_valid : Text → Bool) where
  unfoldable pub validate_content : Text → Text → Text → Text → Text → Text → Option EventErr
  validate_content event_id aggregate_type aggregate_id topic event_type payload =
      if is_empty (trim_space event_id)
        || is_empty (trim_space aggregate_type)
        || is_empty (trim_space aggregate_id)
        || is_empty (trim_space topic)
        || is_empty (trim_space event_type)
      then some incomplete_event_identity
      else if ltb 64 (byte_length event_id)
          || ltb 32 (byte_length aggregate_type)
          || ltb 64 (byte_length aggregate_id)
          || ltb 64 (byte_length topic)
          || ltb 32 (byte_length event_type)
      then some event_identity_too_long
      else if is_empty payload || not (json_valid payload)
      then some invalid_event_payload
      else none

  unfoldable pub validate_new : Option NewEvent → Option EventErr
  unfolding validate_content
  validate_new none = some new_event_required
  validate_new (some e) =
      validate_content e.event_id e.aggregate_type e.aggregate_id e.topic e.event_type e.payload

  unfoldable pub validate_event : Option Event → Option EventErr
  unfolding validate_content state_valid
  validate_event none = some event_required
  validate_event (some e) =
      if e.id == 0
      then some event_id_missing
      else if not (state_valid e.state)
      then some invalid_event_state
      else validate_content e.event_id e.aggregate_type e.aggregate_id e.topic e.event_type
          e.payload
