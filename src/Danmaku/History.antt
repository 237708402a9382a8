-- ===== src/Danmaku/History.antt =====
-- internal/danmaku/domain/model.go: the segments of a video's danmaku history, and what a video accepts.
-- Positions are milliseconds in `uint64`.
pub mod Segments
use Prim.Native.Nat.{◌/◌, ◌%◌}
use course_forge.Prelude.{
  ℕ, ◌+◌, ◌-◌, ◌*◌, Bool, true, false, not, ◌||◌, ◌&&◌, Option, none, some, Text, ltb, ◌==◌,
  if◌then◌else◌,
}

pub data DanmakuErr : Type 0 where
  invalid_danmaku video_not_playable video_duration_unavailable invalid_history_segment
        invalid_history_query :
      DanmakuErr

abbrev pub uint64_size : ℕ
uint64_size = 18_446_744_073_709_551_616

abbrev pub history_segment_duration_ms : ℕ
history_segment_duration_ms = 60_000

abbrev pub max_history_segment_index : ℕ
max_history_segment_index = (uint64_size - 1) / history_segment_duration_ms

pub record HistorySegment : Type 0 where
  pub index : ℕ
  pub start_ms : ℕ
  pub end_ms : ℕ

pub record HistoryQuery : Type 0 where
  pub video_id : ℕ
  pub segment : HistorySegment

-- An error, or a value.
pub data Checked {ℓ} (A : Type ℓ) : Type ℓ where
  refused : DanmakuErr → Checked A
  made : A → Checked A

-- The arithmetic is that of `uint64`; the guard leaves `index - 1` as it is.
unfoldable pub new_history_segment : ℕ → Checked HistorySegment
new_history_segment index =
    if index == 0 || ltb max_history_segment_index index
    then refused invalid_history_segment
    else made (record {
      index = index;
      start_ms = (index - 1) * history_segment_duration_ms % uint64_size;
      end_ms = index * history_segment_duration_ms % uint64_size;
    })

unfoldable pub history_segment_at : ℕ → Checked HistorySegment
unfolding new_history_segment
history_segment_at video_time_ms =
    new_history_segment ((video_time_ms / history_segment_duration_ms + 1) % uint64_size)

query_of : ℕ → Checked HistorySegment → Checked HistoryQuery
query_of video_id (refused e) = refused e
query_of video_id (made s) = made (record { video_id = video_id; segment = s })

unfoldable pub new_history_query : ℕ → ℕ → Checked HistoryQuery
unfolding query_of new_history_segment
new_history_query video_id segment_index =
    if video_id == 0
    then refused invalid_history_query
    else query_of video_id (new_history_segment segment_index)

pub data Status : Type 0 where
  visible hidden deleted : Status
  other_status : Text → Status

pub record Danmaku : Type 0 where
  pub id : ℕ
  pub video_id : ℕ
  pub student_id : ℕ
  pub client_message_id : Text
  pub video_time_ms : ℕ
  pub content : Text
  pub status : Status
  pub create_time : ℕ
  pub update_time : ℕ

pub data VideoKind : Type 0 where
  preview : VideoKind
  other_kind : Text → VideoKind

pub data VideoStatus : Type 0 where
  ready : VideoStatus
  other_video_status : Text → VideoStatus

pub record VideoTarget : Type 0 where
  pub id : ℕ
  pub kind : VideoKind
  pub status : VideoStatus
  pub duration_ms : Option ℕ

unfoldable pub is_preview : VideoKind → Bool
is_preview preview = true
is_preview k = false

unfoldable pub is_ready : VideoStatus → Bool
is_ready ready = true
is_ready s = false

unfoldable pub ensure_playable : VideoTarget → ℕ → Option DanmakuErr
unfolding is_preview is_ready
ensure_playable v video_id =
    if not (v.id == video_id)
    then some video_not_playable
    else if v.id == 0 || not (is_preview v.kind) || not (is_ready v.status)
    then some video_not_playable
    else none

within : Option DanmakuErr → Option ℕ → (ℕ → Option DanmakuErr) → Option DanmakuErr
within (some e) duration k = some e
within none none k = some video_duration_unavailable
within none (some d) k = k d

unfoldable pub ensure_accepts : VideoTarget → Danmaku → Option DanmakuErr
unfolding within ensure_playable
ensure_accepts v item =
    within (ensure_playable v item.video_id) v.duration_ms
      (λ d. if ltb d item.video_time_ms then some invalid_danmaku else none)

unfoldable pub ensure_readable_history : VideoTarget → ℕ → HistorySegment → Option DanmakuErr
unfolding within ensure_playable
ensure_readable_history v video_id s =
    within (ensure_playable v video_id) v.duration_ms
      (λ d. if s.index == 0 || ltb d s.start_ms then some invalid_history_segment else none)
