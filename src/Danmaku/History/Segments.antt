-- ===== src/Danmaku/History/Segments.antt =====
-- The segments of a danmaku history (internal/danmaku/domain/model.go) cut the positions of a video.
use Prim.Native.Nat.{◌/◌, ◌%◌}
use course_forge.Prelude.{ℕ, ◌+◌, ◌*◌, ◌≤◌, ◌<◌, ◌≡◌, none, arith}
use course_forge.Danmaku.History.{
  uint64_size, HistorySegment, made, new_history_segment, history_segment_at, Danmaku, VideoTarget,
  ensure_accepts, ensure_readable_history,
}

segment_fields :
    (i : ℕ) {s : HistorySegment}
    → new_history_segment i ≡ made s
    → (s.index ≡ i) × (s.start_ms + 60_000 ≡ i * 60_000) × (s.end_ms ≡ i * 60_000) × (0 < i)
unfolding new_history_segment
segment_fields i h = (ground arith, ground arith, ground arith, ground arith)

same_segment :
    (r s : HistorySegment)
    → r.index ≡ s.index
    → r.start_ms ≡ s.start_ms
    → r.end_ms ≡ s.end_ms
    → r ≡ s
same_segment r s p q u = ground arith

-- The segment at a position contains it, whose start counts and whose end does not, and every segment
-- that contains the position is that one.
pub history_segment_at-contains :
    (t i : ℕ) {s r : HistorySegment}
    → t < uint64_size
    → history_segment_at t ≡ made s
    → new_history_segment i ≡ made r
    → (s.start_ms ≤ t) × (t < s.end_ms) × (r.start_ms ≤ t → t < r.end_ms → r ≡ s)
unfolding history_segment_at
history_segment_at-contains t i {s} {r} b h k =
    let (a, c, d, e) = segment_fields ((t / 60_000 + 1) % uint64_size) h in
    let (a', c', d', e') = segment_fields i k in
    (omega arith, omega arith, λ p q. same_segment r s (omega arith) (omega arith) (omega arith))

-- The history of every position at which a video accepts a danmaku can be read, where the position has a
-- segment.
pub accepted_readable :
    (v : VideoTarget) (item : Danmaku) {s : HistorySegment}
    → item.video_time_ms < uint64_size
    → history_segment_at item.video_time_ms ≡ made s
    → ensure_accepts v item ≡ none
    → ensure_readable_history v item.video_id s ≡ none
unfolding history_segment_at ensure_accepts ensure_readable_history
accepted_readable v item b h k =
    let (a, c, d, e) = segment_fields ((item.video_time_ms / 60_000 + 1) % uint64_size) h in
    ground arith
