-- ===== src/Tests/Media.antt =====
-- The theorems on course videos and danmaku histories, at one of each.
use course_forge.Prelude.{
  ◌≤◌, ◌<◌, ◌≡◌, refl, true, none, some, List, [], ◌∷◌, codes, arith, text_eq,
}
use course_forge.Prelude.Int.{pos}
use course_forge.Catalog.Video.{
  preview, uploading, pending, CourseVideo, CourseVideoUpload, upload_not_completable,
  ensure_completes, answered, prepare_cleanup,
}
use course_forge.Catalog.Video.Cleanup.{
  UploadOperation, promotes, finalizes, run, IsRevoked, Unplayed, cleanup_safe,
}
use course_forge.Danmaku.History
use course_forge.Danmaku.History.Segments.{history_segment_at-contains}

abbrev video : CourseVideo
video = record {
  id = 4;
  course_id = 3;
  kind = preview;
  title = codes "intro";
  object_key = codes "k1";
  status = uploading;
  sort_order = 0;
  duration_ms = none;
  create_time = 0;
  update_time = 0;
}

abbrev upload : CourseVideoUpload
upload = record {
  id = 8;
  course_video_id = 4;
  object_key = codes "k1";
  multipart_upload_id = codes "m1";
  file_size = pos 100;
  status = pending;
  expires_at = 50;
  create_time = 0;
  update_time = 0;
}

is_prepared : (prepare_cleanup upload (some video) 60).1 ≡ answered true
unfolding prepare_cleanup text_eq
is_prepared = refl

abbrev later_operations : List UploadOperation
later_operations = promotes ∷ finalizes (codes "k1") ∷ promotes ∷ []

cleanup_safe_example :
    Unplayed (prepare_cleanup upload (some video) 60).0.1 (codes "k1")
    × IsRevoked (run (prepare_cleanup upload (some video) 60).0.0 later_operations)
    × (ensure_completes (run (prepare_cleanup upload (some video) 60).0.0 later_operations) video
        ≡ some upload_not_completable)
cleanup_safe_example = cleanup_safe upload (some video) 60 later_operations video is_prepared

abbrev second_minute : History.HistorySegment
second_minute = record { index = 2; start_ms = 60_000; end_ms = 120_000 }

segment_found : History.history_segment_at 61_500 ≡ History.made second_minute
unfolding History.history_segment_at
segment_found = refl

segment_made : History.new_history_segment 2 ≡ History.made second_minute
unfolding History.new_history_segment
segment_made = refl

history_segment_at-contains_example :
    (60_000 ≤ 61_500)
    × (61_500 < 120_000)
    × (60_000 ≤ 61_500 → 61_500 < 120_000 → second_minute ≡ second_minute)
history_segment_at-contains_example =
    history_segment_at-contains 61_500 2 (ground arith) segment_found segment_made

abbrev target : History.VideoTarget
target = record {
  id = 4;
  kind = History.VideoKind.preview;
  status = History.VideoStatus.ready;
  duration_ms = some 90_000;
}

abbrev item : History.Danmaku
item = record {
  id = 0;
  video_id = 4;
  student_id = 5;
  client_message_id = codes "c1";
  video_time_ms = 61_500;
  content = codes "hello";
  status = History.visible;
  create_time = 0;
  update_time = 0;
}

target_accepts : History.ensure_accepts target item ≡ none
unfolding History.ensure_accepts
target_accepts = refl
