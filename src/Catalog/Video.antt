-- ===== src/Catalog/Video.antt =====
-- internal/catalog/domain/model.go: course videos and the uploads of their objects. Instants are counted
-- from Go's zero time; a method that changes its receiver takes one that is not nil.
pub mod Cleanup
use course_forge.Prelude.{
  ℕ, Bool, true, false, not, ◌||◌, ◌&&◌, Option, none, some, Text, text_eq, trim_space, is_empty,
  ltb, leb, ◌==◌, if◌then◌else◌,
}
use course_forge.Prelude.Int.{ℤ, is_pos}

pub data VideoErr : Type 0 where
  invalid_course_video video_not_uploadable video_not_playable upload_not_completable
        object_still_in_use :
      VideoErr

pub data VideoKind : Type 0 where
  preview lesson : VideoKind
  other_kind : Text → VideoKind

pub data VideoStatus : Type 0 where
  uploading ready failed_video : VideoStatus
  other_video_status : Text → VideoStatus

pub data UploadStatus : Type 0 where
  pending promoted failed cleaned : UploadStatus
  other_upload_status : Text → UploadStatus

pub record CourseVideo : Type 0 where
  pub id : ℕ
  pub course_id : ℕ
  pub kind : VideoKind
  pub title : Text
  pub object_key : Text
  pub status : VideoStatus
  pub sort_order : ℕ
  pub duration_ms : Option ℕ
  pub create_time : ℕ
  pub update_time : ℕ

pub record CourseVideoUpload : Type 0 where
  pub id : ℕ
  pub course_video_id : ℕ
  pub object_key : Text
  pub multipart_upload_id : Text
  pub file_size : ℤ
  pub status : UploadStatus
  pub expires_at : ℕ
  pub create_time : ℕ
  pub update_time : ℕ

-- `status != pending`, as the error that several methods make of it.
unfoldable pub ensure_pending : UploadStatus → Option VideoErr
ensure_pending pending = none
ensure_pending s = some upload_not_completable

abbrev pub passes : Option VideoErr → Bool
passes none = true
passes (some e) = false

unfoldable pub new_course_video_upload :
    ℕ → Text → Text → ℤ → ℕ → Option CourseVideoUpload × Option VideoErr
new_course_video_upload course_video_id object_key multipart_upload_id file_size expires_at =
    let key = trim_space object_key in
    let session = trim_space multipart_upload_id in
    if course_video_id == 0
      || is_empty key
      || is_empty session
      || not (is_pos file_size)
      || expires_at == 0
    then (none, some invalid_course_video)
    else (
      some (record {
        id = 0;
        course_video_id = course_video_id;
        object_key = key;
        multipart_upload_id = session;
        file_size = file_size;
        status = pending;
        expires_at = expires_at;
        create_time = 0;
        update_time = 0;
      }),
      none,
    )

promote_in : UploadStatus → CourseVideoUpload → CourseVideoUpload × Option VideoErr
promote_in pending u = (record u { status = promoted }, none)
promote_in s u = (u, some upload_not_completable)

unfoldable pub promote : CourseVideoUpload → CourseVideoUpload × Option VideoErr
unfolding promote_in
promote u = promote_in u.status u

unfoldable pub ensure_active : CourseVideoUpload → ℕ → Option VideoErr
unfolding ensure_pending
ensure_active u now =
    if not (passes (ensure_pending u.status))
      || is_empty (trim_space u.multipart_upload_id)
      || not (ltb now u.expires_at)
    then some upload_not_completable
    else none

unfoldable pub ensure_active_session : CourseVideoUpload → Text → ℕ → Option VideoErr
unfolding ensure_active
ensure_active_session u session now =
    if not (passes (ensure_active u now))
      || not (text_eq (trim_space session) u.multipart_upload_id)
    then some upload_not_completable
    else none

unfoldable pub ensure_completes : CourseVideoUpload → CourseVideo → Option VideoErr
unfolding ensure_pending
ensure_completes u v =
    if not (passes (ensure_pending u.status))
      || not (u.course_video_id == v.id)
      || not (text_eq u.object_key v.object_key)
    then some upload_not_completable
    else none

fail_in : UploadStatus → CourseVideoUpload → CourseVideoUpload × Option VideoErr
fail_in failed u = (u, none)
fail_in pending u = (record u { status = failed }, none)
fail_in s u = (u, some upload_not_completable)

unfoldable pub fail : CourseVideoUpload → CourseVideoUpload × Option VideoErr
unfolding fail_in
fail u = fail_in u.status u

clean_in : UploadStatus → CourseVideoUpload → CourseVideoUpload × Option VideoErr
clean_in cleaned u = (u, none)
clean_in failed u = (record u { status = cleaned }, none)
clean_in s u = (u, some upload_not_completable)

unfoldable pub clean : CourseVideoUpload → CourseVideoUpload × Option VideoErr
unfolding clean_in
clean u = clean_in u.status u

unfoldable pub cleanable : UploadStatus → Bool
cleanable pending = true
cleanable failed = true
cleanable s = false

unfoldable pub eligible_for_cleanup : CourseVideoUpload → ℕ → Bool
unfolding cleanable
eligible_for_cleanup u cleanup_before = leb u.expires_at cleanup_before && cleanable u.status

finalize_in : UploadStatus → CourseVideoUpload → Text → CourseVideoUpload × Option VideoErr
unfolding clean
finalize_in cleaned u key = (u, none)
finalize_in s u key =
    if not (text_eq u.object_key key) then (u, some upload_not_completable) else clean u

unfoldable pub finalize_cleanup : CourseVideoUpload → Text → CourseVideoUpload × Option VideoErr
unfolding finalize_in
finalize_cleanup u key = finalize_in u.status u key

zero_length : Option ℕ → Bool
zero_length none = false
zero_length (some t) = t == 0

complete_in : VideoStatus → CourseVideo → Option ℕ → CourseVideo × Option VideoErr
unfolding zero_length
complete_in uploading v duration =
    if zero_length duration
    then (v, some invalid_course_video)
    else (record v { duration_ms = duration; status = ready }, none)
complete_in s v duration = (v, some video_not_uploadable)

unfoldable pub complete_upload : CourseVideo → Option ℕ → CourseVideo × Option VideoErr
unfolding complete_in
complete_upload v duration = complete_in v.status v duration

fail_upload_in : VideoStatus → CourseVideo → CourseVideo × Option VideoErr
fail_upload_in failed_video v = (v, none)
fail_upload_in uploading v = (record v { status = failed_video }, none)
fail_upload_in s v = (v, some video_not_uploadable)

unfoldable pub fail_upload : CourseVideo → CourseVideo × Option VideoErr
unfolding fail_upload_in
fail_upload v = fail_upload_in v.status v

-- What `PrepareCourseVideoUploadCleanup` does to an upload that is eligible: to the video that refers to
-- the same object, then to the upload.
pub data Prepared : Type 0 where
  answered : Bool → Prepared
  stopped : VideoErr → Prepared

fail_last :
    CourseVideoUpload × Option VideoErr
    → Option CourseVideo
    → (CourseVideoUpload × Option CourseVideo) × Prepared
fail_last (u, none) video = ((u, video), answered true)
fail_last (u, some e) video = ((u, video), stopped e)

after_video :
    CourseVideo × Option VideoErr
    → CourseVideoUpload
    → (CourseVideoUpload × Option CourseVideo) × Prepared
unfolding fail_last fail
after_video (v, some e) u = ((u, some v), stopped e)
after_video (v, none) u = fail_last (fail u) (some v)

on_video :
    VideoStatus
    → CourseVideo
    → CourseVideoUpload
    → (CourseVideoUpload × Option CourseVideo) × Prepared
unfolding after_video fail_upload
on_video uploading v u = after_video (fail_upload v) u
on_video ready v u = ((u, some v), stopped object_still_in_use)
on_video s v u = fail_last (fail u) (some v)

with_video :
    Option CourseVideo → CourseVideoUpload → (CourseVideoUpload × Option CourseVideo) × Prepared
unfolding on_video
with_video none u = fail_last (fail u) none
with_video (some v) u =
    if text_eq v.object_key u.object_key then on_video v.status v u else fail_last (fail u) (some v)

unfoldable pub prepare_cleanup :
    CourseVideoUpload → Option CourseVideo → ℕ → (CourseVideoUpload × Option CourseVideo) × Prepared
unfolding with_video eligible_for_cleanup
prepare_cleanup u video cleanup_before =
    if not (eligible_for_cleanup u cleanup_before)
    then ((u, video), answered false)
    else with_video video u
