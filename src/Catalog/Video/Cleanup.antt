-- ===== src/Catalog/Video/Cleanup.antt =====
-- Cleaning up expired uploads (internal/catalog/domain/model.go): what is deleted is never played.
use course_forge.Prelude.{
  ℕ, ◌≡◌, ◌≢◌, ◌⊎◌, inl, true, Option, none, some, List, [], ◌∷◌, Text, text_eq_refl, arith,
}
use course_forge.Catalog.Video.{
  upload_not_completable, ready, failed, cleaned, CourseVideo, CourseVideoUpload, promote, fail,
  finalize_cleanup, ensure_completes, answered, prepare_cleanup,
}

pub data UploadOperation : Type 0 where
  promotes fails : UploadOperation
  finalizes : Text → UploadOperation

unfoldable pub step : CourseVideoUpload → UploadOperation → CourseVideoUpload
step u promotes = (promote u).0
step u fails = (fail u).0
step u (finalizes key) = (finalize_cleanup u key).0

unfoldable pub run : CourseVideoUpload → List UploadOperation → CourseVideoUpload
run u [] = u
run u (op ∷ ops) = run (step u op) ops

abbrev pub IsRevoked : CourseVideoUpload → Type 0
IsRevoked u = (u.status ≡ failed) ⊎ (u.status ≡ cleaned)

step-IsRevoked :
    (u : CourseVideoUpload) (op : UploadOperation) → IsRevoked u → IsRevoked (step u op)
unfolding step promote fail finalize_cleanup
step-IsRevoked u promotes h = ground arith
step-IsRevoked u fails h = ground arith
step-IsRevoked u (finalizes key) h = ground arith

run-IsRevoked :
    (u : CourseVideoUpload) (ops : List UploadOperation) → IsRevoked u → IsRevoked (run u ops)
unfolding run
run-IsRevoked u [] h = h
run-IsRevoked u (op ∷ ops) h = run-IsRevoked (step u op) ops (step-IsRevoked u op h)

revoked_refused :
    (u : CourseVideoUpload) (v : CourseVideo)
    → IsRevoked u
    → ensure_completes u v ≡ some upload_not_completable
unfolding ensure_completes
revoked_refused u v h = ground arith

prepared-IsRevoked :
    (u : CourseVideoUpload) (video : Option CourseVideo) (before : ℕ)
    → (prepare_cleanup u video before).1 ≡ answered true
    → (prepare_cleanup u video before).0.0.status ≡ failed
unfolding prepare_cleanup fail
prepared-IsRevoked u none before h = ground arith
prepared-IsRevoked u (some v) before h = ground arith

-- No video that can be played refers to the object.
abbrev pub Unplayed : Option CourseVideo → Text → Type 0
Unplayed video key = (v : CourseVideo) → video ≡ some v → v.object_key ≡ key → v.status ≢ ready

prepared-Unplayed :
    (u : CourseVideoUpload) (video : Option CourseVideo) (before : ℕ)
    → (prepare_cleanup u video before).1 ≡ answered true
    → Unplayed (prepare_cleanup u video before).0.1 u.object_key
unfolding prepare_cleanup fail
prepared-Unplayed u none before h w e same r = ground (arith, text_eq_refl u.object_key)
prepared-Unplayed u (some v) before h w e same r = ground (arith, text_eq_refl u.object_key)

-- Once an upload is prepared for cleanup, the video that it was prepared with is not ready if it refers to
-- the upload's object, and whatever operations on the upload follow, it stays failed or cleaned and no
-- video can be completed with it.
pub cleanup_safe :
    (u : CourseVideoUpload) (video : Option CourseVideo) (before : ℕ) (ops : List UploadOperation)
    (later : CourseVideo)
    → (prepare_cleanup u video before).1 ≡ answered true
    → let left = (prepare_cleanup u video before).0 in
      Unplayed left.1 u.object_key
      × IsRevoked (run left.0 ops)
      × (ensure_completes (run left.0 ops) later ≡ some upload_not_completable)
cleanup_safe u video before ops later h =
    let revoked =
      run-IsRevoked (prepare_cleanup u video before).0.0 ops
        (inl (prepared-IsRevoked u video before h)) in
    (
      prepared-Unplayed u video before h,
      revoked,
      revoked_refused (run (prepare_cleanup u video before).0.0 ops) later revoked,
    )
