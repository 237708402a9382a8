-- ===== src/Enrollment/Clear.antt =====
-- clearPersistedSelectionScript of internal/enrollment/infrastructure/persistence/redis.go: once a
-- selection is in MySQL, its publications are marked and its pending key is deleted.
use course_forge.Prelude.{ℕ, true, not, Option, none, some, Text, text_eq, if◌then◌else◌}
use course_forge.Enrollment.Selection.{SelectionResult}
use course_forge.Enrollment.Store.{
  Store, Document, garbled, encoded, PublicationPayload, StoredPublication, garbled_publication,
  publication, put_text, put_two, put_three,
}

pub record ClearCall : Type 0 where
  pub round_id : ℕ
  pub student_id : ℕ
  pub request_id : Text
  pub application_id : Text

pub data ClearStatus : Type 0 where
  nothing_pending other_application bad_publication cleared : ClearStatus  -- 0, -1, -2, 1

mark_result : Option SelectionResult → PublicationPayload → Text → Option StoredPublication
mark_result none p application_id = none
mark_result (some r) p application_id =
    if not (text_eq r.application_id application_id)
    then none
    else some (
        publication
          (record p { stream_recorded = true; broker_confirmed = none; mysql_persisted = true }))

-- What the loop writes back, or none where it gives up.
unfoldable pub mark_persisted : StoredPublication → Text → Option StoredPublication
unfolding mark_result
mark_persisted (garbled_publication t) application_id = none
mark_persisted (publication p) application_id = mark_result p.result p application_id

-- The second round of the loop, on the application key, and the deletion behind it.
mark_application : Option StoredPublication → Store → ClearCall → Store × ClearStatus
mark_application none s c =
    (record s { pending = put_two s.pending c.round_id c.student_id none }, cleared)
mark_application (some p) s c = elim (mark_persisted p c.application_id) [
  | none ↦ (s, bad_publication)
  | some q ↦ (
    record s {
      application = put_text s.application c.application_id (some q);
      pending = put_two s.pending c.round_id c.student_id none;
    },
    cleared,
  )
]

-- The first round, on the request key. What it writes stays if the second round gives up.
mark_request : Option StoredPublication → Store → ClearCall → Store × ClearStatus
unfolding mark_application
mark_request none s c = mark_application (s.application c.application_id) s c
mark_request (some p) s c = elim (mark_persisted p c.application_id) [
  | none ↦ (s, bad_publication)
  | some q ↦
      mark_application (s.application c.application_id)
        (record s {
          request_result = put_three s.request_result c.round_id c.student_id c.request_id (some q);
        })
        c
]

on_pending : Option Document → Store → ClearCall → Store × ClearStatus
unfolding mark_request
on_pending none s c = (s, nothing_pending)
on_pending (some (garbled t)) s c = (s, other_application)
on_pending (some (encoded a)) s c =
    if not (text_eq a.application_id c.application_id)
    then (s, other_application)
    else mark_request (s.request_result c.round_id c.student_id c.request_id) s c

unfoldable pub clear : Store → ClearCall → Store × ClearStatus
unfolding on_pending
clear s c = on_pending (s.pending c.round_id c.student_id) s c
