-- ===== src/Enrollment/Projection/Twice.antt =====
-- A batch of selection results that is saved again
-- (internal/enrollment/infrastructure/persistence/mysql_batch.go) changes nothing.
use course_forge.Prelude.{ℕ, ◌≡◌, refl, ap, ◌∙◌, Bool, true, Option, none, List, [], Text, All}
use course_forge.Enrollment.Errors.{Result, ok}
use course_forge.Enrollment.Selection.{Credit, SelectionResult}
use course_forge.Enrollment.Payload.{SelectionResultPayload}
use course_forge.Enrollment.Stream.{Unmarshalled}
use course_forge.Enrollment.Projection.Event.{selection_result_event_id}
use course_forge.Enrollment.Projection.Claim.{
  event_rows, has_event, insert_new, batch_ids, results_of_ids, without, claim_selection_events,
  validate_unclaimed_selection_events,
}
use course_forge.Enrollment.Projection.Table.{
  IsKeyed, IsFresh, IsDistinct, insert_new-IsKeyed, insert_new-inserts, insert_new-All,
}
use course_forge.Enrollment.Projection.Table.{insert_new-old}
use course_forge.Enrollment.Projection.Stored.{
  IsGood, checked-IsGood, unclaimed-IsGood, known_in, seen_own,
}
use course_forge.Enrollment.Projection.Persist.{Database}
use course_forge.Enrollment.Projection.Save.{SelectionNotification, after_claim, save_transaction}
use course_forge.Enrollment.Projection.Kept.{
  IsCoded, event_rows-IsGood, results_known, validated-checked, transaction_claims, stored_again,
}

-- After a transaction the table knows all the results and holds them.
pub saved-IsGood :
    (cast_decimal : Credit → Option Credit) (json_valid : Text → Bool)
    (encode : SelectionNotification → Text) (new_id : ℕ → Result Text) (now : ℕ)
    (marshal : Option SelectionResultPayload → Text) (unmarshal : Text → Unmarshalled)
    (batch : Text) (db db' : Database) (rs : List SelectionResult)
    → IsKeyed db.events
    → IsFresh batch db.events
    → IsDistinct rs
    → All (IsCoded marshal unmarshal) rs
    → save_transaction cast_decimal json_valid encode new_id now marshal unmarshal batch db rs
      ≡ ok db'
    → IsKeyed db'.events
      × All (λ r. has_event (selection_result_event_id r) db'.events ≡ true) rs
      × All (IsGood unmarshal rs) db'.events
unfolding claim_selection_events validate_unclaimed_selection_events
saved-IsGood cast_decimal json_valid encode new_id now marshal unmarshal batch db db' rs k f d coded
      h =
    let (is_table, checked) =
      transaction_claims cast_decimal json_valid encode new_id now marshal unmarshal batch db db' rs
        h in
    let new_rows = event_rows marshal batch now rs in
    let table = insert_new db.events new_rows in
    let claimed = results_of_ids (batch_ids batch table) rs in
    let checked_good =
      checked-IsGood unmarshal (without claimed rs) table
        (validated-checked unmarshal table (without claimed rs) checked) in
    let old_good =
      unclaimed-IsGood unmarshal batch db.events new_rows db.events rs f
        (known_in db.events db.events (λ id h. h))
        (insert_new-old (IsGood unmarshal (without claimed rs)) db.events new_rows checked_good) in
    let new_good = event_rows-IsGood marshal unmarshal batch now rs rs coded (seen_own rs d) in
    rw is_table (
      insert_new-IsKeyed db.events new_rows k,
      results_known marshal batch now table rs (insert_new-inserts db.events new_rows),
      insert_new-All (IsGood unmarshal rs) db.events new_rows old_good new_good,
    )

nothing_claimed :
    (cast_decimal : Credit → Option Credit) (json_valid : Text → Bool)
    (encode : SelectionNotification → Text) (new_id : ℕ → Result Text) (now : ℕ)
    (unmarshal : Text → Unmarshalled) (db : Database) (rs : List SelectionResult)
    → validate_unclaimed_selection_events unmarshal db.events rs [] ≡ none
    → after_claim cast_decimal json_valid encode new_id now unmarshal db rs (db.events, []) ≡ ok db
unfolding after_claim
nothing_claimed cast_decimal json_valid encode new_id now unmarshal db rs h = rw h refl

-- Saving a batch in a transaction that commits, and then the same results in another transaction, commits that
-- one too and changes nothing: no quota, application, enrollment, count or notification is written twice. The
-- event ids of the table and those of the batch differ, each batch id is new to the table, and JSON reads back
-- the payloads that it wrote.
pub save_transaction_twice :
    (cast_decimal : Credit → Option Credit) (json_valid : Text → Bool)
    (encode : SelectionNotification → Text) (new_id new_id' : ℕ → Result Text) (now now' : ℕ)
    (marshal : Option SelectionResultPayload → Text) (unmarshal : Text → Unmarshalled)
    (batch batch' : Text) (db db' : Database) (rs : List SelectionResult)
    → IsKeyed db.events
    → IsFresh batch db.events
    → IsFresh batch' db'.events
    → IsDistinct rs
    → All (IsCoded marshal unmarshal) rs
    → save_transaction cast_decimal json_valid encode new_id now marshal unmarshal batch db rs
      ≡ ok db'
    → save_transaction cast_decimal json_valid encode new_id' now' marshal unmarshal batch' db' rs
      ≡ ok db'
unfolding save_transaction
save_transaction_twice cast_decimal json_valid encode new_id new_id' now now' marshal unmarshal
      batch batch' db db' rs k f f' d coded h =
    let (k', known, good) =
      saved-IsGood cast_decimal json_valid encode new_id now marshal unmarshal batch db db' rs k f d
        coded h in
    let (claims_none, valid) =
      stored_again marshal unmarshal batch' now' db'.events rs k' f' d known good in
    ap (after_claim cast_decimal json_valid encode new_id' now' unmarshal db' rs) claims_none
    ∙ nothing_claimed cast_decimal json_valid encode new_id' now' unmarshal db' rs valid
