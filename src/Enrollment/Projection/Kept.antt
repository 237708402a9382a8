-- ===== src/Enrollment/Projection/Kept.antt =====
-- What a transaction leaves in the table of selection events (mysql_batch.go of
-- internal/enrollment/infrastructure/persistence), and what a later one finds there.
use course_forge.Prelude.{
  ℕ, ◌≡◌, inl, inr, refl, sym, ap, ◌∙◌, Bool, true, Option, none, some, List, [], ◌∷◌, Text, All,
  length, ◌==◌, if◌then◌else◌, arith, Bool-cases, is_empty,
}
use course_forge.Enrollment.Errors.{Result, ok, ◌>>=◌, check-ok, bind-ok}
use course_forge.Enrollment.Selection.{Credit, SelectionResult}
use course_forge.Enrollment.Payload.{
  SelectionResultPayload, new_selection_result_payload, to_domain,
  to_domain-new_selection_result_payload,
}
use course_forge.Enrollment.Stream.{Unmarshalled, readable}
use course_forge.Enrollment.Projection.Event.{
  selection_result_event_id, seen_result, same_complete_selection_result,
}
use course_forge.Enrollment.Projection.Claim.{
  SelectionEventRow, event_row, event_rows, has_event, rows_in, without, check_payload, check_rows,
  claim_selection_events, validate_existing_selection_events, validate_unclaimed_selection_events,
}
use course_forge.Enrollment.Projection.Fields.{same_complete_refl}
use course_forge.Enrollment.Projection.Table.{
  IsKeyed, IsFresh, IsDistinct, insert_new-known, IsFresh-batch_ids,
}
use course_forge.Enrollment.Projection.Found.{no_rows_in, no_results, rows_of_all}
use course_forge.Enrollment.Projection.Stored.{IsGood, IsGood-checked}
use course_forge.Enrollment.Projection.Persist.{Database}
use course_forge.Enrollment.Projection.Save.{
  SelectionNotification, Written, write_claimed, with_written, persist_claimed_selection_results,
  save_transaction,
}
use course_forge.Enrollment.Projection.Quota.{QuotaRow, persist_selected_quotas_batch}
use course_forge.Enrollment.Projection.Persist.{selected_only}

-- JSON reads back the payload of the result that it wrote.
abbrev pub IsCoded :
    (Option SelectionResultPayload → Text) → (Text → Unmarshalled) → SelectionResult → Type 0
IsCoded marshal unmarshal r =
    (p : SelectionResultPayload) × (new_selection_result_payload (some r) ≡ some p)
    × (unmarshal (marshal (some p)) ≡ readable p)

same_result :
    (o : Option SelectionResult) (r : SelectionResult)
    → o ≡ some r
    → same_complete_selection_result o (some r) ≡ true
same_result o r h = rw h (same_complete_refl r)

own_payload :
    (unmarshal : Text → Unmarshalled) (p : SelectionResultPayload) (r : SelectionResult)
    → to_domain (some p) ≡ some r
    → check_payload unmarshal (readable p) (some r) ≡ none
unfolding check_payload
own_payload unmarshal p r h = ground (arith, same_result (to_domain (some p)) r h)

coded_checks :
    (marshal : Option SelectionResultPayload → Text) (unmarshal : Text → Unmarshalled)
    (r : SelectionResult)
    → IsCoded marshal unmarshal r
    → check_payload unmarshal (unmarshal (marshal (new_selection_result_payload (some r)))) (some r)
      ≡ none
coded_checks marshal unmarshal r (p, is_p, read) =
    let back : to_domain (some p) ≡ some r =
      sym (ap to_domain is_p) ∙ to_domain-new_selection_result_payload (some r) in
    rw (is_p, read) (own_payload unmarshal p r back)

pub event_rows-IsGood :
    (marshal : Option SelectionResultPayload → Text) (unmarshal : Text → Unmarshalled)
    (batch : Text) (now : ℕ) (whole rs : List SelectionResult)
    → All (IsCoded marshal unmarshal) rs
    → All (λ r. seen_result (selection_result_event_id r) whole ≡ some r) rs
    → All (IsGood unmarshal whole) (event_rows marshal batch now rs)
unfolding event_rows event_row
event_rows-IsGood marshal unmarshal batch now whole [] c s = tt
event_rows-IsGood marshal unmarshal batch now whole (r ∷ rs) c s = (
  λ _. rw s.0 (coded_checks marshal unmarshal r c.0),
  event_rows-IsGood marshal unmarshal batch now whole rs c.1 s.1,
)

pub results_known :
    (marshal : Option SelectionResultPayload → Text) (batch : Text) (now : ℕ)
    (table : List SelectionEventRow) (rs : List SelectionResult)
    → All (λ x. has_event x.event_id table ≡ true) (event_rows marshal batch now rs)
    → All (λ r. has_event (selection_result_event_id r) table ≡ true) rs
unfolding event_rows event_row
results_known marshal batch now table [] h = tt
results_known marshal batch now table (r ∷ rs) h =
    (h.0, results_known marshal batch now table rs h.1)

rows_known :
    (marshal : Option SelectionResultPayload → Text) (batch : Text) (now : ℕ)
    (table : List SelectionEventRow) (rs : List SelectionResult)
    → All (λ r. has_event (selection_result_event_id r) table ≡ true) rs
    → All (λ x. has_event x.event_id table ≡ true) (event_rows marshal batch now rs)
unfolding event_rows event_row
rows_known marshal batch now table [] h = tt
rows_known marshal batch now table (r ∷ rs) h = (h.0, rows_known marshal batch now table rs h.1)

pub validated-checked :
    (unmarshal : Text → Unmarshalled) (rows : List SelectionEventRow) (rs : List SelectionResult)
    → validate_existing_selection_events unmarshal rows rs ≡ none
    → check_rows unmarshal rs (rows_in rs rows) ≡ none
unfolding validate_existing_selection_events
validated-checked unmarshal rows [] h = rw (no_rows_in rows) (IsGood-checked unmarshal [] [] tt)
validated-checked unmarshal rows (r ∷ rs) h =
    elim (Bool-cases (length (rows_in (r ∷ rs) rows) == length (r ∷ rs))) [
      | inl same ↦ rw same at h
      | inr other ↦ absurd (ground (arith, h, other))
    ]

all_validated :
    (unmarshal : Text → Unmarshalled) (rows : List SelectionEventRow) (rs : List SelectionResult)
    → length (rows_in rs rows) ≡ length rs
    → check_rows unmarshal rs (rows_in rs rows) ≡ none
    → validate_existing_selection_events unmarshal rows rs ≡ none
unfolding validate_existing_selection_events
all_validated unmarshal rows [] n c = refl
all_validated unmarshal rows (r ∷ rs) n c =
    let same : (length (rows_in (r ∷ rs) rows) == length (r ∷ rs)) ≡ true = ground (arith, n) in
    rw same c

without_none : (rs : List SelectionResult) → without [] rs ≡ rs
unfolding without
without_none [] = refl
without_none (r ∷ rs) = ap (λ l. r ∷ l) (without_none rs)

committed_events :
    (db db' : Database) (quotas : List QuotaRow) (written : Written)
    → ok (with_written db quotas written) ≡ ok db'
    → db'.events ≡ db.events
committed_events db db' quotas written h = cc

-- Behind the quotas and the other tables, the events are those that were claimed.
keeps_events :
    (cast_decimal : Credit → Option Credit) (json_valid : Text → Bool)
    (encode : SelectionNotification → Text) (new_id : ℕ → Result Text) (now : ℕ) (db db' : Database)
    (rs : List SelectionResult)
    → persist_claimed_selection_results cast_decimal json_valid encode new_id now db rs ≡ ok db'
    → db'.events ≡ db.events
unfolding persist_claimed_selection_results
keeps_events cast_decimal json_valid encode new_id now db db' rs h =
    let (quotas, _, h1) =
      bind-ok (persist_selected_quotas_batch cast_decimal db.quotas (selected_only rs))
        (λ quotas. write_claimed cast_decimal json_valid encode new_id now db rs >>= λ written.
          ok (with_written db quotas written))
        h in
    let (written, _, h2) =
      bind-ok (write_claimed cast_decimal json_valid encode new_id now db rs)
        (λ written. ok (with_written db quotas written)) h1 in
    committed_events db db' quotas written h2

claimed_only :
    (db db' : Database) (rows : List SelectionEventRow)
    → ok (record db { events = rows }) ≡ ok db'
    → db'.events ≡ rows
claimed_only db db' rows h = cc

-- The table behind the transaction, and the check that it passed.
pub transaction_claims :
    (cast_decimal : Credit → Option Credit) (json_valid : Text → Bool)
    (encode : SelectionNotification → Text) (new_id : ℕ → Result Text) (now : ℕ)
    (marshal : Option SelectionResultPayload → Text) (unmarshal : Text → Unmarshalled)
    (batch : Text) (db db' : Database) (rs : List SelectionResult)
    → save_transaction cast_decimal json_valid encode new_id now marshal unmarshal batch db rs
      ≡ ok db'
    → let c = claim_selection_events marshal batch now db.events rs in
      (db'.events ≡ c.0) × (validate_unclaimed_selection_events unmarshal c.0 rs c.1 ≡ none)
unfolding save_transaction
transaction_claims cast_decimal json_valid encode new_id now marshal unmarshal batch db db' rs h =
    let c = claim_selection_events marshal batch now db.events rs in
    let (checked, h1) =
      check-ok (validate_unclaimed_selection_events unmarshal c.0 rs c.1)
        (if is_empty c.1
          then ok (record db { events = c.0 })
          else persist_claimed_selection_results cast_decimal json_valid encode new_id now
              (record db { events = c.0 }) c.1)
        h in
    elim (Bool-cases (is_empty c.1)) [
      | inl nothing ↦ (claimed_only db db' c.0 (rw nothing at h1), checked)
      | inr something ↦ (
        keeps_events cast_decimal json_valid encode new_id now (record db { events = c.0 }) db' c.1
            (rw something at h1),
        checked,
      )
    ]

-- A table that knows all the results and holds them claims nothing for a new batch, and finds nothing wrong.
pub stored_again :
    (marshal : Option SelectionResultPayload → Text) (unmarshal : Text → Unmarshalled)
    (batch : Text) (now : ℕ) (table : List SelectionEventRow) (rs : List SelectionResult)
    → IsKeyed table
    → IsFresh batch table
    → IsDistinct rs
    → All (λ r. has_event (selection_result_event_id r) table ≡ true) rs
    → All (IsGood unmarshal rs) table
    → let c = claim_selection_events marshal batch now table rs in
      (c ≡ (table, [])) × (validate_unclaimed_selection_events unmarshal table rs [] ≡ none)
unfolding claim_selection_events validate_unclaimed_selection_events
stored_again marshal unmarshal batch now table rs k f d known good =
    let same =
      insert_new-known table (event_rows marshal batch now rs)
        (rows_known marshal batch now table rs known) in
    (
      rw (same, IsFresh-batch_ids batch table f, no_results rs) refl,
      rw (without_none rs) (
          all_validated unmarshal table rs (rows_of_all rs table d k known)
            (IsGood-checked unmarshal rs table good)),
    )
