-- ===== src/Enrollment/Projection/Stored.antt =====
-- What the table of selection events holds for the results of a batch after it is saved
-- (internal/enrollment/infrastructure/persistence/mysql_batch.go).
use course_forge.Prelude.{
  ◌≡◌, inl, inr, refl, sym, ◌∙◌, true, false, none, some, List, [], ◌∷◌, Text, text_eq,
  text_eq_refl, All, arith, Bool-cases, Option-cases,
}
use course_forge.Enrollment.Errors.{Err}
use course_forge.Enrollment.Selection.{SelectionResult}
use course_forge.Enrollment.Stream.{Unmarshalled}
use course_forge.Enrollment.Projection.Event.{selection_result_event_id, seen_result}
use course_forge.Enrollment.Projection.Claim.{
  SelectionEventRow, has_event, insert_new, batch_ids, results_of_ids, has_result, rows_in, without,
  check_payload, check_rows,
}
use course_forge.Enrollment.Projection.Table.{IsFresh, IsDistinct, known_unclaimed, text_eq_sym}
use course_forge.Enrollment.Projection.Found.{has_result-results_of_ids, without_seen}

-- A row whose id is that of one of the results holds that result.
abbrev pub IsGood : (Text → Unmarshalled) → List SelectionResult → SelectionEventRow → Type 0
IsGood unmarshal rs row =
    has_result row.event_id rs ≡ true
    → check_payload unmarshal (unmarshal row.event_payload) (seen_result row.event_id rs) ≡ none

never : {e : Err} → some e ≡ none → ⊥
never h = absurd cc

module _ (unmarshal : Text → Unmarshalled) where
  check_rows-good :
      (rs : List SelectionResult) (row : SelectionEventRow) (rows : List SelectionEventRow)
      → check_payload unmarshal (unmarshal row.event_payload) (seen_result row.event_id rs) ≡ none
      → check_rows unmarshal rs (row ∷ rows) ≡ check_rows unmarshal rs rows
  unfolding check_rows
  check_rows-good rs row rows h = rw (h, check_rows) refl

  check_rows-bad :
      (rs : List SelectionResult) (row : SelectionEventRow) (rows : List SelectionEventRow)
      {e : Err}
      → check_payload unmarshal (unmarshal row.event_payload) (seen_result row.event_id rs) ≡ some e
      → check_rows unmarshal rs (row ∷ rows) ≡ some e
  unfolding check_rows
  check_rows-bad rs row rows h = rw (h, check_rows) refl

  no_rows_checked : (rs : List SelectionResult) → check_rows unmarshal rs [] ≡ none
  unfolding check_rows
  no_rows_checked rs = refl

  rows_in-found :
      (rs : List SelectionResult) (row : SelectionEventRow) (rows : List SelectionEventRow)
      → has_result row.event_id rs ≡ true
      → rows_in rs (row ∷ rows) ≡ row ∷ rows_in rs rows
  unfolding rows_in
  rows_in-found rs row rows h = rw h refl

  rows_in-missed :
      (rs : List SelectionResult) (row : SelectionEventRow) (rows : List SelectionEventRow)
      → has_result row.event_id rs ≡ false
      → rows_in rs (row ∷ rows) ≡ rows_in rs rows
  unfolding rows_in
  rows_in-missed rs row rows h = rw h refl

  nothing_in : (rs : List SelectionResult) → rows_in rs [] ≡ []
  unfolding rows_in
  nothing_in rs = refl

  pub IsGood-checked :
      (rs : List SelectionResult) (rows : List SelectionEventRow)
      → All (IsGood unmarshal rs) rows
      → check_rows unmarshal rs (rows_in rs rows) ≡ none
  IsGood-checked rs [] g = rw (nothing_in rs) (no_rows_checked rs)
  IsGood-checked rs (row ∷ rows) g = elim (Bool-cases (has_result row.event_id rs)) [
    | inl found ↦
        rw (rows_in-found rs row rows found)
          (check_rows-good rs row (rows_in rs rows) (g.0 found) ∙ IsGood-checked rs rows g.1)
    | inr missed ↦ rw (rows_in-missed rs row rows missed) (IsGood-checked rs rows g.1)
  ]

  pub checked-IsGood :
      (rs : List SelectionResult) (rows : List SelectionEventRow)
      → check_rows unmarshal rs (rows_in rs rows) ≡ none
      → All (IsGood unmarshal rs) rows
  checked-IsGood rs [] h = tt
  checked-IsGood rs (row ∷ rows) h = elim (Bool-cases (has_result row.event_id rs)) [
    | inr missed ↦ (
      λ found. absurd (ground (arith, missed, found)),
      checked-IsGood rs rows (rw (rows_in-missed rs row rows missed) at h),
    )
    | inl found ↦
        let all = rw (rows_in-found rs row rows found) at h in
        elim (Option-cases
          (check_payload unmarshal (unmarshal row.event_payload) (seen_result row.event_id rs))) [
            | inl fine ↦ (
              λ _. fine,
              checked-IsGood rs rows (sym (check_rows-good rs row (rows_in rs rows) fine) ∙ all),
            )
            | inr (e, bad) ↦
                absurd (never (sym (check_rows-bad rs row (rows_in rs rows) bad) ∙ all))
          ]
  ]

-- Each row of a table is known to it.
pub known_in :
    (whole rows : List SelectionEventRow)
    → ((id : Text) → has_event id rows ≡ true → has_event id whole ≡ true)
    → All (λ row. has_event row.event_id whole ≡ true) rows
known_in whole [] f = tt
known_in whole (row ∷ rows) f = (
  f row.event_id (ground (arith, text_eq_refl row.event_id)),
  known_in whole rows (λ id h. f id (ground (arith, h))),
)

-- What the check of the unclaimed results says of the rows that were there before.
pub unclaimed-IsGood :
    (unmarshal : Text → Unmarshalled) (batch : Text) (table xs rows : List SelectionEventRow)
    (rs : List SelectionResult)
    → IsFresh batch table
    → let claimed = results_of_ids (batch_ids batch (insert_new table xs)) rs in
      All (λ row. has_event row.event_id table ≡ true) rows
      → All (IsGood unmarshal (without claimed rs)) rows
      → All (IsGood unmarshal rs) rows
unclaimed-IsGood unmarshal batch table xs [] rs f known g = tt
unclaimed-IsGood unmarshal batch table xs (row ∷ rows) rs f known g =
    let claimed = results_of_ids (batch_ids batch (insert_new table xs)) rs in
    let out =
      has_result-results_of_ids row.event_id (batch_ids batch (insert_new table xs)) rs
        (known_unclaimed batch row.event_id table xs f known.0) in
    let (seen, has) = without_seen row.event_id claimed rs out in
    (
      λ found. rw (← seen) (g.0 (has ∙ found)),
      unclaimed-IsGood unmarshal batch table xs rows rs f known.1 g.1,
    )

seen_behind :
    (r : SelectionResult) (rs sub : List SelectionResult)
    → has_result (selection_result_event_id r) sub ≡ false
    → All (λ x. seen_result (selection_result_event_id x) rs ≡ some x) sub
    → All (λ x. seen_result (selection_result_event_id x) (r ∷ rs) ≡ some x) sub
unfolding seen_result
seen_behind r rs [] d s = tt
seen_behind r rs (x ∷ sub) d s =
    let apart : text_eq (selection_result_event_id r) (selection_result_event_id x) ≡ false =
      rw (text_eq_sym (selection_result_event_id r) (selection_result_event_id x))
        (ground (arith, d)) in
    (rw apart s.0, seen_behind r rs sub (ground (arith, d)) s.1)

pub seen_own :
    (rs : List SelectionResult)
    → IsDistinct rs
    → All (λ r. seen_result (selection_result_event_id r) rs ≡ some r) rs
unfolding seen_result
seen_own [] d = tt
seen_own (r ∷ rs) d = (
  rw (text_eq_refl (selection_result_event_id r)) refl,
  seen_behind r rs rs d.0 (seen_own rs d.1),
)
