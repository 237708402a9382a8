-- ===== src/Enrollment/Projection/Found.antt =====
-- What the queries of mysql_batch.go (internal/enrollment/infrastructure/persistence) find for some results.
use course_forge.Prelude.{
  ◌+◌, ◌≡◌, inl, inr, refl, true, false, none, some, List, [], ◌∷◌, Text, text_eq, text_eq_sound,
  any, All, length, if◌then◌else◌, arith, Bool-cases, Option-cases,
}
use course_forge.Enrollment.Selection.{SelectionResult}
use course_forge.Enrollment.Projection.Event.{selection_result_event_id, seen_result}
use course_forge.Enrollment.Projection.Claim.{
  SelectionEventRow, has_event, results_of_ids, has_result, rows_in, without,
}
use course_forge.Enrollment.Projection.Table.{IsKeyed, IsDistinct, text_eq_sym}

seen-id :
    (id : Text) (rs : List SelectionResult) {r : SelectionResult}
    → seen_result id rs ≡ some r
    → selection_result_event_id r ≡ id
unfolding seen_result
seen-id id [] h = absurd cc
seen-id id (x ∷ rs) {r} h = elim (Bool-cases (text_eq (selection_result_event_id x) id)) [
  | inl here ↦
      let is_x : x ≡ r = ground (arith, h, here) in
      rw (← is_x) (text_eq_sound (selection_result_event_id x) id here)
  | inr there ↦ seen-id id rs (rw there at h)
]

pub no_results : (rs : List SelectionResult) → results_of_ids [] rs ≡ []
unfolding results_of_ids
no_results rs = refl

results_of_ids-none :
    (i : Text) (ids : List Text) (rs : List SelectionResult)
    → seen_result i rs ≡ none
    → results_of_ids (i ∷ ids) rs ≡ results_of_ids ids rs
unfolding results_of_ids
results_of_ids-none i ids rs h = rw (h, results_of_ids) refl

results_of_ids-some :
    (i : Text) (ids : List Text) (rs : List SelectionResult) {r : SelectionResult}
    → seen_result i rs ≡ some r
    → results_of_ids (i ∷ ids) rs ≡ r ∷ results_of_ids ids rs
unfolding results_of_ids
results_of_ids-some i ids rs h = rw (h, results_of_ids) refl

pub has_result-results_of_ids :
    (id : Text) (ids : List Text) (rs : List SelectionResult)
    → any (λ i. text_eq i id) ids ≡ false
    → has_result id (results_of_ids ids rs) ≡ false
has_result-results_of_ids id [] rs h = rw (no_results rs) refl
has_result-results_of_ids id (i ∷ ids) rs h =
    let rest = has_result-results_of_ids id ids rs (ground (arith, h)) in
    elim (Option-cases (seen_result i rs)) [
      | inl nothing ↦ rw (results_of_ids-none i ids rs nothing) rest
      | inr (r, found) ↦
          let same = seen-id i rs found in
          let other : text_eq (selection_result_event_id r) id ≡ false =
            rw same (ground (arith, h)) in
          rw (results_of_ids-some i ids rs found) (rw other rest)
    ]

-- What is left out is not missed by a query for another id.
pub without_seen :
    (id : Text) (claimed rs : List SelectionResult)
    → has_result id claimed ≡ false
    → (seen_result id (without claimed rs) ≡ seen_result id rs)
      × (has_result id (without claimed rs) ≡ has_result id rs)
unfolding seen_result without
without_seen id claimed [] h = (refl, refl)
without_seen id claimed (r ∷ rs) h =
    let (seen, has) = without_seen id claimed rs h in
    elim (Bool-cases (text_eq (selection_result_event_id r) id)) [
      | inl here ↦
          let same = text_eq_sound (selection_result_event_id r) id here in
          let kept : has_result (selection_result_event_id r) claimed ≡ false = rw same h in
          rw kept (rw here (refl, refl))
      | inr there ↦ elim (Bool-cases (has_result (selection_result_event_id r) claimed)) [
        | inl gone ↦ rw (gone, there) (seen, has)
        | inr kept ↦ rw kept (rw there (seen, has))
      ]
    ]

-- The rows of some distinct results, in a table with a key, are as many as the results that it knows.
rows_of_more :
    (r : SelectionResult) (rs : List SelectionResult) (rows : List SelectionEventRow)
    → has_result (selection_result_event_id r) rs ≡ false
    → IsKeyed rows
    → length (rows_in (r ∷ rs) rows)
      ≡ (if has_event (selection_result_event_id r) rows then 1 else 0) + length (rows_in rs rows)
unfolding rows_in
rows_of_more r rs [] d k = omega arith
rows_of_more r rs (row ∷ rows) d k =
    let rest = rows_of_more r rs rows d k.1 in
    elim (Bool-cases (text_eq (selection_result_event_id r) row.event_id)) [
      | inl here ↦
          let same = text_eq_sound (selection_result_event_id r) row.event_id here in
          let back : text_eq row.event_id (selection_result_event_id r) ≡ true =
            rw (text_eq_sym row.event_id (selection_result_event_id r)) here in
          let not_later : has_result row.event_id rs ≡ false = rw (← same) d in
          let no_more : has_event (selection_result_event_id r) rows ≡ false = rw same k.0 in
          rw (here, back, not_later) (ground (arith, rest, no_more))
      | inr there ↦
          let back : text_eq row.event_id (selection_result_event_id r) ≡ false =
            rw (text_eq_sym row.event_id (selection_result_event_id r)) there in
          elim (Bool-cases (has_result row.event_id rs)) [
            | inl later ↦ rw (there, back, later) (omega (arith, rest))
            | inr never ↦ rw (there, back, never) rest
          ]
    ]

pub no_rows_in : (rows : List SelectionEventRow) → rows_in [] rows ≡ []
unfolding rows_in
no_rows_in [] = refl
no_rows_in (row ∷ rows) = no_rows_in rows

pub rows_of_all :
    (rs : List SelectionResult) (rows : List SelectionEventRow)
    → IsDistinct rs
    → IsKeyed rows
    → All (λ r. has_event (selection_result_event_id r) rows ≡ true) rs
    → length (rows_in rs rows) ≡ length rs
rows_of_all [] rows d k h = rw (no_rows_in rows) refl
rows_of_all (r ∷ rs) rows d k h =
    let more = rows_of_more r rs rows d.0 k in
    let rest = rows_of_all rs rows d.1 k h.1 in ground (arith, more, rest, h.0)
